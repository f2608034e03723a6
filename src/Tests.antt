-- ===== src/Tests.antt =====
-- A server and clients to try the worker on: a connection that is two lists, an allocator of zeroed
-- blocks, and one device.
pub mod Setup
pub mod Examples
pub mod Rounds
pub mod Formats
pub mod Devices
pub mod Serving
pub mod Handles
pub mod Cards
pub mod Platforms
pub mod Linked
pub mod Windows
