-- ===== src/Worker.antt =====
-- worker.c: the server's loop over clients and packets.
pub mod Platform
pub mod Session
pub mod Queries
pub mod Transfers
pub mod Multi
pub mod Control
pub mod Loop
pub mod Serving
pub mod Laws
pub mod Served
