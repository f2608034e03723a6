-- ===== src/Linux.antt =====
-- linux/: the device functions of the Linux server. The system calls are parameters.
pub mod Scsi
pub mod Ata
pub mod Sysfs
pub mod Bus
pub mod Device
pub mod DeviceType
pub mod Sdhci
pub mod Listing
pub mod Server
