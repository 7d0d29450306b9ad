-- ===== src/Files.antt =====
-- homelink/files: the transfer protocol and the transfer engine, over a disk.
pub mod Protocol
pub mod Disk
pub mod SafeDest
pub mod Transfer
pub mod Send
