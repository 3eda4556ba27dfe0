-- ===== src/Protocol.antt =====
-- src/native_smb/Protocol.cpp and Protocol.h: the SMB2 messages that the client builds and decodes.
pub mod Command
pub mod Status
pub mod Header
pub mod Utf16
pub mod Tree
pub mod File
pub mod Transfer
pub mod Buffers
pub mod Ioctl
pub mod Info
pub mod Session
pub mod Chain
pub mod Directory
pub mod Notify
pub mod Ea
pub mod Frame
mod Examples
