-- ===== src/Drive.antt =====
-- share_drive/share_drive_helpers: the file service on top of the packets.
pub mod Chunks
pub mod DriveTemplates
pub mod Assembler
pub mod Splitter
pub mod ClientResource
pub mod ServerResource
pub mod Server
pub mod Client
pub mod Download
pub mod Upload
pub mod Fetch
pub mod DriveUtilities
