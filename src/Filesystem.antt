-- ===== src/Filesystem.antt =====
-- 05_filesystem_src: programs over descriptors and file information.
pub mod Copy
pub mod Crc
pub mod ReadFile
pub mod FileInfo
pub mod Redirect
pub mod Directory
mod Tests
