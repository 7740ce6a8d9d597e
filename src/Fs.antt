-- ===== src/Fs.antt =====
-- fs/fs.c: the FAT12 file system.
pub mod Table
pub mod Name
pub mod Volume
pub mod File
pub mod Directory
pub mod Create
pub mod Mount
pub mod Listing
