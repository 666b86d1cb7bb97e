-- ===== src/FileSys.antt =====
-- The file system: pintos/src/filesys. Its parts stand on the bitmap of free sectors and on the block
-- device of the file system.
pub mod FreeMap
pub mod Inode
pub mod Directory
pub mod File
pub mod Names
