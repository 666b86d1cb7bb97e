-- ===== src/Tests.antt =====
-- Runs of the theorems at concrete inputs.
mod Kernel
mod Memory
mod Files
mod Library
mod Structures
mod Directories
mod Pages
mod Paging
mod Output
mod Programs
