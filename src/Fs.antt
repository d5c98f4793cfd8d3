-- ===== src/Fs.antt =====
-- The file system core: fs/core/fs.c, fs/core/open.c and fs/core/mount.c, and fs/ramfs/ramfs.c.
pub mod Store
pub mod Walk
pub mod Dirs
pub mod Files
pub mod Ramfs
pub mod Names
pub mod Place
pub mod Cwd
pub mod Mkdir
pub mod Named
pub mod Missing
pub mod Handles
pub mod Listing
mod Examples
