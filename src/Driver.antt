-- ===== src/Driver.antt =====
-- libs/ukfusefs/ukfs-fuse.c: the file system driver. Each operation sends requests through a
-- `Channel`, which stands for the queue, the daemon and all behind them.
mod Types
pub mod File
pub mod Read
pub mod Scatter
pub mod Attr
pub mod Dir
pub mod Mount
pub mod Balance
unfoldable pub use Types.*
