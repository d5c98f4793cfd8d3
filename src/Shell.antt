-- ===== src/Shell.antt =====
-- The line editor of shell/shell.c.
pub mod Line
pub mod Shift
pub mod Editor
pub mod Typing
pub mod Translate
pub mod Words
pub mod Steps
pub mod Splitting
mod Examples
