-- ===== src/Str.antt =====
-- lib/std/string.c. A pointer is an address, a loop that runs to a NUL takes fuel and returns
-- `none` when the fuel runs out; a loop over `count` recurs on the rounds left.
pub mod Length
pub mod Copy
pub mod Move
pub mod Compare
pub mod Search
pub mod Concat
pub mod Duplicate
mod Examples
