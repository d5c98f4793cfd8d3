-- ===== src/Uart.antt =====
-- The serial transfer protocols of lib/uart.
pub mod Kermit
pub mod Sender
pub mod Decode
pub mod Transfer
pub mod Load
pub mod Lost
pub mod Ymodem
pub mod Blocks
pub mod Rounds
pub mod Blockwise
mod Examples
