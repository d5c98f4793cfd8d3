-- ===== src/Tftp.antt =====
-- lib/net/tftp.c: the download and the upload of a file over a datagram socket.
pub mod Packet
pub mod Download
pub mod Received
pub mod Upload
pub mod Sent
pub mod Client
pub mod Refused
mod Examples
