-- ===== src/Net.antt =====
-- The network stack: driver/net/core/net.c and lib/net/socket.c.
pub mod Checksum
pub mod Types
pub mod Table
pub mod Descriptors
pub mod Send
pub mod Segment
pub mod Deliver
pub mod Machine
pub mod Arrival
pub mod Reception
pub mod Calls
pub mod Connection
pub mod Polls
pub mod Handshake
pub mod Connect
pub mod Closing
pub mod Datagram
pub mod Receive
pub mod Transport
pub mod Ports
pub mod Arp
pub mod Ip
pub mod Delivery
pub mod Resolve
mod Examples
mod DatagramExamples
