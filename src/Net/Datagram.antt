-- ===== src/Net/Datagram.antt =====
-- udp_send_packet and udp_layer_deliver of driver/net/core/net.c, end to end.
use witos.Base.{
  ℕ, ◌+◌, ◌-◌, ◌*◌, ◌^◌, ◌%◌, ◌/◌, ◌≤◌, ◌<◌, ◌≡◌, ap, ◌∙◌, some, List, [], ◌∷◌, ◌++◌, length, arith,
  pos,
}
use witos.Net.Types.{Skb, Socket, SockFds}
use witos.Net.Table.{put, udp_search_socket, port_alloc}
use witos.Net.Send.{udp_send_packet, bytes16, htons_bytes}
use witos.Net.Deliver.{udp_layer_deliver, udp_found, udp_to}
use witos.Net.Segment.{take-all, halves16}

-- The ports go round from 50001 to 65535 and on from 50000, whatever the value of the static variable.
pub port_alloc_lem :
    (port : ℕ)
    → (50000 ≤ port_alloc port)
      × (port_alloc port < 2 ^ 16)
      × (50000 ≤ port → port < 65535 → port_alloc port ≡ port + 1)
      × (port_alloc 65535 ≡ 50000)
unfolding port_alloc
port_alloc_lem port = ground arith

whole_datagram :
    (sock : Socket) (skb : Skb)
    → length skb.bytes ≡ skb.size
    → skb.size < 65528
    → (udp_send_packet sock skb).bytes
      ≡ bytes16 sock.src.sin_port
        ++ bytes16 sock.dst.sin_port
        ++ htons_bytes ((skb.size + 8) % 2 ^ 16)
        ++ 0 ∷ 0 ∷ skb.bytes
unfolding udp_send_packet
whole_datagram sock skb same small =
    take-all ((skb.size + 8) % 2 ^ 16)
      (bytes16 sock.src.sin_port
        ++ bytes16 sock.dst.sin_port
        ++ htons_bytes ((skb.size + 8) % 2 ^ 16)
        ++ 0 ∷ 0 ∷ skb.bytes)
      (omega arith)

-- The datagram that one socket sends, with a payload as long as the packet's size says, below 65528
-- bytes, and ports of 16 bits, delivered at a host where the search finds a socket on its
-- destination port: the payload comes at the end of that socket's queue unchanged, and the socket's
-- peer is then the sender.
pub udp_send_packet-udp_layer_deliver :
    (sock peer : Socket) (skb : Skb) (fds : SockFds) (fd : ℕ)
    → length skb.bytes ≡ skb.size
    → skb.size < 65528
    → sock.src.sin_port < 2 ^ 16
    → sock.dst.sin_port < 2 ^ 16
    → udp_search_socket fds sock.dst.sin_port ≡ some fd
    → fds fd ≡ some peer
    → let sent = udp_send_packet sock skb in
      udp_layer_deliver fds sent.src_ip (record { bytes = sent.bytes; size = skb.size + 8 }) ≡ (
        pos 0,
        put fds fd (
            some record peer {
              dst = record peer.dst { sin_addr = sock.src.sin_addr; sin_port = sock.src.sin_port };
              rx_qu = peer.rx_qu ++ skb ∷ [];
            }),
      )
unfolding udp_layer_deliver udp_found udp_to udp_send_packet
udp_send_packet-udp_layer_deliver sock peer skb fds fd same small sp dp found entry =
    let src = sock.src.sin_addr in
    let size : (skb.size + 8 + 2 ^ 16 - 8) % 2 ^ 16 ≡ skb.size = omega arith in
    let pulled : ◌≡◌ {A = Skb}
        (record { bytes = skb.bytes; size = (skb.size + 8 + 2 ^ 16 - 8) % 2 ^ 16 }) skb =
      λ i. record { bytes = skb.bytes; size = size i } in
    let low = sock.src.sin_port % 256 + 256 * (sock.src.sin_port / 256 % 256) in
    let high = sock.dst.sin_port % 256 + 256 * (sock.dst.sin_port / 256 % 256) in
    ap (λ (b : List ℕ). udp_layer_deliver fds src (record { bytes = b; size = skb.size + 8 }))
      (whole_datagram sock skb same small)
    ∙ ap (λ (t : Skb). udp_found fds src low t (udp_search_socket fds high)) pulled
    ∙ ap (λ (p : ℕ). udp_found fds src p skb (udp_search_socket fds high))
        (halves16 sock.src.sin_port sp)
    ∙ ap (λ (p : ℕ). udp_found fds src sock.src.sin_port skb (udp_search_socket fds p))
        (halves16 sock.dst.sin_port dp)
    ∙ ap (udp_found fds src sock.src.sin_port skb) found
    ∙ ap (udp_to fds src sock.src.sin_port skb fd) entry
