-- ===== src/Net/Transport.antt =====
-- sendto at one host and recvfrom at another, through udp_layer_deliver.
use mathlib.Core.Option.{none-ne-some}
use witos.Base.{
  ℕ, zero, suc, ◌+◌, ◌-◌, ◌^◌, ◌%◌, ◌<◌, ◌≡◌, refl, ap, ◌||◌, Bool-cases, inl, inr, ◌∙◌, true,
  false, some, List, [], ◌∷◌, ◌++◌, ◌==◌, if◌then◌else◌, leb, length, take, replicate, ℤ, pos,
  arith,
}
use witos.Net.Types.{Skb, SockaddrIn, Socket, SockFds}
use witos.Net.Table.{put, get_sock, sock_dgram, udp_search_socket}
use witos.Net.Send.{udp_send_packet}
use witos.Net.Deliver.{udp_layer_deliver}
use witos.Net.Datagram.{udp_send_packet-udp_layer_deliver}
use witos.Net.Receive.{
  Output, packet, output, sendto, Round, dequeue, recv_loop, sock_recv_packet, copied, peer_of,
  recvfrom,
}

-- A poll at which nothing comes.
abbrev pub quiet : Round
quiet = (false, λ fds. fds)

-- A poll that delivers one datagram from the host `src_ip`.
abbrev pub delivers : (src_ip : ℕ) → (bytes : List ℕ) → (size : ℕ) → Round
delivers src_ip bytes size =
    (false, λ fds. (udp_layer_deliver fds src_ip (record { bytes = bytes; size = size })).1)

recv_loop-round :
    (rounds : List Round) (fd to : ℕ) (fds after : SockFds) (sock : Socket)
    (poll : SockFds → SockFds)
    → poll fds ≡ after
    → after fd ≡ some sock
    → recv_loop ((false, poll) ∷ rounds) fd to fds
      ≡ dequeue after fd to (λ t. recv_loop rounds fd t after) sock sock.rx_qu
unfolding recv_loop
recv_loop-round rounds fd to fds after sock poll e there = rw (e, there) refl

-- Rounds at which nothing comes leave an empty queue and the table as they are.
recv_loop-quiet :
    (k : ℕ) (rounds : List Round) (fd to : ℕ) (fds : SockFds) (sock : Socket)
    → fds fd ≡ some sock
    → sock.rx_qu ≡ []
    → k < to
    → (to' : ℕ) × (0 < to')
      × (recv_loop (replicate k quiet ++ rounds) fd to fds ≡ recv_loop rounds fd to' fds)
unfolding dequeue
recv_loop-quiet zero rounds fd to fds sock there empty enough = (to, omega arith, refl)
recv_loop-quiet (suc k) rounds fd to fds sock there empty enough =
    let more = replicate k quiet ++ rounds in
    let step : recv_loop (quiet ∷ more) fd to fds
        ≡ dequeue fds fd to (λ t. recv_loop more fd t fds) sock [] =
      recv_loop-round more fd to fds fds sock (λ f. f) refl there ∙ rw empty refl in
    elim (Bool-cases (sock.obstruct_flags == 1)) [
      | inl e ↦
          let (to', some_left, later) =
            recv_loop-quiet k rounds fd (to - 1) fds sock there empty (omega arith) in
          let not_last : (to == 1) ≡ false = ground arith in
          (to', some_left, step ∙ rw (e, not_last) later)
      | inr e ↦
          let (to', some_left, later) =
            recv_loop-quiet k rounds fd to fds sock there empty (omega arith) in
          (to', some_left, step ∙ rw e later)
    ]

get_sock-entry :
    (fds : SockFds) (fd : ℕ) (sock : Socket) → get_sock fds fd ≡ some sock → fds fd ≡ some sock
get_sock-entry fds fd sock h = elim (Bool-cases (fd == 0 || leb 32 fd)) [
  | inl e ↦ absurd (none-ne-some sock (rw e at h))
  | inr e ↦ rw e at h
]

-- The socket that a datagram has reached.
abbrev pub reached : Socket → Socket → Skb → Socket
reached sock peer skb = record peer {
  dst = record peer.dst { sin_addr = sock.src.sin_addr; sin_port = sock.src.sin_port };
  rx_qu = peer.rx_qu ++ skb ∷ [];
}

recv_loop-delivers :
    (sock peer : Socket) (skb : Skb) (rounds : List Round) (fds : SockFds) (fd to : ℕ)
    → length skb.bytes ≡ skb.size
    → skb.size < 65528
    → sock.src.sin_port < 2 ^ 16
    → sock.dst.sin_port < 2 ^ 16
    → udp_search_socket fds sock.dst.sin_port ≡ some fd
    → fds fd ≡ some peer
    → peer.rx_qu ≡ []
    → let sent = udp_send_packet sock skb in
      recv_loop (delivers sent.src_ip sent.bytes (skb.size + 8) ∷ rounds) fd to fds
      ≡ some (
        some skb,
        put
            (put fds fd (some (reached sock peer skb)))
            fd
            (some record (reached sock peer skb) { rx_qu = [] }),
      )
unfolding dequeue
recv_loop-delivers sock peer skb rounds fds fd to same small sp dp found there empty =
    let itself : (fd == fd) ≡ true = ground arith in
    recv_loop-round rounds fd to fds (put fds fd (some (reached sock peer skb)))
      (reached sock peer skb) _
      (ap (λ (r : ℤ × SockFds). r.1)
        (udp_send_packet-udp_layer_deliver sock peer skb fds fd same small sp dp found there))
      (rw itself refl)
    ∙ rw empty refl

output-datagram :
    (sock : Socket) (buff : List ℕ)
    → sock.kind ≡ sock_dgram
    → length buff < 2 ^ 16
    → output sock buff
      ≡ packet (udp_send_packet sock (record { bytes = buff; size = length buff })) ∷ []
unfolding output
output-datagram sock buff kind small =
    let size : length buff % 2 ^ 16 ≡ length buff = omega arith in rw (kind, size) refl

recvfrom-received :
    (rounds : List Round) (fds after : SockFds) (fd n : ℕ) (sock : Socket) (skb : Skb)
    → get_sock fds fd ≡ some sock
    → sock_recv_packet rounds fd fds ≡ some (some skb, after)
    → recvfrom rounds fds fd n
      ≡ some (pos (if leb skb.size n then skb.size else n), copied skb n, peer_of (after fd), after)
unfolding recvfrom
recvfrom-received rounds fds after fd n sock skb open_ e = rw (open_, recvfrom) (rw e refl)

-- A datagram of fewer than 65528 bytes from one host to another. sendto on a datagram socket returns
-- the number of bytes, keeps the destination and hands one UDP packet to IP. When the search at the
-- other host finds an open socket with an empty queue on the destination port, recvfrom on it with
-- room for `n` bytes, after fewer than 10000 polls that bring nothing and one that
-- delivers the packet, with ports of 16 bits and no Ctrl-C, returns; it gives the bytes, or
-- the first `n` of them, their number, and the address and port of the sender.
pub sendto-recvfrom :
    (fds other_fds : SockFds) (from fd : ℕ) (sock peer : Socket) (buff : List ℕ) (addr : SockaddrIn)
    (polls n : ℕ) (rounds : List Round)
    → get_sock fds from ≡ some sock
    → sock.kind ≡ sock_dgram
    → length buff < 65528
    → sock.src.sin_port < 2 ^ 16
    → addr.sin_port < 2 ^ 16
    → udp_search_socket other_fds addr.sin_port ≡ some fd
    → get_sock other_fds fd ≡ some peer
    → peer.rx_qu ≡ []
    → polls < 10000
    → let to : Socket = record sock { dst = addr } in
      let sent = udp_send_packet to (record { bytes = buff; size = length buff }) in
      (sendto fds from buff addr ≡ (pos (length buff), put fds from (some to), packet sent ∷ []))
      × ((after : SockFds) × (recvfrom
              (replicate polls quiet ++ delivers sent.src_ip sent.bytes (length buff + 8) ∷ rounds)
              other_fds
              fd
              n
            ≡ some (
              pos (if leb (length buff) n then length buff else n),
              take (if leb (length buff) n then length buff else n) buff,
              some record peer.dst { sin_addr = sock.src.sin_addr; sin_port = sock.src.sin_port },
              after,
            )))
unfolding sendto sock_recv_packet
sendto-recvfrom fds other_fds from fd sock peer buff addr polls n rounds open_ kind small sp dp
      found open_peer empty few =
    let to : Socket = record sock { dst = addr } in
    let skb : Skb = record { bytes = buff; size = length buff } in
    let sent = udp_send_packet to skb in
    let there = get_sock-entry other_fds fd peer open_peer in
    let itself : (fd == fd) ≡ true = ground arith in
    let (left, some_left, waited) =
      recv_loop-quiet polls (delivers sent.src_ip sent.bytes (length buff + 8) ∷ rounds) fd 10000
        other_fds peer there empty few in
    let emptied : Socket = record (reached to peer skb) { rx_qu = [] } in
    let after = put (put other_fds fd (some (reached to peer skb))) fd (some emptied) in
    (
      rw (open_, sendto)
          (ap (λ (o : List Output). (pos (length buff), put fds from (some to), o))
            (output-datagram to buff kind (omega arith))),
      (
        after,
        recvfrom-received _ other_fds after fd n peer skb open_peer (
              waited
              ∙ recv_loop-delivers to peer skb rounds other_fds fd left refl small sp dp found there
                  empty)
            ∙ rw itself refl,
      ),
    )
