-- ===== src/Net/Receive.antt =====
-- The calls of lib/net/socket.c on datagrams and queues: bind, sendto, sock_recv_packet, recv, recvfrom
-- and qu_is_empty. What a call of ndev_poll does to the table is an argument, as is whether the user
-- presses Ctrl-C before it; skb_alloc finds a block. Interrupts deliver nothing between two polls.
use witos.Base.{
  ℕ, ◌+◌, ◌-◌, ◌*◌, ◌/◌, ◌%◌, ◌^◌, Bool, true, false, Option, none, some, List, [], ◌∷◌, ◌==◌,
  ◌>>=◌, if◌then◌else◌, leb, not, length, take, ℤ, pos, negsuc,
}
use witos.Net.Types.{Skb, SockaddrIn, established, is_state, Socket, SockFds, Sent}
use witos.Net.Table.{put, get_sock, sock_dgram, sock_raw, prot_eth, port_alloc}
use witos.Net.Send.{udp_send_packet}

abbrev pub af_inet : ℕ
af_inet = 2

abbrev pub prot_icmp : ℕ
prot_icmp = 1

-- htons on the little-endian targets.
abbrev pub htons : ℕ → ℕ
htons val = val % 2 ^ 8 * 2 ^ 8 + val / 2 ^ 8

-- bind; the value of the static port goes in and comes out, and `ndev_ip` is the address of the
-- first network device. A port is kept in network order.
unfoldable pub bind : SockFds → (fd : ℕ) → SockaddrIn → (port ndev_ip : ℕ) → ℤ × SockFds × ℕ
unfolding port_alloc
bind fds fd addr port ndev_ip = elim (get_sock fds fd) [
  | none ↦ (negsuc 21, fds, port)
  | some sock ↦
      let next = port_alloc port in
      let with_family : SockaddrIn = record sock.src { sin_family = addr.sin_family } in
      let bound : SockaddrIn = record {
        sin_family = addr.sin_family;
        sin_port = if addr.sin_port == 0 then htons next else addr.sin_port;
        sin_addr = if addr.sin_addr == 0 then ndev_ip else addr.sin_addr;
      } in
      if addr.sin_family == af_inet
      then (
        pos 0,
        put fds fd (some record sock { src = bound }),
        if addr.sin_port == 0 then next else port,
      )
      else (negsuc 523, put fds fd (some record sock { src = with_family }), port)
]

-- What a call of sendto hands to the layers below.
pub data Output : Type 0 where
  packet : Sent → Output
  arp_request : (ip : ℕ) → Output

-- The switch on the type of the socket; a raw socket of another protocol falls through.
unfoldable pub output : Socket → List ℕ → List Output
unfolding udp_send_packet
output sock buff =
    let skb : Skb = record { bytes = buff; size = length buff % 2 ^ 16 } in
    if sock.kind == sock_raw
    then (if sock.protocol == prot_icmp
        then packet record {
          prot = prot_icmp;
          src_ip = sock.src.sin_addr;
          des_ip = sock.dst.sin_addr;
          bytes = take skb.size buff;
        }
          ∷ []
        else if sock.protocol == prot_eth
        then arp_request sock.dst.sin_addr ∷ []
        else packet (udp_send_packet sock skb) ∷ [])
    else if sock.kind == sock_dgram
    then packet (udp_send_packet sock skb) ∷ []
    else []

unfoldable pub sendto : SockFds → (fd : ℕ) → List ℕ → SockaddrIn → ℤ × SockFds × List Output
unfolding output
sendto fds fd buff dest_addr = elim (get_sock fds fd) [
  | none ↦ (negsuc 21, fds, [])
  | some sock ↦
      let to : Socket = record sock { dst = dest_addr } in
      (pos (length buff), put fds fd (some to), output to buff)
]

-- One round of the loop of sock_recv_packet: whether Ctrl-C is pressed, and what ndev_poll does.
abbrev pub Round : Type 0
Round = Bool × (SockFds → SockFds)

-- The packet or NULL, and the table.
abbrev pub Received : Type 0
Received = Option (Option Skb × SockFds)

-- The rest of a round, by the queue after the poll; `wait` is the loop with the value of `to`.
unfoldable pub dequeue :
    SockFds → (fd to : ℕ) → (wait : ℕ → Received) → Socket → List Skb → Received
dequeue fds fd to wait sock (skb ∷ skbs) =
    some (some skb, put fds fd (some record sock { rx_qu = skbs }))
dequeue fds fd to wait sock [] =
    if sock.obstruct_flags == 1
    then (if to == 1 then some (none, fds) else wait (to - 1))
    else wait to

-- The loop; none is a call that waits on when the rounds are over.
unfoldable pub recv_loop : List Round → (fd to : ℕ) → SockFds → Received
unfolding dequeue
recv_loop [] fd to fds = none
recv_loop ((key, poll) ∷ rounds) fd to fds =
    if key
    then some (none, fds)
    else poll fds fd
      >>= (λ sock. dequeue (poll fds) fd to (λ t. recv_loop rounds fd t (poll fds)) sock sock.rx_qu)

unfoldable pub sock_recv_packet : List Round → (fd : ℕ) → SockFds → Received
unfolding recv_loop
sock_recv_packet rounds fd fds = recv_loop rounds fd 10000 fds

-- The part of a packet for which there is room.
abbrev pub copied : Skb → (n : ℕ) → List ℕ
copied skb n = take (if leb skb.size n then skb.size else n) skb.bytes

-- The result, the bytes copied to the buffer, and the table.
unfoldable pub recv : List Round → SockFds → (fd n : ℕ) → Option (ℤ × List ℕ × SockFds)
unfolding sock_recv_packet
recv rounds fds fd n = elim (get_sock fds fd) [
  | none ↦ some (negsuc 1, [], fds)
  | some sock ↦
      if not (is_state sock.state established)
      then some (negsuc 4, [], fds)
      else sock_recv_packet rounds fd fds >>= (λ r. some (elim r.0 [
        | none ↦ (negsuc 4, [], r.1)
        | some skb ↦ (pos (if leb skb.size n then skb.size else n), copied skb n, r.1)
      ]))
]

-- The address of the peer as the socket has it then; none where nothing is copied.
abbrev pub peer_of : Option Socket → Option SockaddrIn
peer_of none = none
peer_of (some sock) = some sock.dst

-- The result of recvfrom by what sock_recv_packet gives.
unfoldable pub received_from :
    (fd n : ℕ) → Option Skb × SockFds → ℤ × List ℕ × Option SockaddrIn × SockFds
received_from fd n (none, fds) = (pos 0, [], none, fds)
received_from fd n (some skb, fds) =
    (pos (if leb skb.size n then skb.size else n), copied skb n, peer_of (fds fd), fds)

unfoldable pub recvfrom :
    List Round → SockFds → (fd n : ℕ) → Option (ℤ × List ℕ × Option SockaddrIn × SockFds)
unfolding sock_recv_packet received_from
recvfrom rounds fds fd n = elim (get_sock fds fd) [
  | none ↦ some (negsuc 21, [], none, fds)
  | some sock ↦ sock_recv_packet rounds fd fds >>= (λ r. some (received_from fd n r))
]

-- qu_is_empty, with what its poll does.
unfoldable pub qu_is_empty :
    (poll : SockFds → SockFds) → SockFds → (fd : ℕ) → Option (Bool × SockFds)
qu_is_empty poll fds fd = elim (get_sock fds fd) [
  | none ↦ some (true, fds)
  | some old ↦
      poll fds fd >>= (λ sock. some (elim sock.rx_qu [ [] ↦ true | skb ∷ skbs ↦ false ], poll fds))
]
