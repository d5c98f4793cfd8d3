-- ===== src/Net/Descriptors.antt =====
-- The table of sockets: the descriptor that socket of lib/net/socket.c hands out, and the socket that
-- each search finds for a packet.
use witos.Base.{
  ℕ, ◌≤◌, ◌<◌, ◌≡◌, ◌≢◌, refl, ap, Bool, true, false, Option, none, some, [], arith, ℤ, pos, negsuc,
  ◌⊎◌, inl, inr,
}
use witos.Net.Types.{closed, Socket, SockFds}
use witos.Net.Table.{
  get_sock, put, is_none, no_addr, init_socket, socket, find_fd, FirstMatch, find_fd-FirstMatch,
  tcp_match, udp_match, icmp_match, arp_match, tcp_search_socket, udp_search_socket,
  icmp_search_socket, arp_search_socket,
}

-- Descriptor `fd` is open and its socket has the property.
abbrev pub OpenWith : (Socket → Type 0) → SockFds → ℕ → Type 0
OpenWith P fds fd = (sock : Socket) × (fds fd ≡ some sock) × P sock

-- The lowest open descriptor whose socket has the property, or that there is none.
pub Lowest : (Socket → Type 0) → SockFds → Option ℕ → Type 0
Lowest P fds none = (i : ℕ) → 1 ≤ i → i < 32 → ¬ OpenWith P fds i
Lowest P fds (some k) =
    (1 ≤ k) × (k < 32) × OpenWith P fds k × ((i : ℕ) → 1 ≤ i → i < k → ¬ OpenWith P fds i)

abbrev pub IsStream : ℕ → Socket → Type 0
IsStream port sock = (sock.kind ≡ 1) × (sock.src.sin_port ≡ port)

abbrev pub IsDatagram : ℕ → Socket → Type 0
IsDatagram port sock = (sock.kind ≡ 2) × (sock.src.sin_port ≡ port)

abbrev pub IsRaw : ℕ → Socket → Type 0
IsRaw ip sock = (sock.kind ≡ 3) × (sock.dst.sin_addr ≡ ip)

abbrev pub IsEther : ℕ → Socket → Type 0
IsEther ip sock = (sock.kind ≡ 3) × (sock.protocol ≡ 10) × (sock.dst.sin_addr ≡ ip)

-- What a test of an entry of the table has to do with a property of sockets.
abbrev Tests : (Option Socket → Bool) → (Socket → Type 0) → Type 0
Tests test P =
    (test none ≡ false)
    × ((sock : Socket) → test (some sock) ≡ true → P sock)
    × ((sock : Socket) → P sock → test (some sock) ≡ true)

accepted_entry :
    (test : Option Socket → Bool) (P : Socket → Type 0) (entry : Option Socket)
    → Tests test P
    → test entry ≡ true
    → (sock : Socket) × (entry ≡ some sock) × P sock
accepted_entry test P none (n, sound, full) h = absurd (cc (h, n))
accepted_entry test P (some sock) (n, sound, full) h = (sock, refl, sound sock h)

refused_entry :
    (test : Option Socket → Bool) (P : Socket → Type 0) (fds : SockFds) (i : ℕ)
    → Tests test P
    → test (fds i) ≡ false
    → ¬ OpenWith P fds i
refused_entry test P fds i (n, sound, full) h =
    λ found. cc (full found.0 found.2, ap test found.1, h)

FirstMatch-Lowest :
    (test : Option Socket → Bool) (P : Socket → Type 0) (fds : SockFds) (found : Option ℕ)
    → Tests test P
    → FirstMatch test fds 1 31 found
    → Lowest P fds found
unfolding FirstMatch Lowest
FirstMatch-Lowest test P fds none t h =
    λ i low high. refused_entry test P fds i t (h i low (omega arith))
FirstMatch-Lowest test P fds (some k) t (low_k, high_k, taken, before) = (
  low_k,
  omega arith,
  accepted_entry test P (fds k) t taken,
  λ i low high. refused_entry test P fds i t (before i low high),
)

-- A search of the table for a packet finds the lowest descriptor, from 1 to 31, of an open socket
-- that fits the packet, and finds nothing exactly when there is none: a stream socket on the
-- destination port for TCP, a datagram socket on the destination port for UDP, a raw socket whose
-- peer is the sender for ICMP, and a raw socket of protocol 10 whose peer is the sender for ARP.
pub searches-Lowest :
    (fds : SockFds) (dst_port src_ip : ℕ)
    → Lowest (IsStream dst_port) fds (tcp_search_socket fds dst_port)
      × Lowest (IsDatagram dst_port) fds (udp_search_socket fds dst_port)
      × Lowest (IsRaw src_ip) fds (icmp_search_socket fds src_ip)
      × Lowest (IsEther src_ip) fds (arp_search_socket fds src_ip)
searches-Lowest fds dst_port src_ip = (
  FirstMatch-Lowest (tcp_match dst_port) (IsStream dst_port) fds (tcp_search_socket fds dst_port)
      (refl, λ sock h. ground arith, λ sock h. ground arith)
      (find_fd-FirstMatch (tcp_match dst_port) fds 1 31),
  FirstMatch-Lowest (udp_match dst_port) (IsDatagram dst_port) fds (udp_search_socket fds dst_port)
      (refl, λ sock h. ground arith, λ sock h. ground arith)
      (find_fd-FirstMatch (udp_match dst_port) fds 1 31),
  FirstMatch-Lowest (icmp_match src_ip) (IsRaw src_ip) fds (icmp_search_socket fds src_ip)
      (refl, λ sock h. ground arith, λ sock h. ground arith)
      (find_fd-FirstMatch (icmp_match src_ip) fds 1 31),
  FirstMatch-Lowest (arp_match src_ip) (IsEther src_ip) fds (arp_search_socket fds src_ip)
      (refl, λ sock h. ground arith, λ sock h. ground arith)
      (find_fd-FirstMatch (arp_match src_ip) fds 1 31),
)

-- What the caller of socket may rely on in the new socket.
abbrev pub IsFresh : (type_ protocol : ℕ) → Socket → Type 0
IsFresh type_ protocol sock =
    (sock.kind ≡ type_)
    × (sock.protocol ≡ protocol)
    × (sock.rx_qu ≡ [])
    × (sock.src ≡ no_addr)
    × (sock.dst ≡ no_addr)
    × (type_ ≡ 1 → (sock.state ≡ closed) × (sock.seq_num ≡ 1) × (sock.ack_num ≡ 0))

init_socket-IsFresh :
    (fresh : Socket) (type_ protocol : ℕ)
    → IsFresh type_ protocol (init_socket fresh type_ protocol)
unfolding init_socket
init_socket-IsFresh fresh type_ protocol = ground arith

-- The two outcomes of socket for a type and protocol: no descriptor from 1 to 31 is free, or the
-- lowest free one gets a fresh socket.
abbrev pub Opens : SockFds → (type_ protocol : ℕ) → ℤ × SockFds → Type 0
Opens fds type_ protocol result =
    (((i : ℕ) → 1 ≤ i → i < 32 → fds i ≢ none) × (result ≡ (negsuc 18, fds)))
    ⊎ ((fd : ℕ) × (result.0 ≡ pos fd)
        × (1 ≤ fd)
        × (fd < 32)
        × (fds fd ≡ none)
        × ((i : ℕ) → 1 ≤ i → i < fd → fds i ≢ none)
        × ((sock : Socket) × (get_sock result.1 fd ≡ some sock) × IsFresh type_ protocol sock)
        × ((i : ℕ) → i ≢ fd → result.1 i ≡ fds i))

is_none-none : (entry : Option Socket) → is_none entry ≡ true → entry ≡ none
is_none-none none h = refl
is_none-none (some sock) h = absurd (cc)

in_use : (entry : Option Socket) → is_none entry ≡ false → entry ≢ none
in_use none h = absurd (cc)
in_use (some sock) h = λ e. absurd (cc)

get_sock-put :
    (fds : SockFds) (fd : ℕ) (sock : Socket)
    → 1 ≤ fd
    → fd < 32
    → get_sock (put fds fd (some sock)) fd ≡ some sock
get_sock-put fds fd sock low high = ground arith

opened :
    (fresh : Socket) (fds : SockFds) (type_ protocol : ℕ) (found : Option ℕ)
    → find_fd is_none fds 1 31 ≡ found
    → FirstMatch is_none fds 1 31 found
    → Opens fds type_ protocol (socket (some fresh) fds type_ protocol)
unfolding socket FirstMatch
opened fresh fds type_ protocol none e first =
    rw (e, socket) (inl (λ i low high. in_use (fds i) (first i low (omega arith)), refl))
opened fresh fds type_ protocol (some fd) e (low, high, free, before) =
    rw (e, socket)
      (inr (
        fd,
        refl,
        low,
        omega arith,
        is_none-none (fds fd) free,
        λ i low_i high_i. in_use (fds i) (before i low_i high_i),
        (
          init_socket fresh type_ protocol,
          get_sock-put fds fd (init_socket fresh type_ protocol) low (omega arith),
          init_socket-IsFresh fresh type_ protocol,
        ),
        λ i other. ground arith,
      ))

-- When malloc succeeds, socket either finds the descriptors 1 to 31 all in use, gives -ENODEV and
-- changes nothing, or opens the lowest free descriptor: get_sock then gives a socket of the type and
-- protocol asked for with an empty queue and no addresses, closed and with sequence number 1 if it is
-- a stream socket, and every other descriptor is as before.
pub socket-Opens :
    (fresh : Socket) (fds : SockFds) (type_ protocol : ℕ)
    → Opens fds type_ protocol (socket (some fresh) fds type_ protocol)
socket-Opens fresh fds type_ protocol =
    opened fresh fds type_ protocol (find_fd is_none fds 1 31) refl
      (find_fd-FirstMatch is_none fds 1 31)
