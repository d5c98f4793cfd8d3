-- ===== src/Net/Table.antt =====
-- The table of sockets of lib/net/socket.c: get_sock, port_alloc, socket, socket_ioctl, and the
-- searches that match a packet with a socket.
use witos.Base.{
  subst, ℕ, zero, suc, ◌+◌, ◌^◌, ◌%◌, ◌≤◌, ◌<◌, ◌≡◌, Bool, true, false, ◌&&◌, ◌||◌, Option, none,
  some, [], ltb, leb, ◌==◌, if◌then◌else◌, arith, ℤ, pos, negsuc, ◌⊎◌, inl, inr, Bool-cases,
}
use witos.Net.Types.{SockaddrIn, closed, Socket, SockFds}

abbrev pub max_sock_num : ℕ
max_sock_num = 32

abbrev pub port_min : ℕ
port_min = 50000

abbrev pub sock_stream : ℕ
sock_stream = 1

abbrev pub sock_dgram : ℕ
sock_dgram = 2

abbrev pub sock_raw : ℕ
sock_raw = 3

abbrev pub prot_eth : ℕ
prot_eth = 10

abbrev pub put : SockFds → ℕ → Option Socket → SockFds
put fds i s fd = if fd == i then s else fds fd

-- A descriptor below 0 is none of the numbers.
abbrev pub get_sock : SockFds → ℕ → Option Socket
get_sock fds fd = if fd == 0 || leb max_sock_num fd then none else fds fd

-- The value of the static `port` of type __u16 goes in and comes out with the result.
unfoldable pub port_alloc : (port : ℕ) → ℕ
port_alloc port = let next = (port + 1) % 2 ^ 16 in if ltb next port_min then port_min else next

abbrev pub skiocs_flags : ℕ
skiocs_flags = 1

unfoldable pub socket_ioctl : SockFds → (fd cmd flags : ℕ) → ℤ × SockFds
socket_ioctl fds fd cmd flags = elim (get_sock fds fd) [
  | none ↦ (negsuc 1, fds)
  | some sock ↦
      if cmd == skiocs_flags
      then (pos 0, put fds fd (some record sock { obstruct_flags = flags }))
      else (negsuc 21, fds)
]

abbrev pub is_none : Option Socket → Bool
is_none none = true
is_none (some sock) = false

-- The loops `for (fd = ...; fd < MAX_SOCK_NUM; fd++)`, with the number of turns left.
unfoldable pub find_fd : (Option Socket → Bool) → SockFds → (fd turns : ℕ) → Option ℕ
find_fd test fds fd zero = none
find_fd test fds fd (suc turns) =
    let rest = find_fd test fds (suc fd) turns in if test (fds fd) then some fd else rest

abbrev pub no_addr : SockaddrIn
no_addr = record { sin_family = 0; sin_port = 0; sin_addr = 0 }

-- What the assignments leave of `fresh`, the block that malloc returns.
unfoldable pub init_socket : (fresh : Socket) (type_ protocol : ℕ) → Socket
init_socket fresh type_ protocol =
    let common = record fresh {
      kind = type_;
      protocol = protocol;
      rx_qu = [];
      src = no_addr;
      dst = no_addr;
    } in
    if type_ == sock_stream
    then record common { state = closed; seq_num = 1; ack_num = 0 }
    else common

-- `fresh` is what malloc gives.
unfoldable pub socket : (fresh : Option Socket) → SockFds → (type_ protocol : ℕ) → ℤ × SockFds
socket fresh fds type_ protocol = elim (find_fd is_none fds 1 31) [
  | none ↦ (negsuc 18, fds)
  | some fd ↦ elim fresh [
    | none ↦ (negsuc 11, fds)
    | some block ↦ (pos fd, put fds fd (some (init_socket block type_ protocol)))
  ]
]

abbrev pub tcp_match : (dst_port : ℕ) → Option Socket → Bool
tcp_match dst_port none = false
tcp_match dst_port (some sock) = (sock.kind == sock_stream) && (sock.src.sin_port == dst_port)

abbrev pub udp_match : (dst_port : ℕ) → Option Socket → Bool
udp_match dst_port none = false
udp_match dst_port (some sock) = (sock.kind == sock_dgram) && (sock.src.sin_port == dst_port)

abbrev pub icmp_match : (src_ip : ℕ) → Option Socket → Bool
icmp_match src_ip none = false
icmp_match src_ip (some sock) = (sock.kind == sock_raw) && (sock.dst.sin_addr == src_ip)

abbrev pub arp_match : (src_ip : ℕ) → Option Socket → Bool
arp_match src_ip none = false
arp_match src_ip (some sock) =
    (sock.kind == sock_raw) && ((sock.protocol == prot_eth) && (sock.dst.sin_addr == src_ip))

abbrev pub tcp_search_socket : SockFds → (dst_port : ℕ) → Option ℕ
tcp_search_socket fds dst_port = find_fd (tcp_match dst_port) fds 1 31

abbrev pub udp_search_socket : SockFds → (dst_port : ℕ) → Option ℕ
udp_search_socket fds dst_port = find_fd (udp_match dst_port) fds 1 31

abbrev pub icmp_search_socket : SockFds → (src_ip : ℕ) → Option ℕ
icmp_search_socket fds src_ip = find_fd (icmp_match src_ip) fds 1 31

abbrev pub arp_search_socket : SockFds → (src_ip : ℕ) → Option ℕ
arp_search_socket fds src_ip = find_fd (arp_match src_ip) fds 1 31

-- The result of a search: the first descriptor of the range that the test accepts, or none when it
-- accepts no descriptor of the range.
unfoldable pub FirstMatch : (Option Socket → Bool) → SockFds → (fd turns : ℕ) → Option ℕ → Type 0
FirstMatch test fds fd turns none = (i : ℕ) → fd ≤ i → i < fd + turns → test (fds i) ≡ false
FirstMatch test fds fd turns (some k) =
    (fd ≤ k)
    × (k < fd + turns)
    × (test (fds k) ≡ true)
    × ((i : ℕ) → fd ≤ i → i < k → test (fds i) ≡ false)

at_or_after : (fd i : ℕ) → fd ≤ i → (fd ≡ i) ⊎ (suc fd ≤ i)
at_or_after fd i h = elim (Bool-cases (fd == i)) [
  | inl e ↦ inl (ground arith)
  | inr e ↦ inr (ground arith)
]

-- A descriptor that the test refuses, put before the range.
extend_range :
    (test : Option Socket → Bool) (fds : SockFds) (fd turns : ℕ) (found : Option ℕ)
    → test (fds fd) ≡ false
    → FirstMatch test fds (suc fd) turns found
    → FirstMatch test fds fd (suc turns) found
unfolding FirstMatch
extend_range test fds fd turns none refused h = λ i low high. elim (at_or_after fd i low) [
  | inl e ↦ subst (λ (n : ℕ). test (fds n) ≡ false) e refused
  | inr after ↦ h i after (omega arith)
]
extend_range test fds fd turns (some k) refused (low_k, high_k, taken, before) = (
  omega arith,
  omega arith,
  taken,
  λ i low high. elim (at_or_after fd i low) [
    | inl e ↦ subst (λ (n : ℕ). test (fds n) ≡ false) e refused
    | inr after ↦ before i after high
  ],
)

pub find_fd-FirstMatch :
    (test : Option Socket → Bool) (fds : SockFds) (fd turns : ℕ)
    → FirstMatch test fds fd turns (find_fd test fds fd turns)
unfolding find_fd
find_fd-FirstMatch test fds fd zero = unfold FirstMatch in λ i low high. absurd (omega arith)
find_fd-FirstMatch test fds fd (suc turns) = elim (Bool-cases (test (fds fd))) [
  | inl e ↦
      rw e (unfold FirstMatch in (omega arith, omega arith, e, λ i low high. absurd (omega arith)))
  | inr e ↦ rw e (
      extend_range test fds fd turns (find_fd test fds (suc fd) turns) e
        (find_fd-FirstMatch test fds (suc fd) turns))
]
