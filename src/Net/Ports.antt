-- ===== src/Net/Ports.antt =====
-- bind of lib/net/socket.c and the search of the table by port.
use witos.Base.{
  ℕ, ◌+◌, ◌^◌, ◌≤◌, ◌<◌, ◌≡◌, ◌≢◌, refl, ap, subst, ◌∙◌, inl, inr, Bool, true, false, Bool-cases,
  Option, Option-cases, none, some, ltb, ◌||◌, ◌==◌, if◌then◌else◌, leb, pos, arith,
}
use mathlib.Core.Option.{none-ne-some}
use witos.Net.Types.{SockaddrIn, Socket, SockFds}
use witos.Net.Table.{
  port_alloc, put, get_sock, sock_dgram, find_fd, FirstMatch, find_fd-FirstMatch, udp_match,
  udp_search_socket,
}
use witos.Net.Receive.{af_inet, htons, bind}

-- The port handed out behind `port`: the next one of the range from 50000 to 65535, round and round.
abbrev pub next_port : ℕ → ℕ
next_port port = if ltb port 50000 then 50000 else if port == 65535 then 50000 else port + 1

-- The source address of a socket that is bound to any port.
abbrev pub any_port : (addr : SockaddrIn) (p ndev_ip : ℕ) → SockaddrIn
any_port addr p ndev_ip = record {
  sin_family = af_inet;
  sin_port = htons p;
  sin_addr = if addr.sin_addr == 0 then ndev_ip else addr.sin_addr;
}

port_alloc-next_port : (port : ℕ) → port < 2 ^ 16 → port_alloc port ≡ next_port port
unfolding port_alloc
port_alloc-next_port port word = ground arith

-- A search that only one descriptor satisfies finds it.
find_fd_only :
    (test : Option Socket → Bool) (fds : SockFds) (k : ℕ)
    → 1 ≤ k
    → k < 32
    → test (fds k) ≡ true
    → ((i : ℕ) → i ≢ k → test (fds i) ≡ false)
    → find_fd test fds 1 31 ≡ some k
unfolding FirstMatch
find_fd_only test fds k low high taken others =
    let found = find_fd-FirstMatch test fds 1 31 in
    elim (Option-cases (find_fd test fds 1 31)) [
      | inl e ↦
          let refused : FirstMatch test fds 1 31 none = subst (FirstMatch test fds 1 31) e found in
          let no_match = refused k low (omega arith) in absurd (ground arith)
      | inr (j, e) ↦
          let first : FirstMatch test fds 1 31 (some j) =
            subst (FirstMatch test fds 1 31) e found in
          let accepted = first.2 in
          elim (Bool-cases (j == k)) [
            | inl same ↦ let at : j ≡ k = ground arith in e ∙ ap some at
            | inr differs ↦ let refused = others j (ground arith) in absurd (ground arith)
          ]
    ]

bind_any :
    (fds : SockFds) (fd : ℕ) (sock : Socket) (addr : SockaddrIn) (port ndev_ip : ℕ)
    → get_sock fds fd ≡ some sock
    → addr.sin_family ≡ af_inet
    → addr.sin_port ≡ 0
    → port < 2 ^ 16
    → bind fds fd addr port ndev_ip ≡ (
      pos 0,
      put fds fd (some record sock { src = any_port addr (next_port port) ndev_ip }),
      next_port port,
    )
unfolding bind
bind_any fds fd sock addr port ndev_ip open_ family any word =
    let next = port_alloc-next_port port word in rw (open_, bind) (rw (family, any, next) refl)

get_sock_range :
    (fds : SockFds) (fd : ℕ) (sock : Socket) → get_sock fds fd ≡ some sock → (1 ≤ fd) × (fd < 32)
get_sock_range fds fd sock h = elim (Bool-cases (fd == 0 || leb 32 fd)) [
  | inl e ↦ absurd (none-ne-some sock (rw e at h))
  | inr e ↦ (ground arith, ground arith)
]

get_sock-put :
    (fds : SockFds) (fd other : ℕ) (s : Option Socket)
    → other ≢ fd
    → get_sock (put fds fd s) other ≡ get_sock fds other
get_sock-put fds fd other s differ =
    let apart : (other == fd) ≡ false = ground arith in rw apart refl

-- Two binds in turn to the port 0, on two open datagram sockets and to addresses of the family AF_INET,
-- when the last port handed out is `port` and no other datagram socket has the next two. Both succeed and
-- change nothing but the two sockets' own addresses, where the ports are the two that follow `port` in the
-- range from 50000 to 65535, round and round, in network order, and the address 0 has become that of
-- the first device. The two ports differ, and the search of the table for either of them finds the
-- socket that it was given to.
pub bind-udp_search_socket :
    (fds : SockFds) (fd fd' : ℕ) (sock sock' : Socket) (addr addr' : SockaddrIn) (port ndev_ip : ℕ)
    → get_sock fds fd ≡ some sock
    → get_sock fds fd' ≡ some sock'
    → fd' ≢ fd
    → sock.kind ≡ sock_dgram
    → sock'.kind ≡ sock_dgram
    → addr.sin_family ≡ af_inet
    → addr'.sin_family ≡ af_inet
    → addr.sin_port ≡ 0
    → addr'.sin_port ≡ 0
    → port < 2 ^ 16
    → ((i : ℕ) → i ≢ fd → i ≢ fd' → udp_match (htons (next_port port)) (fds i) ≡ false)
    → ((i : ℕ) → i ≢ fd → i ≢ fd' → udp_match (htons (next_port (next_port port))) (fds i) ≡ false)
    → let p = next_port port in
      let p' = next_port p in
      let one = put fds fd (some record sock { src = any_port addr p ndev_ip }) in
      let both = put one fd' (some record sock' { src = any_port addr' p' ndev_ip }) in
      (bind fds fd addr port ndev_ip ≡ (pos 0, one, p))
      × (bind one fd' addr' p ndev_ip ≡ (pos 0, both, p'))
      × (htons p ≢ htons p')
      × (udp_search_socket both (htons p) ≡ some fd)
      × (udp_search_socket both (htons p') ≡ some fd')
bind-udp_search_socket fds fd fd' sock sock' addr addr' port ndev_ip open_ open' differ kind kind'
      family family' any any' word free free' =
    let p = next_port port in
    let p' = next_port p in
    let s : Socket = record sock { src = any_port addr p ndev_ip } in
    let s' : Socket = record sock' { src = any_port addr' p' ndev_ip } in
    let one = put fds fd (some s) in
    let both = put one fd' (some s') in
    let small : p < 2 ^ 16 = ground arith in
    let small' : p' < 2 ^ 16 = ground arith in
    let moved : p ≢ p' = ground arith in
    let apart : htons p ≢ htons p' = λ e. moved (omega arith) in
    let range = get_sock_range fds fd sock open_ in
    let range' = get_sock_range fds fd' sock' open' in
    let here : both fd ≡ some s = ground arith in
    let here' : both fd' ≡ some s' = ground arith in
    let other_port : (htons p == htons p') ≡ false = ground arith in
    let other_port' : (htons p' == htons p) ≡ false = ground arith in
    let itself : (htons p == htons p) ≡ true = ground arith in
    let itself' : (htons p' == htons p') ≡ true = ground arith in
    (
      bind_any fds fd sock addr port ndev_ip open_ family any word,
      bind_any one fd' sock' addr' p ndev_ip (get_sock-put fds fd fd' (some s) differ ∙ open')
          family' any' small,
      apart,
      find_fd_only (udp_match (htons p)) both fd range.0 range.1 (rw (here, kind, itself) refl)
          (λ i ne. elim (Bool-cases (i == fd')) [
            | inl e ↦ rw (e, kind', other_port') refl
            | inr e ↦
                let e' : (i == fd) ≡ false = ground arith in rw (e, e') (free i ne (ground arith))
          ]),
      find_fd_only (udp_match (htons p')) both fd' range'.0 range'.1
          (rw (here', kind', itself') refl)
          (λ i ne.
            let ne' : (i == fd') ≡ false = ground arith in
            elim (Bool-cases (i == fd)) [
              | inl e ↦ rw (ne', e, kind, other_port) refl
              | inr e ↦ rw (ne', e) (free' i (ground arith) ne)
            ]),
    )
