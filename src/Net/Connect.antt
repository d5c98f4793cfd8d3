-- ===== src/Net/Connect.antt =====
-- connect of lib/net/socket.c when the peer answers in time, and when nothing arrives.
use witos.Base.{
  ℕ, suc, ◌+◌, ◌-◌, ◌^◌, ◌%◌, ◌<◌, ◌≡◌, ◌≢◌, refl, ap, ◌∙◌, true, false, some, List, [], ◌∷◌, ◌++◌,
  arith, ℤ, pos, negsuc, replicate,
}
use witos.Net.Types.{Skb, SockaddrIn, closed, syn_sent, established, Socket, SockFds}
use witos.Net.Table.{put, get_sock, tcp_search_socket}
use witos.Net.Send.{read_tcp_header}
use witos.Net.Deliver.{Outcome, returns, Delivered, and_then, tcp_send_ack}
use witos.Net.Polls.{wait_turn, quiet_polls, no_polls}
use witos.Net.Connection.{IsIn, put_socket-IsIn}
use witos.Net.Calls.{
  World, deliver_all, poll_with, ndev_poll, state_is, wait_loop, close_on_error, send_flags,
  connect, put_socket, with_state,
}
use witos.Net.Handshake.{
  asking, answered, put_self, asking-search, answer-delivered, answered-numbers, asking-numbers,
}

asked : World → (fd : ℕ) → Socket → SockaddrIn → World
asked w fd sock addr = send_flags w fd (record sock { dst = addr }) 2 syn_sent

asked-fds :
    (w : World) (fd : ℕ) (sock : Socket) (addr : SockaddrIn)
    → (asked w fd sock addr).fds ≡ put w.fds fd (some (asking sock addr))
unfolding asked send_flags
asked-fds w fd sock addr = refl

connect-wait :
    (fd : ℕ) (addr : SockaddrIn) (w : World) (sock : Socket) (r : ℤ × World)
    → get_sock w.fds fd ≡ some sock
    → wait_loop fd established 100 (asked w fd sock addr) ≡ returns r
    → connect fd addr w ≡ returns (close_on_error fd r)
unfolding connect asked
connect-wait fd addr w sock r e h =
    rw (e, connect)
      (ap (λ (t : Outcome (ℤ × World)). and_then t (λ q. returns (close_on_error fd q))) h)

-- On an open descriptor, when the device delivers nothing at all, connect returns -ETIMEDOUT and
-- leaves the socket CLOSED.
pub connect_times_out :
    (fd : ℕ) (addr : SockaddrIn) (w : World) (sock : Socket)
    → get_sock w.fds fd ≡ some sock
    → w.arrivals ≡ []
    → (v : World) × (connect fd addr w ≡ returns (negsuc 109, v)) × IsIn fd closed v
unfolding asked send_flags close_on_error
connect_times_out fd addr w sock e quiet =
    let asked_w = asked w fd sock addr in
    let lone : state_is established (asked_w.fds fd) ≡ false = ground arith in
    (
      put_socket asked_w fd (with_state (asked_w.fds fd) closed),
      connect-wait fd addr w sock (negsuc 109, asked_w) e
          (no_polls fd established 100 asked_w quiet lone),
      put_socket-IsIn fd closed asked_w (ground arith),
    )

get_sock-entry :
    (fds : SockFds) (fd : ℕ) (sock : Socket) → get_sock fds fd ≡ some sock → fds fd ≡ some sock
get_sock-entry fds fd sock e = ground arith

-- The world after the poll that delivers the answer.
after_answer : World → (fd : ℕ) → Socket → SockaddrIn → Skb → List (List Skb) → World
after_answer w fd sock addr skb rest =
    let hdr = read_tcp_header skb.bytes in
    let asked_w = asked w fd sock addr in
    record asked_w {
      fds = put asked_w.fds fd (some (answered w.free_memory (asking sock addr) hdr));
      sent =
          asked_w.sent
          ++ (tcp_send_ack w.free_memory
              record (asking sock addr) { ack_num = (hdr.seq_num + 1) % 2 ^ 32 }).1;
      arrivals = rest;
    }

answer_polled :
    (fd : ℕ) (addr : SockaddrIn) (w : World) (sock : Socket) (skb : Skb) (rest : List (List Skb))
    → w.fds fd ≡ some sock
    → (read_tcp_header skb.bytes).flags ≡ 18
    → tcp_search_socket w.fds (read_tcp_header skb.bytes).dst_port ≡ some fd
    → ndev_poll (record (asked w fd sock addr) { arrivals = (skb ∷ []) ∷ rest })
      ≡ returns (after_answer w fd sock addr skb rest)
unfolding ndev_poll poll_with deliver_all after_answer asked send_flags
answer_polled fd addr w sock skb rest e flags found =
    let fds = put w.fds fd (some (asking sock addr)) in
    let base : World = record (asked w fd sock addr) { arrivals = rest } in
    ap
      (λ (d : Outcome Delivered).
        and_then d (λ r. returns (record base { fds = r.1; sent = base.sent ++ r.2 })))
      (answer-delivered w.free_memory fds fd (asking sock addr) skb flags refl
        (put_self w.fds fd (some (asking sock addr)))
        (asking-search w.fds fd (read_tcp_header skb.bytes).dst_port sock addr e ∙ found))

answer_ends_wait :
    (fd : ℕ) (addr : SockaddrIn) (w : World) (sock : Socket) (quiet : ℕ) (skb : Skb)
    (rest : List (List Skb))
    → w.fds fd ≡ some sock
    → quiet < 100
    → w.arrivals ≡ replicate quiet [] ++ (skb ∷ []) ∷ rest
    → (read_tcp_header skb.bytes).flags ≡ 18
    → tcp_search_socket w.fds (read_tcp_header skb.bytes).dst_port ≡ some fd
    → wait_loop fd established 100 (asked w fd sock addr)
      ≡ returns (pos 0, after_answer w fd sock addr skb rest)
unfolding asked send_flags after_answer
answer_ends_wait fd addr w sock quiet skb rest e short arrivals flags found =
    let asked_w = asked w fd sock addr in
    let turns : 100 ≡ quiet + suc (99 - quiet) = omega arith in
    let lone : state_is established (asked_w.fds fd) ≡ false = ground arith in
    let done : state_is established ((after_answer w fd sock addr skb rest).fds fd) ≡ true =
      ground arith in
    ap (λ (l : List (List Skb)). wait_loop fd established 100 (record asked_w { arrivals = l }))
      arrivals
    ∙ ap
        (λ (n : ℕ).
          wait_loop fd established n
            (record asked_w { arrivals = replicate quiet [] ++ (skb ∷ []) ∷ rest }))
        turns
    ∙ quiet_polls fd established quiet (suc (99 - quiet)) ((skb ∷ []) ∷ rest) asked_w lone
    ∙ wait_turn fd established (99 - quiet) (record asked_w { arrivals = (skb ∷ []) ∷ rest })
        (after_answer w fd sock addr skb rest) true
        (answer_polled fd addr w sock skb rest e flags found) done

-- On an open descriptor, when a SYN | ACK for whose port the search finds this descriptor is what
-- the device delivers after fewer than 100 polls that deliver nothing, connect returns 0; the socket
-- is then ESTABLISHED, acknowledges the peer's number plus one and has used one number for its SYN,
-- no other descriptor has changed, and what arrives later is still to come.
pub connect_answered :
    (fd : ℕ) (addr : SockaddrIn) (w : World) (sock : Socket) (quiet : ℕ) (skb : Skb)
    (rest : List (List Skb))
    → get_sock w.fds fd ≡ some sock
    → quiet < 100
    → w.arrivals ≡ replicate quiet [] ++ (skb ∷ []) ∷ rest
    → (read_tcp_header skb.bytes).flags ≡ 18
    → tcp_search_socket w.fds (read_tcp_header skb.bytes).dst_port ≡ some fd
    → (v : World) × (connect fd addr w ≡ returns (pos 0, v))
      × (s : Socket) × (v.fds fd ≡ some s)
      × (s.state ≡ established)
      × (s.ack_num ≡ ((read_tcp_header skb.bytes).seq_num + 1) % 2 ^ 32)
      × (s.seq_num ≡ (sock.seq_num + 1) % 2 ^ 32)
      × ((i : ℕ) → i ≢ fd → v.fds i ≡ w.fds i)
      × (v.arrivals ≡ rest)
unfolding close_on_error
connect_answered fd addr w sock quiet skb rest e short arrivals flags found =
    let entry : w.fds fd ≡ some sock = get_sock-entry w.fds fd sock e in
    let hdr = read_tcp_header skb.bytes in
    let done = answered w.free_memory (asking sock addr) hdr in
    (
      after_answer w fd sock addr skb rest,
      connect-wait fd addr w sock (pos 0, after_answer w fd sock addr skb rest) e
          (answer_ends_wait fd addr w sock quiet skb rest entry short arrivals flags found),
      done,
      unfold after_answer asked send_flags in
          put_self (put w.fds fd (some (asking sock addr))) fd (some done),
      refl,
      (answered-numbers w.free_memory (asking sock addr) hdr).0,
      (answered-numbers w.free_memory (asking sock addr) hdr).1 ∙ asking-numbers sock addr,
      λ i other. unfold after_answer asked send_flags in (ground arith),
      unfold after_answer in refl,
    )
