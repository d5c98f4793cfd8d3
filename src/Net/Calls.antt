-- ===== src/Net/Calls.antt =====
-- The calls of lib/net/socket.c that wait for segments or send them. A World holds the table, what has
-- been sent, and what each following call of ndev_poll delivers; all of it is TCP, whatever the other
-- layers do with the rest. skb_alloc finds a block where the code does not test its result, and
-- `free_memory` is what it finds where the code does. Interrupts deliver nothing between two polls.
use witos.Base.{
  ℕ, zero, suc, ◌^◌, ◌%◌, Bool, true, false, not, ◌||◌, Option, none, some, List, [], ◌∷◌, ◌++◌,
  if◌then◌else◌, length, ℤ, pos, negsuc,
}
use witos.Net.Types.{
  Skb, SockaddrIn, TcpState, closed, syn_sent, syn_rcvd, established, close_wait, fin_wait1,
  last_ack, time_wait, is_state, Socket, SockFds, Sent,
}
use witos.Net.Table.{put, get_sock}
use witos.Net.Send.{tcp_send_packet}
use witos.Net.Deliver.{Outcome, returns, and_then, tcp_layer_deliver, empty_skb}

pub record World : Type 0 where
  pub fds : SockFds
  pub sent : List Sent
  pub arrivals : List (List Skb)
  pub free_memory : Bool

-- The packets of one poll, in order.
unfoldable pub deliver_all : World → List Skb → Outcome World
deliver_all w [] = returns w
deliver_all w (skb ∷ skbs) =
    and_then (tcp_layer_deliver w.free_memory w.fds skb)
      (λ r. deliver_all (record w { fds = r.1; sent = w.sent ++ r.2 }) skbs)

unfoldable pub poll_with : World → List (List Skb) → Outcome World
unfolding deliver_all
poll_with w [] = returns w
poll_with w (skbs ∷ rest) = deliver_all (record w { arrivals = rest }) skbs

unfoldable pub ndev_poll : World → Outcome World
unfolding poll_with
ndev_poll w = poll_with w w.arrivals

-- sock->state of an open descriptor
abbrev pub state_is : TcpState → Option Socket → Bool
state_is state none = false
state_is state (some sock) = is_state sock.state state

-- The loop of tcp_wait_for_state, with the number of polls left.
unfoldable pub wait_loop : (fd : ℕ) → TcpState → (turns : ℕ) → World → Outcome (ℤ × World)
wait_loop fd state zero w = returns (negsuc 109, w)
wait_loop fd state (suc turns) w = and_then (ndev_poll w) (λ v. elim (state_is state (v.fds fd)) [
  | true ↦ returns (pos 0, v)
  | false ↦ wait_loop fd state turns v
])

abbrev pub tcp_wait_for_state : (fd : ℕ) → TcpState → World → Outcome (ℤ × World)
tcp_wait_for_state fd state w = wait_loop fd state 100 w

abbrev pub put_socket : World → ℕ → Option Socket → World
put_socket w fd entry = record w { fds = put w.fds fd entry }

abbrev pub with_state : Option Socket → TcpState → Option Socket
with_state none state = none
with_state (some sock) state = some record sock { state = state }

abbrev pub is_error : ℤ → Bool
is_error (pos n) = false
is_error (negsuc n) = true

-- if (ret < 0) sock->state = TCPS_CLOSED
unfoldable pub close_on_error : (fd : ℕ) → ℤ × World → ℤ × World
close_on_error fd (ret, w) =
    (ret, if is_error ret then put_socket w fd (with_state (w.fds fd) closed) else w)

-- The segment is sent and the socket enters the state.
unfoldable pub send_flags : World → (fd : ℕ) → Socket → (flags : ℕ) → TcpState → World
send_flags w fd sock flags state =
    let (after, segment) = tcp_send_packet sock empty_skb flags in
    record w {
      fds = put w.fds fd (some record after { state = state });
      sent = w.sent ++ segment ∷ [];
    }

unfoldable pub connect : (fd : ℕ) → SockaddrIn → World → Outcome (ℤ × World)
unfolding send_flags close_on_error wait_loop
connect fd addr w = elim (get_sock w.fds fd) [
  | none ↦ returns (negsuc 1, w)
  | some sock ↦
      and_then
        (tcp_wait_for_state fd established
          (send_flags w fd (record sock { dst = addr }) 2 syn_sent))
        (λ r. returns (close_on_error fd r))
]

-- The end of sk_close: the socket is freed, or the call complains.
unfoldable pub release : (fd : ℕ) → World → Outcome (ℤ × World)
release fd w =
    if state_is closed (w.fds fd)
    then returns (pos 0, put_socket w fd none)
    else returns (negsuc 21, w)

-- if (TCPS_TIME_WAIT == sock->state) ... and what follows
unfoldable pub linger : (fd : ℕ) → World → Outcome (ℤ × World)
unfolding release close_on_error wait_loop
linger fd w =
    if state_is time_wait (w.fds fd)
    then and_then (tcp_wait_for_state fd closed w) (λ r. release fd (close_on_error fd r).1)
    else release fd w

-- The wait for the peer; an error of it is the result of the call.
unfoldable pub linger_after : (fd : ℕ) → ℤ × World → Outcome (ℤ × World)
unfolding linger
linger_after fd (ret, w) = if is_error ret then returns (ret, w) else linger fd w

unfoldable pub sk_close : (fd : ℕ) → World → Outcome (ℤ × World)
unfolding linger_after linger send_flags wait_loop
sk_close fd w = elim (get_sock w.fds fd) [
  | none ↦ returns (negsuc 21, w)
  | some sock ↦
      if is_state sock.state close_wait
      then and_then (tcp_wait_for_state fd closed (send_flags w fd sock 17 last_ack))
          (linger_after fd)
      else if is_state sock.state established || is_state sock.state syn_rcvd
      then and_then (tcp_wait_for_state fd time_wait (send_flags w fd sock 17 fin_wait1))
          (linger_after fd)
      else linger fd w
]

-- The result of a number of bytes is an `ssize_t`; `buf` holds the `n` bytes.
unfoldable pub send : (fd : ℕ) → (buf : List ℕ) → World → ℤ × World
send fd buf w = elim (get_sock w.fds fd) [
  | none ↦ (negsuc 21, w)
  | some sock ↦
      if not (is_state sock.state established)
      then (negsuc 4, w)
      else let packet : Skb = record { bytes = buf; size = length buf % 2 ^ 16 } in
        let (after, segment) = tcp_send_packet sock packet 24 in
        (
          pos (length buf),
          record w { fds = put w.fds fd (some after); sent = w.sent ++ segment ∷ [] },
        )
]
