-- ===== src/Net/Connection.antt =====
-- connect of lib/net/socket.c: what it returns, whatever arrives.
use witos.Base.{
  ℕ, zero, suc, ◌*◌, ◌≡◌, refl, Bool, true, false, Bool-cases, Option, none, some, List, [], ◌∷◌,
  ◌++◌, arith, ℤ, pos, negsuc, ◌⊎◌, inl, inr,
}
use witos.Net.Types.{
  Skb, SockaddrIn, TcpState, closed, syn_sent, established, is_state-equal, Socket, SockFds, Sent,
  TcpHeader,
}
use witos.Net.Table.{put, get_sock, is_none, tcp_search_socket}
use witos.Net.Send.{tcp_send_packet, read_tcp_header}
use witos.Net.Deliver.{
  Outcome, returns, hangs, and_then, Ensures, tcp_layer_deliver, empty_skb, Delivered, deliver_to,
  deliver_found, update_socket, tcp_segment_arrives, skb_pull,
}
use witos.Net.Calls.{
  World, deliver_all, poll_with, ndev_poll, state_is, wait_loop, tcp_wait_for_state, close_on_error,
  send_flags, connect, with_state, put_socket,
}

pub Ensures-and_then :
    {A B : Type 0} (P : A → Type 0) (Q : B → Type 0) (result : Outcome A) (f : A → Outcome B)
    → Ensures P result
    → ((a : A) → P a → Ensures Q (f a))
    → Ensures Q (and_then result f)
Ensures-and_then P Q (returns a) f h next = next a h
Ensures-and_then P Q hangs f h next = tt

-- Descriptor `fd` is open.
abbrev pub IsOpen : ℕ → SockFds → Type 0
IsOpen fd fds = is_none (fds fd) ≡ false

pub put-IsOpen :
    (fds : SockFds) (fd i : ℕ) (sock : Socket) → IsOpen fd fds → IsOpen fd (put fds i (some sock))
put-IsOpen fds fd i sock h = ground arith

update_socket-IsOpen :
    (fds : SockFds) (fd i : ℕ) (result : Outcome (Socket × List Sent))
    → IsOpen fd fds
    → Ensures (λ (r : Delivered). IsOpen fd r.1) (update_socket fds i result)
update_socket-IsOpen fds fd i hangs h = tt
update_socket-IsOpen fds fd i (returns r) h = put-IsOpen fds fd i r.0 h

deliver_to-IsOpen :
    (free_memory : Bool) (fds : SockFds) (hdr : TcpHeader) (skb : Skb) (fd i : ℕ)
    (entry : Option Socket)
    → IsOpen fd fds
    → Ensures (λ (r : Delivered). IsOpen fd r.1) (deliver_to free_memory fds hdr skb i entry)
unfolding deliver_to
deliver_to-IsOpen free_memory fds hdr skb fd i none h = tt
deliver_to-IsOpen free_memory fds hdr skb fd i (some sock) h =
    update_socket-IsOpen fds fd i (tcp_segment_arrives free_memory sock hdr skb) h

deliver_found-IsOpen :
    (free_memory : Bool) (fds : SockFds) (hdr : TcpHeader) (skb : Skb) (fd : ℕ) (found : Option ℕ)
    → IsOpen fd fds
    → Ensures (λ (r : Delivered). IsOpen fd r.1) (deliver_found free_memory fds hdr skb found)
unfolding deliver_found
deliver_found-IsOpen free_memory fds hdr skb fd none h = h
deliver_found-IsOpen free_memory fds hdr skb fd (some i) h =
    deliver_to-IsOpen free_memory fds hdr skb fd i (fds i) h

tcp_layer_deliver-IsOpen :
    (free_memory : Bool) (fds : SockFds) (skb : Skb) (fd : ℕ)
    → IsOpen fd fds
    → Ensures (λ (r : Delivered). IsOpen fd r.1) (tcp_layer_deliver free_memory fds skb)
unfolding tcp_layer_deliver
tcp_layer_deliver-IsOpen free_memory fds skb fd h =
    let hdr = read_tcp_header skb.bytes in
    deliver_found-IsOpen free_memory fds hdr (skb_pull skb (4 * hdr.hdr_len)) fd
      (tcp_search_socket fds hdr.dst_port) h

deliver_all-IsOpen :
    (w : World) (skbs : List Skb) (fd : ℕ)
    → IsOpen fd w.fds
    → Ensures (λ (v : World). IsOpen fd v.fds) (deliver_all w skbs)
unfolding deliver_all
deliver_all-IsOpen w [] fd h = h
deliver_all-IsOpen w (skb ∷ skbs) fd h =
    Ensures-and_then (λ (r : Delivered). IsOpen fd r.1) (λ (v : World). IsOpen fd v.fds)
      (tcp_layer_deliver w.free_memory w.fds skb)
      (λ r. deliver_all (record w { fds = r.1; sent = w.sent ++ r.2 }) skbs)
      (tcp_layer_deliver-IsOpen w.free_memory w.fds skb fd h)
      (λ r k. deliver_all-IsOpen (record w { fds = r.1; sent = w.sent ++ r.2 }) skbs fd k)

poll_with-IsOpen :
    (w : World) (arrivals : List (List Skb)) (fd : ℕ)
    → IsOpen fd w.fds
    → Ensures (λ (v : World). IsOpen fd v.fds) (poll_with w arrivals)
unfolding poll_with
poll_with-IsOpen w [] fd h = h
poll_with-IsOpen w (skbs ∷ rest) fd h = deliver_all-IsOpen (record w { arrivals = rest }) skbs fd h

-- The wait ends in the state that was asked for, or with -ETIMEDOUT; the descriptor stays open.
abbrev pub Waited : (fd : ℕ) → TcpState → ℤ × World → Type 0
Waited fd state (ret, v) =
    IsOpen fd v.fds × (((ret ≡ pos 0) × (state_is state (v.fds fd) ≡ true)) ⊎ (ret ≡ negsuc 109))

pub wait_loop-Waited :
    (fd : ℕ) (state : TcpState) (turns : ℕ) (w : World)
    → IsOpen fd w.fds
    → Ensures (Waited fd state) (wait_loop fd state turns w)
unfolding wait_loop ndev_poll
wait_loop-Waited fd state zero w h = (h, inr refl)
wait_loop-Waited fd state (suc turns) w h =
    Ensures-and_then (λ (v : World). IsOpen fd v.fds) (Waited fd state) (poll_with w w.arrivals)
      (λ v. elim (state_is state (v.fds fd)) [
        | true ↦ returns (pos 0, v)
        | false ↦ wait_loop fd state turns v
      ])
      (poll_with-IsOpen w w.arrivals fd h)
      (λ v k. elim (Bool-cases (state_is state (v.fds fd))) [
        | inl e ↦ rw e (k, inl (refl, e))
        | inr e ↦ rw e (wait_loop-Waited fd state turns v k)
      ])

-- Descriptor `fd` is open and its socket is in the state.
abbrev pub IsIn : (fd : ℕ) → TcpState → World → Type 0
IsIn fd state w = (sock : Socket) × (w.fds fd ≡ some sock) × (sock.state ≡ state)

state_is-IsIn :
    (fd : ℕ) (state : TcpState) (w : World) (entry : Option Socket)
    → w.fds fd ≡ entry
    → state_is state entry ≡ true
    → IsIn fd state w
state_is-IsIn fd state w none e h = absurd (cc)
state_is-IsIn fd state w (some sock) e h = (sock, e, is_state-equal sock.state state h)

pub open_socket :
    (entry : Option Socket) → is_none entry ≡ false → (sock : Socket) × (entry ≡ some sock)
open_socket none h = absurd (cc)
open_socket (some sock) h = (sock, refl)

pub put_socket-IsIn :
    (fd : ℕ) (state : TcpState) (w : World)
    → IsOpen fd w.fds
    → IsIn fd state (put_socket w fd (with_state (w.fds fd) state))
put_socket-IsIn fd state w h =
    let (sock, e) = open_socket (w.fds fd) h in
    (record sock { state = state }, rw e (ground arith), refl)

-- connect's last step, once the wait is over.
abbrev pub Connected : (fd : ℕ) → ℤ × World → Type 0
Connected fd (ret, v) =
    ((ret ≡ pos 0) × IsIn fd established v) ⊎ ((ret ≡ negsuc 109) × IsIn fd closed v)

close_on_error-Connected :
    (fd : ℕ) (r : ℤ × World) → Waited fd established r → Connected fd (close_on_error fd r)
unfolding close_on_error
close_on_error-Connected fd (ret, v) (open_fd, inl (e, h)) =
    inl (e, rw e (state_is-IsIn fd established v (v.fds fd) refl h))
close_on_error-Connected fd (ret, v) (open_fd, inr e) =
    inr (e, rw e (put_socket-IsIn fd closed v open_fd))

pub get_sock-IsOpen :
    (fds : SockFds) (fd : ℕ) (sock : Socket) → get_sock fds fd ≡ some sock → IsOpen fd fds
get_sock-IsOpen fds fd sock e = ground arith

pub send_flags-IsOpen :
    (w : World) (fd : ℕ) (sock : Socket) (flags : ℕ) (state : TcpState)
    → IsOpen fd w.fds
    → IsOpen fd (send_flags w fd sock flags state).fds
unfolding send_flags
send_flags-IsOpen w fd sock flags state h =
    put-IsOpen w.fds fd fd (record (tcp_send_packet sock empty_skb flags).0 { state = state }) h

-- Whatever arrives during the polls, connect on an open descriptor either returns 0 with its socket
-- ESTABLISHED or returns -ETIMEDOUT with its socket CLOSED, unless a segment that arrives ends in
-- BUG().
pub connect-Connected :
    (fd : ℕ) (addr : SockaddrIn) (w : World) (sock : Socket)
    → get_sock w.fds fd ≡ some sock
    → Ensures (Connected fd) (connect fd addr w)
unfolding connect
connect-Connected fd addr w sock e =
    rw (e, connect)
      (Ensures-and_then (Waited fd established) (Connected fd)
        (tcp_wait_for_state fd established
          (send_flags w fd (record sock { dst = addr }) 2 syn_sent))
        (λ r. returns (close_on_error fd r))
        (wait_loop-Waited fd established 100
          (send_flags w fd (record sock { dst = addr }) 2 syn_sent)
          (send_flags-IsOpen w fd (record sock { dst = addr }) 2 syn_sent
            (get_sock-IsOpen w.fds fd sock e)))
        (λ r h. close_on_error-Connected fd r h))
