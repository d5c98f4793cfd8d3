-- ===== src/Net/Closing.antt =====
-- sk_close of lib/net/socket.c: what it returns, whatever arrives.
use witos.Base.{ℕ, ◌≡◌, refl, Bool-cases, ◌||◌, none, some, arith, ℤ, pos, negsuc, ◌⊎◌, inl, inr}
use witos.Net.Types.{
  TcpState, closed, syn_rcvd, established, close_wait, fin_wait1, last_ack, time_wait, is_state,
  Socket,
}
use witos.Net.Table.{get_sock}
use witos.Net.Deliver.{and_then, Ensures}
use witos.Net.Calls.{
  World, state_is, tcp_wait_for_state, put_socket, is_error, close_on_error, send_flags, release,
  linger, linger_after, sk_close,
}
use witos.Net.Connection.{
  Ensures-and_then, IsOpen, Waited, wait_loop-Waited, send_flags-IsOpen, get_sock-IsOpen,
  open_socket,
}

-- The descriptor is free and the call returned 0, or it is open and the call returned -ETIMEDOUT or
-- -EINVAL.
abbrev pub Closed : (fd : ℕ) → ℤ × World → Type 0
Closed fd (ret, v) =
    ((ret ≡ pos 0) × (v.fds fd ≡ none))
    ⊎ (((ret ≡ negsuc 109) ⊎ (ret ≡ negsuc 21)) × IsOpen fd v.fds)

put_none : (w : World) (fd : ℕ) → (put_socket w fd none).fds fd ≡ none
put_none w fd = ground arith

release-Closed : (fd : ℕ) (w : World) → IsOpen fd w.fds → Ensures (Closed fd) (release fd w)
unfolding release
release-Closed fd w h = elim (Bool-cases (state_is closed (w.fds fd))) [
  | inl e ↦ rw e (inl (refl, put_none w fd))
  | inr e ↦ rw e (inr (inr refl, h))
]

close_on_error-IsOpen :
    (fd : ℕ) (state : TcpState) (r : ℤ × World)
    → Waited fd state r
    → IsOpen fd (close_on_error fd r).1.fds
unfolding close_on_error
close_on_error-IsOpen fd state (ret, v) (h, why) = elim (Bool-cases (is_error ret)) [
  | inl e ↦ let (sock, entry) = open_socket (v.fds fd) h in rw e (rw entry (ground arith))
  | inr e ↦ rw e h
]

linger-Closed : (fd : ℕ) (w : World) → IsOpen fd w.fds → Ensures (Closed fd) (linger fd w)
unfolding linger
linger-Closed fd w h = elim (Bool-cases (state_is time_wait (w.fds fd))) [
  | inl e ↦ rw e (
      Ensures-and_then (Waited fd closed) (Closed fd) (tcp_wait_for_state fd closed w)
        (λ r. release fd (close_on_error fd r).1) (wait_loop-Waited fd closed 100 w h)
        (λ r k. release-Closed fd (close_on_error fd r).1 (close_on_error-IsOpen fd closed r k)))
  | inr e ↦ rw e (release-Closed fd w h)
]

linger_after-Closed :
    (fd : ℕ) (state : TcpState) (r : ℤ × World)
    → Waited fd state r
    → Ensures (Closed fd) (linger_after fd r)
unfolding linger_after
linger_after-Closed fd state (ret, v) (h, inl (e, there)) = rw e (linger-Closed fd v h)
linger_after-Closed fd state (ret, v) (h, inr e) = rw e (inr (inl refl, h))

-- The FIN is sent and the peer is waited for.
fin-Closed :
    (fd : ℕ) (w : World) (sock : Socket) (entered awaited : TcpState)
    → IsOpen fd w.fds
    → Ensures (Closed fd) (
        and_then
          (tcp_wait_for_state fd awaited (send_flags w fd sock 17 entered))
          (linger_after fd))
fin-Closed fd w sock entered awaited h =
    Ensures-and_then (Waited fd awaited) (Closed fd)
      (tcp_wait_for_state fd awaited (send_flags w fd sock 17 entered)) (linger_after fd)
      (wait_loop-Waited fd awaited 100 (send_flags w fd sock 17 entered)
        (send_flags-IsOpen w fd sock 17 entered h))
      (λ r k. linger_after-Closed fd awaited r k)

-- Whatever arrives during the polls, sk_close on an open descriptor frees it exactly when it returns
-- 0; otherwise it returns -ETIMEDOUT or -EINVAL and leaves the descriptor open. A segment that ends
-- in BUG() is the exception.
pub sk_close-Closed :
    (fd : ℕ) (w : World) (sock : Socket)
    → get_sock w.fds fd ≡ some sock
    → Ensures (Closed fd) (sk_close fd w)
unfolding sk_close
sk_close-Closed fd w sock e =
    let h : IsOpen fd w.fds = get_sock-IsOpen w.fds fd sock e in
    rw (e, sk_close)
      (elim (Bool-cases (is_state sock.state close_wait)) [
        | inl a ↦ rw a (fin-Closed fd w sock last_ack closed h)
        | inr a ↦
            elim (Bool-cases (is_state sock.state established || is_state sock.state syn_rcvd)) [
              | inl b ↦ rw (a, b) (fin-Closed fd w sock fin_wait1 time_wait h)
              | inr b ↦ rw (a, b) (linger-Closed fd w h)
            ]
      ])
