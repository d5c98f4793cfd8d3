-- ===== src/Net/Polls.antt =====
-- The loop of tcp_wait_for_state in lib/net/socket.c, poll by poll.
use witos.Base.{
  ℕ, zero, suc, ◌+◌, ◌≡◌, refl, ap, ◌∙◌, Bool, true, false, List, [], ◌∷◌, ◌++◌, arith, ℤ, pos,
  negsuc, replicate,
}
use witos.Net.Types.{Skb, TcpState}
use witos.Net.Deliver.{Outcome, returns, and_then}
use witos.Net.Calls.{World, deliver_all, poll_with, ndev_poll, state_is, wait_loop}

-- One turn of the wait, by what the poll leaves.
pub wait_turn :
    (fd : ℕ) (state : TcpState) (turns : ℕ) (w v : World) (b : Bool)
    → ndev_poll w ≡ returns v
    → state_is state (v.fds fd) ≡ b
    → wait_loop fd state (suc turns) w ≡ elim b as (λ (x : Bool). Outcome (ℤ × World)) [
      | true ↦ returns (pos 0, v)
      | false ↦ wait_loop fd state turns v
    ]
unfolding wait_loop
wait_turn fd state turns w v b e h =
    ap
      (λ (r : Outcome World). and_then r (λ (u : World). elim (state_is state (u.fds fd)) [
        | true ↦ returns (pos 0, u)
        | false ↦ wait_loop fd state turns u
      ]))
      e
    ∙ ap
        (λ (x : Bool). elim x as (λ (y : Bool). Outcome (ℤ × World)) [
          | true ↦ returns (pos 0, v)
          | false ↦ wait_loop fd state turns v
        ])
        h

-- Polls that deliver nothing use up their turns and change nothing.
pub quiet_polls :
    (fd : ℕ) (state : TcpState) (quiet turns : ℕ) (rest : List (List Skb)) (w : World)
    → state_is state (w.fds fd) ≡ false
    → wait_loop fd state (quiet + turns) (record w { arrivals = replicate quiet [] ++ rest })
      ≡ wait_loop fd state turns (record w { arrivals = rest })
unfolding ndev_poll poll_with deliver_all
quiet_polls fd state zero turns rest w h = let e : 0 + turns ≡ turns = omega arith in rw e refl
quiet_polls fd state (suc quiet) turns rest w h =
    let e : suc quiet + turns ≡ suc (quiet + turns) = omega arith in
    let more = replicate quiet [] ++ rest in
    rw e (
      wait_turn fd state (quiet + turns) (record w { arrivals = [] ∷ more })
        (record w { arrivals = more }) false refl h
      ∙ quiet_polls fd state quiet turns rest w h)

-- When the device delivers nothing at all, the wait times out.
pub no_polls :
    (fd : ℕ) (state : TcpState) (turns : ℕ) (w : World)
    → w.arrivals ≡ []
    → state_is state (w.fds fd) ≡ false
    → wait_loop fd state turns w ≡ returns (negsuc 109, w)
unfolding ndev_poll poll_with
no_polls fd state zero w e h = unfold wait_loop in refl
no_polls fd state (suc turns) w e h =
    wait_turn fd state turns w w false (ap (poll_with w) e) h ∙ no_polls fd state turns w e h
