-- ===== src/Net/Arrival.antt =====
-- tcp_segment_arrives, the switch of tcp_layer_deliver in driver/net/core/net.c: the moves of the
-- state that it makes, and when it stops the machine.
use witos.Base.{ℕ, ◌≡◌, refl, Bool, List, arith, inl, inr, ◌↔◌, sym, subst}
use witos.Net.Types.{Skb, TcpState, Socket, Sent, TcpHeader}
use witos.Net.Deliver.{Outcome, returns, hangs, tcp_segment_arrives}
use witos.Net.Machine.{
  Move, synchronised, peer_closes, both_close, acked_close, peer_closes_too, fin_acked,
  closing_acked, last_acked, bare_ack, payload, pushed, ignored, IsFatal, Arrives,
  tcp_segment_arrives-Branch, deliver_syn-Arrives, deliver_fin-Arrives, deliver_data-Arrives,
  ack_state-Move,
}

-- A segment that arrives for a socket moves its state along the diagram of Move, or ends in BUG() and
-- is then one of the fatal ones: SYN in another state than SYN_SENT, or FIN with no payload in another
-- state than ESTABLISHED, FIN_WAIT1 and FIN_WAIT2.
pub tcp_segment_arrives-Arrives :
    (free_memory : Bool) (sock : Socket) (hdr : TcpHeader) (skb : Skb)
    → Arrives hdr.flags skb.size sock.state (tcp_segment_arrives free_memory sock hdr skb)
tcp_segment_arrives-Arrives free_memory sock hdr skb =
    let Goal = Arrives hdr.flags skb.size sock.state in
    elim (tcp_segment_arrives-Branch free_memory sock hdr skb) [
      | inl (syn, e) ↦ subst Goal (sym e) (deliver_syn-Arrives free_memory sock hdr skb.size syn)
      | inr (inl (fin, e)) ↦ subst Goal (sym e) (deliver_fin-Arrives free_memory sock hdr skb fin)
      | inr (inr (inl (ack, empty, e))) ↦
          subst Goal (sym e) (ack_state-Move hdr.flags skb.size sock.state ack empty)
      | inr (inr (inr (inl (inl (ack, some_data), e)))) ↦
          subst Goal (sym e)
            (deliver_data-Arrives free_memory sock hdr skb (payload sock.state (inr ack) some_data))
      | inr (inr (inr (inl (inr push, e)))) ↦
          subst Goal (sym e)
            (deliver_data-Arrives free_memory sock hdr skb (pushed sock.state push))
      | inr (inr (inr (inr (a, b, c, d, e)))) ↦ subst Goal (sym e) (ignored sock.state a b c d)
    ]

Move-survives :
    (flags size : ℕ) (before after : TcpState)
    → Move flags size before after
    → ¬ IsFatal flags size before
Move-survives flags size before after (synchronised a) = λ fatal. ground arith
Move-survives flags size before after (peer_closes a b) = λ fatal. ground arith
Move-survives flags size before after (both_close a b) = λ fatal. ground arith
Move-survives flags size before after (acked_close a b) = λ fatal. ground arith
Move-survives flags size before after (peer_closes_too a b) = λ fatal. ground arith
Move-survives flags size before after (fin_acked a b) = λ fatal. ground arith
Move-survives flags size before after (closing_acked a b) = λ fatal. ground arith
Move-survives flags size before after (last_acked a b) = λ fatal. ground arith
Move-survives flags size before after (bare_ack state a b c d e) = λ fatal. ground arith
Move-survives flags size before after (payload state a b) = λ fatal. ground arith
Move-survives flags size before after (pushed state a) = λ fatal. ground arith
Move-survives flags size before after (ignored state a b c d) = λ fatal. ground arith

fatal_hangs :
    (flags size : ℕ) (state : TcpState) (result : Outcome (Socket × List Sent))
    → Arrives flags size state result
    → IsFatal flags size state
    → result ≡ hangs
fatal_hangs flags size state hangs h fatal = refl
fatal_hangs flags size state (returns r) h fatal =
    absurd (Move-survives flags size state r.0.state h fatal)

-- A segment ends in BUG() exactly when it is one of the fatal ones, so a peer that sends its SYN or
-- its FIN again stops the machine.
pub tcp_segment_arrives-hangs :
    (free_memory : Bool) (sock : Socket) (hdr : TcpHeader) (skb : Skb)
    → (tcp_segment_arrives free_memory sock hdr skb ≡ hangs) ↔ IsFatal hdr.flags skb.size sock.state
tcp_segment_arrives-hangs free_memory sock hdr skb = (
  λ e.
      subst (Arrives hdr.flags skb.size sock.state) e
        (tcp_segment_arrives-Arrives free_memory sock hdr skb),
  λ fatal.
      fatal_hangs hdr.flags skb.size sock.state (tcp_segment_arrives free_memory sock hdr skb)
        (tcp_segment_arrives-Arrives free_memory sock hdr skb) fatal,
)
