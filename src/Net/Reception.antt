-- ===== src/Net/Reception.antt =====
-- tcp_segment_arrives, the switch of tcp_layer_deliver in driver/net/core/net.c: what becomes of the
-- payload and of the number that is acknowledged.
use witos.Base.{
  ℕ, ◌+◌, ◌^◌, ◌%◌, ◌≡◌, ◌≢◌, refl, sym, subst, Bool, true, false, Bool-cases, Option, none, some,
  List, [], ◌∷◌, ◌++◌, ◌==◌, not, arith, ◌⊎◌, inl, inr,
}
use witos.Net.Types.{Skb, TcpState, syn_sent, established, is_state, Socket, Sent, TcpHeader}
use witos.Net.Send.{tcp_send_packet, advance_seq}
use witos.Net.Deliver.{
  Outcome, Ensures, tcp_send_ack, fin_state, deliver_syn, deliver_data, enter_state, deliver_fin,
  tcp_segment_arrives,
}
use witos.Net.Machine.{HasSyn, HasFin, tcp_segment_arrives-Branch}

-- The segments whose payload is taken: one with payload and FIN or ACK, and any with ACK | PSH.
abbrev pub Carries : (flags size : ℕ) → Type 0
Carries flags size = (HasFin flags × (size ≢ 0)) ⊎ ((flags ≡ 16) × (size ≢ 0)) ⊎ (flags ≡ 24)

-- The queue and the numbers of the socket afterwards.
abbrev pub Received : TcpHeader → Skb → (before after : Socket) → Type 0
Received hdr skb before after =
    (after.seq_num ≡ before.seq_num)
    × ((Carries hdr.flags skb.size
          × (after.rx_qu ≡ before.rx_qu ++ skb ∷ [])
          × (after.ack_num ≡ (hdr.seq_num + skb.size) % 2 ^ 32))
        ⊎ ((HasSyn hdr.flags ⊎ (HasFin hdr.flags × (skb.size ≡ 0)))
            × (after.rx_qu ≡ before.rx_qu)
            × (after.ack_num ≡ (hdr.seq_num + 1) % 2 ^ 32))
        ⊎ (¬ Carries hdr.flags skb.size
            × (¬ HasSyn hdr.flags)
            × (¬ (HasFin hdr.flags × (skb.size ≡ 0)))
            × (after.rx_qu ≡ before.rx_qu)
            × (after.ack_num ≡ before.ack_num)))

send_ack-same : (free_memory : Bool) (sock : Socket) → (tcp_send_ack free_memory sock).0 ≡ sock
unfolding tcp_send_ack tcp_send_packet advance_seq
send_ack-same true sock = refl
send_ack-same false sock = refl

deliver_syn-Received :
    (free_memory : Bool) (sock : Socket) (hdr : TcpHeader) (skb : Skb)
    → HasSyn hdr.flags
    → Ensures
        (λ (r : Socket × List Sent). Received hdr skb sock r.0)
        (deliver_syn free_memory sock hdr)
unfolding deliver_syn
deliver_syn-Received free_memory sock hdr skb syn =
    let asked : Socket = record sock { ack_num = (hdr.seq_num + 1) % 2 ^ 32 } in
    let acked = tcp_send_ack free_memory asked in
    elim (Bool-cases (is_state acked.0.state syn_sent)) [
      | inl e ↦ rw e (
          subst (λ (s : Socket). Received hdr skb sock (record s { state = established }))
            (sym (send_ack-same free_memory asked)) (refl, inr (inl (inl syn, refl, refl))))
      | inr e ↦ rw e tt
    ]

deliver_data-Received :
    (free_memory : Bool) (sock : Socket) (hdr : TcpHeader) (skb : Skb)
    → Carries hdr.flags skb.size
    → Ensures
        (λ (r : Socket × List Sent). Received hdr skb sock r.0)
        (deliver_data free_memory sock hdr skb)
unfolding deliver_data
deliver_data-Received free_memory sock hdr skb carries =
    subst (Received hdr skb sock)
      (sym (
        send_ack-same free_memory record sock {
          ack_num = (hdr.seq_num + skb.size) % 2 ^ 32;
          rx_qu = sock.rx_qu ++ skb ∷ [];
        }))
      (refl, inl (carries, refl, refl))

enter_state-Received :
    (free_memory : Bool) (sock : Socket) (hdr : TcpHeader) (skb : Skb) (after : Option TcpState)
    → HasFin hdr.flags
    → skb.size ≡ 0
    → Ensures
        (λ (r : Socket × List Sent). Received hdr skb sock r.0)
        (enter_state free_memory sock hdr after)
unfolding enter_state
enter_state-Received free_memory sock hdr skb none fin empty = tt
enter_state-Received free_memory sock hdr skb (some state) fin empty =
    subst (Received hdr skb sock)
      (sym (
        send_ack-same free_memory
          record sock { ack_num = (hdr.seq_num + 1) % 2 ^ 32; state = state }))
      (refl, inr (inl (inr (fin, empty), refl, refl)))

deliver_fin-Received :
    (free_memory : Bool) (sock : Socket) (hdr : TcpHeader) (skb : Skb)
    → HasFin hdr.flags
    → Ensures
        (λ (r : Socket × List Sent). Received hdr skb sock r.0)
        (deliver_fin free_memory sock hdr skb)
unfolding deliver_fin
deliver_fin-Received free_memory sock hdr skb fin = elim (Bool-cases (skb.size == 0)) [
  | inl e ↦ rw e (
      enter_state-Received free_memory sock hdr skb (fin_state sock.state (not (hdr.flags == 1)))
        fin (ground arith))
  | inr e ↦ rw e (deliver_data-Received free_memory sock hdr skb (inl (fin, ground arith)))
]

-- A segment that the socket takes without BUG() is queued once, behind what is queued, exactly when
-- its payload is to be taken, and the number acknowledged is then its sequence number plus its
-- length; a SYN or a FIN with no payload is acknowledged as one byte; otherwise queue and number stay.
-- The socket's own sequence number never changes.
pub tcp_segment_arrives-Received :
    (free_memory : Bool) (sock : Socket) (hdr : TcpHeader) (skb : Skb)
    → Ensures
        (λ (r : Socket × List Sent). Received hdr skb sock r.0)
        (tcp_segment_arrives free_memory sock hdr skb)
tcp_segment_arrives-Received free_memory sock hdr skb =
    let Goal = λ (t : Outcome (Socket × List Sent)).
      Ensures (λ (r : Socket × List Sent). Received hdr skb sock r.0) t in
    elim (tcp_segment_arrives-Branch free_memory sock hdr skb) [
      | inl (syn, e) ↦ subst Goal (sym e) (deliver_syn-Received free_memory sock hdr skb syn)
      | inr (inl (fin, e)) ↦ subst Goal (sym e) (deliver_fin-Received free_memory sock hdr skb fin)
      | inr (inr (inl (ack, empty, e))) ↦
          subst Goal (sym e)
            (refl, inr (inr (ground arith, ground arith, ground arith, refl, refl)))
      | inr (inr (inr (inl (inl (ack, some_data), e)))) ↦
          subst Goal (sym e)
            (deliver_data-Received free_memory sock hdr skb (inr (inl (ack, some_data))))
      | inr (inr (inr (inl (inr push, e)))) ↦
          subst Goal (sym e) (deliver_data-Received free_memory sock hdr skb (inr (inr push)))
      | inr (inr (inr (inr (a, b, c, d, e)))) ↦
          subst Goal (sym e)
            (refl, inr (inr (ground arith, ground arith, ground arith, refl, refl)))
    ]
