-- ===== src/Net/Machine.antt =====
-- tcp_layer_deliver of driver/net/core/net.c as a state machine: how an arriving segment moves the
-- state of its socket, and which segments end in BUG().
use witos.Base.{
  ℕ, ◌+◌, ◌^◌, ◌%◌, ◌≡◌, ◌≢◌, refl, Bool, List, [], ◌∷◌, ◌++◌, arith, ◌⊎◌, inl, inr, true, false,
  not, ◌==◌, if◌then◌else◌, Option, none, some, Bool-cases, subst, sym, ◌∙◌,
}
use witos.Net.Types.{
  Skb, TcpState, closed, listen, syn_sent, syn_rcvd, established, close_wait, fin_wait1, fin_wait2,
  closing, last_ack, time_wait, is_state, is_state-equal, Socket, Sent, TcpHeader,
}
use witos.Net.Send.{tcp_send_packet}
use witos.Net.Deliver.{
  Outcome, returns, hangs, fin_state, ack_state, deliver_syn, deliver_data, deliver_fin,
  enter_state, tcp_segment_arrives, tcp_send_ack,
}

abbrev pub HasSyn : ℕ → Type 0
HasSyn flags = (flags ≡ 2) ⊎ (flags ≡ 18)

abbrev pub HasFin : ℕ → Type 0
HasFin flags = (flags ≡ 1) ⊎ (flags ≡ 17) ⊎ (flags ≡ 25)

-- How a segment with these flags and this much payload moves a state.
pub data Move (flags size : ℕ) : TcpState → TcpState → Type 0 where
  synchronised : HasSyn flags → Move flags size syn_sent established
  peer_closes : HasFin flags → size ≡ 0 → Move flags size established close_wait
  both_close : flags ≡ 1 → size ≡ 0 → Move flags size fin_wait1 closing
  acked_close : (flags ≡ 17) ⊎ (flags ≡ 25) → size ≡ 0 → Move flags size fin_wait1 time_wait
  peer_closes_too : HasFin flags → size ≡ 0 → Move flags size fin_wait2 time_wait
  fin_acked : flags ≡ 16 → size ≡ 0 → Move flags size fin_wait1 fin_wait2
  closing_acked : flags ≡ 16 → size ≡ 0 → Move flags size closing time_wait
  last_acked : flags ≡ 16 → size ≡ 0 → Move flags size last_ack closed
  bare_ack :
      (state : TcpState)
      → flags ≡ 16
      → size ≡ 0
      → state ≢ fin_wait1
      → state ≢ closing
      → state ≢ last_ack
      → Move flags size state state
  payload :
      (state : TcpState) → HasFin flags ⊎ (flags ≡ 16) → size ≢ 0 → Move flags size state state
  pushed : (state : TcpState) → flags ≡ 24 → Move flags size state state
  ignored :
      (state : TcpState)
      → ¬ HasSyn flags
      → ¬ HasFin flags
      → flags ≢ 16
      → flags ≢ 24
      → Move flags size state state

-- The segments that end in BUG().
abbrev pub IsFatal : (flags size : ℕ) → TcpState → Type 0
IsFatal flags size state =
    (HasSyn flags × (state ≢ syn_sent))
    ⊎ (HasFin flags
        × (size ≡ 0)
        × (state ≢ established)
        × (state ≢ fin_wait1)
        × (state ≢ fin_wait2))

-- The five ways through the switch on the flags.
abbrev Branch :
    (free_memory : Bool) → Socket → TcpHeader → Skb → Outcome (Socket × List Sent) → Type 0
Branch free_memory sock hdr skb result =
    (HasSyn hdr.flags × (result ≡ deliver_syn free_memory sock hdr))
    ⊎ (HasFin hdr.flags × (result ≡ deliver_fin free_memory sock hdr skb))
    ⊎ ((hdr.flags ≡ 16)
        × (skb.size ≡ 0)
        × (result ≡ returns (record sock { state = ack_state sock.state }, [])))
    ⊎ ((((hdr.flags ≡ 16) × (skb.size ≢ 0)) ⊎ (hdr.flags ≡ 24))
        × (result ≡ deliver_data free_memory sock hdr skb))
    ⊎ (¬ HasSyn hdr.flags
        × ¬ HasFin hdr.flags
        × (hdr.flags ≢ 16)
        × (hdr.flags ≢ 24)
        × (result ≡ returns (sock, [])))

pub tcp_segment_arrives-Branch :
    (free_memory : Bool) (sock : Socket) (hdr : TcpHeader) (skb : Skb)
    → Branch free_memory sock hdr skb (tcp_segment_arrives free_memory sock hdr skb)
unfolding tcp_segment_arrives
tcp_segment_arrives-Branch free_memory sock hdr skb = ground arith

pub send_ack-state :
    (free_memory : Bool) (sock : Socket) → (tcp_send_ack free_memory sock).0.state ≡ sock.state
unfolding tcp_send_ack tcp_send_packet
send_ack-state true sock = refl
send_ack-state false sock = refl

-- What a handler's outcome says of the move from `state`.
abbrev pub Arrives : (flags size : ℕ) → TcpState → Outcome (Socket × List Sent) → Type 0
Arrives flags size state (returns r) = Move flags size state r.0.state
Arrives flags size state hangs = IsFatal flags size state

pub deliver_syn-Arrives :
    (free_memory : Bool) (sock : Socket) (hdr : TcpHeader) (size : ℕ)
    → HasSyn hdr.flags
    → Arrives hdr.flags size sock.state (deliver_syn free_memory sock hdr)
unfolding deliver_syn
deliver_syn-Arrives free_memory sock hdr size syn =
    let acked = tcp_send_ack free_memory record sock { ack_num = (hdr.seq_num + 1) % 2 ^ 32 } in
    let same : acked.0.state ≡ sock.state =
      send_ack-state free_memory record sock { ack_num = (hdr.seq_num + 1) % 2 ^ 32 } in
    elim (Bool-cases (is_state acked.0.state syn_sent)) [
      | inl e ↦ rw e (
          subst (λ (st : TcpState). Move hdr.flags size st established)
            (sym (is_state-equal acked.0.state syn_sent e) ∙ same) (synchronised syn))
      | inr e ↦ rw e (inl (syn, λ is. absurd (cc (e, same, is))))
    ]

FinArrives : (flags size : ℕ) → TcpState → Option TcpState → Type 0
FinArrives flags size state (some after) = Move flags size state after
FinArrives flags size state none = (state ≢ established) × (state ≢ fin_wait1) × (state ≢ fin_wait2)

fin_wait1-Move :
    (flags size : ℕ)
    → HasFin flags
    → size ≡ 0
    → Move flags size fin_wait1 (if not (flags == 1) then time_wait else closing)
fin_wait1-Move flags size h empty = elim (Bool-cases (flags == 1)) [
  | inl e ↦ rw e (both_close (ground arith) empty)
  | inr e ↦ rw e (acked_close (ground arith) empty)
]

fin_state-FinArrives :
    (flags size : ℕ) (state : TcpState)
    → HasFin flags
    → size ≡ 0
    → FinArrives flags size state (fin_state state (not (flags == 1)))
unfolding fin_state FinArrives
fin_state-FinArrives flags size TcpState.fin_wait1 h empty = fin_wait1-Move flags size h empty
fin_state-FinArrives flags size TcpState.fin_wait2 h empty = peer_closes_too h empty
fin_state-FinArrives flags size TcpState.established h empty = peer_closes h empty
fin_state-FinArrives flags size TcpState.closed h empty = (λ e. cc, λ e. cc, λ e. cc)
fin_state-FinArrives flags size TcpState.listen h empty = (λ e. cc, λ e. cc, λ e. cc)
fin_state-FinArrives flags size TcpState.syn_sent h empty = (λ e. cc, λ e. cc, λ e. cc)
fin_state-FinArrives flags size TcpState.syn_rcvd h empty = (λ e. cc, λ e. cc, λ e. cc)
fin_state-FinArrives flags size TcpState.close_wait h empty = (λ e. cc, λ e. cc, λ e. cc)
fin_state-FinArrives flags size TcpState.closing h empty = (λ e. cc, λ e. cc, λ e. cc)
fin_state-FinArrives flags size TcpState.last_ack h empty = (λ e. cc, λ e. cc, λ e. cc)
fin_state-FinArrives flags size TcpState.time_wait h empty = (λ e. cc, λ e. cc, λ e. cc)

pub deliver_data-Arrives :
    (free_memory : Bool) (sock : Socket) (hdr : TcpHeader) (skb : Skb)
    → Move hdr.flags skb.size sock.state sock.state
    → Arrives hdr.flags skb.size sock.state (deliver_data free_memory sock hdr skb)
unfolding deliver_data
deliver_data-Arrives free_memory sock hdr skb m =
    subst (Move hdr.flags skb.size sock.state)
      (sym (
        send_ack-state free_memory record sock {
          ack_num = (hdr.seq_num + skb.size) % 2 ^ 32;
          rx_qu = sock.rx_qu ++ skb ∷ [];
        }))
      m

enter_state-Arrives :
    (free_memory : Bool) (sock : Socket) (hdr : TcpHeader) (size : ℕ) (after : Option TcpState)
    → HasFin hdr.flags
    → size ≡ 0
    → FinArrives hdr.flags size sock.state after
    → Arrives hdr.flags size sock.state (enter_state free_memory sock hdr after)
unfolding enter_state FinArrives
enter_state-Arrives free_memory sock hdr size none fin empty (a, b, c) = inr (fin, empty, a, b, c)
enter_state-Arrives free_memory sock hdr size (some state) fin empty h =
    subst (Move hdr.flags size sock.state)
      (sym (
        send_ack-state free_memory
          record sock { ack_num = (hdr.seq_num + 1) % 2 ^ 32; state = state }))
      h

pub deliver_fin-Arrives :
    (free_memory : Bool) (sock : Socket) (hdr : TcpHeader) (skb : Skb)
    → HasFin hdr.flags
    → Arrives hdr.flags skb.size sock.state (deliver_fin free_memory sock hdr skb)
unfolding deliver_fin
deliver_fin-Arrives free_memory sock hdr skb fin = elim (Bool-cases (skb.size == 0)) [
  | inl e ↦
      let empty : skb.size ≡ 0 = ground arith in
      rw e (
        enter_state-Arrives free_memory sock hdr skb.size
          (fin_state sock.state (not (hdr.flags == 1))) fin empty
          (fin_state-FinArrives hdr.flags skb.size sock.state fin empty))
  | inr e ↦
      rw e (
        deliver_data-Arrives free_memory sock hdr skb (payload sock.state (inl fin) (ground arith)))
]

pub ack_state-Move :
    (flags size : ℕ) (state : TcpState)
    → flags ≡ 16
    → size ≡ 0
    → Move flags size state (ack_state state)
unfolding ack_state
ack_state-Move flags size TcpState.fin_wait1 h empty = fin_acked h empty
ack_state-Move flags size TcpState.closing h empty = closing_acked h empty
ack_state-Move flags size TcpState.last_ack h empty = last_acked h empty
ack_state-Move flags size TcpState.closed h empty =
    bare_ack closed h empty (λ e. cc) (λ e. cc) (λ e. cc)
ack_state-Move flags size TcpState.listen h empty =
    bare_ack listen h empty (λ e. cc) (λ e. cc) (λ e. cc)
ack_state-Move flags size TcpState.syn_sent h empty =
    bare_ack syn_sent h empty (λ e. cc) (λ e. cc) (λ e. cc)
ack_state-Move flags size TcpState.syn_rcvd h empty =
    bare_ack syn_rcvd h empty (λ e. cc) (λ e. cc) (λ e. cc)
ack_state-Move flags size TcpState.established h empty =
    bare_ack established h empty (λ e. cc) (λ e. cc) (λ e. cc)
ack_state-Move flags size TcpState.close_wait h empty =
    bare_ack close_wait h empty (λ e. cc) (λ e. cc) (λ e. cc)
ack_state-Move flags size TcpState.fin_wait2 h empty =
    bare_ack fin_wait2 h empty (λ e. cc) (λ e. cc) (λ e. cc)
ack_state-Move flags size TcpState.time_wait h empty =
    bare_ack time_wait h empty (λ e. cc) (λ e. cc) (λ e. cc)
