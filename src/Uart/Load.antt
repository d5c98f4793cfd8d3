-- ===== src/Uart/Load.antt =====
-- kermit_load on what a sender sends.
use Prim.{Unit, tt}
use mathlib.Core.List.{append_assoc}
use witos.Base.{
  ℕ, zero, suc, ◌+◌, ◌%◌, ◌^◌, ◌≤◌, ◌<◌, ◌≡◌, refl, ap, subst, sym, ◌∙◌, true, false, none, some,
  List, [], ◌∷◌, ◌++◌, ◌==◌, length, length-append, ℤ, pos, arith,
}
use witos.Memory.{Memory, Holds}
use witos.Uart.Kermit.{
  mark_start, key_term, type_break, type_ack, check_char, sum, skip_to_mark, recv_packet,
  send_ack_packet, Loader, Next, test, handle_packet, go_on, kermit_loop, kermit_load,
}
use witos.Uart.Sender.{quote_all, fields, packet}
use witos.Uart.Decode.{AllBytes, NoTerm, NoTerm-append, quote_all-NoTerm, recv_packet-NoTerm}
use witos.Uart.Transfer.{Packet, payload, accepted, handle_packet-accepted}

-- A packet that the protocol allows: its characters are bytes, its length is one that a character
-- can tell, so that the packet fits into the buffer, and its type does not end a packet.
pub record IsPacket (p : Packet) : Type 0 where
  pub bytes : AllBytes p.text
  pub short : length (quote_all p.text) ≤ 91
  pub no_term : (p.type_ == key_term) ≡ false

-- Packets before the break that ends the transfer.
abbrev pub ArePackets : List Packet → Type 0
ArePackets [] = Unit {0}
ArePackets (p ∷ ps) = IsPacket p × ((p.type_ == type_break) ≡ false) × ArePackets ps

abbrev pub break_packet : Packet
break_packet = record { type_ = type_break; text = [] }

-- The packets and the break, numbered from `seq` on modulo 64.
abbrev pub transmit : (seq : ℕ) → List Packet → List ℕ
transmit seq [] = packet seq type_break []
transmit seq (p ∷ ps) = packet seq p.type_ p.text ++ transmit ((seq + 1) % 2 ^ 6) ps

abbrev pub payloads : List Packet → List ℕ
payloads [] = []
payloads (p ∷ ps) = payload p ++ payloads ps

-- The acknowledgements of the packets and of the break.
abbrev pub acks : (seq : ℕ) → List Packet → List ℕ
acks seq [] = send_ack_packet seq type_ack
acks seq (p ∷ ps) = send_ack_packet seq type_ack ++ acks ((seq + 1) % 2 ^ 6) ps

skip_to_mark-mark : (input : List ℕ) → skip_to_mark (mark_start ∷ input) ≡ some input
unfolding skip_to_mark
skip_to_mark-mark input = refl

packet-NoTerm :
    (seq : ℕ) (p : Packet)
    → IsPacket p
    → NoTerm (fields seq p.type_ p.text ++ check_char (sum (fields seq p.type_ p.text)) ∷ [])
packet-NoTerm seq p is =
    NoTerm-append (fields seq p.type_ p.text) _
      (ground arith, (ground arith, (is.no_term, quote_all-NoTerm p.text is.bytes)))
      (ground arith, tt)

-- The packet behind its mark is in the buffer afterwards.
recv_packet-packet :
    (seq : ℕ) (p : Packet) (rest : List ℕ) (buff : Memory)
    → IsPacket p
    → (after : Memory) × (recv_packet
          ((fields seq p.type_ p.text
              ++ check_char (sum (fields seq p.type_ p.text)) ∷ key_term ∷ [])
            ++ rest)
          0
          buff
        ≡ some (after, rest))
      × Holds after 0 (
          fields seq p.type_ p.text ++ check_char (sum (fields seq p.type_ p.text)) ∷ key_term ∷ [])
recv_packet-packet seq p rest buff is =
    let front = fields seq p.type_ p.text in
    let check = check_char (sum front) in
    let (after, run, held, kept) =
      recv_packet-NoTerm (front ++ check ∷ []) rest 0 buff (packet-NoTerm seq p is) in
    (
      after,
      ap (λ (s : List ℕ). recv_packet s 0 buff)
            (append_assoc front (check ∷ key_term ∷ []) rest
              ∙ sym (append_assoc front (check ∷ []) (key_term ∷ rest)))
          ∙ run,
      subst (λ (s : List ℕ). Holds after 0 s) (append_assoc front (check ∷ []) (key_term ∷ []))
          held,
    )

module _ {W : Type 0} (set_oob_mode write_out : W → List ℕ → ℤ × W) where
  kermit_loop-round :
      (rounds : ℕ) (input marked rest : List ℕ) (buff : Memory) (k : Loader set_oob_mode write_out)
      (next : Next set_oob_mode write_out)
      → skip_to_mark input ≡ some marked
      → recv_packet marked 0 k.buff ≡ some (buff, rest)
      → handle_packet set_oob_mode write_out (record k { buff = buff }) ≡ next
      → kermit_loop set_oob_mode write_out (suc rounds) input k
        ≡ go_on set_oob_mode write_out (kermit_loop set_oob_mode write_out rounds rest) next
  unfolding kermit_loop
  kermit_loop-round rounds input marked rest buff k next mark recv handled =
      rw (mark, kermit_loop) (rw recv (rw handled refl))

  -- A round of the loop on a packet with the number that the loader waits for.
  kermit_loop-packet :
      (rounds : ℕ) (p : Packet) (rest : List ℕ) (k : Loader set_oob_mode write_out)
      → k.dst ≡ none
      → k.keep ≡ true
      → IsPacket p
      → (after : Memory) × (kermit_loop set_oob_mode write_out
            (suc rounds)
            (packet k.real_seq p.type_ p.text ++ rest)
            k
          ≡ go_on set_oob_mode write_out
              (kermit_loop set_oob_mode write_out rounds rest)
              (test (accepted set_oob_mode write_out p (record k { buff = after }))))
  kermit_loop-packet rounds p rest k no_dst keep is =
      let (after, recv, filled) = recv_packet-packet k.real_seq p rest k.buff is in
      (
        after,
        kermit_loop-round rounds _ _ rest after k _ (skip_to_mark-mark _) recv (
            handle_packet-accepted set_oob_mode write_out (record k { buff = after }) p no_dst keep
              is.bytes filled),
      )

  -- The loader when the transfer has ended.
  pub record Loaded (ps : List Packet) (k end : Loader set_oob_mode write_out) : Type 0 where
    pub loaded : end.loaded ≡ k.loaded ++ payloads ps
    pub load_size : end.load_size ≡ k.load_size + length (payloads ps)
    pub sent : end.sent ≡ k.sent ++ acks k.real_seq ps

  kermit_loop-transmit :
      (rounds : ℕ) (ps : List Packet) (rest : List ℕ) (k : Loader set_oob_mode write_out)
      → k.dst ≡ none
      → k.keep ≡ true
      → ArePackets ps
      → length ps < rounds
      → (end : Loader set_oob_mode write_out) × (kermit_loop set_oob_mode write_out rounds
            (transmit k.real_seq ps ++ rest)
            k
          ≡ some (pos end.load_size, end))
        × Loaded ps k end
  kermit_loop-transmit zero ps rest k no_dst keep are enough = absurd (omega arith)
  kermit_loop-transmit (suc rounds) [] rest k no_dst keep are enough =
      let (after, run) =
        kermit_loop-packet rounds break_packet rest k no_dst keep
          (record { bytes = tt; short = omega arith; no_term = refl }) in
      (
        accepted set_oob_mode write_out break_packet (record k { buff = after }),
        run,
        record { loaded = refl; load_size = refl; sent = refl },
      )
  kermit_loop-transmit (suc rounds) (p ∷ ps) rest k no_dst keep (is, more, are) enough =
      let later = transmit ((k.real_seq + 1) % 2 ^ 6) ps ++ rest in
      let (after, run) = kermit_loop-packet rounds p later k no_dst keep is in
      let (end, runs, done) =
        kermit_loop-transmit rounds ps rest
          (accepted set_oob_mode write_out p (record k { buff = after })) no_dst keep are
          (omega arith) in
      (
        end,
        ap (λ (s : List ℕ). kermit_loop set_oob_mode write_out (suc rounds) s k)
              (append_assoc (packet k.real_seq p.type_ p.text)
                (transmit ((k.real_seq + 1) % 2 ^ 6) ps) rest)
            ∙ run
            ∙ rw more runs,
        record {
          loaded = done.loaded ∙ append_assoc k.loaded (payload p) (payloads ps);
          load_size =
              let joined = length-append (payload p) (payloads ps) in
              let total = done.load_size in omega (arith, joined, total);
          sent = done.sent ∙ append_assoc k.sent (send_ack_packet k.real_seq type_ack) _;
        },
      )

  length-transmit : (seq : ℕ) (ps : List Packet) → length ps < length (transmit seq ps)
  length-transmit seq [] = omega arith
  length-transmit seq (p ∷ ps) = omega (
    arith,
    length-append (packet seq p.type_ p.text) (transmit ((seq + 1) % 2 ^ 6) ps),
    length-transmit ((seq + 1) % 2 ^ 6) ps,
  )

  -- kermit_load with a load address and no file to write to, on the packets of a sender: their numbers
  -- count modulo 64, their characters are bytes, quoted as the protocol says to at most 91, their types
  -- are neither a carriage return nor a break, and a break ends them. Whatever the buffer held, kermit_load
  -- returns the number of bytes that the data packets carry; these bytes, in order, are what it has
  -- loaded, and it has sent one acknowledgement for each packet, with its number. What the
  -- line gives behind the break does not matter.
  pub kermit_load-transmit :
      (ps : List Packet) (rest : List ℕ) (buff : Memory)
      → ArePackets ps
      → (end : Loader set_oob_mode write_out) × (kermit_load set_oob_mode write_out true none buff
            (transmit 0 ps ++ rest)
          ≡ some (pos (length (payloads ps)), end))
        × (end.loaded ≡ payloads ps)
        × (end.sent ≡ acks 0 ps)
  unfolding kermit_load
  kermit_load-transmit ps rest buff are =
      let start : Loader set_oob_mode write_out = record {
        real_seq = 0;
        type_ = type_break;
        buff = buff;
        keep = true;
        loaded = [];
        load_size = 0;
        file_name = [];
        dst = none;
        detected = false;
        sent = [];
      } in
      let (end, run, done) =
        kermit_loop-transmit (length (transmit 0 ps ++ rest) + 1) ps rest start refl refl are
          (omega (arith, length-transmit 0 ps, length-append (transmit 0 ps) rest)) in
      let size : end.load_size ≡ length (payloads ps) = let total = done.load_size in omega arith in
      (end, run ∙ rw size refl, done.loaded, done.sent)
