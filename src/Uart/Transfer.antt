-- ===== src/Uart/Transfer.antt =====
-- One packet of a sender in the loop of kermit_load, with no file to write to.
use Prim.{tt}
use witos.Base.{
  ℕ, suc, ◌+◌, ◌%◌, ◌^◌, ◌≡◌, refl, true, false, none, List, [], ◌∷◌, ◌++◌, ◌==◌, if◌then◌else◌,
  Bool-cases, inl, inr, length, ℤ, arith,
}
use witos.Memory.{Memory, Holds}
use witos.Uart.Kermit.{
  key_term, type_data, type_head, type_ack, enc_print, check_char, sum, char_len, decode_packet,
  send_ack_packet, Loader, test, accept, take_packet, handle_packet,
}
use witos.Uart.Sender.{quote_all, fields}
use witos.Uart.Decode.{AllBytes, decode_chars-quote_all, skip_chars-length}

pub record Packet : Type 0 where
  pub type_ : ℕ
  pub text : List ℕ

-- What a packet adds to what is loaded.
abbrev pub payload : Packet → List ℕ
payload p = if p.type_ == type_data then p.text else []

Holds-append :
    (m : Memory) (a : ℕ) (s t : List ℕ)
    → Holds m a (s ++ t)
    → Holds m a s × Holds m (a + length s) t
Holds-append m a [] t h = let here : a + 0 ≡ a = omega arith in (tt, rw here h)
Holds-append m a (c ∷ s) t (e, h) =
    let (first, second) = Holds-append m (a + 1) s t h in
    let moved : a + 1 + length s ≡ a + suc (length s) = omega arith in
    ((e, first), rw (← moved) second)

-- The characters that the switch decodes.
abbrev chars_of : Packet → List ℕ
chars_of p = if p.type_ == type_head then p.text else if p.type_ == type_data then p.text else []

decode_packet-chars_of :
    (buff : Memory) (checksum : ℕ) (p : Packet)
    → AllBytes p.text
    → buff 0 ≡ enc_print (length (quote_all p.text) + 3)
    → Holds buff 3 (quote_all p.text)
    → decode_packet buff p.type_ checksum ≡ record {
      index = 3 + length (quote_all p.text);
      checksum = checksum + sum (quote_all p.text);
      chars = chars_of p;
    }
unfolding decode_packet
decode_packet-chars_of buff checksum p bytes first there =
    let len : char_len (buff 0) ≡ suc (length (quote_all p.text)) = omega (arith, first) in
    elim (Bool-cases (p.type_ == type_head)) [
      | inl e ↦ rw (e, len) (decode_chars-quote_all buff 3 checksum p.text bytes there)
      | inr e ↦ elim (Bool-cases (p.type_ == type_data)) [
        | inl e' ↦ rw (e, e', len) (decode_chars-quote_all buff 3 checksum p.text bytes there)
        | inr e' ↦ rw (e, e', len) (skip_chars-length buff 3 checksum (quote_all p.text) there)
      ]
    ]

module _ {W : Type 0} (set_oob_mode write_out : W → List ℕ → ℤ × W) where
  -- The loader after the packet `p`.
  abbrev pub accepted : Packet → Loader set_oob_mode write_out → Loader set_oob_mode write_out
  accepted p k = record k {
    real_seq = (k.real_seq + 1) % 2 ^ 6;
    type_ = p.type_;
    file_name = if p.type_ == type_head then p.text else k.file_name;
    detected = true;
    loaded = k.loaded ++ payload p;
    load_size = k.load_size + length (payload p);
    sent = k.sent ++ send_ack_packet k.real_seq type_ack;
  }

  chars_of-payload : (p : Packet) → (if p.type_ == type_data then chars_of p else []) ≡ payload p
  chars_of-payload p = elim (Bool-cases (p.type_ == type_data)) [
    | inl e ↦ let not_head : (p.type_ == type_head) ≡ false = ground arith in rw (e, not_head) refl
    | inr e ↦ rw e refl
  ]

  chars_of-head :
      (p : Packet) (old : List ℕ)
      → (if p.type_ == type_head then chars_of p else old)
        ≡ (if p.type_ == type_head then p.text else old)
  chars_of-head p old = elim (Bool-cases (p.type_ == type_head)) [
    | inl e ↦ rw e refl
    | inr e ↦ rw e refl
  ]

  -- A buffer with the packet `p` of the number `seq`.
  abbrev pub Filled : Memory → (seq : ℕ) → Packet → Type 0
  Filled buff seq p =
      Holds buff 0
        (fields seq p.type_ p.text ++ check_char (sum (fields seq p.type_ p.text)) ∷ key_term ∷ [])

  take_packet-accepted :
      (k : Loader set_oob_mode write_out) (p : Packet)
      → k.dst ≡ none
      → k.keep ≡ true
      → AllBytes p.text
      → Filled k.buff k.real_seq p
      → take_packet set_oob_mode write_out (k.buff 0 + k.buff 1) k ≡ test (accepted p k)
  unfolding take_packet accept
  take_packet-accepted k p no_dst keep bytes filled =
      let n = length (quote_all p.text) in
      let (chars, ending) = Holds-append k.buff 3 (quote_all p.text) _ filled.1.1.1 in
      let total : k.buff 0 + k.buff 1 + p.type_ + sum (quote_all p.text)
          ≡ sum (fields k.real_seq p.type_ p.text) =
        let first = filled.0 in let second = filled.1.0 in omega arith in
      let matched : (check_char (sum (fields k.real_seq p.type_ p.text))
            == check_char (sum (fields k.real_seq p.type_ p.text)))
          ≡ true =
        ground arith in
      rw
        (
          filled.1.1.0,
          decode_packet-chars_of k.buff (k.buff 0 + k.buff 1 + p.type_) p bytes filled.0 chars,
          total,
          ending.0,
          matched,
          ending.1.0,
          chars_of-payload p,
          chars_of-head p k.file_name,
          no_dst,
          keep,
        )
        refl

  pub handle_packet-accepted :
      (k : Loader set_oob_mode write_out) (p : Packet)
      → k.dst ≡ none
      → k.keep ≡ true
      → AllBytes p.text
      → Filled k.buff k.real_seq p
      → handle_packet set_oob_mode write_out k ≡ test (accepted p k)
  unfolding handle_packet
  handle_packet-accepted k p no_dst keep bytes filled =
      let numbered : (k.buff 1 == enc_print k.real_seq) ≡ true = rw filled.1.0 (ground arith) in
      rw numbered (take_packet-accepted k p no_dst keep bytes filled)
