-- ===== src/Uart/Decode.antt =====
-- What the loops of kermit_load make of a packet in the buffer.
use Prim.{Unit, tt}
use witos.Base.{
  ℕ, suc, ◌+◌, ◌<◌, ◌≡◌, refl, ◌∙◌, true, false, some, List, [], ◌∷◌, ◌++◌, ◌==◌, inl, inr, length,
  arith,
}
use witos.Memory.{Memory, write, Holds}
use witos.Uart.Kermit.{
  key_sharp, key_term, sum, unquote, recv_packet, decoded, decode_chars, skip_chars,
}
use witos.Uart.Sender.{quote, quote_all, Quotes, quote-Quotes}

abbrev pub AllBytes : List ℕ → Type 0
AllBytes [] = Unit {0}
AllBytes (c ∷ s) = (c < 256) × AllBytes s

abbrev pub NoTerm : List ℕ → Type 0
NoTerm [] = Unit {0}
NoTerm (c ∷ s) = ((c == key_term) ≡ false) × NoTerm s

pub NoTerm-append : (s t : List ℕ) → NoTerm s → NoTerm t → NoTerm (s ++ t)
NoTerm-append [] t hs ht = ht
NoTerm-append (c ∷ s) t hs ht = (hs.0, NoTerm-append s t hs.1 ht)

pub quote_all-NoTerm : (text : List ℕ) → AllBytes text → NoTerm (quote_all text)
quote_all-NoTerm [] h = tt
quote_all-NoTerm (c ∷ text) (lt, h) = elim (quote-Quotes c lt) [
  | inl (e, plain, no_term) ↦ rw e (no_term, quote_all-NoTerm text h)
  | inr (y, e, back, no_term) ↦ rw e (refl, (no_term, quote_all-NoTerm text h))
]

decode_plain :
    (buff : Memory) (len index checksum c : ℕ)
    → buff index ≡ c
    → (c == key_sharp) ≡ false
    → decode_chars buff (suc (suc len)) index checksum
      ≡ decoded c (decode_chars buff (suc len) (index + 1) (checksum + c))
unfolding decode_chars
decode_plain buff len index checksum c e plain = rw (e, plain, decode_chars) (rw e refl)

decode_quoted :
    (buff : Memory) (len index checksum y : ℕ)
    → buff index ≡ key_sharp
    → buff (index + 1) ≡ y
    → decode_chars buff (suc (suc (suc len))) index checksum
      ≡ decoded (unquote y) (decode_chars buff (suc len) (index + 2) (checksum + key_sharp + y))
unfolding decode_chars
decode_quoted buff len index checksum y e e' = rw (e, decode_chars) (rw (e, e') refl)

-- One character before the quoted ones of `text`.
decode_step :
    (buff : Memory) (index checksum c : ℕ) (s rest text : List ℕ)
    → Quotes c s
    → Holds buff index (s ++ rest)
    → ((i n : ℕ)
        → Holds buff i rest
        → decode_chars buff (suc (length rest)) i n
          ≡ record { index = i + length rest; checksum = n + sum rest; chars = text })
    → decode_chars buff (suc (length (s ++ rest))) index checksum ≡ record {
      index = index + length (s ++ rest);
      checksum = checksum + sum (s ++ rest);
      chars = c ∷ text;
    }
decode_step buff index checksum c s rest text (inl (e, plain, no_term)) there decodes =
    let held = rw e at there in
    let moved : index + 1 + length rest ≡ index + suc (length rest) = omega arith in
    let summed : checksum + c + sum rest ≡ checksum + (c + sum rest) = omega arith in
    rw e (
      decode_plain buff (length rest) index checksum c held.0 plain
      ∙ rw (decodes (index + 1) (checksum + c) held.1, moved, summed) refl)
decode_step buff index checksum c s rest text (inr (y, e, back, no_term)) there decodes =
    let held = rw e at there in
    let there' : Holds buff (index + 2) rest =
      let two : index + 1 + 1 ≡ index + 2 = omega arith in rw two at held.1.1 in
    let moved : index + 2 + length rest ≡ index + suc (suc (length rest)) = omega arith in
    let summed : checksum + key_sharp + y + sum rest ≡ checksum + (key_sharp + (y + sum rest)) =
      omega arith in
    rw e (
      decode_quoted buff (length rest) index checksum y held.0 held.1.0
      ∙ rw (decodes (index + 2) (checksum + key_sharp + y) there', moved, summed, back) refl)

-- Quoted characters in the buffer are decoded to the text.
pub decode_chars-quote_all :
    (buff : Memory) (index checksum : ℕ) (text : List ℕ)
    → AllBytes text
    → Holds buff index (quote_all text)
    → decode_chars buff (suc (length (quote_all text))) index checksum ≡ record {
      index = index + length (quote_all text);
      checksum = checksum + sum (quote_all text);
      chars = text;
    }
unfolding decode_chars
decode_chars-quote_all buff index checksum [] h there =
    let moved : index + 0 ≡ index = omega arith in
    let summed : checksum + 0 ≡ checksum = omega arith in rw (moved, summed) refl
decode_chars-quote_all buff index checksum (c ∷ text) (lt, h) there =
    decode_step buff index checksum c (quote c) (quote_all text) text (quote-Quotes c lt) there
      (λ i n. decode_chars-quote_all buff i n text h)

pub skip_chars-length :
    (buff : Memory) (index checksum : ℕ) (s : List ℕ)
    → Holds buff index s
    → skip_chars buff (suc (length s)) index checksum
      ≡ record { index = index + length s; checksum = checksum + sum s; chars = [] }
unfolding skip_chars
skip_chars-length buff index checksum [] there =
    let moved : index + 0 ≡ index = omega arith in
    let summed : checksum + 0 ≡ checksum = omega arith in rw (moved, summed) refl
skip_chars-length buff index checksum (c ∷ s) there =
    let moved : index + 1 + length s ≡ index + suc (length s) = omega arith in
    let summed : checksum + c + sum s ≡ checksum + (c + sum s) = omega arith in
    rw (there.0, skip_chars-length buff (index + 1) (checksum + c) s there.1, moved, summed) refl

-- The bytes up to the terminator are in the buffer afterwards, and the rest of the input is left.
pub recv_packet-NoTerm :
    (s rest : List ℕ) (index : ℕ) (buff : Memory)
    → NoTerm s
    → (after : Memory) × (recv_packet (s ++ key_term ∷ rest) index buff ≡ some (after, rest))
      × Holds after index (s ++ key_term ∷ [])
      × ((a : ℕ) → a < index → after a ≡ buff a)
unfolding recv_packet
recv_packet-NoTerm [] rest index buff h = (
  write buff index key_term,
  refl,
  (let itself : (index == index) ≡ true = ground arith in rw itself refl, tt),
  λ a lt. let other : (a == index) ≡ false = ground arith in rw other refl,
)
recv_packet-NoTerm (c ∷ s) rest index buff (e, h) =
    let (after, run, held, kept) = recv_packet-NoTerm s rest (index + 1) (write buff index c) h in
    let itself : (index == index) ≡ true = ground arith in
    (
      after,
      rw e run,
      (kept index (omega arith) ∙ rw itself refl, held),
      λ a lt.
          let other : (a == index) ≡ false = ground arith in kept a (omega arith) ∙ rw other refl,
    )
