-- ===== src/Uart/Kermit.antt =====
-- lib/uart/kermit.c: kermit_load and send_ack_packet. The bytes that the line gives are a list, and a
-- read past its end waits, which is none. `buff` is a memory of its own: writes behind its 128 bytes
-- are not followed. At `curr_addr` the list of the bytes that have been passed by is kept; the
-- bytes of a packet that is refused lie behind it and are not. The image types are not modelled:
-- `set_oob_mode` is what image_type_detect and the ioctl make of the open file, `write_out` what write
-- makes of it.
use Prim.Native.Nat.{bit_and, bit_or}
use witos.Base.{
  ℕ, zero, suc, ◌+◌, ◌-◌, ◌/◌, ◌%◌, ◌^◌, Bool, true, false, Option, none, some, List, [], ◌∷◌, ◌++◌,
  ◌==◌, ◌>>=◌, if◌then◌else◌, ℤ, pos, negsuc, length,
}
use witos.Memory.{Memory, write}

abbrev pub mark_start : ℕ
mark_start = 1

abbrev pub type_data : ℕ
type_data = b'D'

abbrev pub type_ack : ℕ
type_ack = b'Y'

abbrev pub type_nack : ℕ
type_nack = b'N'

abbrev pub type_head : ℕ
type_head = b'F'

abbrev pub type_break : ℕ
type_break = b'B'

abbrev pub key_space : ℕ
key_space = 0x20

abbrev pub key_sharp : ℕ
key_sharp = 0x23

abbrev pub key_term : ℕ
key_term = 0x0d

-- ENC_PRINT
abbrev pub enc_print : ℕ → ℕ
enc_print c = c + key_space

-- The character for a sum of bytes: a mask by 0x3f is a remainder, a shift by 6 a quotient.
abbrev pub check_char : ℕ → ℕ
check_char checksum = key_space + (checksum + checksum / 2 ^ 6 % 4) % 2 ^ 6

abbrev pub until_nul : List ℕ → List ℕ
until_nul [] = []
until_nul (c ∷ s) = if c == 0 then [] else c ∷ until_nul s

abbrev pub sum : List ℕ → ℕ
sum [] = 0
sum (c ∷ s) = c + sum s

-- send_ack_packet: the bytes that it sends.
unfoldable pub send_ack_packet : (seq type_ : ℕ) → List ℕ
send_ack_packet seq type_ =
    let body = until_nul (enc_print 3 ∷ (seq + key_space) % 2 ^ 8 ∷ type_ ∷ []) in
    until_nul (mark_start ∷ (body ++ check_char (sum body) % 2 ^ 8 ∷ key_term ∷ []))

-- while (MARK_START != uart_recv_byte());
unfoldable pub skip_to_mark : List ℕ → Option (List ℕ)
skip_to_mark [] = none
skip_to_mark (c ∷ input) = if c == mark_start then some input else skip_to_mark input

-- The bytes up to the terminator are written from `index` on.
unfoldable pub recv_packet : List ℕ → (index : ℕ) → Memory → Option (Memory × List ℕ)
recv_packet [] index buff = none
recv_packet (c ∷ input) index buff =
    if c == key_term
    then some (write buff index c, input)
    else recv_packet input (index + 1) (write buff index c)

-- What a character behind a sharp stands for; a mask by ~0x40 keeps the other bits of the byte.
unfoldable pub unquote : ℕ → ℕ
unquote c =
    if bit_and c 0x60 == 0x40
    then bit_and c 0xbf
    else if bit_and c 0x7f == 0x3f
    then bit_or c 0x40
    else c

-- Where the loops over the characters stop: the index, the sum, and the characters decoded.
pub record Decoded : Type 0 where
  pub index : ℕ
  pub checksum : ℕ
  pub chars : List ℕ

abbrev pub decoded : ℕ → Decoded → Decoded
decoded c d = record d { chars = c ∷ d.chars }

-- The loop of a head or data packet, `while (len > 1)`.
unfoldable pub decode_chars : Memory → (len index checksum : ℕ) → Decoded
unfolding unquote
decode_chars buff zero index checksum = record { index = index; checksum = checksum; chars = [] }
decode_chars buff (suc zero) index checksum = record {
  index = index;
  checksum = checksum;
  chars = [];
}
decode_chars buff (suc (suc len)) index checksum = elim (buff index == key_sharp) [
  | true ↦
      decoded (unquote (buff (index + 1)))
        (decode_chars buff len (index + 2) (checksum + buff index + buff (index + 1)))
  | false ↦ decoded (buff index) (decode_chars buff (suc len) (index + 1) (checksum + buff index))
]

-- The loop of any other packet.
unfoldable pub skip_chars : Memory → (len index checksum : ℕ) → Decoded
skip_chars buff zero index checksum = record { index = index; checksum = checksum; chars = [] }
skip_chars buff (suc zero) index checksum = record {
  index = index;
  checksum = checksum;
  chars = [];
}
skip_chars buff (suc (suc len)) index checksum =
    skip_chars buff (suc len) (index + 1) (checksum + buff index)

-- `len` after its two decrements. Where the code's is negative this is 0, and no loop runs either way.
abbrev pub char_len : ℕ → ℕ
char_len first = first - key_space - 2

unfoldable pub decode_packet : Memory → (type_ checksum : ℕ) → Decoded
unfolding decode_chars skip_chars
decode_packet buff type_ checksum =
    if type_ == type_head
    then decode_chars buff (char_len (buff 0)) 3 checksum
    else if type_ == type_data
    then decode_chars buff (char_len (buff 0)) 3 checksum
    else skip_chars buff (char_len (buff 0)) 3 checksum

abbrev pub is_negative : ℤ → Bool
is_negative (pos n) = false
is_negative (negsuc n) = true

module _ {W : Type 0} (set_oob_mode write_out : W → List ℕ → ℤ × W) where
  -- The variables of kermit_load and what it changes. `dst` is the open file if there is one, `keep`
  -- whether there is a load address.
  pub record Loader : Type 0 where
    pub real_seq : ℕ
    pub type_ : ℕ
    pub buff : Memory
    pub keep : Bool
    pub loaded : List ℕ
    pub load_size : ℕ
    pub file_name : List ℕ
    pub dst : Option W
    pub detected : Bool
    pub sent : List ℕ

  -- The characters of a data packet go to the open file, whose image type is looked for once; without
  -- a file `detected` is not read.
  unfoldable pub write_dst : Option W → (detected : Bool) → List ℕ → ℤ × Option W
  write_dst none detected chars = (pos 0, none)
  write_dst (some w) detected chars =
      let (ret, ready) = if detected then (pos 0, w) else set_oob_mode w chars in
      let (wrote, after) = write_out ready chars in
      if is_negative ret then (ret, some ready) else (wrote, some after)

  -- What a packet leads to: the test at the end of the loop, or the label `error`.
  pub data Next : Type 0 where
    test : Loader → Next
    error : Loader → Next

  -- What follows a packet whose check is right; only a data packet moves `count`.
  unfoldable pub accept : (seq : ℕ) → (chars : List ℕ) → Loader → Next
  unfolding write_dst send_ack_packet
  accept seq chars k =
      let (ret, dst) = write_dst k.dst k.detected chars in
      if is_negative ret
      then error (record k { dst = dst; detected = true })
      else test (record k {
        dst = dst;
        detected = true;
        loaded = if k.keep then k.loaded ++ chars else k.loaded;
        load_size = k.load_size + length chars;
        sent = k.sent ++ send_ack_packet seq type_ack;
      })

  -- A packet with the right number, from its type on; `checksum` is the sum so far.
  unfoldable pub take_packet : (checksum : ℕ) → Loader → Next
  unfolding decode_packet accept
  take_packet checksum k =
      let type_ = k.buff 2 in
      let d = decode_packet k.buff type_ (checksum + type_) in
      let seq = k.real_seq in
      let named = if type_ == type_head then d.chars else k.file_name in
      let ahead = record k {
        real_seq = (k.real_seq + 1) % 2 ^ 6;
        type_ = type_;
        file_name = named;
      } in
      if k.buff d.index == check_char d.checksum
      then (if k.buff (d.index + 1) == key_term
          then accept seq (if type_ == type_data then d.chars else []) ahead
          else error ahead)
      else test (record ahead { sent = k.sent ++ send_ack_packet ahead.real_seq type_nack })

  -- The packet in `buff`.
  unfoldable pub handle_packet : Loader → Next
  unfolding take_packet
  handle_packet k =
      if k.buff 1 == enc_print k.real_seq
      then take_packet (k.buff 0 + k.buff 1) k
      else test (record k { sent = k.sent ++ send_ack_packet k.real_seq type_nack })

  -- The test at the end of the loop, and the return values; none is a loader that waits for input.
  abbrev pub go_on : (Loader → Option (ℤ × Loader)) → Next → Option (ℤ × Loader)
  go_on loop (error k) = some (negsuc 13, k)
  go_on loop (test k) = if k.type_ == type_break then some (pos k.load_size, k) else loop k

  unfoldable pub kermit_loop : (rounds : ℕ) → List ℕ → Loader → Option (ℤ × Loader)
  unfolding skip_to_mark recv_packet handle_packet
  kermit_loop zero input k = none
  kermit_loop (suc rounds) input k = skip_to_mark input >>= (λ marked.
      recv_packet marked 0 k.buff >>= (λ packet.
        go_on (kermit_loop rounds packet.1) (handle_packet (record k { buff = packet.0 }))))

  -- `rest` is what the buffer holds before the first packet; each round takes at least a byte.
  unfoldable pub kermit_load :
      (keep : Bool) → Option W → (rest : Memory) → List ℕ → Option (ℤ × Loader)
  unfolding kermit_loop
  kermit_load keep dst rest input = kermit_loop (length input + 1) input record {
    real_seq = 0;
    type_ = type_break;
    buff = rest;
    keep = keep;
    loaded = [];
    load_size = 0;
    file_name = [];
    dst = dst;
    detected = false;
    sent = [];
  }
