-- ===== src/Uart/Ymodem.antt =====
-- lib/uart/ymodem.c: ymodem_load. What the line does is a list of events: a byte arrives, or a read with a
-- timeout waits in vain. After the events nothing arrives: a loop that goes on waiting is none. At
-- `curr_addr` the bytes of the blocks are kept when there is a load address. The struct loader_opt is a
-- memory of bytes from its file_name on, which has 256 bytes, with the pointer dst of four behind it. The
-- image types and what fd_bdev refers to are parameters as in Kermit; the messages are left out.
use Prim.Native.Nat.{bit_xor}
use witos.Base.{
  ℕ, zero, suc, ◌+◌, ◌%◌, ◌^◌, Bool, false, not, ◌||◌, Option, none, some, List, [], ◌∷◌, ◌++◌,
  ◌==◌, ◌>>=◌, if◌then◌else◌, ℤ, pos, length, drop,
}
use witos.Memory.{Memory, write}
use witos.Uart.Kermit.{is_negative, write_dst}

abbrev pub soh : ℕ
soh = 0x01

abbrev pub stx : ℕ
stx = 0x02

abbrev pub eot : ℕ
eot = 0x04

abbrev pub ack : ℕ
ack = 0x06

abbrev pub nak : ℕ
nak = 0x15

abbrev pub can : ℕ
can = 0x18

-- A byte, or a timeout.
abbrev pub Event : Type 0
Event = Option ℕ

-- uart_recv_byte waits without a timeout.
unfoldable pub recv_byte : List Event → Option (ℕ × List Event)
recv_byte [] = none
recv_byte (none ∷ input) = recv_byte input
recv_byte (some c ∷ input) = some (c, input)

-- Up to the first timeout.
unfoldable pub uart_clear_buff : List Event → List Event
uart_clear_buff [] = []
uart_clear_buff (none ∷ input) = input
uart_clear_buff (some c ∷ input) = uart_clear_buff input

abbrev pub modem_end_rx : List ℕ
modem_end_rx = ack ∷ can ∷ can ∷ can ∷ can ∷ can ∷ can ∷ []

-- The first loop: the size of the first block, what has been sent, and the events left.
unfoldable pub wait_first : List Event → (sent : List ℕ) → Option (ℕ × List ℕ × List Event)
wait_first [] sent = none
wait_first (none ∷ input) sent = wait_first input (sent ++ b'C' ∷ [])
wait_first (some c ∷ input) sent =
    let sent' = sent ++ b'C' ∷ [] in
    let rest = wait_first input sent' in
    if c == soh
    then some (128, sent', input)
    else if c == stx
    then some (1024, sent', input)
    else rest

abbrev pub file_name_size : ℕ
file_name_size = 256

-- opt->dst is not NULL.
abbrev pub has_dst : (opt : Memory) → Bool
has_dst opt = not (opt 256 == 0) || not (opt 257 == 0) || not (opt 258 == 0) || not (opt 259 == 0)

-- for (count = 0; count < size; count++), which may run over file_name into dst: a byte that does not arrive leaves its place as it was.
unfoldable pub recv_name : (left count : ℕ) → Memory → List Event → Memory × List Event
recv_name zero count name input = (name, input)
recv_name (suc left) count name [] = (name, [])
recv_name (suc left) count name (none ∷ input) = recv_name left (suc count) name input
recv_name (suc left) count name (some c ∷ input) =
    let name' = write name count c in
    let rest = recv_name left (suc count) name' input in if c == 0 then (name', input) else rest

-- What starts a block, or ends the file.
pub data Start : Type 0 where
  block : (size : ℕ) → Start
  done : Start

unfoldable pub wait_start : List Event → Option (Start × List Event)
wait_start [] = none
wait_start (none ∷ input) = wait_start input
wait_start (some c ∷ input) =
    let rest = wait_start input in
    if c == soh
    then some (block 128, input)
    else if c == stx
    then some (block 1024, input)
    else if c == eot
    then some (done, input)
    else rest

-- The bytes of a block, up to `size` of them or to a timeout.
unfoldable pub recv_block : (size : ℕ) → List Event → List ℕ × List Event
recv_block zero input = ([], input)
recv_block (suc size) [] = ([], [])
recv_block (suc size) (none ∷ input) = ([], input)
recv_block (suc size) (some c ∷ input) = let r = recv_block size input in (c ∷ r.0, r.1)

module _ {W : Type 0} (set_oob_mode write_out : W → List ℕ → ℤ × W) where
  -- The variables of ymodem_load, and what it changes.
  pub record Modem : Type 0 where
    pub blk : ℕ
    pub keep : Bool
    pub loaded : List ℕ
    pub load_size : ℕ
    pub opt : Memory
    -- What fd_bdev refers to.
    pub file : W
    pub detected : Bool
    pub sent : List ℕ

  -- What a block leads to: the next round, or the label `error`.
  pub data Next : Type 0 where
    next : Modem → Next
    error : ℤ → Modem → Next

  -- A block with the right number, once its bytes are read; the two bytes of its checksum are not used.
  unfoldable pub take_data : List ℕ → Modem → Next
  take_data chars y =
      let dst = if has_dst y.opt then some y.file else none in
      let (ret, after) = write_dst set_oob_mode write_out dst y.detected chars in
      let written : Modem = record y {
        file = elim after [ none ↦ y.file | some w ↦ w ];
        detected = y.detected || has_dst y.opt;
      } in
      if is_negative ret
      then error ret written
      else next record written {
        blk = (y.blk + 1) % 2 ^ 8;
        loaded = if y.keep then y.loaded ++ chars else y.loaded;
        load_size = y.load_size + length chars;
        sent = y.sent ++ ack ∷ [];
      }

  abbrev pub go_on : (Modem → Option (ℤ × Modem)) → Next → Option (ℤ × Modem)
  go_on loop (next y) = loop y
  go_on loop (error ret y) = some (ret, y)

  -- A block whose start has been read; `loop` makes the next round.
  unfoldable pub recv_numbered :
      (loop : List Event → Modem → Option (ℤ × Modem))
      → (size : ℕ) → List Event
      → Modem
      → Option (ℤ × Modem)
  recv_numbered loop size input y = do
    first ← recv_byte input
    second ← recv_byte first.1
    if not (bit_xor first.0 second.0 == 0xff) || not (first.0 == y.blk)
        then loop (uart_clear_buff second.1) record y { sent = y.sent ++ nak ∷ [] }
        else (let r = recv_block size second.1 in go_on (loop (drop 2 r.1)) (take_data r.0 y))

  -- The second loop; `rounds` is more than the events that are left.
  unfoldable pub ymodem_loop : (rounds : ℕ) → List Event → Modem → Option (ℤ × Modem)
  unfolding recv_numbered
  ymodem_loop zero input y = none
  ymodem_loop (suc rounds) input y = wait_start input >>= (λ s. elim s.0 [
    | done ↦ some (pos y.load_size, record y { sent = y.sent ++ modem_end_rx })
    | block size ↦ recv_numbered (ymodem_loop rounds) size s.1 y
  ])

  -- From the loop for the first block on.
  unfoldable pub ymodem_receive :
      (keep : Bool) → (file : W) → (opt : Memory) → List Event → Option (ℤ × Modem)
  unfolding ymodem_loop
  ymodem_receive keep file opt input = do
    (size, sent, started) ← wait_first input []
    first ← recv_byte started
    second ← recv_byte first.1
    let named = recv_name size 0 opt second.1
    let cleared = uart_clear_buff named.1
    ymodem_loop (length input + 1) cleared record {
      blk = 1;
      keep = keep;
      loaded = [];
      load_size = 0;
      opt = named.0;
      file = file;
      detected = false;
      sent = sent ++ ack ∷ b'C' ∷ [];
    }

  -- `opened` is what open of opt->dst returns and the file that it opens; `fd0` is what the
  -- descriptor 0 refers to, which fd_bdev is without it.
  unfoldable pub ymodem_load :
      (keep : Bool)
      → (opened : ℤ × W) → (fd0 : W) → (opt : Memory) → List Event
      → Option (ℤ × Modem)
  unfolding ymodem_receive
  ymodem_load keep opened fd0 opt input =
      let start : Modem = record {
        blk = 0;
        keep = keep;
        loaded = [];
        load_size = 0;
        opt = opt;
        file = fd0;
        detected = false;
        sent = [];
      } in
      if has_dst opt
      then (if is_negative opened.0
          then some (opened.0, start)
          else ymodem_receive keep opened.1 opt input)
      else ymodem_receive keep fd0 opt input
