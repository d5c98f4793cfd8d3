-- ===== src/Uart/Blockwise.antt =====
-- ymodem_load of lib/uart/ymodem.c on what a sender sends.
use witos.Base.{
  ℕ, zero, suc, ◌+◌, ◌%◌, ◌^◌, ◌≡◌, refl, sym, ap, subst, ◌<◌, ◌⊎◌, inl, inr, ◌∙◌, Bool, true,
  false, some, none, List, [], ◌∷◌, ◌++◌, ◌==◌, if◌then◌else◌, length, ℤ, pos, arith,
}
use witos.Memory.{Memory, write, IsStr, NoNul}
use witos.Uart.Ymodem.{
  Event, ack, recv_byte, modem_end_rx, wait_first, recv_name, file_name_size, has_dst, Modem,
  ymodem_receive, ymodem_load,
}
use witos.Uart.Blocks.{
  Frame, carried, damaged, start_of, size_of, arrive, events, AreFrames, payloads, answers, opening,
}
use witos.Uart.Rounds.{ymodem_loop-events, uart_clear_buff-arrive}

length-arrive :
    (cs : List ℕ) (rest : List Event) → length (arrive cs rest) ≡ length cs + length rest
length-arrive [] rest = omega arith
length-arrive (c ∷ cs) rest = omega (arith, length-arrive cs rest)

-- The loop has rounds enough.
length-events : (blk : ℕ) (frames : List Frame) → length frames < length (events blk frames)
length-events blk [] = omega arith
length-events blk (carried large payload crc0 crc1 ∷ frames) = omega (
  arith,
  length-events ((blk + 1) % 2 ^ 8) frames,
  length-arrive payload (some crc0 ∷ some crc1 ∷ events ((blk + 1) % 2 ^ 8) frames),
)
length-events blk (damaged large a b junk ∷ frames) =
    omega (arith, length-events blk frames, length-arrive junk (none ∷ events blk frames))

-- The name of the file is stored from `count` on, with its NUL.
recv_name-IsStr :
    (left count : ℕ) (m : Memory) (name : List ℕ) (rest : List Event)
    → length name < left
    → NoNul name
    → (m' : Memory) × (recv_name left count m (arrive name (some 0 ∷ rest)) ≡ (m', rest))
      × IsStr m' count name
      × ((a : ℕ) → (a < count) ⊎ (count + length name < a) → m' a ≡ m a)
unfolding recv_name
recv_name-IsStr zero count m name rest fits text = absurd (omega arith)
recv_name-IsStr (suc left) count m [] rest fits text =
    (write m count 0, refl, ground arith, λ a out. ground arith)
recv_name-IsStr (suc left) count m (c ∷ name) rest fits text =
    let (m', run, str, same) =
      recv_name-IsStr left (suc count) (write m count c) name rest (omega arith) text.1 in
    let char : (c == 0) ≡ false = ground arith in
    let step : suc count ≡ count + 1 = omega arith in
    (
      m',
      rw char run,
      (
        ground (arith, same count (inl (omega arith))),
        text.0,
        subst (λ (n : ℕ). IsStr m' n name) step str,
      ),
      λ a out. (same a (ground arith) ∙ ground arith),
    )

wait_first-start_of :
    (large : Bool) (rest : List Event)
    → wait_first (some (start_of large) ∷ rest) [] ≡ some (size_of large, b'C' ∷ [], rest)
unfolding wait_first
wait_first-start_of true rest = refl
wait_first-start_of false rest = refl

-- With opt->dst NULL, ymodem_load of what a sender sends: the block with the name of the file, which has
-- room in file_name with its NUL, then blocks of 128 or 1024 bytes with the numbers 1, 2, …, modulo 256, between which there may be
-- damaged ones that a silence follows, then EOT. It ends and returns the number of bytes of the
-- blocks; file_name has the name with its NUL and opt->dst is still NULL; the bytes of the blocks stand in order at the load
-- address, if there is one; each block is acknowledged and each damaged one refused. The bytes of the
-- checksums are any: they do not matter.
pub ymodem_load-events :
    {W : Type 0} (set_oob_mode write_out : W → List ℕ → ℤ × W) (keep : Bool) (opened : ℤ × W)
    (fd0 : W) (before : Memory) (large : Bool) (a b : ℕ) (name padding : List ℕ)
    (frames : List Frame)
    → has_dst before ≡ false
    → length name < size_of large
    → length name < file_name_size
    → NoNul name
    → AreFrames 1 frames
    → (end : Modem set_oob_mode write_out) × (ymodem_load set_oob_mode write_out keep opened fd0
          before
          (opening large a b name padding (events 1 frames))
        ≡ some (pos (length (payloads frames)), end))
      × (end.loaded ≡ (if keep then payloads frames else []))
      × IsStr end.opt 0 name
      × (has_dst end.opt ≡ false)
      × (end.sent ≡ b'C' ∷ ack ∷ b'C' ∷ (answers frames ++ modem_end_rx))
unfolding ymodem_load ymodem_receive recv_byte
ymodem_load-events set_oob_mode write_out keep opened fd0 before large a b name padding frames
      no_dst fits room text are =
    let tail = arrive padding (none ∷ events 1 frames) in
    let input = opening large a b name padding (events 1 frames) in
    let (m, named, str, same) = recv_name-IsStr (size_of large) 0 before name tail fits text in
    let still_none : has_dst m ≡ false =
      rw
        (
          same 256 (inr (omega arith)),
          same 257 (inr (omega arith)),
          same 258 (inr (omega arith)),
          same 259 (inr (omega arith)),
        )
        no_dst in
    let start : Modem set_oob_mode write_out = record {
      blk = 1;
      keep = keep;
      loaded = [];
      load_size = 0;
      opt = m;
      file = fd0;
      detected = false;
      sent = b'C' ∷ ack ∷ b'C' ∷ [];
    } in
    let enough : length frames < length input + 1 = omega (
      arith,
      length-events 1 frames,
      length-arrive padding (none ∷ events 1 frames),
      length-arrive name (some 0 ∷ tail),
    ) in
    let (end, run, l) =
      ymodem_loop-events set_oob_mode write_out frames (length input + 1) start enough
        record { dst = still_none; byte = omega arith } are in
    let size : end.load_size ≡ length (payloads frames) = omega (arith, l.load_size) in
    (
      end,
      rw
          (
            ymodem_load,
            no_dst,
            ymodem_receive,
            wait_first-start_of large (some a ∷ some b ∷ arrive name (some 0 ∷ tail)),
            named,
            uart_clear_buff-arrive padding (events 1 frames),
            run,
          )
          (ap (λ (n : ℕ). some (pos n, end)) size),
      l.loaded,
      subst (λ (f : Memory). IsStr f 0 name) (sym l.opt) str,
      subst (λ (f : Memory). has_dst f ≡ false) (sym l.opt) still_none,
      l.sent,
    )
