-- ===== src/Uart/Rounds.antt =====
-- The rounds of the second loop of ymodem_load in lib/uart/ymodem.c, one for each block.
use Prim.Native.Nat.{bit_xor}
use mathlib.Core.List.{append_assoc, append-nil}
use witos.Base.{
  ℕ, zero, suc, ◌+◌, ◌-◌, ◌%◌, ◌^◌, ◌≡◌, refl, ap, ◌∙◌, ◌<◌, Bool, true, false, not, ◌||◌, Option,
  some, none, List, [], ◌∷◌, ◌++◌, ◌==◌, if◌then◌else◌, length, length-append, ℤ, pos, arith,
}
use witos.Uart.Kermit.{write_dst}
use witos.Uart.Ymodem.{
  Event, eot, ack, nak, recv_byte, uart_clear_buff, modem_end_rx, wait_start, block, done,
  recv_block, has_dst, Modem, take_data, recv_numbered, ymodem_loop,
}
use witos.Uart.Sender.{all_below, all_below-test}
use witos.Uart.Blocks.{
  Frame, carried, damaged, start_of, size_of, arrive, events, AreFrames, payloads, answers,
}

recv_block-arrive :
    (payload : List ℕ) (rest : List Event)
    → recv_block (length payload) (arrive payload rest) ≡ (payload, rest)
unfolding recv_block
recv_block-arrive [] rest = refl
recv_block-arrive (c ∷ payload) rest =
    ap (λ (r : List ℕ × List Event). (c ∷ r.0, r.1)) (recv_block-arrive payload rest)

pub uart_clear_buff-arrive :
    (junk : List ℕ) (rest : List Event) → uart_clear_buff (arrive junk (none ∷ rest)) ≡ rest
unfolding uart_clear_buff
uart_clear_buff-arrive [] rest = refl
uart_clear_buff-arrive (c ∷ junk) rest = uart_clear_buff-arrive junk rest

wait_start-start_of :
    (large : Bool) (rest : List Event)
    → wait_start (some (start_of large) ∷ rest) ≡ some (block (size_of large), rest)
unfolding wait_start
wait_start-start_of true rest = refl
wait_start-start_of false rest = refl

wait_start-eot : wait_start (some eot ∷ []) ≡ some (done, [])
unfolding wait_start
wait_start-eot = refl

-- The second number of a block is the complement of the first.
complement_table : all_below 256 (λ k. bit_xor k (0xff - k) == 0xff) ≡ true
complement_table = refl

complement : (k : ℕ) → k < 256 → (bit_xor k (0xff - k) == 0xff) ≡ true
complement k lt = all_below-test 256 (λ n. bit_xor n (0xff - n) == 0xff) k complement_table lt

module _ {W : Type 0} (set_oob_mode write_out : W → List ℕ → ℤ × W) where
  -- No file is open, and a block is numbered by a byte.
  pub record IsAlone (y : Modem set_oob_mode write_out) : Type 0 where
    pub dst : has_dst y.opt ≡ false
    pub byte : y.blk < 256

  -- The state behind a block.
  behind : List ℕ → Modem set_oob_mode write_out → Modem set_oob_mode write_out
  behind payload y = record y {
    blk = (y.blk + 1) % 2 ^ 8;
    loaded = if y.keep then y.loaded ++ payload else y.loaded;
    load_size = y.load_size + length payload;
    detected = y.detected || false;
    sent = y.sent ++ ack ∷ [];
  }

  recv_numbered-carried :
      (loop : List Event → Modem set_oob_mode write_out → Option (ℤ × Modem set_oob_mode write_out))
      (large : Bool) (payload : List ℕ) (crc0 crc1 : ℕ) (rest : List Event)
      (y : Modem set_oob_mode write_out)
      → IsAlone y
      → length payload ≡ size_of large
      → recv_numbered set_oob_mode write_out loop
          (size_of large)
          (some y.blk ∷ some (0xff - y.blk) ∷ arrive payload (some crc0 ∷ some crc1 ∷ rest))
          y
        ≡ loop rest (behind payload y)
  unfolding recv_numbered recv_byte take_data write_dst behind
  recv_numbered-carried loop large payload crc0 crc1 rest y alone size =
      let good = complement y.blk alone.byte in
      let same : (y.blk == y.blk) ≡ true = ground arith in
      let read = recv_block-arrive payload (some crc0 ∷ some crc1 ∷ rest) in
      rw (← size, good, same, read, alone.dst) refl

  recv_numbered-damaged :
      (loop : List Event → Modem set_oob_mode write_out → Option (ℤ × Modem set_oob_mode write_out))
      (size a b : ℕ) (junk : List ℕ) (rest : List Event) (y : Modem set_oob_mode write_out)
      → (not (bit_xor a b == 0xff) || not (a == y.blk)) ≡ true
      → recv_numbered set_oob_mode write_out loop size
          (some a ∷ some b ∷ arrive junk (none ∷ rest))
          y
        ≡ loop rest (record y { sent = y.sent ++ nak ∷ [] })
  unfolding recv_numbered recv_byte
  recv_numbered-damaged loop size a b junk rest y bad =
      rw (bad, uart_clear_buff-arrive junk rest) refl

  -- The frames are loaded and answered.
  pub record Loads (frames : List Frame) (y end : Modem set_oob_mode write_out) : Type 0 where
    pub loaded : end.loaded ≡ (if y.keep then y.loaded ++ payloads frames else y.loaded)
    pub load_size : end.load_size ≡ y.load_size + length (payloads frames)
    pub sent : end.sent ≡ y.sent ++ (answers frames ++ modem_end_rx)
    pub opt : end.opt ≡ y.opt

  pub ymodem_loop-events :
      (frames : List Frame) (rounds : ℕ) (y : Modem set_oob_mode write_out)
      → length frames < rounds
      → IsAlone y
      → AreFrames y.blk frames
      → (end : Modem set_oob_mode write_out) × (ymodem_loop set_oob_mode write_out rounds
            (events y.blk frames)
            y
          ≡ some (pos end.load_size, end))
        × Loads frames y end
  unfolding ymodem_loop behind
  ymodem_loop-events frames zero y enough alone are = absurd (omega arith)
  ymodem_loop-events [] (suc rounds) y enough alone are = (
    record y { sent = y.sent ++ modem_end_rx },
    rw (ymodem_loop, wait_start-eot) refl,
    record {
      loaded = ground (arith, append-nil y.loaded);
      load_size = omega arith;
      sent = refl;
      opt = refl;
    },
  )
  ymodem_loop-events (carried large payload crc0 crc1 ∷ frames) (suc rounds) y enough alone are =
      let (end, run, l) =
        ymodem_loop-events frames rounds (behind payload y) (omega arith)
          record { dst = alone.dst; byte = omega arith } are.1 in
      let more = events ((y.blk + 1) % 2 ^ 8) frames in
      (
        end,
        rw
            (
              ymodem_loop,
              wait_start-start_of large (
                  some y.blk ∷ some (0xff - y.blk) ∷ arrive payload (some crc0 ∷ some crc1 ∷ more)),
              recv_numbered-carried (ymodem_loop set_oob_mode write_out rounds) large payload crc0
                  crc1 more y alone are.0,
            )
            run,
        record {
          loaded = l.loaded ∙ ground (arith, append_assoc y.loaded payload (payloads frames));
          load_size = omega (arith, l.load_size, length-append payload (payloads frames));
          sent = l.sent ∙ append_assoc y.sent (ack ∷ []) (answers frames ++ modem_end_rx);
          opt = l.opt;
        },
      )
  ymodem_loop-events (damaged large a b junk ∷ frames) (suc rounds) y enough alone are =
      let (end, run, l) =
        ymodem_loop-events frames rounds record y { sent = y.sent ++ nak ∷ [] } (omega arith)
          record { dst = alone.dst; byte = alone.byte } are.1 in
      let more = events y.blk frames in
      (
        end,
        rw
            (
              ymodem_loop,
              wait_start-start_of large (some a ∷ some b ∷ arrive junk (none ∷ more)),
              recv_numbered-damaged (ymodem_loop set_oob_mode write_out rounds) (size_of large) a b
                  junk more y are.0,
            )
            run,
        record {
          loaded = l.loaded;
          load_size = l.load_size;
          sent = l.sent ∙ append_assoc y.sent (nak ∷ []) (answers frames ++ modem_end_rx);
          opt = l.opt;
        },
      )
