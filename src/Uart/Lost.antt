-- ===== src/Uart/Lost.antt =====
-- kermit_load when a packet arrives damaged.
use witos.Base.{
  ℕ, ◌+◌, ◌%◌, ◌^◌, ◌<◌, ◌≡◌, refl, true, false, List, ◌++◌, ◌==◌, ℤ, if◌then◌else◌, arith,
}
use witos.Memory.{Memory}
use witos.Uart.Kermit.{
  type_nack, type_head, enc_print, check_char, decode_packet, send_ack_packet, Loader, test,
  take_packet, handle_packet,
}

module _ {W : Type 0} (set_oob_mode write_out : W → List ℕ → ℤ × W) where
  -- The check of the packet in the buffer is wrong.
  abbrev pub IsDamaged : Memory → Type 0
  IsDamaged buff =
      let d = decode_packet buff (buff 2) (buff 0 + buff 1 + buff 2) in
      (buff d.index == check_char d.checksum) ≡ false

  refuse :
      (k : Loader set_oob_mode write_out)
      → (k.buff 1 == enc_print k.real_seq) ≡ false
      → handle_packet set_oob_mode write_out k
        ≡ test (record k { sent = k.sent ++ send_ack_packet k.real_seq type_nack })
  unfolding handle_packet
  refuse k other = rw other refl

  -- The loader after a packet with a wrong check.
  abbrev damaged : Loader set_oob_mode write_out → Loader set_oob_mode write_out
  damaged k =
      let d = decode_packet k.buff (k.buff 2) (k.buff 0 + k.buff 1 + k.buff 2) in
      let seq = (k.real_seq + 1) % 2 ^ 6 in
      record k {
        real_seq = seq;
        type_ = k.buff 2;
        file_name = if k.buff 2 == type_head then d.chars else k.file_name;
        sent = k.sent ++ send_ack_packet seq type_nack;
      }

  handle_packet-damaged :
      (k : Loader set_oob_mode write_out)
      → (k.buff 1 == enc_print k.real_seq) ≡ true
      → IsDamaged k.buff
      → handle_packet set_oob_mode write_out k ≡ test (damaged k)
  unfolding handle_packet take_packet
  handle_packet-damaged k numbered wrong = rw (numbered, wrong) refl

  -- A packet with the expected number and a wrong check is refused, but the loader goes on to the next
  -- number: the packet sent again with its own number, whatever else is in it, is refused as
  -- well, with nothing loaded by either.
  pub handle_packet_resent :
      (k : Loader set_oob_mode write_out) (again : Memory)
      → k.real_seq < 64
      → k.buff 1 ≡ enc_print k.real_seq
      → IsDamaged k.buff
      → again 1 ≡ enc_print k.real_seq
      → (lost : Loader set_oob_mode write_out) × (handle_packet set_oob_mode write_out k
          ≡ test lost)
        × (handle_packet set_oob_mode write_out (record lost { buff = again })
            ≡ test (record lost {
              buff = again;
              sent = lost.sent ++ send_ack_packet ((k.real_seq + 1) % 2 ^ 6) type_nack;
            }))
        × (lost.loaded ≡ k.loaded)
        × (lost.load_size ≡ k.load_size)
  handle_packet_resent k again small numbered wrong resent =
      let same : (k.buff 1 == enc_print k.real_seq) ≡ true = ground arith in
      let behind : (again 1 == enc_print ((k.real_seq + 1) % 2 ^ 6)) ≡ false = ground arith in
      (
        damaged k,
        handle_packet-damaged k same wrong,
        refuse (record (damaged k) { buff = again }) behind,
        refl,
        refl,
      )
