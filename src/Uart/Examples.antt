-- ===== src/Uart/Examples.antt =====
-- A transfer of three packets, and a damaged packet.
use Prim.{tt}
use witos.Base.{
  ℕ, ◌≡◌, refl, true, none, some, List, [], ◌∷◌, ◌++◌, ℤ, pos, codes, get_or, replicate, false,
  arith,
}
use witos.Memory.{Memory, IsStr}
use witos.Uart.Kermit.{
  type_nack, send_ack_packet, Loader, test, decode_packet, handle_packet, kermit_load, write_dst,
}
use witos.Uart.Sender.{quote}
use witos.Uart.Transfer.{Packet}
use witos.Uart.Load.{IsPacket, transmit, acks, kermit_load-transmit}
use witos.Uart.Ymodem.{
  soh, eot, ack, nak, modem_end_rx, has_dst, Modem, ymodem_load, ymodem_loop, wait_start, recv_byte,
  recv_block, take_data,
}
use witos.Uart.Blocks.{Frame, carried, damaged, opening, events}
use witos.Uart.Blockwise.{ymodem_load-events}
use witos.Uart.Lost.{IsDamaged, handle_packet_resent}

-- There is no file to write to.
abbrev no_file : ℕ → List ℕ → ℤ × ℕ
no_file w chars = (pos 0, w)

-- A name, and two data packets, the second with a control character, a sharp and a byte above 127.
abbrev file_packets : List Packet
file_packets =
    (record { type_ = b'F'; text = codes "boot" })
    ∷ (record { type_ = b'D'; text = codes "ab" })
    ∷ (record { type_ = b'D'; text = 13 ∷ 35 ∷ 200 ∷ [] })
    ∷ []

abbrev file_bytes : List ℕ
file_bytes = 97 ∷ 98 ∷ 13 ∷ 35 ∷ 200 ∷ []

abbrev zeros : Memory
zeros a = 0

head-IsPacket : IsPacket (record { type_ = b'F'; text = codes "boot" })
unfolding quote
head-IsPacket = record {
  bytes = (omega arith, (omega arith, (omega arith, (omega arith, tt))));
  short = omega arith;
  no_term = refl;
}

text-IsPacket : IsPacket (record { type_ = b'D'; text = codes "ab" })
unfolding quote
text-IsPacket = record {
  bytes = (omega arith, (omega arith, tt));
  short = omega arith;
  no_term = refl;
}

byte-IsPacket : IsPacket (record { type_ = b'D'; text = 13 ∷ 35 ∷ 200 ∷ [] })
unfolding quote
byte-IsPacket = record {
  bytes = (omega arith, (omega arith, (omega arith, tt)));
  short = omega arith;
  no_term = refl;
}

kermit_load-transmit_example :
    (end : Loader no_file no_file) × (kermit_load no_file no_file true none zeros
        (transmit 0 file_packets ++ 7 ∷ [])
      ≡ some (pos 5, end))
    × (end.loaded ≡ file_bytes)
    × (end.sent ≡ acks 0 file_packets)
kermit_load-transmit_example =
    kermit_load-transmit no_file no_file file_packets (7 ∷ []) zeros
      (head-IsPacket, refl, (text-IsPacket, refl, (byte-IsPacket, refl, tt)))

-- A data packet of the number 5 with no characters and the check 'X'.
abbrev wrong_check : Memory
wrong_check a = get_or (35 ∷ 37 ∷ b'D' ∷ b'X' ∷ 13 ∷ []) a 0

abbrev waiting : Loader no_file no_file
waiting = record {
  real_seq = 5;
  type_ = b'D';
  buff = wrong_check;
  keep = true;
  loaded = 97 ∷ [];
  load_size = 1;
  file_name = [];
  dst = none;
  detected = true;
  sent = [];
}

wrong_check-IsDamaged : IsDamaged no_file no_file wrong_check
unfolding decode_packet
wrong_check-IsDamaged = refl

-- The same packet with its right check, a dot.
abbrev right_check : Memory
right_check a = get_or (35 ∷ 37 ∷ b'D' ∷ b'.' ∷ 13 ∷ []) a 0

handle_packet_resent_example :
    (lost : Loader no_file no_file) × (handle_packet no_file no_file waiting ≡ test lost)
    × (handle_packet no_file no_file (record lost { buff = right_check })
        ≡ test
            (record lost { buff = right_check; sent = lost.sent ++ send_ack_packet 6 type_nack }))
    × (lost.loaded ≡ 97 ∷ [])
    × (lost.load_size ≡ 1)
handle_packet_resent_example =
    handle_packet_resent no_file no_file waiting right_check (omega arith) refl
      wrong_check-IsDamaged refl

-- A file of two blocks; the first attempt at the second has a damaged number.
abbrev two_blocks : List Frame
two_blocks =
    carried false (replicate 128 7) 1 2
    ∷ damaged true 2 200 (codes "noise")
    ∷ carried true (replicate 1024 9) 3 4
    ∷ []

ymodem_load-events_example :
    (end : Modem no_file no_file) × (ymodem_load no_file no_file true
        (pos 3, 1)
        0
        zeros
        (opening false 0 255 (codes "boot") [] (events 1 two_blocks))
      ≡ some (pos 1152, end))
    × (end.loaded ≡ replicate 128 7 ++ replicate 1024 9)
    × IsStr end.opt 0 (codes "boot")
    × (has_dst end.opt ≡ false)
    × (end.sent ≡ b'C' ∷ ack ∷ b'C' ∷ ack ∷ nak ∷ ack ∷ modem_end_rx)
ymodem_load-events_example =
    ymodem_load-events no_file no_file true (pos 3, 1) 0 zeros false 0 255 (codes "boot") []
      two_blocks refl (omega arith) (omega arith) (omega arith) (refl, (refl, (refl, tt)))

-- The bytes of a block that a timeout ends early are acknowledged as a block.
short_block :
    (end : Modem no_file no_file) × (ymodem_loop no_file no_file 2
        (some soh ∷ some 1 ∷ some 254 ∷ some 7 ∷ none ∷ some 5 ∷ some 5 ∷ some eot ∷ [])
        record {
          blk = 1;
          keep = true;
          loaded = [];
          load_size = 0;
          opt = zeros;
          file = 0;
          detected = false;
          sent = [];
        }
      ≡ some (pos 1, end))
    × (end.loaded ≡ 7 ∷ [])
unfolding ymodem_loop wait_start recv_byte recv_block take_data write_dst
short_block = (_, refl, refl)
