-- ===== src/Uart/Blocks.antt =====
-- The other side of lib/uart/ymodem.c: what a sender puts on the line.
use Prim.{Unit}
use Prim.Native.Nat.{bit_xor}
use witos.Base.{
  ℕ, ◌+◌, ◌-◌, ◌%◌, ◌^◌, ◌≡◌, Bool, true, false, not, ◌||◌, some, none, List, [], ◌∷◌, ◌++◌, ◌==◌,
  length,
}
use witos.Uart.Ymodem.{Event, soh, stx, eot, ack, nak}

-- A block that carries `payload` with any two bytes as its checksum, or one whose numbers `a` and `b`
-- are damaged, whatever follows them up to a silence.
pub data Frame : Type 0 where
  carried : (large : Bool) → (payload : List ℕ) → (crc0 crc1 : ℕ) → Frame
  damaged : (large : Bool) → (a b : ℕ) → (junk : List ℕ) → Frame

abbrev pub start_of : Bool → ℕ
start_of true = stx
start_of false = soh

abbrev pub size_of : Bool → ℕ
size_of true = 1024
size_of false = 128

abbrev pub arrive : List ℕ → List Event → List Event
arrive [] rest = rest
arrive (c ∷ cs) rest = some c ∷ arrive cs rest

abbrev pub events : (blk : ℕ) → List Frame → List Event
events blk [] = some eot ∷ []
events blk (carried large payload crc0 crc1 ∷ frames) =
    some (start_of large)
    ∷ some blk
    ∷ some (0xff - blk)
    ∷ arrive payload (some crc0 ∷ some crc1 ∷ events ((blk + 1) % 2 ^ 8) frames)
events blk (damaged large a b junk ∷ frames) =
    some (start_of large) ∷ some a ∷ some b ∷ arrive junk (none ∷ events blk frames)

-- A carried block has the size that its start says; a damaged one does not have the numbers expected.
abbrev pub AreFrames : (blk : ℕ) → List Frame → Type 0
AreFrames blk [] = Unit
AreFrames blk (carried large payload crc0 crc1 ∷ frames) =
    (length payload ≡ size_of large) × AreFrames ((blk + 1) % 2 ^ 8) frames
AreFrames blk (damaged large a b junk ∷ frames) =
    ((not (bit_xor a b == 0xff) || not (a == blk)) ≡ true) × AreFrames blk frames

abbrev pub payloads : List Frame → List ℕ
payloads [] = []
payloads (carried large payload crc0 crc1 ∷ frames) = payload ++ payloads frames
payloads (damaged large a b junk ∷ frames) = payloads frames

abbrev pub answers : List Frame → List ℕ
answers [] = []
answers (carried large payload crc0 crc1 ∷ frames) = ack ∷ answers frames
answers (damaged large a b junk ∷ frames) = nak ∷ answers frames

-- The first block: the name of the file and its NUL, anything behind it, and a silence.
abbrev pub opening : (large : Bool) → (a b : ℕ) → (name behind : List ℕ) → List Event → List Event
opening large a b name behind rest =
    some (start_of large) ∷ some a ∷ some b ∷ arrive name (some 0 ∷ arrive behind (none ∷ rest))
