-- ===== src/Tftp/Packet.antt =====
-- The packets of lib/net/tftp.c as bytes; a number of two bytes has its high byte first.
use witos.Base.{
  ℕ, zero, suc, ◌+◌, ◌*◌, ◌/◌, ◌%◌, ◌^◌, Bool, true, false, List, [], ◌∷◌, ◌++◌, ℤ, pos, negsuc,
}
use witos.Memory.{Memory, write}

abbrev pub tftp_rrq : ℕ
tftp_rrq = 1

abbrev pub tftp_wrq : ℕ
tftp_wrq = 2

abbrev pub tftp_dat : ℕ
tftp_dat = 3

abbrev pub tftp_ack : ℕ
tftp_ack = 4

abbrev pub tftp_err : ℕ
tftp_err = 5

abbrev pub tftp_hdr_len : ℕ
tftp_hdr_len = 4

abbrev pub tftp_pkt_len : ℕ
tftp_pkt_len = 512

abbrev pub tftp_buf_len : ℕ
tftp_buf_len = tftp_pkt_len + tftp_hdr_len

-- A __u16 as it stands in a packet.
abbrev pub bytes16 : ℕ → List ℕ
bytes16 n = n / 2 ^ 8 % 2 ^ 8 ∷ n % 2 ^ 8 ∷ []

-- tftp_make_req: the bytes that it writes; the names are texts.
unfoldable pub tftp_make_req : (req : ℕ) → (file_name mode : List ℕ) → List ℕ
tftp_make_req req file_name mode = bytes16 req ++ file_name ++ 0 ∷ (mode ++ 0 ∷ [])

-- tftp_send_ack: the packet that it sends.
unfoldable pub tftp_send_ack : (blk : ℕ) → List ℕ
tftp_send_ack blk = bytes16 tftp_ack ++ bytes16 blk

-- The packet with the data of a block, as a server builds it and tftp_upload too.
abbrev pub data_packet : (blk : ℕ) → List ℕ → List ℕ
data_packet blk bytes = bytes16 tftp_dat ++ bytes16 blk ++ bytes

-- The two fields of struct tftp_packet.
abbrev pub op_code : Memory → ℕ
op_code buf = buf 0 * 2 ^ 8 + buf 1

abbrev pub block : Memory → ℕ
block buf = buf 2 * 2 ^ 8 + buf 3

-- What recvfrom copies to the buffer.
abbrev pub fill : Memory → (a : ℕ) → List ℕ → Memory
fill buf a [] = buf
fill buf a (c ∷ s) = fill (write buf a c) (a + 1) s

-- `n` bytes from `a` on.
abbrev pub range : Memory → (a n : ℕ) → List ℕ
range buf a zero = []
range buf a (suc n) = buf a ∷ range buf (a + 1) n

abbrev pub is_negative : ℤ → Bool
is_negative (pos n) = false
is_negative (negsuc n) = true
