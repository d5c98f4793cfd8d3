-- ===== src/Net/Segment.antt =====
-- The segments that driver/net/core/net.c sends: the receiver reads the header that the sender wrote,
-- and the checksum is right.
use witos.Base.{
  ℕ, zero, suc, ◌+◌, ◌-◌, ◌*◌, ◌/◌, ◌%◌, ◌^◌, ◌≤◌, ◌<◌, ◌≡◌, refl, ap, ◌∙◌, Option, some, List, [],
  ◌∷◌, ◌++◌, take, arith, length,
}
use witos.Net.Types.{Skb, Socket, TcpHeader}
use witos.Net.Checksum.{net_calc_checksum, AllBytes, checksum_verifies}
use witos.Net.Send.{
  pseudo_header, pseudo_calculate_checksum, tcp_header_start, tcp_segment, tcp_header_of,
  filled_checksum, tcp_send_packet, read_tcp_header,
}

-- The fields fit their widths.
abbrev pub Fits : TcpHeader → Type 0
Fits h =
    (h.src_port < 2 ^ 16)
    × (h.dst_port < 2 ^ 16)
    × (h.seq_num < 2 ^ 32)
    × (h.ack_num < 2 ^ 32)
    × (h.hdr_len < 16)
    × (h.flags < 256)
    × (h.win_size < 2 ^ 16)

pub halves16 : (n : ℕ) → n < 2 ^ 16 → n % 256 + 256 * (n / 256 % 256) ≡ n
halves16 n h = omega arith

swapped16 : (n : ℕ) → n < 2 ^ 16 → 256 * (n / 256 % 256) + n % 256 ≡ n
swapped16 n h = omega arith

swapped32 :
    (n : ℕ)
    → n < 2 ^ 32
    → 16777216 * (n / 16777216 % 256) + 65536 * (n / 65536 % 256) + 256 * (n / 256 % 256) + n % 256
      ≡ n
swapped32 n h = omega arith

-- Whatever the checksum and whatever follows, a received header is the one that was sent, if its
-- fields fit their widths.
pub read_tcp_header-tcp_segment :
    (h : TcpHeader) (checksum : ℕ) (rest : List ℕ)
    → Fits h
    → read_tcp_header (tcp_segment h checksum rest) ≡ h
unfolding read_tcp_header
read_tcp_header-tcp_segment h checksum rest (sp, dp, sq, ak, hl, fl, ws) =
    let high : 16 * h.hdr_len / 16 ≡ h.hdr_len = omega arith in
    λ i. record {
      src_port = halves16 h.src_port sp i;
      dst_port = halves16 h.dst_port dp i;
      seq_num = swapped32 h.seq_num sq i;
      ack_num = swapped32 h.ack_num ak i;
      hdr_len = high i;
      flags = h.flags;
      win_size = swapped16 h.win_size ws i;
    }

pub take-all : (n : ℕ) (xs : List ℕ) → length xs ≤ n → take n xs ≡ xs
take-all zero [] h = refl
take-all zero (x ∷ xs) h = absurd (omega arith)
take-all (suc n) [] h = refl
take-all (suc n) (x ∷ xs) h = ap (λ (t : List ℕ). x ∷ t) (take-all n xs (omega arith))

-- Pseudo header and header up to the checksum.
abbrev prefix : Socket → (flags size : ℕ) → List ℕ
prefix sock flags size =
    pseudo_header sock.src.sin_addr sock.dst.sin_addr 6 size
    ++ tcp_header_start (tcp_header_of sock flags)

prefix-AllBytes : (sock : Socket) (flags size : ℕ) → flags < 256 → AllBytes (prefix sock flags size)
unfolding pseudo_header tcp_header_of
prefix-AllBytes sock flags size h = omega arith

checksum-stream :
    (sock : Socket) (segment : List ℕ) (size : ℕ)
    → sock.kind ≡ 1
    → pseudo_calculate_checksum sock segment size
      ≡ some (
          65535
          - net_calc_checksum (pseudo_header sock.src.sin_addr sock.dst.sin_addr 6 size ++ segment))
unfolding pseudo_calculate_checksum
checksum-stream sock segment size stream = ground arith

-- The sum that the checksum field is filled from.
abbrev complement : Socket → Skb → (flags : ℕ) → ℕ
complement sock skb flags =
    65535
    - net_calc_checksum (
        pseudo_header sock.src.sin_addr sock.dst.sin_addr 6 (skb.size + 20)
        ++ tcp_segment (tcp_header_of sock flags) 0 skb.bytes)

pub sent_bytes :
    (sock : Socket) (skb : Skb) (flags : ℕ)
    → sock.kind ≡ 1
    → length skb.bytes ≡ skb.size
    → skb.size < 2 ^ 14
    → (tcp_send_packet sock skb flags).1.bytes
      ≡ tcp_segment (tcp_header_of sock flags) (complement sock skb flags) skb.bytes
unfolding tcp_send_packet
sent_bytes sock skb flags stream same small =
    let header = tcp_header_of sock flags in
    let whole : (skb.size + 20) % 2 ^ 16 ≡ skb.size + 20 = omega arith in
    let checksum = λ (size : ℕ).
      pseudo_calculate_checksum sock (take size (tcp_segment header 0 skb.bytes)) size in
    let filled : checksum (skb.size + 20) ≡ some (complement sock skb flags) =
      ap (λ (t : List ℕ). pseudo_calculate_checksum sock t (skb.size + 20))
        (take-all (skb.size + 20) (tcp_segment header 0 skb.bytes) (omega arith))
      ∙ checksum-stream sock (tcp_segment header 0 skb.bytes) (skb.size + 20) stream in
    ap (λ (size : ℕ). take size (tcp_segment header (filled_checksum (checksum size)) skb.bytes))
      whole
    ∙ take-all (skb.size + 20)
        (tcp_segment header (filled_checksum (checksum (skb.size + 20))) skb.bytes) (omega arith)
    ∙ ap (λ (c : Option ℕ). tcp_segment header (filled_checksum c) skb.bytes) filled
    ∙ unfold filled_checksum in refl

-- For the segment of a stream socket whose payload is bytes, as many as the packet's size says and
-- fewer than 2 ^ 14, and for any flags: the receiver's sum of pseudo header and segment is 0xffff.
pub tcp_send_packet-checksum :
    (sock : Socket) (skb : Skb) (flags : ℕ)
    → sock.kind ≡ 1
    → AllBytes skb.bytes
    → length skb.bytes ≡ skb.size
    → skb.size < 2 ^ 14
    → flags < 256
    → net_calc_checksum (
        pseudo_header sock.src.sin_addr sock.dst.sin_addr 6 (skb.size + 20)
        ++ (tcp_send_packet sock skb flags).1.bytes)
      ≡ 65535
tcp_send_packet-checksum sock skb flags stream hb same small hf =
    let sum = λ (t : List ℕ).
      net_calc_checksum
        (pseudo_header sock.src.sin_addr sock.dst.sin_addr 6 (skb.size + 20) ++ t) in
    ap sum (sent_bytes sock skb flags stream same small)
    ∙ unfold pseudo_header in
      checksum_verifies (prefix sock flags (skb.size + 20)) (0 ∷ 0 ∷ skb.bytes)
        (prefix-AllBytes sock flags (skb.size + 20) hf) (omega arith, (omega arith, hb))
        (omega arith) (omega arith)

-- What the receiver of a segment that tcp_send_packet sends for a stream socket reads in its header:
-- the ports of the socket, its numbers before the call, a length of 20 bytes, and the flags. The
-- numbers fit their widths, and the payload is as long as the packet's size says, below 2 ^ 14.
pub tcp_send_packet-header :
    (sock : Socket) (skb : Skb) (flags : ℕ)
    → sock.kind ≡ 1
    → length skb.bytes ≡ skb.size
    → skb.size < 2 ^ 14
    → sock.src.sin_port < 2 ^ 16
    → sock.dst.sin_port < 2 ^ 16
    → sock.seq_num < 2 ^ 32
    → sock.ack_num < 2 ^ 32
    → flags < 256
    → let hdr = read_tcp_header (tcp_send_packet sock skb flags).1.bytes in
      (hdr.src_port ≡ sock.src.sin_port)
      × (hdr.dst_port ≡ sock.dst.sin_port)
      × (hdr.seq_num ≡ sock.seq_num)
      × (hdr.ack_num ≡ sock.ack_num)
      × (hdr.hdr_len ≡ 5)
      × (hdr.flags ≡ flags)
unfolding tcp_header_of
tcp_send_packet-header sock skb flags stream same small sp dp sq ak hf =
    let e : read_tcp_header (tcp_send_packet sock skb flags).1.bytes ≡ tcp_header_of sock flags =
      ap read_tcp_header (sent_bytes sock skb flags stream same small)
      ∙ read_tcp_header-tcp_segment (tcp_header_of sock flags) (complement sock skb flags) skb.bytes
          (sp, dp, sq, ak, omega arith, hf, ground arith) in
    (
      ap (λ (h : TcpHeader). h.src_port) e,
      ap (λ (h : TcpHeader). h.dst_port) e,
      ap (λ (h : TcpHeader). h.seq_num) e,
      ap (λ (h : TcpHeader). h.ack_num) e,
      ap (λ (h : TcpHeader). h.hdr_len) e,
      ap (λ (h : TcpHeader). h.flags) e,
    )

-- What the receiver of a segment that tcp_send_packet sends for a stream socket finds: the Internet
-- checksum of the pseudo header and the segment is right (0xffff), and the header says the ports of the
-- socket, its numbers before the call, a length of 20 bytes, and the flags. The payload is bytes, as
-- many as the packet's size says, below 2 ^ 14, and the ports, numbers and flags fit their widths.
pub tcp_send_packet-read_tcp_header :
    (sock : Socket) (skb : Skb) (flags : ℕ)
    → sock.kind ≡ 1
    → AllBytes skb.bytes
    → length skb.bytes ≡ skb.size
    → skb.size < 2 ^ 14
    → sock.src.sin_port < 2 ^ 16
    → sock.dst.sin_port < 2 ^ 16
    → sock.seq_num < 2 ^ 32
    → sock.ack_num < 2 ^ 32
    → flags < 256
    → let segment = (tcp_send_packet sock skb flags).1.bytes in
      let hdr = read_tcp_header segment in
      (net_calc_checksum
          (pseudo_header sock.src.sin_addr sock.dst.sin_addr 6 (skb.size + 20) ++ segment)
        ≡ 65535)
      × (hdr.src_port ≡ sock.src.sin_port)
      × (hdr.dst_port ≡ sock.dst.sin_port)
      × (hdr.seq_num ≡ sock.seq_num)
      × (hdr.ack_num ≡ sock.ack_num)
      × (hdr.hdr_len ≡ 5)
      × (hdr.flags ≡ flags)
tcp_send_packet-read_tcp_header sock skb flags stream hb same small sp dp sq ak hf =
    let (a, b, c, d, e, f) =
      tcp_send_packet-header sock skb flags stream same small sp dp sq ak hf in
    (tcp_send_packet-checksum sock skb flags stream hb same small hf, a, b, c, d, e, f)
