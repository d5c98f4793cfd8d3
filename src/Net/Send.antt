-- ===== src/Net/Send.antt =====
-- The senders of driver/net/core/net.c: the TCP and UDP headers, byte by byte as on the little-endian
-- targets, and the update of the sequence number. `opt` of tcp_send_packet is NULL in every call. The
-- link address of the peer is in the table of addresses, so ip_send_packet does not poll the device.
use Prim.Native.Nat.{bit_and}
use witos.Base.{
  ℕ, ◌+◌, ◌-◌, ◌*◌, ◌/◌, ◌%◌, ◌^◌, Option, none, some, List, [], ◌∷◌, ◌++◌, ◌==◌, if◌then◌else◌,
  take, get_or,
}
use witos.Net.Types.{Skb, Socket, Sent, TcpHeader}
use witos.Net.Checksum.{net_calc_checksum}
use witos.Net.Table.{sock_stream, sock_dgram}

-- A number of 16 or 32 bits in memory, the low byte first, and after htons and htonl.
abbrev pub bytes16 : ℕ → List ℕ
bytes16 n = n % 256 ∷ n / 256 % 256 ∷ []

abbrev pub htons_bytes : ℕ → List ℕ
htons_bytes n = n / 256 % 256 ∷ n % 256 ∷ []

abbrev pub bytes32 : ℕ → List ℕ
bytes32 n = n % 256 ∷ n / 256 % 256 ∷ n / 65536 % 256 ∷ n / 16777216 % 256 ∷ []

abbrev pub htonl_bytes : ℕ → List ℕ
htonl_bytes n = n / 16777216 % 256 ∷ n / 65536 % 256 ∷ n / 256 % 256 ∷ n % 256 ∷ []

abbrev pub prot_tcp : ℕ
prot_tcp = 6

abbrev pub prot_udp : ℕ
prot_udp = 17

abbrev pub tcp_hdr_len : ℕ
tcp_hdr_len = 20

abbrev pub udp_hdr_len : ℕ
udp_hdr_len = 8

abbrev pub flg_fin : ℕ
flg_fin = 1

abbrev pub flg_syn : ℕ
flg_syn = 2

abbrev pub flg_psh : ℕ
flg_psh = 8

abbrev pub flg_ack : ℕ
flg_ack = 16

-- struct pseudo_header
unfoldable pub pseudo_header : (src_ip des_ip prot size : ℕ) → List ℕ
pseudo_header src_ip des_ip prot size =
    bytes32 src_ip ++ bytes32 des_ip ++ 0 ∷ prot ∷ htons_bytes size

-- `segment` is the `skb->size` bytes from `skb->data` on.
unfoldable pub pseudo_calculate_checksum : Socket → (segment : List ℕ) → (size : ℕ) → Option ℕ
unfolding pseudo_header
pseudo_calculate_checksum sock segment size =
    let sum = λ (prot : ℕ).
      65535
      - net_calc_checksum
          (pseudo_header sock.src.sin_addr sock.dst.sin_addr prot size ++ segment) in
    if sock.kind == sock_stream
    then some (sum prot_tcp)
    else if sock.kind == sock_dgram
    then some (sum prot_udp)
    else none

-- The fields before the checksum; the reserved bits are 0.
abbrev pub tcp_header_start : TcpHeader → List ℕ
tcp_header_start h =
    bytes16 h.src_port
    ++ bytes16 h.dst_port
    ++ htonl_bytes h.seq_num
    ++ htonl_bytes h.ack_num
    ++ (16 * h.hdr_len) ∷ h.flags ∷ htons_bytes h.win_size

-- The header with its checksum, the urgent pointer 0, and what follows it.
abbrev pub tcp_segment : TcpHeader → (checksum : ℕ) → List ℕ → List ℕ
tcp_segment h checksum rest = tcp_header_start h ++ checksum % 256 ∷ checksum / 256 ∷ 0 ∷ 0 ∷ rest

unfoldable pub tcp_header_of : Socket → (flags : ℕ) → TcpHeader
tcp_header_of sock flags = record {
  src_port = sock.src.sin_port;
  dst_port = sock.dst.sin_port;
  seq_num = sock.seq_num;
  ack_num = sock.ack_num;
  hdr_len = tcp_hdr_len / 4;
  flags = flags;
  win_size = if bit_and flags flg_ack == 0 then 14600 else 457;
}

-- The checksum that is filled in; it stays 0 where pseudo_calculate_checksum fails.
unfoldable pub filled_checksum : Option ℕ → ℕ
filled_checksum none = 0
filled_checksum (some checksum) = checksum

-- seq_num after the segment is sent.
unfoldable pub advance_seq : (seq_num size flags : ℕ) → ℕ
advance_seq seq_num size flags =
    let after_flag = (if bit_and flags 3 == 0 then seq_num else (seq_num + 1) % 2 ^ 32) in
    if bit_and flags flg_psh == 0 then after_flag else (after_flag + size) % 2 ^ 32

unfoldable pub tcp_send_packet : Socket → Skb → (flags : ℕ) → Socket × Sent
unfolding tcp_header_of filled_checksum advance_seq
tcp_send_packet sock skb flags =
    let size = (skb.size + tcp_hdr_len) % 2 ^ 16 in
    let header = tcp_header_of sock flags in
    let checksum =
      filled_checksum
        (pseudo_calculate_checksum sock (take size (tcp_segment header 0 skb.bytes)) size) in
    (
      record sock { seq_num = advance_seq sock.seq_num skb.size flags },
      record {
        prot = prot_tcp;
        src_ip = sock.src.sin_addr;
        des_ip = sock.dst.sin_addr;
        bytes = take size (tcp_segment header checksum skb.bytes);
      },
    )

unfoldable pub udp_send_packet : Socket → Skb → Sent
udp_send_packet sock skb =
    let size = (skb.size + udp_hdr_len) % 2 ^ 16 in
    record {
      prot = prot_udp;
      src_ip = sock.src.sin_addr;
      des_ip = sock.dst.sin_addr;
      bytes = take size (
          bytes16 sock.src.sin_port
          ++ bytes16 sock.dst.sin_port
          ++ htons_bytes size
          ++ 0 ∷ 0 ∷ skb.bytes);
    }

-- The fields of a received header, as the code reads them.
unfoldable pub read_tcp_header : List ℕ → TcpHeader
read_tcp_header d =
    let byte = λ (k : ℕ). get_or d k 0 in
    record {
      src_port = byte 0 + 256 * byte 1;
      dst_port = byte 2 + 256 * byte 3;
      seq_num = 16777216 * byte 4 + 65536 * byte 5 + 256 * byte 6 + byte 7;
      ack_num = 16777216 * byte 8 + 65536 * byte 9 + 256 * byte 10 + byte 11;
      hdr_len = byte 12 / 16;
      flags = byte 13;
      win_size = 256 * byte 14 + byte 15;
    }
