-- ===== src/Net/Examples.antt =====
-- Concrete runs of the network stack.
use witos.Base.{
  ℕ, ◌+◌, ◌%◌, ◌^◌, ◌≡◌, ◌≢◌, refl, true, none, some, List, [], ◌∷◌, ◌++◌, arith, pos, negsuc, ◌↔◌,
  replicate,
}
use witos.Net.Types.{Skb, SockaddrIn, closed, established, Socket, SockFds, Sent, TcpHeader}
use witos.Net.Checksum.{net_calc_checksum}
use witos.Net.Table.{
  put, no_addr, socket, find_fd, tcp_search_socket, udp_search_socket, icmp_search_socket,
  arp_search_socket,
}
use witos.Net.Descriptors.{
  Lowest, IsStream, IsDatagram, IsRaw, IsEther, searches-Lowest, Opens, socket-Opens,
}
use witos.Net.Send.{pseudo_header, tcp_send_packet, read_tcp_header}
use witos.Net.Segment.{tcp_send_packet-read_tcp_header}
use witos.Net.Deliver.{returns, hangs, Ensures, tcp_segment_arrives}
use witos.Net.Machine.{Arrives, IsFatal}
use witos.Net.Arrival.{tcp_segment_arrives-Arrives, tcp_segment_arrives-hangs}
use witos.Net.Reception.{Received, tcp_segment_arrives-Received}
use witos.Net.Calls.{World, connect}
use witos.Net.Connection.{Connected, connect-Connected, IsIn}
use witos.Net.Calls.{sk_close}
use witos.Net.Closing.{Closed, sk_close-Closed}
use witos.Net.Connect.{connect_times_out, connect_answered}

abbrev server : SockaddrIn
server = record { sin_family = 2; sin_port = 80; sin_addr = 0x0100007f }

abbrev client_addr : SockaddrIn
client_addr = record { sin_family = 2; sin_port = 50001; sin_addr = 0x0200007f }

abbrev client : Socket
client = record {
  kind = 1;
  protocol = 0;
  obstruct_flags = 0;
  rx_qu = [];
  src = client_addr;
  dst = no_addr;
  state = closed;
  seq_num = 1;
  ack_num = 0;
}

abbrev datagrams : Socket
datagrams = record client { kind = 2; dst = server }

abbrev no_fds : SockFds
no_fds fd = none

abbrev one_socket : SockFds
one_socket = put no_fds 3 (some client)

abbrev hello : Skb
hello = record { bytes = 104 ∷ 105 ∷ []; size = 2 }

-- SYN | ACK from the server's port to the client's, with the number 500.
abbrev answer : Skb
answer = record {
  bytes =
      80 ∷ 0 ∷ 81 ∷ 195 ∷ 0 ∷ 0 ∷ 1 ∷ 244 ∷ 0 ∷ 0 ∷ 0 ∷ 2 ∷ 80 ∷ 18 ∷ 0 ∷ 0 ∷ 0 ∷ 0 ∷ 0 ∷ 0 ∷ [];
  size = 20;
}

abbrev silence : World
silence = record { fds = one_socket; sent = []; arrivals = []; free_memory = true }

abbrev in_time : World
in_time = record silence { arrivals = replicate 2 [] ++ (answer ∷ []) ∷ [] }

abbrev fin_header : TcpHeader
fin_header = record {
  src_port = 80;
  dst_port = 50001;
  seq_num = 700;
  ack_num = 2;
  hdr_len = 5;
  flags = 17;
  win_size = 457;
}

-- The answer is the client's port and the flags SYN | ACK.
answer_flags : (read_tcp_header answer.bytes).flags ≡ 18
unfolding read_tcp_header
answer_flags = refl

answer_finds : tcp_search_socket one_socket (read_tcp_header answer.bytes).dst_port ≡ some 3
unfolding read_tcp_header find_fd
answer_finds = refl

searches-Lowest_example :
    Lowest (IsStream 50001) one_socket (tcp_search_socket one_socket 50001)
    × Lowest (IsDatagram 50001) one_socket (udp_search_socket one_socket 50001)
    × Lowest (IsRaw 7) one_socket (icmp_search_socket one_socket 7)
    × Lowest (IsEther 7) one_socket (arp_search_socket one_socket 7)
searches-Lowest_example = searches-Lowest one_socket 50001 7

socket-Opens_example : Opens one_socket 1 0 (socket (some datagrams) one_socket 1 0)
socket-Opens_example = socket-Opens datagrams one_socket 1 0

tcp_send_packet-read_tcp_header_example :
    let segment = (tcp_send_packet client hello 24).1.bytes in
    let hdr = read_tcp_header segment in
    (net_calc_checksum (pseudo_header client_addr.sin_addr 0 6 22 ++ segment) ≡ 65535)
    × (hdr.src_port ≡ 50001)
    × (hdr.dst_port ≡ 0)
    × (hdr.seq_num ≡ 1)
    × (hdr.ack_num ≡ 0)
    × (hdr.hdr_len ≡ 5)
    × (hdr.flags ≡ 24)
tcp_send_packet-read_tcp_header_example =
    tcp_send_packet-read_tcp_header client hello 24 refl (omega arith) refl (omega arith)
      (omega arith) (omega arith) (omega arith) (omega arith) (omega arith)

tcp_segment_arrives-Arrives_example :
    Arrives 17 2 established
      (tcp_segment_arrives true (record client { state = established }) fin_header hello)
tcp_segment_arrives-Arrives_example =
    tcp_segment_arrives-Arrives true (record client { state = established }) fin_header hello

tcp_segment_arrives-hangs_example :
    (tcp_segment_arrives true client fin_header (record { bytes = []; size = 0 }) ≡ hangs)
    ↔ IsFatal 17 0 closed
tcp_segment_arrives-hangs_example =
    tcp_segment_arrives-hangs true client fin_header (record { bytes = []; size = 0 })

tcp_segment_arrives-Received_example :
    Ensures
      (λ (r : Socket × List Sent). Received fin_header hello client r.0)
      (tcp_segment_arrives true client fin_header hello)
tcp_segment_arrives-Received_example = tcp_segment_arrives-Received true client fin_header hello

connect-Connected_example : Ensures (Connected 3) (connect 3 server silence)
connect-Connected_example = connect-Connected 3 server silence client refl

connect_times_out_example :
    (v : World) × (connect 3 server silence ≡ returns (negsuc 109, v)) × IsIn 3 closed v
connect_times_out_example = connect_times_out 3 server silence client refl refl

connect_answered_example :
    (v : World) × (connect 3 server in_time ≡ returns (pos 0, v))
    × (s : Socket) × (v.fds 3 ≡ some s)
    × (s.state ≡ established)
    × (s.ack_num ≡ ((read_tcp_header answer.bytes).seq_num + 1) % 2 ^ 32)
    × (s.seq_num ≡ (client.seq_num + 1) % 2 ^ 32)
    × ((i : ℕ) → i ≢ 3 → v.fds i ≡ in_time.fds i)
    × (v.arrivals ≡ [])
connect_answered_example =
    connect_answered 3 server in_time client 2 answer [] refl (omega arith) refl answer_flags
      answer_finds

sk_close-Closed_example : Ensures (Closed 3) (sk_close 3 silence)
sk_close-Closed_example = sk_close-Closed 3 silence client refl
