-- ===== src/Net/Handshake.antt =====
-- The answer to the SYN of connect in lib/net/socket.c, as tcp_layer_deliver of
-- driver/net/core/net.c takes it.
use witos.Base.{
  ℕ, zero, suc, ◌+◌, ◌*◌, ◌^◌, ◌%◌, ◌≡◌, refl, sym, ap, ◌∙◌, Bool, true, false, Bool-cases, Option,
  some, ◌==◌, arith, pos, inl, inr,
}
use witos.Net.Types.{Skb, SockaddrIn, syn_sent, established, Socket, SockFds, TcpHeader}
use witos.Net.Table.{put, find_fd, tcp_match, tcp_search_socket}
use witos.Net.Send.{tcp_send_packet, read_tcp_header, advance_seq}
use witos.Net.Deliver.{
  returns, tcp_layer_deliver, empty_skb, deliver_to, deliver_found, tcp_segment_arrives,
  tcp_send_ack, deliver_syn, skb_pull, update_socket,
}

-- A search looks at the tests of the entries only.
find_fd-same :
    (test : Option Socket → Bool) (fds gds : SockFds) (fd turns : ℕ)
    → ((i : ℕ) → test (fds i) ≡ test (gds i))
    → find_fd test fds fd turns ≡ find_fd test gds fd turns
unfolding find_fd
find_fd-same test fds gds fd zero same = refl
find_fd-same test fds gds fd (suc turns) same =
    rw (same fd, find_fd-same test fds gds (suc fd) turns same) refl

-- The socket after a SYN or an acknowledgement of one.
syn_ack-arrives :
    (free_memory : Bool) (sock : Socket) (hdr : TcpHeader) (skb : Skb)
    → hdr.flags ≡ 18
    → sock.state ≡ syn_sent
    → tcp_segment_arrives free_memory sock hdr skb ≡ (
        let acked = tcp_send_ack free_memory record sock { ack_num = (hdr.seq_num + 1) % 2 ^ 32 } in
        returns (record acked.0 { state = established }, acked.1))
unfolding tcp_segment_arrives deliver_syn tcp_send_ack tcp_send_packet
syn_ack-arrives true sock hdr skb f st = ground arith
syn_ack-arrives false sock hdr skb f st = ground arith

-- The socket that waits for the answer, and the socket that has it.
abbrev pub asking : Socket → SockaddrIn → Socket
asking sock addr = record (tcp_send_packet (record sock { dst = addr }) empty_skb 2).0 {
  state = syn_sent;
}

abbrev pub answered : (free_memory : Bool) → Socket → TcpHeader → Socket
answered free_memory sock hdr =
    record (tcp_send_ack free_memory record sock { ack_num = (hdr.seq_num + 1) % 2 ^ 32 }).0 {
      state = established;
    }

pub put_self : (fds : SockFds) (fd : ℕ) (entry : Option Socket) → put fds fd entry fd ≡ entry
put_self fds fd entry = ground arith

pub asking-search :
    (fds : SockFds) (fd port : ℕ) (sock : Socket) (addr : SockaddrIn)
    → fds fd ≡ some sock
    → tcp_search_socket (put fds fd (some (asking sock addr))) port ≡ tcp_search_socket fds port
unfolding tcp_send_packet
asking-search fds fd port sock addr e =
    find_fd-same (tcp_match port) (put fds fd (some (asking sock addr))) fds 1 31 (λ i.
      elim (Bool-cases (i == fd)) [
        | inl at ↦ let same : i ≡ fd = ground arith in rw at (rw same (sym (ap (tcp_match port) e)))
        | inr other ↦ rw other refl
      ])

pub answer-delivered :
    (free_memory : Bool) (fds : SockFds) (fd : ℕ) (sock : Socket) (skb : Skb)
    → let hdr = read_tcp_header skb.bytes in
      hdr.flags ≡ 18
      → sock.state ≡ syn_sent
      → fds fd ≡ some sock
      → tcp_search_socket fds hdr.dst_port ≡ some fd
      → tcp_layer_deliver free_memory fds skb
        ≡ returns (
          pos 0,
          put fds fd (some (answered free_memory sock hdr)),
          (tcp_send_ack free_memory record sock { ack_num = (hdr.seq_num + 1) % 2 ^ 32 }).1,
        )
unfolding tcp_layer_deliver deliver_found deliver_to
answer-delivered free_memory fds fd sock skb flags st entry found =
    let hdr = read_tcp_header skb.bytes in
    let payload = skb_pull skb (4 * hdr.hdr_len) in
    ap (deliver_found free_memory fds hdr payload) found
    ∙ ap (deliver_to free_memory fds hdr payload fd) entry
    ∙ ap (update_socket fds fd) (syn_ack-arrives free_memory sock hdr payload flags st)

pub answered-numbers :
    (free_memory : Bool) (sock : Socket) (hdr : TcpHeader)
    → ((answered free_memory sock hdr).ack_num ≡ (hdr.seq_num + 1) % 2 ^ 32)
      × ((answered free_memory sock hdr).seq_num ≡ sock.seq_num)
unfolding tcp_send_ack tcp_send_packet advance_seq
answered-numbers true sock hdr = (refl, refl)
answered-numbers false sock hdr = (refl, refl)

pub asking-numbers :
    (sock : Socket) (addr : SockaddrIn) → (asking sock addr).seq_num ≡ (sock.seq_num + 1) % 2 ^ 32
unfolding tcp_send_packet advance_seq
asking-numbers sock addr = refl
