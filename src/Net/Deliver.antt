-- ===== src/Net/Deliver.antt =====
-- The receivers of driver/net/core/net.c: udp_layer_deliver and tcp_layer_deliver. A packet is the
-- bytes from the protocol's header on; `free_memory` tells whether skb_alloc finds a block for an
-- acknowledgement. The macro BUG stops the machine in an endless loop.
use witos.Base.{
  ℕ, ◌+◌, ◌-◌, ◌*◌, ◌^◌, ◌%◌, Bool, true, false, ◌||◌, Option, none, some, List, [], ◌∷◌, ◌++◌,
  ◌==◌, if◌then◌else◌, drop, get_or, not, ◌&&◌, ℤ, pos, negsuc,
}
use witos.Net.Types.{
  Skb, TcpState, closed, syn_sent, established, close_wait, fin_wait2, closing, time_wait, is_state,
  Socket, SockFds, Sent, TcpHeader,
}
use witos.Net.Table.{put, tcp_search_socket, udp_search_socket}
use witos.Net.Send.{tcp_send_packet, read_tcp_header, flg_ack, udp_hdr_len}

-- A handler gives a value, or never returns.
pub data Outcome (A : Type 0) : Type 0 where
  returns : A → Outcome A
  hangs : Outcome A

-- What holds of the value that a handler gives, if it gives one.
abbrev pub Ensures : {A : Type 0} → (A → Type 0) → Outcome A → Type 0
Ensures P (returns a) = P a
Ensures P hangs = Unit {0}

abbrev pub and_then : {A B : Type 0} → Outcome A → (A → Outcome B) → Outcome B
and_then (returns a) f = f a
and_then hangs f = hangs

-- skb->data += len; skb->size -= len
abbrev pub skb_pull : Skb → ℕ → Skb
skb_pull skb len = record { bytes = drop len skb.bytes; size = (skb.size + 2 ^ 16 - len) % 2 ^ 16 }

abbrev pub empty_skb : Skb
empty_skb = record { bytes = []; size = 0 }

unfoldable pub tcp_send_ack : (free_memory : Bool) → Socket → Socket × List Sent
tcp_send_ack true sock =
    let result = tcp_send_packet sock empty_skb flg_ack in (result.0, result.1 ∷ [])
tcp_send_ack false sock = (sock, [])

-- The state after a segment with FIN and no payload; none is BUG().
unfoldable pub fin_state : TcpState → (acked : Bool) → Option TcpState
fin_state TcpState.fin_wait1 acked = some (if acked then time_wait else closing)
fin_state TcpState.fin_wait2 acked = some time_wait
fin_state TcpState.established acked = some close_wait
fin_state _ acked = none

-- The state after a segment with ACK alone and no payload.
unfoldable pub ack_state : TcpState → TcpState
ack_state TcpState.fin_wait1 = fin_wait2
ack_state TcpState.closing = time_wait
ack_state TcpState.last_ack = closed
ack_state state = state

-- The case for SYN and SYN | ACK.
unfoldable pub deliver_syn :
    (free_memory : Bool) → Socket → TcpHeader → Outcome (Socket × List Sent)
deliver_syn free_memory sock tcp_hdr =
    let acked = tcp_send_ack free_memory record sock { ack_num = (tcp_hdr.seq_num + 1) % 2 ^ 32 } in
    if is_state acked.0.state syn_sent
    then returns (record acked.0 { state = established }, acked.1)
    else hangs

-- The packet is queued and acknowledged: the case for ACK | PSH, ACK with payload, FIN with payload.
unfoldable pub deliver_data :
    (free_memory : Bool) → Socket → TcpHeader → Skb → Outcome (Socket × List Sent)
deliver_data free_memory sock tcp_hdr skb = returns (
    tcp_send_ack free_memory record sock {
      ack_num = (tcp_hdr.seq_num + skb.size) % 2 ^ 32;
      rx_qu = sock.rx_qu ++ skb ∷ [];
    })

-- The new state is set and the FIN acknowledged; none is BUG().
unfoldable pub enter_state :
    (free_memory : Bool) → Socket → TcpHeader → Option TcpState → Outcome (Socket × List Sent)
enter_state free_memory sock tcp_hdr none = hangs
enter_state free_memory sock tcp_hdr (some state) = returns (
    tcp_send_ack free_memory
      record sock { ack_num = (tcp_hdr.seq_num + 1) % 2 ^ 32; state = state })

-- The case for the three combinations with FIN; only FIN alone has no ACK.
unfoldable pub deliver_fin :
    (free_memory : Bool) → Socket → TcpHeader → Skb → Outcome (Socket × List Sent)
unfolding fin_state enter_state
deliver_fin free_memory sock tcp_hdr skb =
    if skb.size == 0
    then enter_state free_memory sock tcp_hdr (fin_state sock.state (not (tcp_hdr.flags == 1)))
    else deliver_data free_memory sock tcp_hdr skb

-- The switch on the flags: SYN 2, ACK 16, FIN 1, PSH 8; `skb` is the payload.
unfoldable pub tcp_segment_arrives :
    (free_memory : Bool) → Socket → TcpHeader → Skb → Outcome (Socket × List Sent)
unfolding ack_state
tcp_segment_arrives free_memory sock tcp_hdr skb =
    if (tcp_hdr.flags == 2) || (tcp_hdr.flags == 18)
    then deliver_syn free_memory sock tcp_hdr
    else if (tcp_hdr.flags == 1) || ((tcp_hdr.flags == 17) || (tcp_hdr.flags == 25))
    then deliver_fin free_memory sock tcp_hdr skb
    else if (tcp_hdr.flags == 16) && (skb.size == 0)
    then returns (record sock { state = ack_state sock.state }, [])
    else if (tcp_hdr.flags == 16) || (tcp_hdr.flags == 24)
    then deliver_data free_memory sock tcp_hdr skb
    else returns (sock, [])

-- The result, the table and what was sent.
abbrev pub Delivered : Type 0
Delivered = ℤ × SockFds × List Sent

-- The socket that the search finds is updated in place.
abbrev pub update_socket : SockFds → ℕ → Outcome (Socket × List Sent) → Outcome Delivered
update_socket fds fd (returns (sock, sent)) = returns (pos 0, put fds fd (some sock), sent)
update_socket fds fd hangs = hangs

-- The search finds open descriptors only, so the case of none does not arise.
unfoldable pub deliver_to :
    (free_memory : Bool) → SockFds → TcpHeader → Skb → (fd : ℕ) → Option Socket → Outcome Delivered
deliver_to free_memory fds tcp_hdr payload fd none = hangs
deliver_to free_memory fds tcp_hdr payload fd (some sock) =
    update_socket fds fd (tcp_segment_arrives free_memory sock tcp_hdr payload)

unfoldable pub deliver_found :
    (free_memory : Bool) → SockFds → TcpHeader → Skb → Option ℕ → Outcome Delivered
unfolding deliver_to
deliver_found free_memory fds tcp_hdr payload none = returns (negsuc 1, fds, [])
deliver_found free_memory fds tcp_hdr payload (some fd) =
    deliver_to free_memory fds tcp_hdr payload fd (fds fd)

unfoldable pub tcp_layer_deliver : (free_memory : Bool) → SockFds → Skb → Outcome Delivered
unfolding deliver_found
tcp_layer_deliver free_memory fds skb =
    let tcp_hdr = read_tcp_header skb.bytes in
    deliver_found free_memory fds tcp_hdr (skb_pull skb (4 * tcp_hdr.hdr_len))
      (tcp_search_socket fds tcp_hdr.dst_port)

-- `src_ip` is the sender in the IP header.
unfoldable pub udp_to :
    SockFds → (src_ip src_port : ℕ) → Skb → (fd : ℕ) → Option Socket → ℤ × SockFds
udp_to fds src_ip src_port payload fd none = (negsuc 1, fds)
udp_to fds src_ip src_port payload fd (some sock) = (
  pos 0,
  put fds fd (
      some record sock {
        dst = record sock.dst { sin_addr = src_ip; sin_port = src_port };
        rx_qu = sock.rx_qu ++ payload ∷ [];
      }),
)

unfoldable pub udp_found : SockFds → (src_ip src_port : ℕ) → Skb → Option ℕ → ℤ × SockFds
unfolding udp_to
udp_found fds src_ip src_port payload none = (negsuc 1, fds)
udp_found fds src_ip src_port payload (some fd) = udp_to fds src_ip src_port payload fd (fds fd)

unfoldable pub udp_layer_deliver : SockFds → (src_ip : ℕ) → Skb → ℤ × SockFds
unfolding udp_found
udp_layer_deliver fds src_ip skb =
    let byte = λ (k : ℕ). get_or skb.bytes k 0 in
    udp_found fds src_ip (byte 0 + 256 * byte 1) (skb_pull skb udp_hdr_len)
      (udp_search_socket fds (byte 2 + 256 * byte 3))
