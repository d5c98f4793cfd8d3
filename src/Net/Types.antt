-- ===== src/Net/Types.antt =====
-- The data of include/net/socket.h, include/net/skb.h and include/net/net.h. A `struct sock_buff` is
-- the bytes from `data` on and its `size`; addresses and ports are the numbers that the fields hold
-- in memory, so in network order; the pointer `skb->sock` is the socket that a function is given.
use witos.Base.{ℕ, List, Option, Bool, true, ◌==◌, if◌then◌else◌, ◌≡◌, refl, sym, ap, ◌∙◌, arith}

pub record Skb : Type 0 where
  pub bytes : List ℕ
  pub size : ℕ

pub record SockaddrIn : Type 0 where
  pub sin_family : ℕ
  pub sin_port : ℕ
  pub sin_addr : ℕ

pub data TcpState : Type 0 where
  closed : TcpState
  listen : TcpState
  syn_sent : TcpState
  syn_rcvd : TcpState
  established : TcpState
  close_wait : TcpState
  fin_wait1 : TcpState
  closing : TcpState
  last_ack : TcpState
  fin_wait2 : TcpState
  time_wait : TcpState

-- The value of the constant in the enumeration; the code compares these.
abbrev pub state_code : TcpState → ℕ
state_code TcpState.closed = 0
state_code TcpState.listen = 1
state_code TcpState.syn_sent = 2
state_code TcpState.syn_rcvd = 3
state_code TcpState.established = 4
state_code TcpState.close_wait = 5
state_code TcpState.fin_wait1 = 6
state_code TcpState.closing = 7
state_code TcpState.last_ack = 8
state_code TcpState.fin_wait2 = 9
state_code TcpState.time_wait = 10

abbrev pub is_state : TcpState → TcpState → Bool
is_state a b = state_code a == state_code b

coded : ℕ → TcpState
coded n =
    if n == 0
    then closed
    else if n == 1
    then listen
    else if n == 2
    then syn_sent
    else if n == 3
    then syn_rcvd
    else if n == 4
    then established
    else if n == 5
    then close_wait
    else if n == 6
    then fin_wait1
    else if n == 7
    then closing
    else if n == 8
    then last_ack
    else if n == 9
    then fin_wait2
    else time_wait

coded-state_code : (state : TcpState) → coded (state_code state) ≡ state
unfolding coded
coded-state_code TcpState.closed = refl
coded-state_code TcpState.listen = refl
coded-state_code TcpState.syn_sent = refl
coded-state_code TcpState.syn_rcvd = refl
coded-state_code TcpState.established = refl
coded-state_code TcpState.close_wait = refl
coded-state_code TcpState.fin_wait1 = refl
coded-state_code TcpState.closing = refl
coded-state_code TcpState.last_ack = refl
coded-state_code TcpState.fin_wait2 = refl
coded-state_code TcpState.time_wait = refl

pub is_state-equal : (a b : TcpState) → is_state a b ≡ true → a ≡ b
is_state-equal a b h =
    let same : state_code a ≡ state_code b = ground arith in
    sym (coded-state_code a) ∙ ap coded same ∙ coded-state_code b

-- saddr[SA_SRC] and saddr[SA_DST] are the fields `src` and `dst`; nothing is ever put into `tx_qu`.
pub record Socket : Type 0 where
  pub kind : ℕ
  pub protocol : ℕ
  pub obstruct_flags : ℕ
  pub rx_qu : List Skb
  pub src : SockaddrIn
  pub dst : SockaddrIn
  pub state : TcpState
  pub seq_num : ℕ
  pub ack_num : ℕ

-- g_sock_fds
abbrev pub SockFds : Type 0
SockFds = ℕ → Option Socket

-- What ip_send_packet is handed: the protocol, the addresses of the socket, and the bytes.
pub record Sent : Type 0 where
  pub prot : ℕ
  pub src_ip : ℕ
  pub des_ip : ℕ
  pub bytes : List ℕ

-- struct tcp_header; the sequence numbers are those that ntohl gives.
pub record TcpHeader : Type 0 where
  pub src_port : ℕ
  pub dst_port : ℕ
  pub seq_num : ℕ
  pub ack_num : ℕ
  pub hdr_len : ℕ
  pub flags : ℕ
  pub win_size : ℕ
