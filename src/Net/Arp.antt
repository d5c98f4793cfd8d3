-- ===== src/Net/Arp.antt =====
-- The ARP layer of driver/net/core/net.c with its table of hosts, and gethostaddr of lib/net/socket.c.
-- An address is its bytes, which memcpy moves; a packet is its 28 bytes, in the order of struct
-- arp_packet. malloc and skb_alloc find a block.
use witos.Base.{
  ℕ, zero, suc, ◌+◌, ◌*◌, Bool, true, false, ◌&&◌, Option, none, some, List, [], ◌∷◌, ◌++◌, ◌==◌,
  if◌then◌else◌, get_or, ℤ, pos, negsuc,
}
use witos.Net.Types.{Skb, SockFds}
use witos.Net.Table.{put, arp_search_socket}

pub record Ip4 : Type 0 where
  pub i0 : ℕ
  pub i1 : ℕ
  pub i2 : ℕ
  pub i3 : ℕ

-- struct eth_addr, the bytes of a link address.
pub record Mac : Type 0 where
  pub m0 : ℕ
  pub m1 : ℕ
  pub m2 : ℕ
  pub m3 : ℕ
  pub m4 : ℕ
  pub m5 : ℕ

-- What the layer uses of struct net_device.
pub record Ndev : Type 0 where
  pub ip : Ip4
  pub mac_addr : Mac

-- struct host_addr
pub record Host : Type 0 where
  pub ip : Ip4
  pub mac : Mac

-- What ether_send_packet is handed.
pub record Frame : Type 0 where
  pub mac : Mac
  pub eth_type : ℕ
  pub bytes : List ℕ

abbrev pub ip_bytes : Ip4 → List ℕ → List ℕ
ip_bytes a rest = a.i0 ∷ a.i1 ∷ a.i2 ∷ a.i3 ∷ rest

abbrev pub mac_bytes : Mac → List ℕ → List ℕ
mac_bytes a rest = a.m0 ∷ a.m1 ∷ a.m2 ∷ a.m3 ∷ a.m4 ∷ a.m5 ∷ rest

abbrev pub ip_at : List ℕ → ℕ → Ip4
ip_at bytes k = record {
  i0 = get_or bytes k 0;
  i1 = get_or bytes (k + 1) 0;
  i2 = get_or bytes (k + 2) 0;
  i3 = get_or bytes (k + 3) 0;
}

abbrev pub mac_at : List ℕ → ℕ → Mac
mac_at bytes k = record {
  m0 = get_or bytes k 0;
  m1 = get_or bytes (k + 1) 0;
  m2 = get_or bytes (k + 2) 0;
  m3 = get_or bytes (k + 3) 0;
  m4 = get_or bytes (k + 4) 0;
  m5 = get_or bytes (k + 5) 0;
}

abbrev pub same_ip : Ip4 → Ip4 → Bool
same_ip a b = a.i0 == b.i0 && a.i1 == b.i1 && a.i2 == b.i2 && a.i3 == b.i3

-- A word of memory, low byte first.
abbrev pub ip_word : Ip4 → ℕ
ip_word a = a.i0 + 256 * a.i1 + 65536 * a.i2 + 16777216 * a.i3

abbrev pub arp_op_req : ℕ
arp_op_req = 1

abbrev pub arp_op_rep : ℕ
arp_op_rep = 2

abbrev pub eth_type_arp : ℕ
eth_type_arp = 0x806

-- mac_fill_bcast
abbrev pub bcast : Mac
bcast = record { m0 = 255; m1 = 255; m2 = 255; m3 = 255; m4 = 255; m5 = 255 }

abbrev pub mac_or_bcast : Option Mac → Mac
mac_or_bcast none = bcast
mac_or_bcast (some mac) = mac

unfoldable pub arp_send_packet : Ndev → (nip : Ip4) → Option Mac → (op_code : ℕ) → Frame
arp_send_packet ndev nip mac op_code = record {
  mac = mac_or_bcast mac;
  eth_type = eth_type_arp;
  bytes =
      0
      ∷ 1
      ∷ 8
      ∷ 0
      ∷ 6
      ∷ 4
      ∷ 0
      ∷ op_code
      ∷ mac_bytes ndev.mac_addr (ip_bytes ndev.ip (mac_bytes (mac_or_bcast mac) (ip_bytes nip [])));
}

unfoldable pub getaddr : List Host → Ip4 → Option Mac
getaddr [] nip = none
getaddr (host ∷ hosts) nip = if same_ip host.ip nip then some host.mac else getaddr hosts nip

-- The sockets and the hosts that ARP changes, and what it sends.
pub record ArpState : Type 0 where
  pub hosts : List Host
  pub fds : SockFds
  pub frames : List Frame

-- The packet goes to the socket that asks for the address.
abbrev pub queue_reply : SockFds → Skb → Option ℕ → SockFds
queue_reply fds skb none = fds
queue_reply fds skb (some fd) = elim (fds fd) [
  | none ↦ fds
  | some sock ↦ put fds fd (some record sock { rx_qu = sock.rx_qu ++ skb ∷ [] })
]

-- The case ARP_OP_REP for an address that getaddr does not give yet.
unfoldable pub learn : Skb → ArpState → ArpState
learn skb st =
    let ip = ip_at skb.bytes 14 in
    record st {
      hosts = st.hosts ++ (record { ip = ip; mac = mac_at skb.bytes 8 }) ∷ [];
      fds = queue_reply st.fds skb (arp_search_socket st.fds (ip_word ip));
    }

abbrev pub is_known : Option Mac → Bool
is_known none = false
is_known (some mac) = true

-- -ENOTSUPP for another protocol; ETH_TYPE_IP are the bytes 8 and 0.
unfoldable pub arp_recv_packet : Ndev → Skb → ArpState → ℤ × ArpState
unfolding learn getaddr arp_send_packet
arp_recv_packet ndev skb st =
    let byte = λ (k : ℕ). get_or skb.bytes k 0 in
    let ip = ip_at skb.bytes 14 in
    let reply = arp_send_packet ndev ip (some (mac_at skb.bytes 8)) arp_op_rep in
    if byte 2 == 8 && byte 3 == 0
    then (if byte 6 == 0 && byte 7 == arp_op_rep
        then (pos 0, if is_known (getaddr st.hosts ip) then st else learn skb st)
        else if byte 6 == 0 && byte 7 == arp_op_req
        then (
          pos 0,
          if same_ip (ip_at skb.bytes 24) ndev.ip
              then record st { frames = st.frames ++ reply ∷ [] }
              else st,
        )
        else (pos 0, st))
    else (negsuc 523, st)

-- One round of gethostaddr: whether Ctrl-C is pressed, and what ndev_poll does to the table of hosts.
abbrev pub Look : Type 0
Look = Bool × (List Host → List Host)

-- The loop, with the turns left; the outer none is a call that waits on when the rounds are over.
unfoldable pub look_loop :
    (turns : ℕ) → List Look → List Host → Ip4 → Option (Option Mac × List Host)
unfolding getaddr
look_loop zero rounds hosts nip = some (none, hosts)
look_loop (suc turns) [] hosts nip = none
look_loop (suc turns) ((key, poll) ∷ rounds) hosts nip =
    let rest = look_loop turns rounds (poll hosts) nip in
    if key
    then some (none, hosts)
    else elim (getaddr (poll hosts) nip) [ none ↦ rest | some mac ↦ some (some mac, poll hosts) ]

-- gethostaddr: the request that it sends, and what it gives.
unfoldable pub gethostaddr :
    Ndev → List Look → List Host → Ip4 → Frame × Option (Option Mac × List Host)
unfolding look_loop arp_send_packet
gethostaddr ndev rounds hosts nip =
    (arp_send_packet ndev nip none arp_op_req, look_loop 100000 rounds hosts nip)
