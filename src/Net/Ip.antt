-- ===== src/Net/Ip.antt =====
-- The link and IP layers of driver/net/core/net.c: ether_send_packet, ip_send_packet, netif_rx,
-- ip_layer_deliver, and ICMP. A frame on the wire is its bytes. skb_alloc finds a block and
-- reserves the room of the headers, so `data` meets `head` in ether_send_packet; what send_packet of the
-- driver returns is the argument `ret`. netif_rx and ip_layer_deliver say to which layer they hand a
-- packet; skb_free and what is printed are left out.
use Prim.Native.Nat.{bit_or}
use witos.Base.{
  ℕ, ◌+◌, ◌-◌, ◌*◌, ◌/◌, ◌%◌, ◌^◌, Bool, Option, none, some, List, [], ◌∷◌, ◌++◌, ltb, ◌==◌, ◌>>=◌,
  if◌then◌else◌, get_or, take, drop, length, ℤ, pos, negsuc,
}
use witos.Net.Types.{Skb, Sent, SockFds}
use witos.Net.Checksum.{net_calc_checksum}
use witos.Net.Table.{icmp_search_socket}
use witos.Net.Send.{htons_bytes, bytes32, prot_tcp, prot_udp}
use witos.Net.Deliver.{skb_pull}
use witos.Net.Receive.{prot_icmp}
use witos.Net.Arp.{
  Ip4, Mac, Ndev, Host, Frame, Look, mac_bytes, bcast, getaddr, gethostaddr, queue_reply,
}

abbrev pub eth_type_ip : ℕ
eth_type_ip = 0x800

abbrev pub eth_hdr_len : ℕ
eth_hdr_len = 14

abbrev pub ip_hdr_len : ℕ
ip_hdr_len = 20

-- What the driver is given to send.
unfoldable pub ether_send_packet : Ndev → Frame → List ℕ
ether_send_packet ndev frame =
    mac_bytes frame.mac (mac_bytes ndev.mac_addr (htons_bytes frame.eth_type ++ frame.bytes))

-- The fields of struct ip_header before the checksum.
abbrev pub ip_header_start : (ip_id size prot : ℕ) → List ℕ
ip_header_start ip_id size prot =
    0x45 ∷ 0 ∷ htons_bytes size ++ htons_bytes ip_id ++ 0x40 ∷ 0 ∷ 64 ∷ prot ∷ []

abbrev pub ip_addresses : Sent → List ℕ
ip_addresses s = bytes32 s.src_ip ++ bytes32 s.des_ip

-- The packet that ip_send_packet makes of what it is handed.
unfoldable pub ip_packet : (ip_id : ℕ) → Sent → List ℕ
ip_packet ip_id s =
    let start = ip_header_start ip_id ((length s.bytes + ip_hdr_len) % 2 ^ 16) s.prot in
    let chksum = 65535 - net_calc_checksum (start ++ 0 ∷ 0 ∷ ip_addresses s) in
    start ++ chksum % 256 ∷ chksum / 256 ∷ ip_addresses s ++ s.bytes

-- The four bytes of a word in memory, and the word that ntohl makes of them.
abbrev pub ip_of : ℕ → Ip4
ip_of n = record { i0 = n % 256; i1 = n / 256 % 256; i2 = n / 65536 % 256; i3 = n / 16777216 % 256 }

abbrev pub ntohl_of : Ip4 → ℕ
ntohl_of a = 16777216 * a.i0 + 65536 * a.i1 + 256 * a.i2 + a.i3

-- ~(ndev->mask | ip) == 0
abbrev pub ip_is_bcast : (mask ip : ℕ) → Bool
ip_is_bcast mask ip = bit_or mask ip == 0xffffffff

-- What the senders share: the table of hosts, the static ip_id, and the frames sent so far.
pub record Link : Type 0 where
  pub hosts : List Host
  pub ip_id : ℕ
  pub wire : List (List ℕ)

-- mac_fill_from_arp; the outer none is a call of gethostaddr that waits on when the rounds are over.
unfoldable pub mac_fill_from_arp : Ndev → List Look → Ip4 → Link → Option (Option Mac × Link)
mac_fill_from_arp ndev rounds nip link = elim (getaddr link.hosts nip) [
  | some mac ↦ some (some mac, link)
  | none ↦
      let asked = gethostaddr ndev rounds link.hosts nip in
      asked.1 >>= (λ r.
        some (
          r.0,
          record link { hosts = r.1; wire = link.wire ++ ether_send_packet ndev asked.0 ∷ [] },
        ))
]

-- The end of ip_send_packet, with the address that was found; -EIO without one.
unfoldable pub send_to : Ndev → (ret : ℤ) → (packet : List ℕ) → Option Mac → Link → ℤ × Link
send_to ndev ret packet none link = (negsuc 4, link)
send_to ndev ret packet (some mac) link = (
  ret,
  record link {
    wire =
        link.wire
        ++ ether_send_packet ndev record { mac = mac; eth_type = eth_type_ip; bytes = packet } ∷ [];
  },
)

unfoldable pub ip_send_packet :
    Ndev → (mask : ℕ) → (ret : ℤ) → List Look → Sent → Link → Option (ℤ × Link)
ip_send_packet ndev mask ret rounds s link =
    let packet = ip_packet link.ip_id s in
    let counted = record link { ip_id = (link.ip_id + 1) % 2 ^ 16 } in
    let nip = ip_of s.des_ip in
    if ip_is_bcast mask (ntohl_of nip)
    then some (send_to ndev ret packet (some bcast) counted)
    else mac_fill_from_arp ndev rounds nip counted >>= (λ r. some (send_to ndev ret packet r.0 r.1))

-- To which layer a received packet goes; the IP header goes along as far as the layer reads it.
pub data Handed : Type 0 where
  to_arp : Skb → Handed
  to_udp : (src_ip : ℕ) → Skb → Handed
  to_tcp : Skb → Handed
  to_icmp : (hdr_len src_ip des_ip : ℕ) → Skb → Handed
  refused : ℤ → Handed
  dropped : Handed

abbrev pub word_at : List ℕ → ℕ → ℕ
word_at bytes k =
    get_or bytes k 0
    + 256 * get_or bytes (k + 1) 0
    + 65536 * get_or bytes (k + 2) 0
    + 16777216 * get_or bytes (k + 3) 0

-- size is a __u16; ICMP gets the packet with its header again.
unfoldable pub ip_layer_deliver : Skb → Handed
ip_layer_deliver skb =
    let byte = λ (k : ℕ). get_or skb.bytes k 0 in
    let hdr_len = 4 * (byte 0 % 16) in
    let total_len = 256 * byte 2 + byte 3 in
    let size = (total_len + 2 ^ 16 - hdr_len) % 2 ^ 16 in
    let pulled : Skb = record { bytes = drop hdr_len skb.bytes; size = size } in
    if ltb hdr_len ip_hdr_len
    then refused (negsuc 21)
    else if byte 9 == prot_udp
    then to_udp (word_at skb.bytes 12) pulled
    else if byte 9 == prot_tcp
    then to_tcp pulled
    else if byte 9 == prot_icmp
    then to_icmp hdr_len (word_at skb.bytes 12) (word_at skb.bytes 16)
        record { bytes = skb.bytes; size = (size + hdr_len) % 2 ^ 16 }
    else dropped

-- The frame as the driver hands it over.
unfoldable pub netif_rx : Skb → Handed
netif_rx skb =
    let type_ = 256 * get_or skb.bytes 12 0 + get_or skb.bytes 13 0 in
    let pulled = skb_pull skb eth_hdr_len in
    if type_ == 0x806
    then to_arp pulled
    else if type_ == eth_type_ip
    then ip_layer_deliver pulled
    else dropped

abbrev pub ping_packet_length : ℕ
ping_packet_length = 64

-- init_ping_packet on 64 bytes: `fields` are the bytes of id and seqno, `buff` the data that is copied.
unfoldable pub init_ping_packet : (type_ : ℕ) → (fields buff : List ℕ) → List ℕ
init_ping_packet type_ fields buff =
    let rest = fields ++ take (ping_packet_length - 8) buff in
    let chksum = 65535 - net_calc_checksum (type_ ∷ 0 ∷ 0 ∷ 0 ∷ rest) in
    type_ ∷ 0 ∷ chksum % 256 ∷ chksum / 256 ∷ rest

-- ping_send of a received ping; `behind` is the memory behind the packet, which a short one is filled up
-- with.
unfoldable pub ping_send : (src_ip des_ip : ℕ) → (ping behind : List ℕ) → (type_ : ℕ) → Sent
ping_send src_ip des_ip ping behind type_ = record {
  prot = prot_icmp;
  src_ip = des_ip;
  des_ip = src_ip;
  bytes = init_ping_packet type_ (take 4 (drop 4 ping)) (drop 8 ping ++ behind);
}

-- icmp_deliver: the table, the reply that it sends, and what it returns.
unfoldable pub icmp_deliver :
    (hdr_len src_ip des_ip : ℕ) → (behind : List ℕ) → Skb → SockFds → ℤ × SockFds × Option Sent
icmp_deliver hdr_len src_ip des_ip behind skb fds =
    let type_ = get_or skb.bytes hdr_len 0 in
    if type_ == 8
    then (pos 0, fds, some (ping_send src_ip des_ip (drop hdr_len skb.bytes) behind 0))
    else if type_ == 0
    then elim (icmp_search_socket fds src_ip) [
      | none ↦ (negsuc 1, fds, none)
      | some fd ↦ (pos 0, queue_reply fds skb (some fd), none)
    ]
    else (pos 0, fds, none)
