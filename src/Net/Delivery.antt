-- ===== src/Net/Delivery.antt =====
-- What one host sends by the IP layer of driver/net/core/net.c another receives.
use witos.Base.{
  ℕ, zero, suc, ◌+◌, ◌-◌, ◌*◌, ◌/◌, ◌%◌, ◌^◌, ◌≡◌, ◌<◌, refl, ap, some, List, [], ◌∷◌, ◌++◌, ◌==◌,
  if◌then◌else◌, take, length, pos, arith,
}
use witos.Net.Types.{Skb, Sent, SockFds}
use witos.Net.Checksum.{net_calc_checksum, AllBytes, checksum_verifies}
use witos.Net.Send.{prot_udp}
use witos.Net.Arp.{Mac, Ndev, bcast}
use witos.Net.Receive.{prot_icmp}
use witos.Net.Ip.{
  Handed, to_udp, to_tcp, to_icmp, ip_packet, ip_of, ntohl_of, ip_is_bcast, ether_send_packet,
  eth_type_ip, ip_layer_deliver, netif_rx, init_ping_packet, ping_send, icmp_deliver,
}

-- The frame of a packet.
abbrev pub framed : Ndev → Mac → (ip_id : ℕ) → Sent → List ℕ
framed ndev mac ip_id s =
    ether_send_packet ndev record { mac = mac; eth_type = eth_type_ip; bytes = ip_packet ip_id s }

-- The layer that the packet is for.
abbrev pub handed_on : Sent → Handed
handed_on s =
    let skb : Skb = record { bytes = s.bytes; size = length s.bytes } in
    if s.prot == prot_udp then to_udp s.src_ip skb else to_tcp skb

word :
    (n : ℕ)
    → n < 2 ^ 32
    → n % 256 + 256 * (n / 256 % 256) + 65536 * (n / 65536 % 256) + 16777216 * (n / 16777216 % 256)
      ≡ n
word n lt = omega arith

-- The link address to which a packet goes when the table has `mac`.
abbrev pub target : (mask : ℕ) → Mac → Sent → Mac
target mask mac s = if ip_is_bcast mask (ntohl_of (ip_of s.des_ip)) then bcast else mac

take-append : (n : ℕ) (xs ys : List ℕ) → length xs ≡ n → take n (xs ++ ys) ≡ xs
take-append zero [] ys e = refl
take-append zero (x ∷ xs) ys e = absurd (omega arith)
take-append (suc n) [] ys e = absurd (omega arith)
take-append (suc n) (x ∷ xs) ys e = ap (λ (l : List ℕ). x ∷ l) (take-append n xs ys (omega arith))

-- A ping of 64 bytes with the identifier i, the number q and 56 bytes of data.
abbrev pub ping : (type_ c0 c1 i0 i1 q0 q1 : ℕ) → (payload : List ℕ) → List ℕ
ping type_ c0 c1 i0 i1 q0 q1 payload = type_ ∷ 0 ∷ c0 ∷ c1 ∷ i0 ∷ i1 ∷ q0 ∷ q1 ∷ payload

-- A frame with an echo request of 64 bytes, whose checksum is not looked at, is handed to ICMP, which
-- returns 0, leaves the sockets as they are and sends one reply: to the sender of the request and from
-- its destination, with the identifier, the number and the data of the request and a right checksum.
pub netif_rx-ping :
    (ndev : Ndev) (mac : Mac) (ip_id size src des c0 c1 i0 i1 q0 q1 : ℕ) (payload behind : List ℕ)
    (fds : SockFds)
    → src < 2 ^ 32
    → des < 2 ^ 32
    → AllBytes (i0 ∷ i1 ∷ q0 ∷ q1 ∷ payload)
    → length payload ≡ 56
    → (skb : Skb) × (reply : Sent) × (netif_rx record {
      bytes = framed ndev mac ip_id record {
        prot = prot_icmp;
        src_ip = src;
        des_ip = des;
        bytes = ping 8 c0 c1 i0 i1 q0 q1 payload;
      };
      size = size;
    }
        ≡ to_icmp 20 src des skb)
      × (icmp_deliver 20 src des behind skb fds ≡ (pos 0, fds, some reply))
      × (reply.prot ≡ prot_icmp)
      × (reply.src_ip ≡ des)
      × (reply.des_ip ≡ src)
      × ((s0 : ℕ) × (s1 : ℕ) × (reply.bytes ≡ ping 0 s0 s1 i0 i1 q0 q1 payload))
      × (net_calc_checksum reply.bytes ≡ 65535)
unfolding netif_rx ether_send_packet ip_layer_deliver ip_packet icmp_deliver ping_send
    init_ping_packet
netif_rx-ping ndev mac ip_id size src des c0 c1 i0 i1 q0 q1 payload behind fds hs hd bytes long =
    let data_ : take 56 (payload ++ behind) ≡ payload = take-append 56 payload behind long in
    let sum = 65535 - net_calc_checksum (0 ∷ 0 ∷ 0 ∷ 0 ∷ i0 ∷ i1 ∷ q0 ∷ q1 ∷ payload) in
    let request : Sent = record {
      prot = prot_icmp;
      src_ip = src;
      des_ip = des;
      bytes = ping 8 c0 c1 i0 i1 q0 q1 payload;
    } in
    (
      record { bytes = ip_packet ip_id request; size = 84 },
      ping_send src des (ping 8 c0 c1 i0 i1 q0 q1 payload) behind 0,
      rw (long, word src hs, word des hd) refl,
      refl,
      refl,
      refl,
      refl,
      (sum % 256, sum / 256, rw data_ refl),
      rw data_ (
          checksum_verifies (0 ∷ 0 ∷ []) (i0 ∷ i1 ∷ q0 ∷ q1 ∷ payload) (omega arith) bytes
            (omega arith) (omega (arith, long))),
    )
