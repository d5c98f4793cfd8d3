-- ===== src/Net/DatagramExamples.antt =====
-- Runs of the datagram calls and of ARP: a client at 127.0.0.2 and a server at 127.0.0.1.
use witos.Base.{ℕ, ◌≡◌, ◌≢◌, ◌==◌, false, refl, none, some, [], ◌∷◌, ◌++◌, arith, pos, replicate}
use witos.Net.Types.{Skb, Sent, SockaddrIn, closed, Socket, SockFds}
use witos.Net.Table.{put, no_addr, find_fd, udp_match, udp_search_socket}
use witos.Net.Send.{udp_send_packet}
use witos.Net.Receive.{htons, bind, packet, sendto, recvfrom}
use witos.Net.Transport.{quiet, delivers, sendto-recvfrom}
use witos.Net.Ports.{any_port, bind-udp_search_socket}
use witos.Net.Checksum.{net_calc_checksum}
use witos.Net.Ip.{Link, ip_of, netif_rx, icmp_deliver, to_icmp}
use witos.Net.Delivery.{framed, ping, netif_rx-ping}
use witos.Net.Arp.{Mac, Ndev, getaddr, ArpState, arp_recv_packet, gethostaddr}
use witos.Net.Resolve
use witos.Net.Resolve.{as_packet, request, reply, gethostaddr-arp_recv_packet}

abbrev server : SockaddrIn
server = record { sin_family = 2; sin_port = 80; sin_addr = 0x0100007f }

abbrev client_addr : SockaddrIn
client_addr = record { sin_family = 2; sin_port = 50001; sin_addr = 0x0200007f }

abbrev client : Socket
client = record {
  kind = 1;
  protocol = 0;
  obstruct_flags = 0;
  rx_qu = [];
  src = client_addr;
  dst = no_addr;
  state = closed;
  seq_num = 1;
  ack_num = 0;
}

abbrev datagrams : Socket
datagrams = record client { kind = 2; dst = server }

abbrev no_fds : SockFds
no_fds fd = none

abbrev listener : Socket
listener = record datagrams { src = server; dst = no_addr }

listener_found : udp_search_socket (put no_fds 5 (some listener)) 80 ≡ some 5
unfolding find_fd
listener_found = refl

sendto-recvfrom_example :
    let to : Socket = record datagrams { dst = server } in
    let sent = udp_send_packet to (record { bytes = 1 ∷ 2 ∷ 3 ∷ []; size = 3 }) in
    (sendto (put no_fds 5 (some datagrams)) 5 (1 ∷ 2 ∷ 3 ∷ []) server
      ≡ (pos 3, put (put no_fds 5 (some datagrams)) 5 (some to), packet sent ∷ []))
    × ((after : SockFds) × (recvfrom
            (replicate 2 quiet ++ delivers sent.src_ip sent.bytes 11 ∷ [])
            (put no_fds 5 (some listener))
            5
            100
          ≡ some (
            pos 3,
            1 ∷ 2 ∷ 3 ∷ [],
            some
                record no_addr { sin_addr = client_addr.sin_addr; sin_port = client_addr.sin_port },
            after,
          )))
sendto-recvfrom_example =
    sendto-recvfrom (put no_fds 5 (some datagrams)) (put no_fds 5 (some listener)) 5 5 datagrams
      listener (1 ∷ 2 ∷ 3 ∷ []) server 2 100 [] refl refl (omega arith) (omega arith) (omega arith)
      listener_found refl refl (omega arith)

-- Any port and address.
abbrev no_name : SockaddrIn
no_name = record { sin_family = 2; sin_port = 0; sin_addr = 0 }

-- The second port is the first one of the range again.
abbrev two_sockets : SockFds
two_sockets = put (put no_fds 5 (some datagrams)) 6 (some datagrams)

bind-udp_search_socket_example :
    let one =
      put two_sockets 5 (some record datagrams { src = any_port no_name 65535 0x0200007f }) in
    let both = put one 6 (some record datagrams { src = any_port no_name 50000 0x0200007f }) in
    (bind two_sockets 5 no_name 65534 0x0200007f ≡ (pos 0, one, 65535))
    × (bind one 6 no_name 65535 0x0200007f ≡ (pos 0, both, 50000))
    × (htons 65535 ≢ htons 50000)
    × (udp_search_socket both (htons 65535) ≡ some 5)
    × (udp_search_socket both (htons 50000) ≡ some 6)
bind-udp_search_socket_example =
    bind-udp_search_socket two_sockets 5 6 datagrams datagrams no_name no_name 65534 0x0200007f refl
      refl (omega arith) refl refl refl refl refl refl (omega arith) (free (htons 65535))
      (free (htons 50000))
  where
    free : (p i : ℕ) → i ≢ 5 → i ≢ 6 → udp_match p (two_sockets i) ≡ false
    free p i a b =
        let not_5 : (i == 5) ≡ false = ground arith in
        let not_6 : (i == 6) ≡ false = ground arith in rw (not_5, not_6) refl

abbrev here : Ndev
here = record {
  ip = record { i0 = 127; i1 = 0; i2 = 0; i3 = 2 };
  mac_addr = record { m0 = 2; m1 = 0; m2 = 0; m3 = 0; m4 = 0; m5 = 2 };
}

abbrev there : Ndev
there = record {
  ip = record { i0 = 127; i1 = 0; i2 = 0; i3 = 1 };
  mac_addr = record { m0 = 2; m1 = 0; m2 = 0; m3 = 0; m4 = 0; m5 = 1 };
}

abbrev idle : ArpState
idle = record { hosts = []; fds = no_fds; frames = [] }

nobody_known : getaddr [] there.ip ≡ none
unfolding getaddr
nobody_known = refl

gethostaddr-arp_recv_packet_example :
    (arp_recv_packet there (as_packet (request here there)) idle
      ≡ (pos 0, record idle { frames = [] ++ reply here there ∷ [] }))
    × (gethostaddr here
          (replicate 3 Resolve.quiet ++ Resolve.delivers here no_fds (reply here there) ∷ [])
          []
          there.ip
        ≡ (
          request here there,
          some (some there.mac_addr, [] ++ (record { ip = there.ip; mac = there.mac_addr }) ∷ []),
        ))
gethostaddr-arp_recv_packet_example =
    gethostaddr-arp_recv_packet here there [] no_fds idle 3 [] nobody_known (omega arith)

abbrev server_mac : Mac
server_mac = record { m0 = 2; m1 = 0; m2 = 0; m3 = 0; m4 = 0; m5 = 1 }

abbrev client_dev : Ndev
client_dev = record { ip = ip_of 0x0200007f; mac_addr = record server_mac { m5 = 2 } }

-- The table of the client has the server.
abbrev link : Link
link = record {
  hosts = (record { ip = ip_of 0x0100007f; mac = server_mac }) ∷ [];
  ip_id = 1;
  wire = [];
}

abbrev datagram : Sent
datagram = udp_send_packet datagrams (record { bytes = 1 ∷ 2 ∷ 3 ∷ []; size = 3 })

netif_rx-ping_example :
    (skb : Skb) × (reply : Sent) × (netif_rx (record {
      bytes = framed client_dev server_mac 7 (record {
        prot = 1;
        src_ip = 0x0200007f;
        des_ip = 0x0100007f;
        bytes = ping 8 0 0 1 2 0 1 (replicate 56 97);
      });
      size = 98;
    })
      ≡ to_icmp 20 0x0200007f 0x0100007f skb)
    × (icmp_deliver 20 0x0200007f 0x0100007f [] skb no_fds ≡ (pos 0, no_fds, some reply))
    × (reply.prot ≡ 1)
    × (reply.src_ip ≡ 0x0100007f)
    × (reply.des_ip ≡ 0x0200007f)
    × ((s0 : ℕ) × (s1 : ℕ) × (reply.bytes ≡ ping 0 s0 s1 1 2 0 1 (replicate 56 97)))
    × (net_calc_checksum reply.bytes ≡ 65535)
netif_rx-ping_example =
    netif_rx-ping client_dev server_mac 7 98 0x0200007f 0x0100007f 0 0 1 2 0 1 (replicate 56 97) []
      no_fds (omega arith) (omega arith) (omega arith) (omega arith)
