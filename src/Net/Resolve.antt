-- ===== src/Net/Resolve.antt =====
-- gethostaddr at one host answered by arp_recv_packet at another.
use witos.Base.{
  ℕ, zero, suc, ◌+◌, ◌-◌, ◌<◌, ◌≡◌, refl, ap, ◌∙◌, true, false, Option, none, some, List, [], ◌∷◌,
  ◌++◌, Bool-cases, inl, inr, replicate, pos, arith,
}
use witos.Net.Types.{Skb, SockFds}
use witos.Net.Arp.{
  Ip4, Mac, Ndev, Host, Frame, same_ip, arp_op_req, arp_op_rep, arp_send_packet, getaddr, ArpState,
  learn, arp_recv_packet, Look, look_loop, gethostaddr,
}

same_ip-itself : (a : Ip4) → same_ip a a ≡ true
same_ip-itself a = ground arith

getaddr-append :
    (hosts : List Host) (host : Host) (nip : Ip4)
    → getaddr hosts nip ≡ none
    → getaddr (hosts ++ host ∷ []) nip ≡ getaddr (host ∷ []) nip
unfolding getaddr
getaddr-append [] host nip h = refl
getaddr-append (first ∷ hosts) host nip h = elim (Bool-cases (same_ip first.ip nip)) [
  | inl e ↦ absurd (ground arith)
  | inr e ↦ rw e (getaddr-append hosts host nip (rw e at h))
]

host_found : (host : Host) → getaddr (host ∷ []) host.ip ≡ some host.mac
unfolding getaddr
host_found host = rw (same_ip-itself host.ip) refl

-- A poll at which nothing comes.
abbrev pub quiet : Look
quiet = (false, λ hosts. hosts)

abbrev pub as_packet : Frame → Skb
as_packet frame = record { bytes = frame.bytes; size = 28 }

-- A poll that delivers an ARP packet.
abbrev pub delivers : Ndev → SockFds → Frame → Look
delivers ndev fds frame = (
  false,
  λ hosts.
      (arp_recv_packet ndev (as_packet frame)
        (record { hosts = hosts; fds = fds; frames = [] })).1.hosts,
)

abbrev pub request : (a b : Ndev) → Frame
request a b = arp_send_packet a b.ip none arp_op_req

abbrev pub reply : (a b : Ndev) → Frame
reply a b = arp_send_packet b a.ip (some a.mac_addr) arp_op_rep

answers :
    (a b : Ndev) (st : ArpState)
    → arp_recv_packet b (as_packet (request a b)) st
      ≡ (pos 0, record st { frames = st.frames ++ reply a b ∷ [] })
unfolding arp_recv_packet arp_send_packet
answers a b st = rw (same_ip-itself b.ip) refl

learned :
    (a b : Ndev) (fds : SockFds) (hosts : List Host)
    → getaddr hosts b.ip ≡ none
    → (arp_recv_packet a
        (as_packet (reply a b))
        (record { hosts = hosts; fds = fds; frames = [] })).1.hosts
      ≡ hosts ++ (record { ip = b.ip; mac = b.mac_addr }) ∷ []
unfolding arp_recv_packet arp_send_packet learn
learned a b fds hosts unknown = rw unknown refl

look_loop-found :
    (turns : ℕ) (poll : List Host → List Host) (rounds : List Look) (hosts after : List Host)
    (nip : Ip4) (mac : Mac)
    → poll hosts ≡ after
    → getaddr after nip ≡ some mac
    → look_loop (suc turns) ((false, poll) ∷ rounds) hosts nip ≡ some (some mac, after)
unfolding look_loop
look_loop-found turns poll rounds hosts after nip mac e found =
    rw (e, found, look_loop) (ap (λ (h : List Host). some (some mac, h)) e)

look_loop-quiet :
    (k turns : ℕ) (rounds : List Look) (hosts : List Host) (nip : Ip4)
    → getaddr hosts nip ≡ none
    → look_loop (k + turns) (replicate k quiet ++ rounds) hosts nip
      ≡ look_loop turns rounds hosts nip
unfolding look_loop
look_loop-quiet zero turns rounds hosts nip unknown =
    let none_left : 0 + turns ≡ turns = omega arith in rw none_left refl
look_loop-quiet (suc k) turns rounds hosts nip unknown =
    let one : suc k + turns ≡ suc (k + turns) = omega arith in
    rw (one, unknown, look_loop) (look_loop-quiet k turns rounds hosts nip unknown)

-- One host resolves the address of another that its table does not have. gethostaddr sends a request
-- to all; arp_recv_packet at the host with that address adds nothing to its tables and sends one
-- reply; when, after fewer than 100000 polls that bring nothing and no Ctrl-C, a poll delivers
-- that reply, whatever sockets there are, gethostaddr returns the link address of the other host,
-- which is then at the end of the table.
pub gethostaddr-arp_recv_packet :
    (a b : Ndev) (hosts : List Host) (fds : SockFds) (st : ArpState) (polls : ℕ)
    (rounds : List Look)
    → getaddr hosts b.ip ≡ none
    → polls < 100000
    → (arp_recv_packet b (as_packet (request a b)) st
        ≡ (pos 0, record st { frames = st.frames ++ reply a b ∷ [] }))
      × (gethostaddr a (replicate polls quiet ++ delivers a fds (reply a b) ∷ rounds) hosts b.ip ≡ (
        request a b,
        some (some b.mac_addr, hosts ++ (record { ip = b.ip; mac = b.mac_addr }) ∷ []),
      ))
unfolding gethostaddr
gethostaddr-arp_recv_packet a b hosts fds st polls rounds unknown few =
    let host : Host = record { ip = b.ip; mac = b.mac_addr } in
    let more = delivers a fds (reply a b) ∷ rounds in
    let left = 100000 - polls - 1 in
    let split : 100000 ≡ polls + suc left = omega arith in
    let new : getaddr (hosts ++ host ∷ []) b.ip ≡ some b.mac_addr =
      getaddr-append hosts host b.ip unknown ∙ host_found host in
    (
      answers a b st,
      ap (λ (r : Option (Option Mac × List Host)). (request a b, r))
          (ap (λ (n : ℕ). look_loop n (replicate polls quiet ++ more) hosts b.ip) split
            ∙ look_loop-quiet polls (suc left) more hosts b.ip unknown
            ∙ look_loop-found left (delivers a fds (reply a b)).1 rounds hosts (hosts ++ host ∷ [])
                b.ip b.mac_addr (learned a b fds hosts unknown) new),
    )
