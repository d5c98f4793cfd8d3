-- ===== src/Tftp/Client.antt =====
-- tftp_download and tftp_upload of lib/net/tftp.c on the table of sockets: socket, bind, sendto and sk_close
-- are those of lib/net/socket.c. A block from malloc is `fresh`; `port` is the static port of port_alloc
-- and `ndev_ip` the address of the first device, both for bind; `meanwhile` is what the transfer makes of
-- the sockets while it waits for packets.
use witos.Base.{ℕ, zero, suc, Bool, Option, List, [], ◌∷◌, ◌++◌, if◌then◌else◌, ℤ, pos, negsuc}
use witos.Memory.{Memory}
use witos.Net.Types.{SockaddrIn, Socket, Sent, SockFds}
use witos.Net.Table.{sock_dgram, socket}
use witos.Net.Deliver.{Outcome, returns, and_then}
use witos.Net.Calls.{World, sk_close}
use witos.Net.Receive.{htons, bind, Output, packet, arp_request, sendto}
use witos.Tftp.Packet.{tftp_rrq, tftp_wrq, tftp_make_req, is_negative}
use witos.Tftp.Download
use witos.Tftp.Download.{Download, with_file}
use witos.Tftp.Upload
use witos.Tftp.Upload.{Upload, upload_loop}

-- memset(&local_addr, 0, ...); the address is INADDR_ANY, which is 0.
abbrev pub local_addr : SockaddrIn
local_addr = record { sin_family = 0; sin_port = 0; sin_addr = 0 }

-- STD_PORT_TFTP
abbrev pub std_port_tftp : ℕ
std_port_tftp = 69

abbrev pub remote_addr : (ip : ℕ) → SockaddrIn
remote_addr ip = record { sin_family = 0; sin_port = htons std_port_tftp; sin_addr = ip }

abbrev packets_of : List Output → List Sent
packets_of [] = []
packets_of (packet p ∷ outs) = p ∷ packets_of outs
packets_of (arp_request ip ∷ outs) = packets_of outs

-- The label L1.
abbrev pub closing : {A : Type 0} → (sockfd : ℕ) → A → World → Outcome (A × World)
closing sockfd result w = and_then (sk_close sockfd w) (λ r. returns (result, r.1))

-- bind, the request and the transfer: `failed` is the result when one of the calls fails, and
-- `transfer` what follows with the result of sendto.
unfoldable pub with_socket :
    {A : Type 0}
    → (port ndev_ip ip : ℕ) → (request : List ℕ) → (failed transfer : ℤ → A)
    → (meanwhile : World → World) → (sockfd : ℕ) → World
    → Outcome (A × World)
unfolding bind sendto sk_close
with_socket port ndev_ip ip request failed transfer meanwhile sockfd w =
    let (bound, fds, next) = bind w.fds sockfd local_addr port ndev_ip in
    let (requested, asked, outs) = sendto fds sockfd request (remote_addr ip) in
    if is_negative bound
    then closing sockfd (failed bound) (record w { fds = fds })
    else if is_negative requested
    then closing sockfd (failed requested) (record w { fds = asked })
    else closing sockfd (transfer requested)
        (meanwhile (record w { fds = asked; sent = w.sent ++ packets_of outs }))

-- if (sockfd <= 0) return -EIO
unfoldable pub with_sockfd :
    {A : Type 0}
    → (failed : ℤ → A) → (go : (sockfd : ℕ) → World → Outcome (A × World)) → ℤ × SockFds
    → World
    → Outcome (A × World)
with_sockfd failed go (negsuc n, fds) w = returns (failed (negsuc 4), record w { fds = fds })
with_sockfd failed go (pos zero, fds) w = returns (failed (negsuc 4), record w { fds = fds })
with_sockfd failed go (pos (suc n), fds) w = go (suc n) (record w { fds = fds })

module _ {W : Type 0} (set_type : W → ℤ × W) (set_oob_mode write_out : W → List ℕ → ℤ × W) where
  unfoldable pub tftp_download :
      (fresh : Option Socket)
      → (port ndev_ip ip : ℕ) → (file_name mode : List ℕ) → (keep : Bool) → Option (ℤ × W)
      → (typed : Bool) → Memory
      → List (List ℕ)
      → (meanwhile : World → World) → World
      → Outcome (Download set_type set_oob_mode write_out × World)
  unfolding with_socket with_sockfd socket with_file tftp_make_req
  tftp_download fresh port ndev_ip ip file_name mode keep file typed buf datagrams meanwhile w =
      let failed = Download.started set_type set_oob_mode write_out keep buf in
      with_sockfd failed
        (with_socket port ndev_ip ip (tftp_make_req tftp_rrq file_name mode) failed
          (λ ret. with_file set_type set_oob_mode write_out file typed datagrams (failed ret))
          meanwhile)
        (socket fresh w.fds sock_dgram 0) w

module _ {R : Type 0} (read_file : R → (ℤ × List ℕ) × R) where
  -- `has_src` says whether opt->src is there, and `fd` is what open of it returns. When bind or sendto
  -- fails, the file stays open.
  unfoldable pub tftp_upload :
      (fresh : Option Socket)
      → (port ndev_ip ip : ℕ) → (file_name mode : List ℕ) → (has_src : Bool) → (fd : ℤ) → Memory
      → R
      → List (List ℕ)
      → (meanwhile : World → World) → World
      → Outcome (Upload read_file × World)
  unfolding with_socket with_sockfd socket upload_loop tftp_make_req sk_close
  tftp_upload fresh port ndev_ip ip file_name mode has_src fd buf src datagrams meanwhile w =
      let failed = Upload.started read_file buf src in
      let opened = λ (sockfd : ℕ) (v : World).
        if is_negative fd
        then closing sockfd (failed fd) v
        else with_socket port ndev_ip ip (tftp_make_req tftp_wrq file_name mode) failed
            (λ ret. upload_loop read_file datagrams (failed ret)) meanwhile sockfd v in
      if has_src
      then with_sockfd failed opened (socket fresh w.fds sock_dgram 0) w
      else returns (failed (negsuc 21), w)
