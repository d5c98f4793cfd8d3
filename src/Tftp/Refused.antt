-- ===== src/Tftp/Refused.antt =====
-- tftp_download and tftp_upload of lib/net/tftp.c with the bind of lib/net/socket.c.
use witos.Base.{ℕ, suc, ◌<◌, ◌≡◌, ◌⊎◌, Option, none, some, ℤ, pos, negsuc}
use witos.Memory.{Memory}
use witos.Net.Types.{closed, Socket, SockFds}
use witos.Net.Table.{put, sock_dgram, init_socket}
use witos.Net.Deliver.{Outcome, returns}
use witos.Net.Calls.{World}
use witos.Tftp.Download
use witos.Tftp.Upload

-- The block that malloc gives, if it gives one, happens to hold the state of a closed connection, which
-- socket does not set for datagrams.
abbrev pub IsClosed : Option Socket → Type 0
IsClosed none = Unit {0}
IsClosed (some sock) = sock.state ≡ closed

-- A call that fails with -EIO or -ENOTSUPP, sends nothing and leaves every socket as it was; its
-- result is that of the state in which a transfer starts.
abbrev pub Refused : {A : Type 0} → (start : ℤ → A) → World → Outcome (A × World) → Type 0
Refused start w run =
    (ret : ℤ) × (after : World) × (run ≡ returns (start ret, after))
    × ((ret ≡ negsuc 4) ⊎ (ret ≡ negsuc 523))
    × (after.sent ≡ w.sent)
    × ((i : ℕ) → after.fds i ≡ w.fds i)

-- The socket of a transfer, and what bind leaves of it.
abbrev fresh_datagram : Socket → Socket
fresh_datagram blk = init_socket blk sock_dgram 0

abbrev unbound : Socket → Socket
unbound sock = record sock { src = record sock.src { sin_family = 0 } }

-- What socket gives for datagrams: an error, or a free descriptor.
data Given (fresh : Option Socket) (fds : SockFds) : ℤ × SockFds → Type 0 where
  error : (e : ℕ) → Given fresh fds (negsuc e, fds)
  given :
      (n : ℕ) (blk : Socket)
      → suc n < 32
      → fds (suc n) ≡ none
      → fresh ≡ some blk
      → Given fresh fds (pos (suc n), put fds (suc n) (some (fresh_datagram blk)))
