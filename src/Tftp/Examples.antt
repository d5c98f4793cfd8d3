-- ===== src/Tftp/Examples.antt =====
-- A file of 515 bytes that is downloaded, and one of 513 bytes that is uploaded.
use witos.Base.{
  ℕ, ◌≡◌, refl, true, false, none, some, List, [], ◌∷◌, ◌++◌, ℤ, pos, length, replicate,
  length-replicate, arith,
}
use witos.Memory.{Memory}
use witos.Tftp.Packet.{data_packet}
use witos.Tftp.Download.{started, with_file}
use witos.Tftp.Upload
use witos.Tftp.Upload.{upload_loop}
use witos.Tftp.Refused.{Refused}
use witos.Net.Types.{closed, Socket}
use witos.Net.Table.{put, no_addr}
use witos.Net.Calls.{World}
use witos.Tftp.Received.{Arrives, last, next, stray, acks_of, Received, with_file-Arrives}
use witos.Tftp.Sent.{pieces, packets, acks, joined, read_list, upload_loop-pieces}

abbrev no_type : ℕ → ℤ × ℕ
no_type w = (pos 0, w)

abbrev no_file : ℕ → List ℕ → ℤ × ℕ
no_file w bytes = (pos 0, w)

abbrev zeros : Memory
zeros a = 0

abbrev full_block : List ℕ
full_block = replicate 512 7

-- The first block comes twice.
abbrev server_packets : List (List ℕ)
server_packets =
    data_packet 1 full_block ∷ data_packet 1 full_block ∷ data_packet 2 (1 ∷ 2 ∷ 3 ∷ []) ∷ []

abbrev server_arrives : Arrives 1 (full_block ++ 1 ∷ 2 ∷ 3 ∷ []) server_packets
server_arrives = next full_block (length-replicate {A = ℕ} 512 7) (
    stray 1 full_block (length-replicate {A = ℕ} 512 7) (omega arith) refl
      (last (1 ∷ 2 ∷ 3 ∷ []) [] (omega arith)))

with_file-Arrives_example :
    Received no_type no_file no_file
      (full_block ++ 1 ∷ 2 ∷ 3 ∷ [])
      (acks_of server_arrives)
      (started no_type no_file no_file true zeros (pos 20))
      (with_file no_type no_file no_file none false server_packets
        (started no_type no_file no_file true zeros (pos 20)))
with_file-Arrives_example =
    with_file-Arrives no_type no_file no_file 20 false zeros (full_block ++ 1 ∷ 2 ∷ 3 ∷ [])
      server_packets server_arrives

abbrev long_file : List ℕ
long_file = replicate 513 7

upload_loop-pieces_example :
    let parts = pieces (length long_file) long_file in
    let end =
      upload_loop read_list
        (acks 0 parts ++ [])
        (Upload.started read_list zeros long_file (pos 20)) in
    (end.sent ≡ packets 1 parts) × (joined parts ≡ long_file) × (end.ret ≡ pos 0)
upload_loop-pieces_example = upload_loop-pieces 20 zeros long_file []

-- Two sockets are open, and the server would send a file.
abbrev some_socket : Socket
some_socket = record {
  kind = 2;
  protocol = 0;
  obstruct_flags = 0;
  rx_qu = [];
  src = no_addr;
  dst = no_addr;
  state = closed;
  seq_num = 0;
  ack_num = 0;
}

abbrev idle : World
idle = record {
  fds = put (put (λ fd. none) 1 (some some_socket)) 2 (some some_socket);
  sent = [];
  arrivals = [];
  free_memory = true;
}
