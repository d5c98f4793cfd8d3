-- ===== src/Tftp/Sent.antt =====
-- The transfer of tftp_upload on the acknowledgements of a server.
use mathlib.Core.List.{append-nil, append_assoc}
use witos.Base.{
  ℕ, zero, suc, ◌+◌, ◌%◌, ◌^◌, ◌≤◌, ◌<◌, ◌≡◌, refl, subst, sym, ◌∙◌, true, List, [], ◌∷◌, ◌++◌,
  ◌==◌, ℤ, pos, length, length-drop, take, drop, take-append-drop, arith,
}
use witos.Memory.{Memory}
use witos.Tftp.Packet.{tftp_ack, tftp_pkt_len, data_packet, tftp_send_ack, op_code, block, fill}
use witos.Tftp.Upload.{Upload, send_block, handle_packet, go_on, upload_loop, started}
use witos.Tftp.Received.{fill-Holds}

-- The file in pieces of a block, in as many as `turns` allows.
abbrev pub pieces : (turns : ℕ) → List ℕ → List (List ℕ)
pieces zero file = []
pieces (suc turns) [] = []
pieces (suc turns) (c ∷ file) =
    take tftp_pkt_len (c ∷ file) ∷ pieces turns (drop tftp_pkt_len (c ∷ file))

-- The packets of the pieces, numbered from `blk` on.
abbrev pub packets : (blk : ℕ) → List (List ℕ) → List (List ℕ)
packets blk [] = []
packets blk (piece ∷ more) = data_packet blk piece ∷ packets ((blk + 1) % 2 ^ 16) more

-- The acknowledgements of the block `blk` and of as many blocks behind it as there are pieces.
abbrev pub acks : (blk : ℕ) → List (List ℕ) → List (List ℕ)
acks blk [] = tftp_send_ack blk ∷ []
acks blk (piece ∷ more) = tftp_send_ack blk ∷ acks ((blk + 1) % 2 ^ 16) more

-- What read gives of a file: up to a block of what is left of its bytes.
abbrev pub read_list : List ℕ → (ℤ × List ℕ) × List ℕ
read_list left =
    ((pos (length (take tftp_pkt_len left)), take tftp_pkt_len left), drop tftp_pkt_len left)

-- The buffer with an acknowledgement.
fill-is_ack : (buf : Memory) (blk : ℕ) → op_code (fill buf 0 (tftp_send_ack blk)) ≡ tftp_ack
unfolding tftp_send_ack
fill-is_ack buf blk =
    let held = fill-Holds buf 0 (tftp_send_ack blk) in
    let high = held.0 in let low = held.1.0 in omega arith

fill-number : (buf : Memory) (blk : ℕ) → blk < 2 ^ 16 → block (fill buf 0 (tftp_send_ack blk)) ≡ blk
unfolding tftp_send_ack
fill-number buf blk small =
    let held = fill-Holds buf 0 (tftp_send_ack blk) in
    let high = held.1.1.0 in let low = held.1.1.1.0 in omega arith

upload_loop-ack :
    (blk : ℕ) (rest : List (List ℕ)) (u : Upload read_list)
    → u.blk_num ≡ blk
    → blk < 2 ^ 16
    → upload_loop read_list (tftp_send_ack blk ∷ rest) u
      ≡ go_on read_list
          (upload_loop read_list rest)
          (send_block read_list (record u { buf = fill u.buf 0 (tftp_send_ack blk) }))
unfolding upload_loop handle_packet tftp_send_ack
upload_loop-ack blk rest u e small =
    let itself : (blk == blk) ≡ true = ground arith in
    rw (fill-is_ack u.buf blk, fill-number u.buf blk small, e, itself) refl

-- What the loop ends with: all pieces sent, each with the next number.
record Sent (blk : ℕ) (parts : List (List ℕ)) (u end : Upload read_list) : Type 0 where
  sent : end.sent ≡ u.sent ++ packets ((blk + 1) % 2 ^ 16) parts
  ret : end.ret ≡ pos 0

upload_loop-end :
    (blk : ℕ) (rest : List (List ℕ)) (u : Upload read_list)
    → u.blk_num ≡ blk
    → blk < 2 ^ 16
    → u.src ≡ []
    → Sent blk [] u (upload_loop read_list (tftp_send_ack blk ∷ rest) u)
unfolding send_block
upload_loop-end blk rest u e small src =
    let end : Upload read_list = record u {
      buf = fill u.buf 0 (tftp_send_ack blk);
      src = [];
      ret = pos 0;
    } in
    let run : upload_loop read_list (tftp_send_ack blk ∷ rest) u ≡ end =
      upload_loop-ack blk rest u e small ∙ rw src refl in
    subst (Sent blk [] u) (sym run) record { sent = sym (append-nil u.sent); ret = refl }

upload_loop-acks :
    (turns blk : ℕ) (left : List ℕ) (rest : List (List ℕ)) (u : Upload read_list)
    → u.blk_num ≡ blk
    → blk < 2 ^ 16
    → u.src ≡ left
    → length left ≤ turns
    → Sent blk
        (pieces turns left)
        u
        (upload_loop read_list (acks blk (pieces turns left) ++ rest) u)
unfolding send_block
upload_loop-acks zero blk [] rest u e small src enough = upload_loop-end blk rest u e small src
upload_loop-acks (suc turns) blk [] rest u e small src enough =
    upload_loop-end blk rest u e small src
upload_loop-acks zero blk (c ∷ left) rest u e small src enough = absurd (omega arith)
upload_loop-acks (suc turns) blk (c ∷ left) rest u e small src enough =
    let piece = take tftp_pkt_len (c ∷ left) in
    let beyond = drop tftp_pkt_len (c ∷ left) in
    let blk' = (blk + 1) % 2 ^ 16 in
    let after : Upload read_list = record u {
      blk_num = blk';
      buf = fill (fill u.buf 0 (tftp_send_ack blk)) 0 (data_packet blk' piece);
      src = beyond;
      send_len = (u.send_len + length piece) % 2 ^ 32;
      sent = u.sent ++ data_packet blk' piece ∷ [];
    } in
    let more = acks blk' (pieces turns beyond) ++ rest in
    let run : upload_loop read_list (tftp_send_ack blk ∷ more) u
        ≡ upload_loop read_list more after =
      upload_loop-ack blk more u e small ∙ rw (e, src) refl in
    let later =
      upload_loop-acks turns blk' beyond rest after refl (omega arith) refl
        (omega (arith, length-drop 511 left)) in
    subst (Sent blk (piece ∷ pieces turns beyond) u) (sym run)
      record { sent = later.sent ∙ append_assoc u.sent _ _; ret = later.ret }

-- The pieces one behind the other.
abbrev pub joined : List (List ℕ) → List ℕ
joined [] = []
joined (piece ∷ more) = piece ++ joined more

joined-pieces :
    (turns : ℕ) (file : List ℕ) → length file ≤ turns → joined (pieces turns file) ≡ file
joined-pieces zero [] enough = refl
joined-pieces zero (c ∷ file) enough = absurd (omega arith)
joined-pieces (suc turns) [] enough = refl
joined-pieces (suc turns) (c ∷ file) enough =
    rw (joined-pieces turns (drop 511 file) (omega (arith, length-drop 511 file)))
      (take-append-drop 512 (c ∷ file))

-- The transfer of tftp_upload, behind a request that sendto has sent, when read gives the bytes of the
-- file. When the server acknowledges the request and every packet in turn, the packets sent are the
-- pieces of the file of 512 bytes, the last one of what is left, numbered from 1 on modulo 2 ^ 16; the
-- pieces make up the file; and the last acknowledgement, whatever follows it, ends the transfer with
-- the result 0.
pub upload_loop-pieces :
    (requested : ℕ) (buf : Memory) (file : List ℕ) (rest : List (List ℕ))
    → let parts = pieces (length file) file in
      let end =
        upload_loop read_list (acks 0 parts ++ rest) (started read_list buf file (pos requested)) in
      (end.sent ≡ packets 1 parts) × (joined parts ≡ file) × (end.ret ≡ pos 0)
upload_loop-pieces requested buf file rest =
    let done =
      upload_loop-acks (length file) 0 file rest (started read_list buf file (pos requested)) refl
        (omega arith) refl (omega arith) in
    (done.sent, joined-pieces (length file) file (omega arith), done.ret)
