-- ===== src/Tftp/Upload.antt =====
-- The transfer of tftp_upload in lib/net/tftp.c, behind its request. The datagrams are those of tftp_download; `read_file` is what read
-- makes of the open file with the room of a block: its result, as many bytes, and the file afterwards. What sendto returns is not looked at.
use witos.Base.{
  ℕ, zero, suc, ◌+◌, ◌%◌, ◌^◌, Bool, true, false, List, [], ◌∷◌, ◌++◌, ◌==◌, if◌then◌else◌, ℤ, pos,
  negsuc, length, take,
}
use witos.Memory.{Memory}
use witos.Tftp.Packet.{tftp_ack, tftp_buf_len, data_packet, op_code, block, fill}

module _ {R : Type 0} (read_file : R → (ℤ × List ℕ) × R) where
  -- The variables of tftp_upload; `sent` has the packets that follow the request.
  pub record Upload : Type 0 where
    pub blk_num : ℕ
    pub buf : Memory
    pub src : R
    pub send_len : ℕ
    pub sent : List (List ℕ)
    pub ret : ℤ

  -- What a packet leads to: the next round, or the label L2.
  pub data Next : Type 0 where
    again : Upload → Next
    stop : Upload → Next

  abbrev pub is_positive : ℤ → Bool
  is_positive (pos zero) = false
  is_positive (pos (suc n)) = true
  is_positive (negsuc n) = false

  -- The answer to the acknowledgement that is waited for.
  unfoldable pub send_block : Upload → Next
  send_block u =
      let ((ret, bytes), after) = read_file u.src in
      let blk = (u.blk_num + 1) % 2 ^ 16 in
      let packet = data_packet blk bytes in
      if is_positive ret
      then again (record u {
        blk_num = blk;
        buf = fill u.buf 0 packet;
        src = after;
        send_len = (u.send_len + length bytes) % 2 ^ 32;
        sent = u.sent ++ packet ∷ [];
      })
      else stop (record u { src = after; ret = ret })

  -- The switch; a packet of an error and one of another kind both give -EIO.
  unfoldable pub handle_packet : Upload → Next
  unfolding send_block
  handle_packet u =
      if op_code u.buf == tftp_ack
      then (if block u.buf == u.blk_num then send_block u else again u)
      else stop (record u { ret = negsuc 4 })

  abbrev pub go_on : (Upload → Upload) → Next → Upload
  go_on loop (stop u) = u
  go_on loop (again u) = loop u

  -- The loop, which only the label L2 leaves.
  unfoldable pub upload_loop : List (List ℕ) → Upload → Upload
  unfolding handle_packet
  upload_loop [] u = record u { ret = pos 0 }
  upload_loop (datagram ∷ datagrams) u =
      let received = take tftp_buf_len datagram in
      let next = handle_packet (record u { buf = fill u.buf 0 received }) in
      if length received == 0 then record u { ret = pos 0 } else go_on (upload_loop datagrams) next

  abbrev pub started : Memory → R → (ret : ℤ) → Upload
  started buf src ret = record {
    blk_num = 0;
    buf = buf;
    src = src;
    send_len = 0;
    sent = [];
    ret = ret;
  }
