-- ===== src/Tftp/Download.antt =====
-- The transfer of tftp_download in lib/net/tftp.c, behind its request. What recvfrom gives, packet after packet, is a list of datagrams,
-- which it cuts to the buffer; behind them it gives nothing, which ends the transfer. The result of
-- open is an argument, and what the ioctl and write make of the open file are parameters: `set_type` with the type that the caller gives, `set_oob_mode` with the type that
-- image_type_detect sees. Printing is left out.
use witos.Base.{
  ℕ, ◌+◌, ◌-◌, ◌%◌, ◌^◌, Bool, true, false, Option, none, some, List, [], ◌∷◌, ◌++◌, ◌==◌,
  if◌then◌else◌, ℤ, negsuc, length, take,
}
use witos.Memory.{Memory}
use witos.Tftp.Packet.{
  tftp_dat, tftp_hdr_len, tftp_pkt_len, tftp_buf_len, tftp_send_ack, op_code, block, fill, range,
  is_negative,
}

module _ {W : Type 0} (set_type : W → ℤ × W) (set_oob_mode write_out : W → List ℕ → ℤ × W) where
  -- The variables of tftp_download and what it changes; `keep` says whether there is a load address,
  -- `detected` whether img_type is known, `xmit_size` is none as long as it is not set.
  pub record Download : Type 0 where
    pub blk_num : ℕ
    pub buf : Memory
    pub keep : Bool
    pub loaded : List ℕ
    pub load_len : ℕ
    pub dst : Option W
    pub detected : Bool
    pub acks : List (List ℕ)
    pub ret : ℤ
    pub xmit_size : Option ℕ

  -- What follows a packet: the test of the loop with `pkt_len`, or the label L2.
  pub data Next : Type 0 where
    test : (pkt_len : ℕ) → Download → Next
    stop : Download → Next

  -- ret = write(...)
  unfoldable pub write_data : W → List ℕ → (pkt_len : ℕ) → Download → Next
  write_data w bytes pkt_len d =
      let (wrote, after) = write_out w bytes in
      let written : Download = record d { dst = some after; ret = wrote } in
      if is_negative wrote then stop written else test pkt_len written

  -- if (opt->dst) for a packet.
  unfoldable pub to_file : Option W → (detected : Bool) → List ℕ → (pkt_len : ℕ) → Download → Next
  unfolding write_data
  to_file none detected bytes pkt_len d = test pkt_len d
  to_file (some w) true bytes pkt_len d = write_data w bytes pkt_len d
  to_file (some w) false bytes pkt_len d =
      let (mode, ready) = set_oob_mode w bytes in
      let known : Download = record d { dst = some ready; detected = true; ret = mode } in
      if is_negative mode then stop known else write_data ready bytes pkt_len known

  -- The block that is waited for.
  unfoldable pub take_block : (pkt_len : ℕ) → Download → Next
  unfolding to_file tftp_send_ack
  take_block pkt_len d =
      let bytes = range d.buf tftp_hdr_len pkt_len in
      to_file d.dst d.detected bytes pkt_len (record d {
        acks = d.acks ++ tftp_send_ack d.blk_num ∷ [];
        blk_num = (d.blk_num + 1) % 2 ^ 16;
        load_len = (d.load_len + pkt_len) % 2 ^ 32;
        loaded = if d.keep then d.loaded ++ bytes else d.loaded;
      })

  -- Any other block: the last one is acknowledged again.
  unfoldable pub lost_block : (pkt_len : ℕ) → Download → Next
  unfolding tftp_send_ack
  lost_block pkt_len d =
      test pkt_len
        (record d { acks = d.acks ++ tftp_send_ack ((d.blk_num + 2 ^ 16 - 1) % 2 ^ 16) ∷ [] })

  -- The switch; a packet of an error and one of another kind both give -EIO.
  unfoldable pub handle_packet : (pkt_len : ℕ) → Download → Next
  unfolding take_block lost_block
  handle_packet pkt_len d =
      if op_code d.buf == tftp_dat
      then (if block d.buf == d.blk_num then take_block pkt_len d else lost_block pkt_len d)
      else stop (record d { ret = negsuc 4 })

  -- The test of the loop.
  abbrev pub go_on : (Download → Download) → Next → Download
  go_on loop (stop d) = d
  go_on loop (test pkt_len d) =
      if pkt_len == tftp_pkt_len then loop d else record d { xmit_size = some d.load_len }

  -- pkt_len is a size_t: a packet without a whole header makes it wrap.
  unfoldable pub download_loop : List (List ℕ) → Download → Download
  unfolding handle_packet
  download_loop [] d = d
  download_loop (datagram ∷ datagrams) d =
      let received = take tftp_buf_len datagram in
      let pkt_len = (length received + 2 ^ 32 - tftp_hdr_len) % 2 ^ 32 in
      let next = handle_packet pkt_len (record d { buf = fill d.buf 0 received }) in
      if length received == 0 then d else go_on (download_loop datagrams) next

  -- What tftp_download begins with once the request has been sent.
  abbrev pub started : (keep : Bool) → Memory → (ret : ℤ) → Download
  started keep buf ret = record {
    blk_num = 1;
    buf = buf;
    keep = keep;
    loaded = [];
    load_len = 0;
    dst = none;
    detected = false;
    acks = [];
    ret = ret;
    xmit_size = none;
  }

  -- From the opening of the file on: none is no file; `typed` is opt->type.
  unfoldable pub with_file : Option (ℤ × W) → (typed : Bool) → List (List ℕ) → Download → Download
  unfolding download_loop
  with_file none typed datagrams d = download_loop datagrams d
  with_file (some (fd, w)) typed datagrams d =
      let (mode, ready) = set_type w in
      if is_negative fd
      then d
      else if typed
      then (if is_negative mode
          then record d { dst = some ready; detected = true; ret = mode }
          else download_loop datagrams (record d { dst = some ready; detected = true; ret = mode }))
      else download_loop datagrams (record d { dst = some w })
