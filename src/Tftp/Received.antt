-- ===== src/Tftp/Received.antt =====
-- The transfer of tftp_download on the packets of a server.
use Prim.{tt}
use mathlib.Core.List.{append_assoc}
use witos.Base.{
  ℕ, zero, suc, ◌+◌, ◌-◌, ◌%◌, ◌^◌, ◌≤◌, ◌<◌, ◌≡◌, refl, ap, subst, sym, ◌∙◌, Bool, true, false,
  none, some, List, [], ◌∷◌, ◌++◌, ◌==◌, ℤ, pos, length, length-append, take, arith,
}
use witos.Memory.{Memory, write, Holds}
use witos.Tftp.Packet.{
  tftp_dat, tftp_hdr_len, tftp_pkt_len, data_packet, tftp_send_ack, op_code, block, fill, range,
}
use witos.Tftp.Download.{
  Download, test, take_block, lost_block, handle_packet, go_on, download_loop, started, with_file,
}

-- The datagrams that bring the bytes `file` from the block `blk` on: the blocks come in order, the
-- last of them is the first shorter one, and full blocks of other numbers may come between
-- them. What comes behind the last block is not looked at.
pub data Arrives : (blk : ℕ) → List ℕ → List (List ℕ) → Type 0 where
  last :
      {blk : ℕ} (bytes : List ℕ) (rest : List (List ℕ))
      → length bytes < tftp_pkt_len
      → Arrives blk bytes (data_packet blk bytes ∷ rest)
  next :
      {blk : ℕ} (bytes : List ℕ) {file : List ℕ} {datagrams : List (List ℕ)}
      → length bytes ≡ tftp_pkt_len
      → Arrives ((blk + 1) % 2 ^ 16) file datagrams
      → Arrives blk (bytes ++ file) (data_packet blk bytes ∷ datagrams)
  stray :
      {blk : ℕ} (other : ℕ) (bytes : List ℕ) {file : List ℕ} {datagrams : List (List ℕ)}
      → length bytes ≡ tftp_pkt_len
      → other < 2 ^ 16
      → (other == blk) ≡ false
      → Arrives blk file datagrams
      → Arrives blk file (data_packet other bytes ∷ datagrams)

-- The acknowledgements: a block of another number has that of the block before again.
abbrev pub acks_of :
    {blk : ℕ} {file : List ℕ} {datagrams : List (List ℕ)}
    → Arrives blk file datagrams
    → List (List ℕ)
acks_of {blk = blk} (last bytes rest short) = tftp_send_ack blk ∷ []
acks_of {blk = blk} (next bytes full arrives) = tftp_send_ack blk ∷ acks_of arrives
acks_of {blk = blk} (stray other bytes full small differs arrives) =
    tftp_send_ack ((blk + 2 ^ 16 - 1) % 2 ^ 16) ∷ acks_of arrives

fill-below : (buf : Memory) (a b : ℕ) (s : List ℕ) → b < a → fill buf a s b ≡ buf b
fill-below buf a b [] lt = refl
fill-below buf a b (c ∷ s) lt =
    let other : (b == a) ≡ false = ground arith in
    fill-below (write buf a c) (a + 1) b s (omega arith) ∙ rw other refl

pub fill-Holds : (buf : Memory) (a : ℕ) (s : List ℕ) → Holds (fill buf a s) a s
fill-Holds buf a [] = tt
fill-Holds buf a (c ∷ s) =
    let itself : (a == a) ≡ true = ground arith in
    (
      fill-below (write buf a c) (a + 1) a s (omega arith) ∙ rw itself refl,
      fill-Holds (write buf a c) (a + 1) s,
    )

range-Holds : (m : Memory) (a : ℕ) (s : List ℕ) → Holds m a s → range m a (length s) ≡ s
range-Holds m a [] h = refl
range-Holds m a (c ∷ s) (e, h) = rw (e, range-Holds m (a + 1) s h) refl

take-all : (n : ℕ) (s : List ℕ) → length s ≤ n → take n s ≡ s
take-all zero [] h = refl
take-all zero (c ∷ s) h = absurd (omega arith)
take-all (suc n) [] h = refl
take-all (suc n) (c ∷ s) h = ap (λ (t : List ℕ). c ∷ t) (take-all n s (omega arith))

-- The buffer with a data packet.
record IsFilled (buf : Memory) (blk : ℕ) (bytes : List ℕ) : Type 0 where
  is_data : op_code buf ≡ tftp_dat
  numbered : block buf ≡ blk
  carries : range buf tftp_hdr_len (length bytes) ≡ bytes

fill-IsFilled :
    (buf : Memory) (blk : ℕ) (bytes : List ℕ)
    → blk < 2 ^ 16
    → IsFilled (fill buf 0 (data_packet blk bytes)) blk bytes
fill-IsFilled buf blk bytes small =
    let held = fill-Holds buf 0 (data_packet blk bytes) in
    record {
      is_data = let high = held.0 in let low = held.1.0 in omega arith;
      numbered = let high = held.1.1.0 in let low = held.1.1.1.0 in omega arith;
      carries = range-Holds (fill buf 0 (data_packet blk bytes)) 4 bytes held.1.1.1.1;
    }

module _ {W : Type 0} (set_type : W → ℤ × W) (set_oob_mode write_out : W → List ℕ → ℤ × W) where
  download_loop-data_packet :
      (blk : ℕ) (bytes : List ℕ) (rest : List (List ℕ))
      (d : Download set_type set_oob_mode write_out)
      → length bytes ≤ tftp_pkt_len
      → download_loop set_type set_oob_mode write_out (data_packet blk bytes ∷ rest) d
        ≡ go_on set_type set_oob_mode write_out
            (download_loop set_type set_oob_mode write_out rest)
            (handle_packet set_type set_oob_mode write_out
              (length bytes)
              (record d { buf = fill d.buf 0 (data_packet blk bytes) }))
  unfolding download_loop
  download_loop-data_packet blk bytes rest d fits =
      let not_zero : (suc (suc (suc (suc (length bytes)))) == 0) ≡ false = ground arith in
      let pkt_len : (suc (suc (suc (suc (length bytes)))) + 2 ^ 32 - tftp_hdr_len) % 2 ^ 32
          ≡ length bytes =
        omega arith in
      rw (take-all 512 bytes fits, not_zero, pkt_len) refl

  -- The state after the block that is waited for, and after another one.
  abbrev accepted :
      Memory
      → List ℕ
      → Download set_type set_oob_mode write_out
      → Download set_type set_oob_mode write_out
  accepted buf bytes d = record d {
    buf = buf;
    acks = d.acks ++ tftp_send_ack d.blk_num ∷ [];
    blk_num = (d.blk_num + 1) % 2 ^ 16;
    load_len = (d.load_len + length bytes) % 2 ^ 32;
    loaded = d.loaded ++ bytes;
  }

  abbrev passed_by :
      Memory → Download set_type set_oob_mode write_out → Download set_type set_oob_mode write_out
  passed_by buf d = record d {
    buf = buf;
    acks = d.acks ++ tftp_send_ack ((d.blk_num + 2 ^ 16 - 1) % 2 ^ 16) ∷ [];
  }

  handle_packet-accepted :
      (buf : Memory) (bytes : List ℕ) (d : Download set_type set_oob_mode write_out)
      → IsFilled buf d.blk_num bytes
      → d.dst ≡ none
      → d.keep ≡ true
      → handle_packet set_type set_oob_mode write_out (length bytes) (record d { buf = buf })
        ≡ test (length bytes) (accepted buf bytes d)
  unfolding handle_packet take_block
  handle_packet-accepted buf bytes d filled no_dst keep =
      let itself : (d.blk_num == d.blk_num) ≡ true = ground arith in
      rw (filled.is_data, filled.numbered, itself, filled.carries, no_dst, keep) refl

  handle_packet-passed_by :
      (buf : Memory) (other : ℕ) (bytes : List ℕ) (d : Download set_type set_oob_mode write_out)
      → IsFilled buf other bytes
      → (other == d.blk_num) ≡ false
      → handle_packet set_type set_oob_mode write_out (length bytes) (record d { buf = buf })
        ≡ test (length bytes) (passed_by buf d)
  unfolding handle_packet lost_block
  handle_packet-passed_by buf other bytes d filled differs =
      rw (filled.is_data, filled.numbered, differs) refl

  -- What a run from the state `d` on ends with: the bytes that are loaded, the size that is reported, the
  -- acknowledgements sent, and the result, which is that of `d`.
  pub record Received (file : List ℕ) (acks : List (List ℕ))
      (d end : Download set_type set_oob_mode write_out) : Type 0 where
    pub loaded : end.loaded ≡ d.loaded ++ file
    pub xmit_size : end.xmit_size ≡ some ((d.load_len + length file) % 2 ^ 32)
    pub sent : end.acks ≡ d.acks ++ acks
    pub ret : end.ret ≡ d.ret

  loop-accepted :
      (blk : ℕ) (bytes : List ℕ) (rest : List (List ℕ))
      (d : Download set_type set_oob_mode write_out)
      → d.blk_num ≡ blk
      → blk < 2 ^ 16
      → length bytes ≤ tftp_pkt_len
      → d.dst ≡ none
      → d.keep ≡ true
      → download_loop set_type set_oob_mode write_out (data_packet blk bytes ∷ rest) d
        ≡ go_on set_type set_oob_mode write_out
            (download_loop set_type set_oob_mode write_out rest)
            (test (length bytes) (accepted (fill d.buf 0 (data_packet blk bytes)) bytes d))
  loop-accepted blk bytes rest d e small fits no_dst keep =
      let buf = fill d.buf 0 (data_packet blk bytes) in
      let filled : IsFilled buf d.blk_num bytes =
        subst (λ (b : ℕ). IsFilled buf b bytes) (sym e) (fill-IsFilled d.buf blk bytes small) in
      download_loop-data_packet blk bytes rest d fits
      ∙ ap
          (go_on set_type set_oob_mode write_out
            (download_loop set_type set_oob_mode write_out rest))
          (handle_packet-accepted buf bytes d filled no_dst keep)

  loop-passed_by :
      (blk other : ℕ) (bytes : List ℕ) (rest : List (List ℕ))
      (d : Download set_type set_oob_mode write_out)
      → d.blk_num ≡ blk
      → other < 2 ^ 16
      → (other == blk) ≡ false
      → length bytes ≤ tftp_pkt_len
      → download_loop set_type set_oob_mode write_out (data_packet other bytes ∷ rest) d
        ≡ go_on set_type set_oob_mode write_out
            (download_loop set_type set_oob_mode write_out rest)
            (test (length bytes) (passed_by (fill d.buf 0 (data_packet other bytes)) d))
  loop-passed_by blk other bytes rest d e small differs fits =
      let buf = fill d.buf 0 (data_packet other bytes) in
      download_loop-data_packet other bytes rest d fits
      ∙ ap
          (go_on set_type set_oob_mode write_out
            (download_loop set_type set_oob_mode write_out rest))
          (handle_packet-passed_by buf other bytes d (fill-IsFilled d.buf other bytes small)
            (rw e differs))

  -- A block of another number that is shorter than 512 bytes ends the loop, as if the file were complete.
  download_loop_cut :
      (blk other : ℕ) (bytes : List ℕ) (rest : List (List ℕ))
      (d : Download set_type set_oob_mode write_out)
      → d.blk_num ≡ blk
      → other < 2 ^ 16
      → (other == blk) ≡ false
      → length bytes < tftp_pkt_len
      → download_loop set_type set_oob_mode write_out (data_packet other bytes ∷ rest) d
        ≡ record (passed_by (fill d.buf 0 (data_packet other bytes)) d) {
          xmit_size = some d.load_len;
        }
  download_loop_cut blk other bytes rest d e small differs short =
      let ends : (length bytes == tftp_pkt_len) ≡ false = ground arith in
      loop-passed_by blk other bytes rest d e small differs (omega arith) ∙ rw ends refl

  download_loop-Arrives :
      {blk : ℕ} {file : List ℕ} {datagrams : List (List ℕ)} (arrives : Arrives blk file datagrams)
      (d : Download set_type set_oob_mode write_out)
      → d.blk_num ≡ blk
      → blk < 2 ^ 16
      → d.dst ≡ none
      → d.keep ≡ true
      → Received file
          (acks_of arrives)
          d
          (download_loop set_type set_oob_mode write_out datagrams d)
  download_loop-Arrives {blk = blk} (last bytes rest short) d e small no_dst keep =
      let ends : (length bytes == tftp_pkt_len) ≡ false = ground arith in
      let after = accepted (fill d.buf 0 (data_packet blk bytes)) bytes d in
      let run : download_loop set_type set_oob_mode write_out (data_packet blk bytes ∷ rest) d
          ≡ record after { xmit_size = some after.load_len } =
        loop-accepted blk bytes rest d e small (omega arith) no_dst keep ∙ rw ends refl in
      subst (Received bytes (tftp_send_ack blk ∷ []) d) (sym run)
        record { loaded = refl; xmit_size = refl; sent = rw e refl; ret = refl }
  download_loop-Arrives {blk = blk} (next bytes {file = file} {datagrams = datagrams} full arrives)
        d e small no_dst keep =
      let again : (length bytes == tftp_pkt_len) ≡ true = ground arith in
      let after = accepted (fill d.buf 0 (data_packet blk bytes)) bytes d in
      let later = download_loop-Arrives arrives after (rw e refl) (omega arith) no_dst keep in
      let run : download_loop set_type set_oob_mode write_out (data_packet blk bytes ∷ datagrams) d
          ≡ download_loop set_type set_oob_mode write_out datagrams after =
        loop-accepted blk bytes datagrams d e small (omega arith) no_dst keep ∙ rw again refl in
      subst (Received (bytes ++ file) (tftp_send_ack blk ∷ acks_of arrives) d) (sym run) record {
        loaded = later.loaded ∙ append_assoc d.loaded bytes file;
        xmit_size = later.xmit_size ∙ ap some (omega (arith, length-append bytes file));
        sent =
            later.sent
            ∙ append_assoc d.acks (tftp_send_ack d.blk_num ∷ []) (acks_of arrives)
            ∙ rw e refl;
        ret = later.ret;
      }
  download_loop-Arrives {blk = blk}
        (stray other bytes {file = file} {datagrams = datagrams} full fits differs arrives) d e
        small no_dst keep =
      let again : (length bytes == tftp_pkt_len) ≡ true = ground arith in
      let after = passed_by (fill d.buf 0 (data_packet other bytes)) d in
      let later = download_loop-Arrives arrives after e small no_dst keep in
      let run : download_loop set_type set_oob_mode write_out (data_packet other bytes ∷ datagrams)
            d
          ≡ download_loop set_type set_oob_mode write_out datagrams after =
        loop-passed_by blk other bytes datagrams d e fits differs (omega arith) ∙ rw again refl in
      subst (Received file (tftp_send_ack ((blk + 2 ^ 16 - 1) % 2 ^ 16) ∷ acks_of arrives) d)
        (sym run)
        record {
          loaded = later.loaded;
          xmit_size = later.xmit_size;
          sent = later.sent ∙ append_assoc d.acks _ (acks_of arrives) ∙ rw e refl;
          ret = later.ret;
        }

  -- The transfer of tftp_download, behind a request that sendto has sent, to a load address with no file
  -- to write to. When the blocks of a file arrive in order from block 1 on, numbered modulo 2 ^ 16, each of
  -- 512 bytes and the last one shorter, and full blocks of other numbers come between them, the bytes
  -- loaded are those of the file, xmit_size is their number as a 32-bit size, every block in order is
  -- acknowledged with its number, every other one with the number before the one awaited, and the
  -- result is that of sendto.
  pub with_file-Arrives :
      (requested : ℕ) (typed : Bool) (buf : Memory) (file : List ℕ) (datagrams : List (List ℕ))
      (arrives : Arrives 1 file datagrams)
      → let start = started set_type set_oob_mode write_out true buf (pos requested) in
        Received file
          (acks_of arrives)
          start
          (with_file set_type set_oob_mode write_out none typed datagrams start)
  unfolding with_file
  with_file-Arrives requested typed buf file datagrams arrives =
      download_loop-Arrives arrives
        (started set_type set_oob_mode write_out true buf (pos requested)) refl (omega arith) refl
        refl
