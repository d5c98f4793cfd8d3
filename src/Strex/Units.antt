-- ===== src/Strex/Units.antt =====
-- val_to_hr_str of lib/extra/strex.c read back by hr_str_to_val.
use Prim.Native.Nat.{bit_and, bit_or}
use witos.Base.{
  ℕ, zero, suc, ◌+◌, ◌-◌, ◌*◌, ◌/◌, ◌%◌, ◌^◌, ◌<◌, ◌≡◌, refl, ap, sym, ◌∙◌, true, false, Bool-cases,
  Option, none, some, List, [], ◌∷◌, ◌++◌, arith, ◌==◌, if◌then◌else◌, ◌>>=◌, is_digit, pos, inl,
  inr, bit_and-mask,
}
use witos.Strex.Dec.{dec_scan, val_to_dec_str, val_to_dec_str-digits}
use witos.Strex.Ip.{dec_scan_digit, dec_scan_other}
use witos.Strex.Size.{
  HrScan, hr_unit, hr_round, hr_scan, hr_str_to_val, hr_sect, hr_part, val_to_hr_str,
}

hr_round_digit :
    (c mark num tmp : ℕ)
    → is_digit c ≡ true
    → hr_round c (record { mark = mark; num = num; tmp = tmp })
      ≡ some (record { mark = mark; num = num; tmp = (10 * tmp + (c - b'0')) % 2 ^ 32 })
unfolding hr_round
hr_round_digit c mark num tmp e = let swap : tmp * 10 ≡ 10 * tmp = omega arith in rw (e, swap) refl

digits_scanned :
    (s rest : List ℕ) (mark num tmp n : ℕ)
    → dec_scan s tmp ≡ some n
    → hr_scan (s ++ rest) (record { mark = mark; num = num; tmp = tmp })
      ≡ hr_scan rest (record { mark = mark; num = num; tmp = n })
unfolding dec_scan hr_scan
digits_scanned [] rest mark num tmp n h =
    ap (λ (k : ℕ). hr_scan rest (record { mark = mark; num = num; tmp = k })) (cc h)
digits_scanned (c ∷ s) rest mark num tmp n h = elim (Bool-cases (is_digit c)) [
  | inl e ↦
      let tmp' = (10 * tmp + (c - b'0')) % 2 ^ 32 in
      let h' : dec_scan s tmp' ≡ some n = sym (dec_scan_digit c s tmp e) ∙ h in
      ap (λ (t : Option HrScan). t >>= (λ next. hr_scan (s ++ rest) next))
        (hr_round_digit c mark num tmp e)
      ∙ digits_scanned s rest mark num tmp' n h'
  | inr e ↦ absurd (cc (dec_scan_other c s tmp e, h))
]

-- A character and what it does to every scan.
abbrev IsUnit : (c not_before mark shift : ℕ) → Type 0
IsUnit c not_before mark shift = (st : HrScan) → hr_round c st ≡ hr_unit not_before mark shift st

units : IsUnit b'G' 224 128 30 × IsUnit b'M' 96 64 20 × IsUnit b'K' 32 32 10
unfolding hr_round
units = (λ st. refl, λ st. refl, λ st. refl)

abbrev marked : (mark bit sect : ℕ) → ℕ
marked mark bit sect = if sect == 0 then mark else bit_or mark bit

append_assoc : (xs ys zs : List ℕ) → (xs ++ ys) ++ zs ≡ xs ++ (ys ++ zs)
append_assoc [] ys zs = refl
append_assoc (x ∷ xs) ys zs = ap (λ (t : List ℕ). x ∷ t) (append_assoc xs ys zs)

hr_unit-free :
    (not_before bit shift : ℕ) (st : HrScan)
    → bit_and st.mark not_before ≡ 0
    → hr_unit not_before bit shift st
      ≡ some (record {
        mark = bit_or st.mark bit;
        num = (st.num + st.tmp * 2 ^ shift) % 2 ^ 32;
        tmp = 0;
      })
unfolding hr_unit
hr_unit-free not_before bit shift st free = rw free refl

unit_scanned :
    (c not_before bit shift sect mark num : ℕ) (rest : List ℕ)
    → IsUnit c not_before bit shift
    → bit_and mark not_before ≡ 0
    → hr_scan (c ∷ rest) (record { mark = mark; num = num; tmp = sect })
      ≡ hr_scan rest
          (record { mark = bit_or mark bit; num = (num + sect * 2 ^ shift) % 2 ^ 32; tmp = 0 })
unfolding hr_scan
unit_scanned c not_before bit shift sect mark num rest unit free =
    let st : HrScan = record { mark = mark; num = num; tmp = sect } in
    ap (λ (t : Option HrScan). t >>= (λ next. hr_scan rest next))
      (unit st ∙ hr_unit-free not_before bit shift st free)

not_zero : (n : ℕ) → (suc n == 0) ≡ false
not_zero n = ground arith

hr_part-suc :
    (n c : ℕ) (s : List ℕ)
    → val_to_dec_str (pos (suc n)) ≡ some s
    → hr_part (suc n) c ≡ some (s ++ c ∷ [])
unfolding hr_part
hr_part-suc n c s h = rw (not_zero n, h) refl

-- The text of a part, scanned before any rest: its size is added and its mark set.
part_scanned :
    (c not_before bit shift sect mark num : ℕ)
    → IsUnit c not_before bit shift
    → bit_and mark not_before ≡ 0
    → sect < 1024
    → num < 2 ^ 32
    → (s : List ℕ) × (hr_part sect c ≡ some s)
      × ((rest : List ℕ)
          → hr_scan (s ++ rest) (record { mark = mark; num = num; tmp = 0 })
            ≡ hr_scan rest (record {
              mark = marked mark bit sect;
              num = (num + sect * 2 ^ shift) % 2 ^ 32;
              tmp = 0;
            }))
unfolding hr_part
part_scanned c not_before bit shift zero mark num unit free small fits =
    let e : num ≡ (num + 0 * 2 ^ shift) % 2 ^ 32 = omega arith in
    ([], refl, λ rest. ap (λ (n : ℕ). hr_scan rest (record { mark = mark; num = n; tmp = 0 })) e)
part_scanned c not_before bit shift (suc sect) mark num unit free small fits =
    let (s, written, digits) = val_to_dec_str-digits (suc sect) (omega arith) in
    (
      s ++ c ∷ [],
      hr_part-suc sect c s written,
      λ rest. rw (not_zero sect) (
          ap (λ (t : List ℕ). hr_scan t (record { mark = mark; num = num; tmp = 0 }))
            (append_assoc s (c ∷ []) rest)
          ∙ digits_scanned s (c ∷ rest) mark num 0 (suc sect) digits
          ∙ unit_scanned c not_before bit shift (suc sect) mark num rest unit free),
    )

-- The bytes, which no unit stands for.
bytes_scanned :
    (sect mark num : ℕ)
    → sect < 1024
    → num < 2 ^ 32
    → (s : List ℕ) × (hr_part sect b'B' ≡ some s)
      × (hr_scan s (record { mark = mark; num = num; tmp = 0 })
          ≡ (if sect == 0 then some num else none))
unfolding hr_part hr_scan
bytes_scanned zero mark num small fits = ([], refl, ap some (omega arith))
bytes_scanned (suc sect) mark num small fits =
    let (s, written, digits) = val_to_dec_str-digits (suc sect) (omega arith) in
    (
      s ++ b'B' ∷ [],
      hr_part-suc sect b'B' s written,
      digits_scanned s (b'B' ∷ []) mark num 0 (suc sect) digits
          ∙ unfold hr_round in rw (not_zero sect) refl,
    )

sect_lem : (v shift : ℕ) → hr_sect v shift ≡ v / 2 ^ shift % 1024
unfolding hr_sect
sect_lem v shift = bit_and-mask 10 (v / 2 ^ shift)

first_mark : (g : ℕ) → bit_and (marked 0 128 g) 96 ≡ 0
first_mark zero = refl
first_mark (suc g) = rw (not_zero g) refl

both_marks : (g m : ℕ) → bit_and (marked (marked 0 128 g) 64 m) 32 ≡ 0
both_marks zero zero = refl
both_marks zero (suc m) = rw (not_zero m) refl
both_marks (suc g) zero = rw (not_zero g) refl
both_marks (suc g) (suc m) = rw (not_zero g, not_zero m) refl

read_back :
    (v b num : ℕ)
    → b ≡ v % 1024
    → (v % 1024 ≡ 0 → num ≡ v)
    → ◌≡◌ {A = Option ℕ}
        (if b == 0 then some num else none)
        (if v % 1024 == 0 then some v else none)
read_back v b num e same = elim (Bool-cases (v % 1024 == 0)) [
  | inl z ↦ let b0 : (b == 0) ≡ true = ground arith in rw (z, b0) (ap some (same (ground arith)))
  | inr n ↦ let b1 : (b == 0) ≡ false = ground arith in rw (n, b1) refl
]

-- A size below 2 ^ 32 is written in units; a multiple of 1024 is read back, and any other size is
-- not, since the text then ends in B, which the reader refuses.
pub hr_str_to_val-val_to_hr_str :
    (v : ℕ)
    → v < 2 ^ 32
    → (s : List ℕ) × (val_to_hr_str v ≡ some s)
      × (hr_str_to_val s ≡ (if v % 1024 == 0 then some v else none))
unfolding hr_str_to_val val_to_hr_str
hr_str_to_val-val_to_hr_str v h =
    let g = hr_sect v 30 in
    let m = hr_sect v 20 in
    let k = hr_sect v 10 in
    let b = hr_sect v 0 in
    let eg : g ≡ v / 2 ^ 30 % 1024 = sect_lem v 30 in
    let em : m ≡ v / 2 ^ 20 % 1024 = sect_lem v 20 in
    let ek : k ≡ v / 2 ^ 10 % 1024 = sect_lem v 10 in
    let eb : b ≡ v % 1024 = omega (arith, sect_lem v 0) in
    let n1 = (0 + g * 2 ^ 30) % 2 ^ 32 in
    let n2 = (n1 + m * 2 ^ 20) % 2 ^ 32 in
    let n3 = (n2 + k * 2 ^ 10) % 2 ^ 32 in
    let (tg, wg, sg) =
      part_scanned b'G' 224 128 30 g 0 0 units.0 refl (omega arith) (omega arith) in
    let (tm, wm, sm) =
      part_scanned b'M' 96 64 20 m (marked 0 128 g) n1 units.1 (first_mark g) (omega arith)
        (omega arith) in
    let (tk, wk, sk) =
      part_scanned b'K' 32 32 10 k (marked (marked 0 128 g) 64 m) n2 units.2 (both_marks g m)
        (omega arith) (omega arith) in
    let (tb, wb, sb) =
      bytes_scanned b (marked (marked (marked 0 128 g) 64 m) 32 k) n3 (omega arith) (omega arith) in
    let whole : v % 1024 ≡ 0 → n3 ≡ v = λ z. omega arith in
    (
      tg ++ (tm ++ (tk ++ tb)),
      rw (wg, wm, wk, wb) refl,
      sg (tm ++ (tk ++ tb)) ∙ sm (tk ++ tb) ∙ sk tb ∙ sb ∙ read_back v b n3 eb whole,
    )
