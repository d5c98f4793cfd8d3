-- ===== src/Strex/Ip.antt =====
-- str_to_ip of lib/extra/strex.c.
use witos.Base.{
  ℕ, ◌+◌, ◌-◌, ◌*◌, ◌%◌, ◌^◌, ◌≤◌, ◌<◌, ◌≡◌, refl, ap, sym, ◌∙◌, true, false, Bool-cases, ◌&&◌,
  ◌||◌, Option, none, some, List, [], ◌∷◌, ◌++◌, arith, ltb, leb, ◌==◌, if◌then◌else◌, ◌>>=◌,
  is_digit, pos, inl, inr,
}
use witos.Strex.Dec.{dec_scan, val_to_dec_str, val_to_dec_str-digits}

-- `dot`, `num` and what `ip_val` holds before index `dot`; on an error the caller's array is left
-- partly written and is no part of the result.
pub record IpScan : Type 0 where
  pub dot : ℕ
  pub num : ℕ
  pub ip_val : List ℕ

-- One round of the loop.
unfoldable pub ip_round : (c : ℕ) → IpScan → Option IpScan
ip_round c st =
    if is_digit c
    then some record st { num = (10 * st.num + (c - b'0')) % 2 ^ 32 }
    else if c == b'.' && leb st.num 255 && ltb st.dot 3
    then some record { dot = st.dot + 1; num = 0; ip_val = st.ip_val ++ st.num ∷ [] }
    else none

unfoldable pub ip_scan : List ℕ → IpScan → Option IpScan
unfolding ip_round
ip_scan [] st = some st
ip_scan (c ∷ s) st = ip_round c st >>= (λ next. ip_scan s next)

unfoldable pub ip_end : IpScan → Option (List ℕ)
ip_end st = if ltb st.dot 3 || ltb 255 st.num then none else some (st.ip_val ++ st.num ∷ [])

unfoldable pub str_to_ip : List ℕ → Option (List ℕ)
unfolding ip_scan ip_end
str_to_ip ip_str = ip_scan ip_str (record { dot = 0; num = 0; ip_val = [] }) >>= ip_end

pub dec_scan_digit :
    (c : ℕ) (s : List ℕ) (num : ℕ)
    → is_digit c ≡ true
    → dec_scan (c ∷ s) num ≡ dec_scan s ((10 * num + (c - b'0')) % 2 ^ 32)
unfolding dec_scan
dec_scan_digit c s num e = rw e refl

pub dec_scan_other :
    (c : ℕ) (s : List ℕ) (num : ℕ) → is_digit c ≡ false → dec_scan (c ∷ s) num ≡ none
unfolding dec_scan
dec_scan_other c s num e = rw e refl

ip_round_digit :
    (c dot num : ℕ) (ip_val : List ℕ)
    → is_digit c ≡ true
    → ip_round c (record { dot = dot; num = num; ip_val = ip_val })
      ≡ some (record { dot = dot; num = (10 * num + (c - b'0')) % 2 ^ 32; ip_val = ip_val })
unfolding ip_round
ip_round_digit c dot num ip_val e = rw e refl

-- A run of digits gives its number, whatever follows.
digits_scanned :
    (s rest : List ℕ) (num n dot : ℕ) (ip_val : List ℕ)
    → dec_scan s num ≡ some n
    → ip_scan (s ++ rest) (record { dot = dot; num = num; ip_val = ip_val })
      ≡ ip_scan rest (record { dot = dot; num = n; ip_val = ip_val })
unfolding dec_scan ip_scan
digits_scanned [] rest num n dot ip_val h =
    ap (λ (k : ℕ). ip_scan rest (record { dot = dot; num = k; ip_val = ip_val })) (cc h)
digits_scanned (c ∷ s) rest num n dot ip_val h = elim (Bool-cases (is_digit c)) [
  | inl e ↦
      let num' = (10 * num + (c - b'0')) % 2 ^ 32 in
      let h' : dec_scan s num' ≡ some n = sym (dec_scan_digit c s num e) ∙ h in
      ap (λ (t : Option IpScan). t >>= (λ next. ip_scan (s ++ rest) next))
        (ip_round_digit c dot num ip_val e)
      ∙ digits_scanned s rest num' n dot ip_val h'
  | inr e ↦ absurd (cc (dec_scan_other c s num e, h))
]

dot_scanned :
    (rest : List ℕ) (n dot : ℕ) (ip_val : List ℕ)
    → n ≤ 255
    → dot < 3
    → ip_scan (b'.' ∷ rest) (record { dot = dot; num = n; ip_val = ip_val })
      ≡ ip_scan rest (record { dot = dot + 1; num = 0; ip_val = ip_val ++ n ∷ [] })
unfolding ip_scan ip_round
dot_scanned rest n dot ip_val h k =
    let e : (leb n 255 && ltb dot 3) ≡ true = ground arith in rw e refl

field_scanned :
    (s rest : List ℕ) (n dot : ℕ) (ip_val : List ℕ)
    → dec_scan s 0 ≡ some n
    → n ≤ 255
    → dot < 3
    → ip_scan (s ++ b'.' ∷ rest) (record { dot = dot; num = 0; ip_val = ip_val })
      ≡ ip_scan rest (record { dot = dot + 1; num = 0; ip_val = ip_val ++ n ∷ [] })
field_scanned s rest n dot ip_val h small room =
    digits_scanned s (b'.' ∷ rest) 0 n dot ip_val h ∙ dot_scanned rest n dot ip_val small room

pub append-nil : (s : List ℕ) → s ≡ s ++ []
append-nil [] = refl
append-nil (c ∷ s) = ap (λ (t : List ℕ). c ∷ t) (append-nil s)

last_scanned :
    (s : List ℕ) (n dot : ℕ) (ip_val : List ℕ)
    → dec_scan s 0 ≡ some n
    → ip_scan s (record { dot = dot; num = 0; ip_val = ip_val })
      ≡ some (record { dot = dot; num = n; ip_val = ip_val })
unfolding ip_scan
last_scanned s n dot ip_val h =
    ap (λ (t : List ℕ). ip_scan t (record { dot = dot; num = 0; ip_val = ip_val })) (append-nil s)
    ∙ digits_scanned s [] 0 n dot ip_val h

ip_end_three :
    (a b c d : ℕ)
    → d ≤ 255
    → ip_end (record { dot = 3; num = d; ip_val = a ∷ b ∷ c ∷ [] }) ≡ some (a ∷ b ∷ c ∷ d ∷ [])
unfolding ip_end
ip_end_three a b c d h = let e : ltb 255 d ≡ false = ground arith in rw e refl

-- Four numbers up to 255, written in decimal with dots between them, are read as the four bytes.
pub str_to_ip-val_to_dec_str :
    (a b c d : ℕ)
    → a ≤ 255
    → b ≤ 255
    → c ≤ 255
    → d ≤ 255
    → (s t u v : List ℕ) × (val_to_dec_str (pos a) ≡ some s)
      × (val_to_dec_str (pos b) ≡ some t)
      × (val_to_dec_str (pos c) ≡ some u)
      × (val_to_dec_str (pos d) ≡ some v)
      × (str_to_ip (s ++ b'.' ∷ (t ++ b'.' ∷ (u ++ b'.' ∷ v))) ≡ some (a ∷ b ∷ c ∷ d ∷ []))
unfolding str_to_ip
str_to_ip-val_to_dec_str a b c d ha hb hc hd =
    let (s, ps, rs) = val_to_dec_str-digits a (omega arith) in
    let (t, pt, rt) = val_to_dec_str-digits b (omega arith) in
    let (u, pu, ru) = val_to_dec_str-digits c (omega arith) in
    let (v, pv, rv) = val_to_dec_str-digits d (omega arith) in
    let run =
      field_scanned s (t ++ b'.' ∷ (u ++ b'.' ∷ v)) a 0 [] rs ha (omega arith)
      ∙ field_scanned t (u ++ b'.' ∷ v) b 1 (a ∷ []) rt hb (omega arith)
      ∙ field_scanned u v c 2 (a ∷ b ∷ []) ru hc (omega arith)
      ∙ last_scanned v d 3 (a ∷ b ∷ c ∷ []) rv in
    (
      s,
      t,
      u,
      v,
      ps,
      pt,
      pu,
      pv,
      ap (λ (o : Option IpScan). o >>= ip_end) run ∙ ip_end_three a b c d hd,
    )
