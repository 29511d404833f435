-- ===== src/Http/Heads/Safety/Values.antt =====
-- What a value of the head parser is, whatever the parser reads, and that the fuel is enough for it.
use jotpot_server.Base.{
  ℕ, zero, suc, ◌+◌, ◌-◌, ◌≤◌, ◌<◌, ◌≡◌, refl, ap, ◌∙◌, ◌⊎◌, inl, inr, [], ◌∷◌, ◌++◌, arith, Option,
  some, none, Bytes, All, length, take, append_assoc, length-append, Bool-cases, Option-cases,
}
use mathlib.Core.Path.{subst}
use mathlib.Core.List.{append-nil}
use jotpot_server.Http.Chars.{is_whitespace}
use jotpot_server.Http.Heads.{
  Reader, Line, read_bytes, Scanned, panic, illegal, blank_end, line_end, head, scan_value,
  split_blanks, without_last, Value, value, illegal_value, index_panic, no_fuel, value_from,
}
use jotpot_server.Http.Heads.Scan.{IsBlank, without_last-append}
use jotpot_server.Http.Heads.Text.{
  IsText, blank-IsText, Folded, nil, text, fold, Folded-append, Folded-text, All-take, ScansText,
  scan_value-ScansText, HasBlanks, split_blanks-HasBlanks,
}
use jotpot_server.Http.Heads.Newline.{
  IsLine, read_bytes-IsLine, length-read_bytes, LeavesLine, scan_value-LeavesLine, BlanksLeaveLine,
  split_blanks-BlanksLeaveLine,
}

Folded-blank : (bs : Bytes) → All IsBlank bs → Folded bs
Folded-blank [] h = nil
Folded-blank (b ∷ bs) h = text b bs (blank-IsText b h.0) (Folded-blank bs h.1)

take-append : (v w : Bytes) (n : ℕ) → take (length v + n) (v ++ w) ≡ v ++ take n w
take-append [] w n = let e : 0 + n ≡ n = omega arith in rw e refl
take-append (b ∷ v) w n =
    let e : suc (length v) + n ≡ suc (length v + n) = omega arith in
    rw e (ap (◌∷◌ b) (take-append v w n))

-- No more whitespace is cut off than the scan has read.
without_last-Folded :
    (before v : Bytes) (n : ℕ)
    → Folded before
    → All IsText v
    → n ≤ length v
    → Folded (without_last n (before ++ v))
without_last-Folded before v n f t l =
    let size : length (before ++ v) - n ≡ length before + (length v - n) =
      omega (arith, length-append before v, l) in
    rw (size, take-append before v (length v - n))
      (Folded-append (take (length v - n) v) f (Folded-text _ (All-take IsText (length v - n) v t)))

-- The whitespace that is cut off at a line's end is the one behind the last line break.
trimmed-Folded :
    (before kept bs v : Bytes) (ws n : ℕ)
    → before ≡ kept ++ bs
    → Folded kept
    → All IsBlank bs
    → length bs ≡ ws
    → All IsText v
    → (n ≡ 0) ⊎ ((v ≡ []) × (n ≡ ws))
    → Folded (without_last n (before ++ v))
trimmed-Folded before kept bs v ws n e f k l t (inl z) =
    without_last-Folded before v n (rw e (Folded-append bs f (Folded-blank bs k))) t
      (omega (arith, z))
trimmed-Folded before kept bs v ws n e f k l t (inr (z, w)) =
    rw (z, append-nil before, e, w, ← l, without_last-append kept bs) f

abbrev text_length : Option Line → ℕ
text_length none = 0
text_length (some l) = length l.text

-- Of a value: its bytes, and that no more is left than there was.
abbrev pub Fits : ℕ → Option Line → Reader → Type 0
Fits k next r = text_length next + length r.bytes ≤ k

abbrev pub NextIsLine : Option Line → Type 0
NextIsLine none = Unit
NextIsLine (some l) = IsLine l.text

abbrev pub GoodValue : ℕ → Value → Type 0
GoodValue k (value v next r) = Folded v × Fits k next r × NextIsLine next
GoodValue k (illegal_value r) = Unit
GoodValue k index_panic = Unit
GoodValue k no_fuel = ⊥

Scanned-cases :
    (s : Scanned)
    → (s ≡ panic)
      ⊎ ((s ≡ illegal)
          ⊎ (((v : Bytes) × (n : ℕ) × (s ≡ blank_end v n))
              ⊎ ((v : Bytes) × (n : ℕ) × (end : Bytes) × (s ≡ line_end v n end))))
Scanned-cases panic = inl refl
Scanned-cases illegal = inr (inl refl)
Scanned-cases (blank_end v n) = inr (inr (inl (v, n, refl)))
Scanned-cases (line_end v n end) = inr (inr (inr (v, n, end, refl)))

Bytes-cases : (v : Bytes) → (v ≡ []) ⊎ ((c : ℕ) × (cs : Bytes) × (v ≡ c ∷ cs))
Bytes-cases [] = inl refl
Bytes-cases (c ∷ cs) = inr (c, cs, refl)

-- Behind its newline a line has ended.
ends-newline : (x : Bytes) → IsLine (13 ∷ 10 ∷ x) → x ≡ []
ends-newline x h = elim h.1.0 [ inl e ↦ absurd (cc) | inr e ↦ e ]

IsLine-tail : (b : ℕ) (v : Bytes) → IsLine (b ∷ v) → IsLine v
IsLine-tail b v h = h.1

regroup :
    (before v : Bytes) (c : ℕ) (bs : Bytes)
    → before ++ (v ++ (13 ∷ 10 ∷ c ∷ bs)) ≡ (before ++ (v ++ (13 ∷ 10 ∷ c ∷ []))) ++ bs
regroup before v c bs = simp append_assoc

pub value_from-GoodValue :
    (k fuel : ℕ) (r : Reader) (next : Option Line) (before kept bs : Bytes) (ws : ℕ) (rest : Bytes)
    → length r.bytes < fuel
    → Fits k next r × NextIsLine next
    → before ≡ kept ++ bs
    → Folded kept
    → All IsBlank bs
    → length bs ≡ ws
    → IsLine rest
    → GoodValue k (value_from fuel r next before ws rest)
unfolding value_from
value_from-GoodValue k zero r next before kept bs ws rest enough fit e f b l line =
    absurd (omega (arith, enough))
value_from-GoodValue k (suc fuel) r next before kept bs ws rest enough fit e f b l line =
    elim (Scanned-cases (scan_value (head ws) rest)) [
      | inl s ↦ rw (s, value_from) tt
      | inr (inl s) ↦ rw (s, value_from) tt
      | inr (inr (inl (v, n, s))) ↦
          let t = subst (ScansText (head ws)) s (scan_value-ScansText (head ws) rest) in
          rw (s, value_from)
            (
              without_last-Folded before v n (rw e (Folded-append bs f (Folded-blank bs b))) t.0
                  (omega (arith, t.1)),
              fit.0,
              fit.1,
            )
      | inr (inr (inr (v, n, end, s))) ↦
          let t = subst (ScansText (head ws)) s (scan_value-ScansText (head ws) rest) in
          let x = t.1.0 in
          let left = length-read_bytes r in
          let is_end : end ≡ 13 ∷ 10 ∷ [] =
            t.1.1
            ∙ ap (λ y. 13 ∷ 10 ∷ y)
                (ends-newline x (
                  subst IsLine t.1.1
                    (subst LeavesLine s (scan_value-LeavesLine (head ws) rest line)))) in
          let s' : scan_value (head ws) rest ≡ line_end v n (13 ∷ 10 ∷ []) =
            s ∙ ap (line_end v n) is_end in
          elim (Bytes-cases (read_bytes r).0.text) [
            | inl d ↦ rw (s, value_from) (rw d tt)
            | inr (c, cs, d) ↦ elim (Bool-cases (is_whitespace c)) [
              | inr w ↦
                  rw (s, value_from)
                    (rw d (
                      rw w (
                        trimmed-Folded before kept bs v ws n e f b l t.0 t.2,
                        omega (arith, left, fit.0),
                        read_bytes-IsLine r,
                      )))
              | inl w ↦
                  let now : Folded before = rw e (Folded-append bs f (Folded-blank bs b)) in
                  let more = IsLine-tail c cs (subst IsLine d (read_bytes-IsLine r)) in
                  elim (Option-cases (split_blanks cs)) [
                    | inl o ↦ rw (s', value_from) (rw d (rw w (rw o tt)))
                    | inr (p, o) ↦
                        rw (s', value_from)
                          (rw d (
                            rw w (
                              rw o (
                                value_from-GoodValue k fuel (read_bytes r).1 (some (read_bytes r).0)
                                  (before ++ (v ++ (13 ∷ 10 ∷ c ∷ p.0)))
                                  (before ++ (v ++ (13 ∷ 10 ∷ c ∷ []))) p.0 (length p.0) p.1
                                  (omega (arith, left, ap length d, enough))
                                  (omega (arith, left, fit.0), read_bytes-IsLine r)
                                  (regroup before v c p.0)
                                  (Folded-append _ now
                                    (Folded-append _ (Folded-text v t.0) (fold c [] w nil)))
                                  (subst HasBlanks o (split_blanks-HasBlanks cs)) refl
                                  (subst BlanksLeaveLine o
                                    (split_blanks-BlanksLeaveLine cs more))))))
                  ]
            ]
          ]
    ]
