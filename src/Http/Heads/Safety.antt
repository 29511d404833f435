-- ===== src/Http/Heads/Safety.antt =====
-- What the parser may pass to the adder, whatever it reads; and that its fuel is enough.
pub mod Values
use jotpot_server.Base.{
  ℕ, zero, suc, ◌+◌, ◌-◌, ◌≤◌, ◌<◌, ◌≡◌, refl, ap, ◌∙◌, ◌⊎◌, inl, inr, [], ◌∷◌, ◌++◌, arith, Option,
  some, none, Bytes, All, length, take, append_assoc, length-append, Bool-cases, Option-cases,
}
use mathlib.Core.Path.{subst}
use mathlib.Core.List.{append-nil}
use jotpot_server.Http.Chars.{is_whitespace}
use jotpot_server.Http.Heads.{
  Reader, ReadError, eof, other, HeaderError, Line, read_bytes, Scanned, panic, illegal, blank_end,
  line_end, head, scan_value, split_key, key_end, key_error, Key, split_blanks, without_last, Value,
  value, illegal_value, index_panic, no_fuel, value_from, Field, field, refused, field_panic,
  field_no_fuel, read_value, read_field, next_line, Parsed, returned, panicked, out_of_fuel,
  headers_from, parse_headers, short_line,
}
use jotpot_server.Http.Heads.Scan.{IsBlank, without_last-append}
use jotpot_server.Http.Heads.Text.{
  IsText, blank-IsText, Folded, nil, text, fold, Folded-append, Folded-text, All-take, ScansText,
  scan_value-ScansText, IsKey, HasKey, split_key-HasKey, HasBlanks, split_blanks-HasBlanks,
}
use jotpot_server.Http.Heads.Newline.{
  IsLine, read_bytes-IsLine, length-read_bytes, LeavesLine, scan_value-LeavesLine, KeyLeavesLine,
  split_key-KeyLeavesLine, BlanksLeaveLine, split_blanks-BlanksLeaveLine,
}
use jotpot_server.Http.Heads.Safety.Values.{Fits, NextIsLine, GoodValue, value_from-GoodValue}

-- Of a field: its name and its value, and what is left.
abbrev GoodField : ℕ → Field → Type 0
GoodField k (field key v next r) = IsKey key × Folded v × Fits k next r × NextIsLine next
GoodField k (refused e r) = Unit
GoodField k field_panic = Unit
GoodField k field_no_fuel = ⊥

Value-cases :
    (x : Value)
    → ((v : Bytes) × (next : Option Line) × (r : Reader) × (x ≡ value v next r))
      ⊎ (((r : Reader) × (x ≡ illegal_value r)) ⊎ ((x ≡ index_panic) ⊎ (x ≡ no_fuel)))
Value-cases (value v next r) = inl (v, next, r, refl)
Value-cases (illegal_value r) = inr (inl (r, refl))
Value-cases index_panic = inr (inr (inl refl))
Value-cases no_fuel = inr (inr (inr refl))

read_value-GoodField :
    (r : Reader) (key rest : Bytes)
    → IsKey key
    → IsLine rest
    → GoodField (length r.bytes) (read_value r key rest)
unfolding read_value
read_value-GoodField r key rest h line = elim (Option-cases (split_blanks rest)) [
  | inl o ↦ rw (o, read_value) tt
  | inr (p, o) ↦
      let good =
        value_from-GoodValue (length r.bytes) (suc (length r.bytes)) r none [] [] [] 0 p.1
          (omega arith) (omega arith, tt) refl nil tt refl
          (subst BlanksLeaveLine o (split_blanks-BlanksLeaveLine rest line)) in
      elim (Value-cases (value_from (suc (length r.bytes)) r none [] 0 p.1)) [
        | inl (v, next, r', e) ↦
            let g = subst (GoodValue (length r.bytes)) e good in
            rw (o, read_value) (rw e (h, g.0, g.1, g.2))
        | inr (inl (r', e)) ↦ rw (o, read_value) (rw e tt)
        | inr (inr (inl e)) ↦ rw (o, read_value) (rw e tt)
        | inr (inr (inr e)) ↦ absurd (subst (GoodValue (length r.bytes)) e good)
      ]
]

Key-cases :
    (k : Key)
    → ((key : Bytes) × (rest : Bytes) × (k ≡ key_end key rest))
      ⊎ ((e : HeaderError) × (k ≡ key_error e))
Key-cases (key_end key rest) = inl (key, rest, refl)
Key-cases (key_error e) = inr (e, refl)

read_field-GoodField :
    (r : Reader) (line : Bytes) → IsLine line → GoodField (length r.bytes) (read_field r line)
unfolding read_field
read_field-GoodField r line h = elim (Key-cases (split_key line)) [
  | inr (e, d) ↦ rw (d, read_field) tt
  | inl (key, rest, d) ↦
      rw (d, read_field)
        (read_value-GoodField r key rest (subst HasKey d (split_key-HasKey line))
          (subst KeyLeavesLine d (split_key-KeyLeavesLine line h)))
]

Field-cases :
    (x : Field)
    → ((key : Bytes) × (v : Bytes) × (next : Option Line) × (r : Reader) × (x ≡ field key v next r))
      ⊎ (((e : HeaderError) × (r : Reader) × (x ≡ refused e r))
          ⊎ ((x ≡ field_panic) ⊎ (x ≡ field_no_fuel)))
Field-cases (field key v next r) = inl (key, v, next, r, refl)
Field-cases (refused e r) = inr (inl (e, r, refl))
Field-cases field_panic = inr (inr (inl refl))
Field-cases field_no_fuel = inr (inr (inr refl))

-- A line that goes on to a field has three bytes.
short_line-none : (v : Bytes) (err : Option ReadError) → short_line v err ≡ none → 3 ≤ length v
unfolding short_line
short_line-none (a ∷ b ∷ c ∷ v) err h = omega arith
short_line-none [] none h = absurd (cc)
short_line-none [] (some e) h = absurd (cc)
short_line-none (a ∷ []) none h = absurd (cc)
short_line-none (a ∷ []) (some e) h = absurd (cc)
short_line-none (a ∷ b ∷ []) none h = ground arith
short_line-none (a ∷ b ∷ []) (some (other n)) h = absurd (cc)
short_line-none (a ∷ b ∷ []) (some eof) h = ground arith

next_line-Fits :
    (k : ℕ) (next : Option Line) (r : Reader)
    → Fits k next r
    → NextIsLine next
    → (length (next_line next r).0.text + length (next_line next r).1.bytes ≤ k)
      × IsLine (next_line next r).0.text
unfolding next_line
next_line-Fits k none r f l = (omega (arith, f, length-read_bytes r), read_bytes-IsLine r)
next_line-Fits k (some x) r f l = (f, l)

-- The parser returns with a header that satisfies P, or panics.
abbrev pub Ensures : {H : Type 0} → (H → Type 0) → Parsed H → Type 0
Ensures P (returned h r err can_respond) = P h
Ensures P panicked = Unit
Ensures P out_of_fuel = ⊥

module _ {H : Type 0} (add : Bytes → Bytes → H → H) (P : H → Type 0)
    (keeps : (key v : Bytes) (h : H) → IsKey key → Folded v → P h → P (add key v h)) where
  headers_from-Ensures :
      (fuel : ℕ) (h : H) (line : Line) (r : Reader)
      → length line.text + length r.bytes < fuel
      → IsLine line.text
      → P h
      → Ensures P (headers_from add fuel h line r)
  unfolding headers_from
  headers_from-Ensures zero h line r enough l p = absurd (omega (arith, enough))
  headers_from-Ensures (suc fuel) h line r enough l p =
      elim (Option-cases (short_line line.text line.err)) [
        | inr (x, s) ↦ rw (s, headers_from) p
        | inl s ↦
            let good = read_field-GoodField r line.text l in
            elim (Field-cases (read_field r line.text)) [
              | inr (inl (e, r', d)) ↦ rw (s, headers_from) (rw d p)
              | inr (inr (inl d)) ↦ rw (s, headers_from) (rw d tt)
              | inr (inr (inr d)) ↦ absurd (subst (GoodField (length r.bytes)) d good)
              | inl (key, v, next, r', d) ↦
                  let g = subst (GoodField (length r.bytes)) d good in
                  let p' = keeps key v h g.0 g.1 p in
                  let n = next_line-Fits (length r.bytes) next r' g.2 g.3 in
                  elim (Option-cases line.err) [
                    | inr (e, x) ↦ rw (s, headers_from) (rw d (rw x p'))
                    | inl x ↦
                        rw (s, headers_from)
                          (rw d (
                            rw x (
                              headers_from-Ensures fuel (add key v h) (next_line next r').0
                                (next_line next r').1
                                (omega (arith, enough, n.0, short_line-none line.text line.err s))
                                n.1 p')))
                  ]
            ]
      ]

  -- Whatever the reader holds, `ParseHeaders` returns or panics, and does not run out of its fuel. A
  -- property of the header that holds at first holds when it returns, also with an error, if it is
  -- kept by adding a field whose name is token characters, at least one, and whose value is visible
  -- characters and whitespace, where CR and LF stand only as a line break that whitespace follows.
  pub parse_headers-Ensures : (s : Reader) (h : H) → P h → Ensures P (parse_headers add s h)
  unfolding parse_headers
  parse_headers-Ensures s h p =
      headers_from-Ensures (suc (length s.bytes)) h (read_bytes s).0 (read_bytes s).1
        (omega (arith, length-read_bytes s)) (read_bytes-IsLine s) p
