-- ===== src/Examples/Processors.antt =====
-- A processor of headers with the processor of values of jps/server/standard/httpServer.go, where
-- the text is ASCII and the range is one of the values.
use jotpot_server.Base.{
  ℕ, suc, ◌+◌, ◌≡◌, refl, Bool, true, false, not, ◌&&◌, List, [], ◌∷◌, All, Bytes, ltb, arith,
  if◌then◌else◌, ap₂,
}
use jotpot_server.Base.Int.{ℤ, pos, is_negative, ◌-ℤ◌}
use jotpot_server.Http.Header.{Processor, process_values}
use jotpot_server.Http.Header.Values.{IsLower, KeepsLower}

-- strings.ToLower on ASCII.
abbrev pub to_lower : Bytes → Bytes
to_lower [] = []
to_lower (c ∷ s) = (if ltb 64 c && ltb c 91 then c + 32 else c) ∷ to_lower s

-- The loop from `first` to before `last`; the list begins with the value i.
abbrev pub lower_between : ℤ → ℤ → ℕ → List Bytes → List Bytes
lower_between first last i [] = []
lower_between first last i (v ∷ vs) =
    (if not (is_negative (pos i -ℤ first)) && is_negative (pos i -ℤ last) then to_lower v else v)
    ∷ lower_between first last (suc i) vs

abbrev pub lowering : Processor
lowering = record {
  key_transforms = [];
  values_processors = (λ c. record c { values = lower_between c.first c.last 0 c.values }) ∷ [];
}

to_lower-kept : (s : Bytes) → IsLower s → to_lower s ≡ s
to_lower-kept [] h = refl
to_lower-kept (c ∷ s) h =
    let same : (if ltb 64 c && ltb c 91 then c + 32 else c) ≡ c = ground (arith, h.0) in
    ap₂ (λ d r. d ∷ r) same (to_lower-kept s h.1)

pub lower_between-kept :
    (first last : ℤ) (i : ℕ) (vs : List Bytes) → All IsLower vs → lower_between first last i vs ≡ vs
lower_between-kept first last i [] h = refl
lower_between-kept first last i (v ∷ vs) h =
    ap₂ (λ d r. d ∷ r) (kept (not (is_negative (pos i -ℤ first)) && is_negative (pos i -ℤ last)))
      (lower_between-kept first last (suc i) vs h.1)
  where
    kept : (b : Bool) → (if b then to_lower v else v) ≡ v
    kept true = to_lower-kept v h.0
    kept false = refl

pub lowering-KeepsLower : KeepsLower lowering
unfolding process_values
lowering-KeepsLower key vs a b h = lower_between-kept a b 0 vs h
