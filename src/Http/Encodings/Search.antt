-- ===== src/Http/Encodings/Search.antt =====
-- What the binary search finds in a sorted list.
use mathlib.Core.Path.{subst}
use mathlib.Core.Option.{some-injective}
use jotpot_server.Base.{
  ℕ, zero, suc, ◌+◌, ◌-◌, ◌/◌, ◌<◌, ◌≤◌, ◌≡◌, refl, sym, arith, ◌⊎◌, inl, inr, some, List, [], ◌∷◌,
  Bytes, length, get_elem?, take, drop, All, leb, Bool-cases,
}
use jotpot_server.Http.Encodings.{
  ComparisonResult, equal_to, less_than, greater_than, compare_strings, Encoding, Index, found,
  missing, panic, out_of_fuel, index_from, index,
}
use jotpot_server.Http.Encodings.Order.{
  Above, IsSorted, compare_strings-equal, compare_strings-flip, Above-trans,
}

ComparisonResult-cases :
    (r : ComparisonResult) → (r ≡ equal_to) ⊎ ((r ≡ greater_than) ⊎ (r ≡ less_than))
ComparisonResult-cases equal_to = inl refl
ComparisonResult-cases greater_than = inr (inl refl)
ComparisonResult-cases less_than = inr (inr refl)

module _ {R W : Type 0} where
  abbrev pub AllAbove : Bytes → List (Encoding R W) → Type 0
  AllAbove name l = All (λ e. Above e.name name) l

  abbrev pub AllBelow : Bytes → List (Encoding R W) → Type 0
  AllBelow name l = All (λ e. Above name e.name) l

  -- The name's place: the encoding that has it, or the border between those above and those below.
  abbrev pub Located : List (Encoding R W) → Bytes → Index → Type 0
  Located l name (found i) = (e : Encoding R W) × (get_elem? l i ≡ some e) × (e.name ≡ name)
  Located l name (missing i) = (i ≤ length l) × AllAbove name (take i l) × AllBelow name (drop i l)
  Located l name panic = ⊥
  Located l name out_of_fuel = ⊥

  get_elem?-some :
      (l : List (Encoding R W)) (i : ℕ)
      → i < length l
      → (e : Encoding R W) × (get_elem? l i ≡ some e)
  get_elem?-some [] i h = absurd (omega (arith, h))
  get_elem?-some (e ∷ l) zero h = (e, refl)
  get_elem?-some (e ∷ l) (suc i) h = get_elem?-some l i (omega (arith, h))

  All-get_elem? :
      (P : Encoding R W → Type 0) (l : List (Encoding R W)) (i : ℕ) (e : Encoding R W)
      → All P l
      → get_elem? l i ≡ some e
      → P e
  All-get_elem? P [] i e a h = absurd (cc)
  All-get_elem? P (x ∷ l) zero e a h = subst P (some-injective x e h) a.0
  All-get_elem? P (x ∷ l) (suc i) e a h = All-get_elem? P l i e a.1 h

  AllBelow-trans : (a b : Bytes) (l : List (Encoding R W)) → Above a b → AllBelow b l → AllBelow a l
  AllBelow-trans a b [] h k = tt
  AllBelow-trans a b (e ∷ l) h k = (Above-trans a b e.name h k.0, AllBelow-trans a b l h k.1)

  take-AllAbove :
      (name : Bytes) (l : List (Encoding R W)) (i : ℕ) (e : Encoding R W)
      → IsSorted l
      → get_elem? l i ≡ some e
      → Above e.name name
      → AllAbove name (take (suc i) l)
  take-AllAbove name [] i e s h k = absurd (cc)
  take-AllAbove name (x ∷ l) zero e s h k =
      (subst (λ y. Above y.name name) (sym (some-injective x e h)) k, tt)
  take-AllAbove name (x ∷ l) (suc i) e s h k = (
    Above-trans x.name e.name name (All-get_elem? (λ y. Above x.name y.name) l i e s.0 h) k,
    take-AllAbove name l i e s.1 h k,
  )

  drop-AllBelow :
      (name : Bytes) (l : List (Encoding R W)) (i : ℕ) (e : Encoding R W)
      → IsSorted l
      → get_elem? l i ≡ some e
      → Above name e.name
      → AllBelow name (drop i l)
  drop-AllBelow name [] i e s h k = absurd (cc)
  drop-AllBelow name (x ∷ l) zero e s h k =
      let k' : Above name x.name = subst (λ y. Above name y.name) (sym (some-injective x e h)) k in
      (k', AllBelow-trans name x.name l k' s.0)
  drop-AllBelow name (x ∷ l) (suc i) e s h k = drop-AllBelow name l i e s.1 h k

  -- The loop's invariant: what is before `a` is above the name, what is from `past` on below it.
  record IsBetween (l : List (Encoding R W)) (name : Bytes) (a past : ℕ) : Type 0 where
    nonempty : a < past
    inside : past ≤ length l
    above : AllAbove name (take a l)
    below : AllBelow name (drop past l)

  index_from-Located :
      (fuel : ℕ) (l : List (Encoding R W)) (name : Bytes) (a past : ℕ)
      → IsSorted l
      → past ≤ fuel + a
      → IsBetween l name a past
      → Located l name (index_from fuel l name a past)
  unfolding index_from
  index_from-Located zero l name a past s f b = absurd (omega (arith, f, b.nonempty))
  index_from-Located (suc fuel) l name a past s f b =
      let c = (a + past - 1) / 2 in
      let lower : a ≤ c = omega (arith, b.nonempty) in
      let upper : c < past = omega (arith, b.nonempty) in
      let (e, g) = get_elem?-some l c (omega (arith, upper, b.inside)) in
      rw (g, index_from)
        (elim (ComparisonResult-cases (compare_strings e.name name)) [
          | inl r ↦ rw r (e, g, compare_strings-equal e.name name r)
          | inr (inl r) ↦ rw r (elim (Bool-cases (leb past (suc c))) [
            | inl t ↦ rw t (
              omega (arith, upper, b.inside),
              take-AllAbove name l c e s g r,
              let last : past ≡ suc c = ground (arith, t, upper) in
                  subst (λ n. AllBelow name (drop n l)) last b.below,
            )
            | inr t ↦ rw t (
                index_from-Located fuel l name (suc c) past s (omega (arith, f, lower)) (record {
                  nonempty = ground (arith, t);
                  inside = b.inside;
                  above = take-AllAbove name l c e s g r;
                  below = b.below;
                }))
          ])
          | inr (inr r) ↦
              let down = drop-AllBelow name l c e s g (compare_strings-flip e.name name r) in
              rw r (elim (Bool-cases (leb c a)) [
                | inl t ↦ rw t (
                  omega (arith, upper, b.inside),
                  let first : a ≡ c = ground (arith, t, lower) in
                      subst (λ n. AllAbove name (take n l)) first b.above,
                  down,
                )
                | inr t ↦ rw t (
                    index_from-Located fuel l name a c s (omega (arith, f, upper)) (record {
                      nonempty = ground (arith, t);
                      inside = omega (arith, upper, b.inside);
                      above = b.above;
                      below = down;
                    }))
              ])
        ])

  AllBelow-end : (name : Bytes) (l : List (Encoding R W)) → AllBelow name (drop (length l) l)
  AllBelow-end name [] = tt
  AllBelow-end name (e ∷ l) = AllBelow-end name l

  -- In a sorted list `index` neither panics nor runs out of its fuel, the list's length: it finds the
  -- encoding with the name, or the border between the encodings above and those below it.
  pub index-Located :
      (l : List (Encoding R W)) (name : Bytes) → IsSorted l → Located l name (index l name)
  unfolding index
  index-Located [] name s = (omega arith, tt, tt)
  index-Located (e ∷ l) name s =
      index_from-Located (suc (length l)) (e ∷ l) name 0 (suc (length l)) s (omega arith) (record {
        nonempty = omega arith;
        inside = omega arith;
        above = tt;
        below = AllBelow-end name l;
      })
