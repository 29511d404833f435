-- ===== src/Jps/Handlers/Order.antt =====
-- The lists stay ordered by stage and priority.
use jotpot_server.Base.{
  ◌<◌, ◌≤◌, ◌⊎◌, arith, ◌≡◌, refl, ap, inl, inr, true, false, Bool-cases, List, [], ◌∷◌, ◌++◌, All,
}
use jotpot_server.Jps.Handlers.{Item, goes_before, insert_next, insert}

module _ {W E : Type 0} where
  -- `i` is called before `j` if they were added in this order.
  abbrev pub Precedes : Item W E → Item W E → Type 0
  Precedes i j = (i.stage < j.stage) ⊎ ((i.stage ≡ j.stage) × (j.priority ≤ i.priority))

  -- `i` is called before `j` in whatever order they were added.
  abbrev pub Overtakes : Item W E → Item W E → Type 0
  Overtakes i j = (i.stage < j.stage) ⊎ ((i.stage ≡ j.stage) × (j.priority < i.priority))

  goes_before-Overtakes : (j i : Item W E) → goes_before j i ≡ true → Overtakes j i
  unfolding goes_before
  goes_before-Overtakes j i h = ground arith

  goes_before-Precedes : (j i : Item W E) → goes_before j i ≡ false → Precedes i j
  unfolding goes_before
  goes_before-Precedes j i h = ground arith

  Overtakes-Precedes : (j i : Item W E) → Overtakes j i → Precedes j i
  Overtakes-Precedes j i h = ground arith

  -- Every item precedes all the later ones.
  abbrev pub IsOrdered : List (Item W E) → Type 0
  IsOrdered [] = Unit
  IsOrdered (i ∷ l) = All (Precedes i) l × IsOrdered l

  -- An item behind all that precede it and before all that it goes before.
  pub record SplitAt (j : Item W E) (l m : List (Item W E)) : Type 0 where
    pub before : List (Item W E)
    pub after : List (Item W E)
    pub old : l ≡ before ++ after
    pub new : m ≡ before ++ j ∷ after
    pub earlier : All (λ i. Precedes i j) before
    pub later : All (Overtakes j) after

  Overtakes-trans : (j i k : Item W E) → Overtakes j i → Precedes i k → Overtakes j k
  Overtakes-trans j i k h p = ground arith

  All-Overtakes :
      (j i : Item W E) (l : List (Item W E))
      → Overtakes j i
      → All (Precedes i) l
      → All (Overtakes j) l
  All-Overtakes j i [] h a = tt
  All-Overtakes j i (k ∷ l) h a = (Overtakes-trans j i k h a.0, All-Overtakes j i l h a.1)

  -- The first round of `insert` is a round of its loop.
  insert-insert_next : (j : Item W E) (l : List (Item W E)) → insert j l ≡ insert_next j l
  unfolding insert
  insert-insert_next j [] = refl
  insert-insert_next j (i ∷ l) = refl

  insert_next-SplitAt :
      (j : Item W E) (l : List (Item W E)) → IsOrdered l → SplitAt j l (insert_next j l)
  unfolding insert_next
  insert_next-SplitAt j [] o = record {
    before = [];
    after = [];
    old = refl;
    new = refl;
    earlier = tt;
    later = tt;
  }
  insert_next-SplitAt j (i ∷ l) o = elim (Bool-cases (goes_before j i)) [
    | inl e ↦ record {
      before = [];
      after = i ∷ l;
      old = refl;
      new = rw e;
      earlier = tt;
      later = let h = goes_before-Overtakes j i e in (h, All-Overtakes j i l h o.0);
    }
    | inr e ↦
        let s = insert_next-SplitAt j l o.1 in
        record {
          before = i ∷ s.before;
          after = s.after;
          old = ap (◌∷◌ i) s.old;
          new = rw e (ap (◌∷◌ i) s.new);
          earlier = (goes_before-Precedes j i e, s.earlier);
          later = s.later;
        }
  ]

  All-Precedes : (j : Item W E) (l : List (Item W E)) → All (Overtakes j) l → All (Precedes j) l
  All-Precedes j [] h = tt
  All-Precedes j (i ∷ l) h = (Overtakes-Precedes j i h.0, All-Precedes j l h.1)

  All-insert_next :
      (P : Item W E → Type 0) (j : Item W E) (l : List (Item W E))
      → P j
      → All P l
      → All P (insert_next j l)
  unfolding insert_next
  All-insert_next P j [] h a = (h, tt)
  All-insert_next P j (i ∷ l) h a = elim (Bool-cases (goes_before j i)) [
    | inl e ↦ rw e (h, a)
    | inr e ↦ rw e (a.0, All-insert_next P j l h a.1)
  ]

  insert_next-IsOrdered :
      (j : Item W E) (l : List (Item W E)) → IsOrdered l → IsOrdered (insert_next j l)
  unfolding insert_next
  insert_next-IsOrdered j [] o = (tt, tt)
  insert_next-IsOrdered j (i ∷ l) o = elim (Bool-cases (goes_before j i)) [
    | inl e ↦
        let h = goes_before-Overtakes j i e in
        rw e (All-Precedes j (i ∷ l) (h, All-Overtakes j i l h o.0), o)
    | inr e ↦ rw e (
      All-insert_next (Precedes i) j l (goes_before-Precedes j i e) o.0,
      insert_next-IsOrdered j l o.1,
    )
  ]

  -- `insert` keeps a list ordered by ascending stage and then descending priority, and puts the new
  -- item behind the items of its own stage and priority that are there already: the old list
  -- splits into the items that precede the new one and those that it goes before.
  pub insert-IsOrdered :
      (j : Item W E) (l : List (Item W E))
      → IsOrdered l
      → IsOrdered (insert j l) × SplitAt j l (insert j l)
  insert-IsOrdered j l o =
      rw (insert-insert_next j l) (insert_next-IsOrdered j l o, insert_next-SplitAt j l o)
