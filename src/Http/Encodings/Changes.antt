-- ===== src/Http/Encodings/Changes.antt =====
-- What adding to and removing from a sorted list of encodings do.
use mathlib.Core.Path.{subst}
use jotpot_server.Base.{
  ℕ, zero, suc, ◌+◌, ◌-◌, ◌<◌, ◌≤◌, ◌≡◌, refl, ap, ap₂, sym, ◌∙◌, arith, ◌⊎◌, inl, inr, Bool, true,
  false, Option, none, some, List, [], ◌∷◌, ◌++◌, append_assoc, Bytes, length, get_elem?, take,
  drop, All, Bool-cases, ◌==◌, if◌then◌else◌, length-append, length-take, length-drop,
  take-append-drop, take-length-append, drop-length-append,
}
use jotpot_server.Http.Encodings.{
  Encoding, Index, found, missing, panic, out_of_fuel, index, add, remove, insert_at, copy_to,
  last_part,
}
use jotpot_server.Http.Encodings.Order.{Above, IsSorted}
use jotpot_server.Http.Encodings.Search.{AllAbove, AllBelow, Located, index-Located}

module _ {R W : Type 0} where
  take-append_le : (n : ℕ) (r s : List (Encoding R W)) → n ≤ length r → take n (r ++ s) ≡ take n r
  take-append_le zero r s h = refl
  take-append_le (suc n) [] s h = absurd (omega (arith, h))
  take-append_le (suc n) (x ∷ r) s h = ap (◌∷◌ x) (take-append_le n r s (omega (arith, h)))

  drop-append_add : (p r : List (Encoding R W)) (n : ℕ) → drop (length p + n) (p ++ r) ≡ drop n r
  drop-append_add [] r n = let e : 0 + n ≡ n = omega arith in rw e refl
  drop-append_add (x ∷ p) r n =
      let e : suc (length p) + n ≡ suc (length p + n) = omega arith in rw e (drop-append_add p r n)

  -- Copying to the end of `p` keeps `p`.
  copy_to-append :
      (p s r : List (Encoding R W)) → copy_to (length p) s (p ++ r) ≡ p ++ (s ++ drop (length s) r)
  copy_to-append p s r =
      rw (take-length-append p r, drop-append_add p r (length s))
        (append_assoc p s (drop (length s) r))

  copy_to-next :
      (p : List (Encoding R W)) (x : Encoding R W) (s r : List (Encoding R W))
      → copy_to (suc (length p)) s (p ++ x ∷ r) ≡ p ++ x ∷ (s ++ drop (length s) r)
  copy_to-next p x s r =
      let e : suc (length p) ≡ length (p ++ x ∷ []) = omega (arith, length-append p (x ∷ [])) in
      ap₂ (λ n l. copy_to n s l) e (sym (append_assoc p (x ∷ []) r))
      ∙ copy_to-append (p ++ x ∷ []) s r
      ∙ append_assoc p (x ∷ []) (s ++ drop (length s) r)

  drop-next :
      (p : List (Encoding R W)) (x : Encoding R W) (q : List (Encoding R W))
      → drop (suc (length p)) (p ++ x ∷ q) ≡ q
  drop-next p x q =
      let e : suc (length p) ≡ length p + 1 = omega arith in
      ap (λ n. drop n (p ++ x ∷ q)) e ∙ drop-append_add p (x ∷ q) 1

  -- The part of the list before a position, the encoding there, and what follows it.
  data Split : List (Encoding R W) → ℕ → Type 0 where
    split :
        (p : List (Encoding R W)) (x : Encoding R W) (q : List (Encoding R W))
        → Split (p ++ x ∷ q) (length p)

  Split-cons :
      (y : Encoding R W) (l : List (Encoding R W)) (i : ℕ) → Split l i → Split (y ∷ l) (suc i)
  Split-cons y _ _ (split p x q) = split (y ∷ p) x q

  Split-at : (l : List (Encoding R W)) (i : ℕ) → i < length l → Split l i
  Split-at [] i h = absurd (omega (arith, h))
  Split-at (x ∷ l) zero h = split [] x l
  Split-at (x ∷ l) (suc i) h = Split-cons x l i (Split-at l i (omega (arith, h)))

  last_part-append :
      (p : List (Encoding R W)) (x : Encoding R W) (q : List (Encoding R W))
      → last_part (p ++ x ∷ q) ≡ drop (length q) (x ∷ q)
  last_part-append p x q =
      let e : length (p ++ x ∷ q) - 1 ≡ length p + length q =
        omega (arith, length-append p (x ∷ q)) in
      rw e (drop-append_add p (x ∷ q) (length q))

  -- The appending, moving and writing put the new encoding before the one at i and keep all others.
  insert_at-Split :
      (e : Encoding R W) (l : List (Encoding R W)) (i : ℕ)
      → Split l i
      → insert_at i e l ≡ take i l ++ e ∷ drop i l
  unfolding insert_at
  insert_at-Split e _ _ (split p x q) =
      let l = p ++ x ∷ q in
      let end = drop (length q) (x ∷ q) in
      let body = take (length q) (x ∷ q) in
      let one : length end ≡ 1 = omega (arith, length-drop (length q) (x ∷ q)) in
      let longer : l ++ last_part l ≡ p ++ (x ∷ q ++ end) =
        ap (λ z. l ++ z) (last_part-append p x q) ∙ append_assoc p (x ∷ q) end in
      let size : length (p ++ (x ∷ q ++ end)) - 2 - length p ≡ length q =
        omega (arith, length-append p (x ∷ q ++ end), length-append q end, one) in
      let src : take (length q) (drop (length p) (p ++ (x ∷ q ++ end))) ≡ body =
        ap (take (length q)) (drop-length-append p (x ∷ q ++ end))
        ∙ take-append_le (length q) (x ∷ q) end (omega arith) in
      let short : length body ≡ length q = omega (arith, length-take (length q) (x ∷ q)) in
      let tail : drop (length body) (q ++ end) ≡ end =
        ap (λ n. drop n (q ++ end)) short ∙ drop-length-append q end in
      rw (longer, size, src)
        (ap (copy_to (length p) (e ∷ []))
            (copy_to-next p x body (q ++ end) ∙ ap (λ r. p ++ x ∷ (body ++ r)) tail)
          ∙ copy_to-append p (e ∷ []) (x ∷ (body ++ end))
          ∙ ap (λ z. p ++ e ∷ z) (take-append-drop (length q) (x ∷ q))
          ∙ ap₂ (λ a b. a ++ e ∷ b) (sym (take-length-append p (x ∷ q)))
              (sym (drop-length-append p (x ∷ q))))

  remove_found :
      (l : List (Encoding R W)) (i : ℕ)
      → Split l i
      → take (length l - 1) (copy_to i (drop (suc i) l) l) ≡ take i l ++ drop (suc i) l
  remove_found _ _ (split p x q) =
      let l = p ++ x ∷ q in
      let d = drop (length q) (x ∷ q) in
      let size : length l - 1 ≡ length (p ++ q) =
        omega (arith, length-append p (x ∷ q), length-append p q) in
      ap (λ z. take (length l - 1) (copy_to (length p) z l)) (drop-next p x q)
      ∙ ap₂ take size (copy_to-append p q (x ∷ q) ∙ sym (append_assoc p q d))
      ∙ take-length-append (p ++ q) d
      ∙ ap₂ (◌++◌) (sym (take-length-append p (x ∷ q))) (sym (drop-next p x q))

  All-append :
      (P : Encoding R W → Type 0) (p q : List (Encoding R W)) → All P (p ++ q) → All P p × All P q
  All-append P [] q a = (tt, a)
  All-append P (x ∷ p) q a = let h = All-append P p q a.1 in ((a.0, h.0), h.1)

  append-All :
      (P : Encoding R W → Type 0) (p q : List (Encoding R W)) → All P p → All P q → All P (p ++ q)
  append-All P [] q a b = b
  append-All P (x ∷ p) q a b = (a.0, append-All P p q a.1 b)

  -- An encoding between those above it and those below it keeps the list sorted.
  insert-IsSorted :
      (p q : List (Encoding R W)) (e : Encoding R W)
      → IsSorted (p ++ q)
      → AllAbove e.name p
      → AllBelow e.name q
      → IsSorted (p ++ e ∷ q)
  insert-IsSorted [] q e s a b = (b, s)
  insert-IsSorted (x ∷ p) q e s a b =
      let parts = All-append (λ f. Above x.name f.name) p q s.0 in
      (
        append-All (λ f. Above x.name f.name) p (e ∷ q) parts.0 (a.0, parts.1),
        insert-IsSorted p q e s.1 a.1 b,
      )

  delete-IsSorted :
      (p q : List (Encoding R W)) (x : Encoding R W) → IsSorted (p ++ x ∷ q) → IsSorted (p ++ q)
  delete-IsSorted [] q x s = s.1
  delete-IsSorted (y ∷ p) q x s =
      let parts = All-append (λ f. Above y.name f.name) p (x ∷ q) s.0 in
      (append-All (λ f. Above y.name f.name) p q parts.0 parts.1.1, delete-IsSorted p q x s.1)

  take_all : (l : List (Encoding R W)) → take (length l) l ≡ l
  take_all [] = refl
  take_all (x ∷ l) = ap (◌∷◌ x) (take_all l)

  drop_all : (l : List (Encoding R W)) → drop (length l) l ≡ []
  drop_all [] = refl
  drop_all (x ∷ l) = drop_all l

  -- The end of `Add`, in both branches.
  added :
      (e : Encoding R W) (l : List (Encoding R W)) (i : ℕ)
      → i ≤ length l
      → (if i == length l then l ++ e ∷ [] else insert_at i e l) ≡ take i l ++ e ∷ drop i l
  added e l i h = elim (Bool-cases (i == length l)) [
    | inl t ↦
        let k : i ≡ length l = ground (arith, t) in
        rw t (sym (rw k (ap₂ (λ a b. a ++ e ∷ b) (take_all l) (drop_all l))))
    | inr t ↦ rw t (insert_at-Split e l i (Split-at l i (ground (arith, t, h))))
  ]

  -- What `Add` returns for a sorted list.
  abbrev pub IsAdded :
      Encoding R W → List (Encoding R W) → Option (List (Encoding R W) × Bool) → Type 0
  IsAdded e l r =
      ((i : ℕ) × Located l e.name (found i) × (r ≡ some (l, false)))
      ⊎ ((i : ℕ) × (r ≡ some (take i l ++ e ∷ drop i l, true))
          × IsSorted (take i l ++ e ∷ drop i l))

  add_end :
      (e x : Encoding R W) (l : List (Encoding R W)) (r : Index)
      → IsSorted (x ∷ l)
      → Located (x ∷ l) e.name r
      → IsAdded e (x ∷ l) (elim r [
        | found i ↦ some (x ∷ l, false)
        | missing i ↦
            some ((if i == length (x ∷ l) then (x ∷ l) ++ e ∷ [] else insert_at i e (x ∷ l)), true)
        | panic ↦ none
        | out_of_fuel ↦ none
      ])
  add_end e x l (found i) s h = inl (i, h, refl)
  add_end e x l (missing i) s h = inr (
    i,
    ap (λ m. some (m, true)) (added e (x ∷ l) i h.0),
    insert-IsSorted (take i (x ∷ l)) (drop i (x ∷ l)) e
        (subst IsSorted (sym (take-append-drop i (x ∷ l))) s) h.1 h.2,
  )
  add_end e x l panic s h = elim h [ ]
  add_end e x l out_of_fuel s h = elim h [ ]

  -- Adding to a sorted list either finds an encoding of the same name and changes nothing, or puts the
  -- new encoding between two parts of the old list such that the result is sorted.
  pub add-IsSorted :
      (e : Encoding R W) (l : List (Encoding R W)) → IsSorted l → IsAdded e l (add e l)
  unfolding add
  add-IsSorted e [] s = inr (0, refl, (tt, tt))
  add-IsSorted e (x ∷ l) s = add_end e x l (index (x ∷ l) e.name) s (index-Located (x ∷ l) e.name s)

  -- What `Remove` returns for a sorted list.
  abbrev pub IsRemoved : Bytes → List (Encoding R W) → Option (List (Encoding R W) × Bool) → Type 0
  IsRemoved name l r =
      ((i : ℕ) × Located l name (missing i) × (r ≡ some (l, false)))
      ⊎ ((i : ℕ) × Located l name (found i)
          × (r ≡ some (take i l ++ drop (suc i) l, true))
          × IsSorted (take i l ++ drop (suc i) l))

  Split-IsSorted :
      (l : List (Encoding R W)) (i : ℕ)
      → Split l i
      → IsSorted l
      → IsSorted (take i l ++ drop (suc i) l)
  Split-IsSorted _ _ (split p x q) s =
      subst IsSorted (ap₂ (◌++◌) (sym (take-length-append p (x ∷ q))) (sym (drop-next p x q)))
        (delete-IsSorted p q x s)

  get_elem?-below :
      (l : List (Encoding R W)) (i : ℕ) (e : Encoding R W) → get_elem? l i ≡ some e → i < length l
  get_elem?-below [] i e h = absurd (cc)
  get_elem?-below (x ∷ l) zero e h = omega arith
  get_elem?-below (x ∷ l) (suc i) e h = omega (arith, get_elem?-below l i e h)

  remove_end :
      (name : Bytes) (l : List (Encoding R W)) (r : Index)
      → IsSorted l
      → Located l name r
      → IsRemoved name l (elim r [
        | found i ↦ some (take (length l - 1) (copy_to i (drop (suc i) l) l), true)
        | missing i ↦ some (l, false)
        | panic ↦ none
        | out_of_fuel ↦ none
      ])
  remove_end name l (found i) s h =
      let at = Split-at l i (get_elem?-below l i h.0 h.1) in
      inr (i, h, ap (λ m. some (m, true)) (remove_found l i at), Split-IsSorted l i at s)
  remove_end name l (missing i) s h = inl (i, h, refl)
  remove_end name l panic s h = elim h [ ]
  remove_end name l out_of_fuel s h = elim h [ ]

  -- Removing from a sorted list either finds no encoding of the name and changes nothing, or takes out
  -- the one encoding that has the name, and the result is sorted.
  pub remove-IsSorted :
      (name : Bytes) (l : List (Encoding R W)) → IsSorted l → IsRemoved name l (remove name l)
  unfolding remove
  remove-IsSorted name l s = remove_end name l (index l name) s (index-Located l name s)
