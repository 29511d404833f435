-- ===== src/Http/Header/Matching.antt =====
-- What `Has` finds.
use mathlib.Core.Path.{subst}
use jotpot_server.Base.{
  ℕ, zero, suc, ◌+◌, ◌-◌, ◌≤◌, ◌≡◌, ◌↔◌, refl, ap, arith, Bool, true, false, Option, none, some,
  List, [], ◌∷◌, Bytes, equal, equal_iff, equal_refl, ◌==◌, length, if◌then◌else◌, Bool-cases, inl,
  inr,
}
use jotpot_server.Http.Header.{
  Header, read_lock, read_unlock, mark, has_from, unmarked, has, process_values, get_key,
  get_values_raw_key,
}
use jotpot_server.Base.Int.{pos}

subtract : (n : ℕ) → suc n - 1 ≡ n
subtract n = omega arith

nonzero : (n : ℕ) → (suc n == 0) ≡ false
nonzero n = ground arith

-- How often a value occurs.
abbrev pub count : Bytes → List Bytes → ℕ
count v [] = 0
count v (x ∷ xs) = (if equal v x then 1 else 0) + count v xs

-- The values that are not yet marked.
abbrev pub pending : List Bytes → List Bool → List Bytes
pending (v ∷ values) (w ∷ wants) = if w then pending values wants else v ∷ pending values wants
pending _ _ = []

abbrev pub Contained : List Bytes → List Bytes → Type 0
Contained xs ys = (v : Bytes) → count v xs ≤ count v ys

-- Marking x takes one x away from what is pending.
record Marked (x : Bytes) (before after : List Bytes) : Type 0 where
  counts : (v : Bytes) → count v before ≡ (if equal v x then 1 else 0) + count v after
  shorter : length before ≡ suc (length after)

-- What the inner loop does to the pending values: it finds no x among them, or takes one away.
abbrev Marking : Bytes → List Bytes → List Bytes → Option (List Bool) → Type 0
Marking x values before none = count x before ≡ 0
Marking x values before (some wants) = Marked x before (pending values wants)

mark_marked :
    (x v : Bytes) (values before : List Bytes) (r : Option (List Bool))
    → Marking x values before r
    → Marking x (v ∷ values) before (elim r [ none ↦ none | some ws ↦ some (true ∷ ws) ])
mark_marked x v values before none h = h
mark_marked x v values before (some ws) h = h

mark_unmarked :
    (x v : Bytes) (values before : List Bytes) (r : Option (List Bool))
    → equal x v ≡ false
    → Marking x values before r
    → Marking x (v ∷ values) (v ∷ before) (elim r [ none ↦ none | some ws ↦ some (false ∷ ws) ])
mark_unmarked x v values before none d h = rw d (omega (arith, h))
mark_unmarked x v values before (some ws) d h = record {
  counts = λ u. omega (arith, h.counts u);
  shorter = omega (arith, h.shorter);
}

mark-Marking :
    (x : Bytes) (values : List Bytes) (wants : List Bool)
    → Marking x values (pending values wants) (mark x values wants)
unfolding mark
mark-Marking x [] wants = refl
mark-Marking x (v ∷ values) [] = refl
mark-Marking x (v ∷ values) (true ∷ wants) =
    mark_marked x v values (pending values wants) (mark x values wants)
      (mark-Marking x values wants)
mark-Marking x (v ∷ values) (false ∷ wants) = elim (Bool-cases (equal x v)) [
  | inl e ↦ rw e (record { counts = λ u. rw ((equal_iff x v).0 e) refl; shorter = refl })
  | inr e ↦ rw e (
      mark_unmarked x v values (pending values wants) (mark x values wants) e
        (mark-Marking x values wants))
]

Contained-step :
    (x : Bytes) (before after have : List Bytes)
    → Marked x before after
    → Contained after have ↔ Contained before (x ∷ have)
Contained-step x before after have m =
    (λ h v. omega (arith, h v, m.counts v), λ h v. omega (arith, h v, m.counts v))

Contained-skip :
    (x : Bytes) (before have : List Bytes)
    → count x before ≡ 0
    → Contained before have ↔ Contained before (x ∷ have)
Contained-skip x before have e = (
  λ h v. omega (arith, h v),
  λ h v. elim (Bool-cases (equal v x)) [
    | inl d ↦ rw ((equal_iff v x).0 d) (omega (arith, e))
    | inr d ↦
        let k : count v before ≤ (if equal v x then 1 else 0) + count v have = h v in
        ground (arith, k, d)
  ],
)

uncontained : (xs : List Bytes) (n : ℕ) → length xs ≡ suc n → ¬ Contained xs []
uncontained [] n e h = omega (arith, e)
uncontained (v ∷ xs) n e h =
    let k : (if equal v v then 1 else 0) + count v xs ≤ 0 = h v in ground (arith, k, equal_refl v)

count_empty : (v : Bytes) (xs : List Bytes) → length xs ≡ 0 → count v xs ≡ 0
count_empty v [] e = refl
count_empty v (x ∷ xs) e = omega (arith, e)

-- What `has_from` answers for the rest of the values that the header has.
abbrev Answers : List Bytes → List Bytes → Type 0
Answers have values =
    (left : ℕ) (wants : List Bool)
    → length (pending values wants) ≡ suc left
    → (has_from have values (suc left) wants ≡ true) ↔ Contained (pending values wants) have

abbrev round : List Bytes → List Bytes → ℕ → List Bool → Option (List Bool) → Bool
round have values left wants r = elim r [
  | none ↦ has_from have values left wants
  | some wants' ↦
      let rest = has_from have values (left - 1) wants' in if left - 1 == 0 then true else rest
]

round-Contained :
    (x : Bytes) (have values : List Bytes) (left : ℕ) (wants : List Bool) (r : Option (List Bool))
    → Answers have values
    → length (pending values wants) ≡ suc left
    → Marking x values (pending values wants) r
    → (round have values (suc left) wants r ≡ true) ↔ Contained (pending values wants) (x ∷ have)
round-Contained x have values left wants none ih n h =
    let (to, from) = ih left wants n in
    let (up, down) = Contained-skip x (pending values wants) have h in
    (λ e. up (to e), λ c. from (down c))
round-Contained x have values zero wants (some ws) ih n h =
    let (up, down) = Contained-step x (pending values wants) (pending values ws) have h in
    let done : length (pending values ws) ≡ 0 = omega (arith, h.shorter, n) in
    (λ e. up (λ v. omega (arith, count_empty v (pending values ws) done)), λ c. refl)
round-Contained x have values (suc left) wants (some ws) ih n h =
    let (up, down) = Contained-step x (pending values wants) (pending values ws) have h in
    let (to, from) = ih left ws (omega (arith, h.shorter, n)) in
    rw (subtract (suc left), nonzero left) (λ e. up (to e), λ c. from (down c))

-- With at least one value to find, the loop answers whether each value occurs at least as often
-- among the header's values as among those not yet found.
has_from-Contained : (have values : List Bytes) → Answers have values
unfolding has_from
has_from-Contained [] values left wants n =
    (λ e. cc, λ h. absurd (uncontained (pending values wants) left n h))
has_from-Contained (x ∷ have) values left wants n =
    round-Contained x have values left wants (mark x values wants) (has_from-Contained have values)
      n (mark-Marking x values wants)

pending-unmarked : (values : List Bytes) → pending values (unmarked values) ≡ values
pending-unmarked [] = refl
pending-unmarked (v ∷ values) = ap (◌∷◌ v) (pending-unmarked values)

-- The end of `has`, for whatever headers it returns.
has_answer :
    (have wanted : List Bytes) (h₁ h₂ : Header) (n : ℕ)
    → length wanted ≡ n
    → ((elim n as (λ x. Header × Bool) [
      | zero ↦ (h₁, true)
      | suc m ↦ (h₂, has_from have wanted (suc m) (unmarked wanted))
    ]).1
        ≡ true)
      ↔ Contained wanted have
has_answer have wanted h₁ h₂ zero e = (λ t v. omega (arith, count_empty v wanted e), λ c. refl)
has_answer have wanted h₁ h₂ (suc n) e =
    let p : pending wanted (unmarked wanted) ≡ wanted = pending-unmarked wanted in
    subst (λ w. (has_from have wanted (suc n) (unmarked wanted) ≡ true) ↔ Contained w have) p
      (has_from-Contained have wanted n (unmarked wanted) (rw p e))

-- `Has` answers true exactly when each value occurs among the raw key's values at least as often as
-- among the processed wanted ones.
pub has_correct :
    (key : Bytes) (values : List Bytes) (h : Header)
    → ((has key values h).1 ≡ true)
      ↔ Contained
          (process_values h.processor
            (get_key h.processor key)
            values
            (pos 0)
            (pos (length values)))
          (get_values_raw_key h.values (get_key h.processor key))
unfolding has
has_correct key values h =
    let raw = get_key h.processor key in
    let wanted = process_values h.processor raw values (pos 0) (pos (length values)) in
    has_answer (get_values_raw_key h.values raw) wanted (read_lock h) (read_unlock (read_lock h))
      (length wanted) refl
