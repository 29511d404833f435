-- ===== src/Jps/Status/Laws.antt =====
-- `Set` and `Get` of jps/responseStatusMaps.go against a map from codes to values.
use jotpot_server.Base.{
  ℕ, zero, suc, ◌+◌, ◌-◌, ◌<◌, ◌≤◌, ◌≡◌, ◌≢◌, refl, sym, ap, ◌∙◌, arith, inl, inr, ◌||◌,
  Option-cases, List, [], ◌∷◌, ◌++◌, none, some, ltb, leb, ◌==◌, length, length-append,
  if◌then◌else◌,
}
use jotpot_server.Jps.Status.{
  ResponseType, type_ok, type_redirect, type_client_error, type_server_error, known_type, StatusMap,
  slice, set_slice, get_or, set, get_in, get, pad, extend, set_in, put, status_type, get_code,
}

ResponseType-discrete : Discrete ResponseType
ResponseType-discrete = hlevel

module _ {A : Type 0} where
  length-set : (l : List A) (i : ℕ) (v : A) → length (set l i v) ≡ length l
  length-set [] i v = refl
  length-set (x ∷ l) zero v = refl
  length-set (x ∷ l) (suc i) v = ap suc (length-set l i v)

  get_or-append :
      (l : List A) (u d : A) (i : ℕ)
      → get_or (l ++ u ∷ []) i d
        ≡ (if ltb i (length l) then get_or l i d else if i == length l then u else d)
  get_or-append [] u d zero = refl
  get_or-append [] u d (suc i) = ground arith
  get_or-append (x ∷ l) u d zero = ground arith
  get_or-append (x ∷ l) u d (suc i) = ground (arith, get_or-append l u d i)

  get_or-set :
      (l : List A) (u d : A) (c i : ℕ)
      → c < length l
      → get_or (set l c u) i d ≡ (if i == c then u else get_or l i d)
  get_or-set [] u d c i h = absurd (omega arith)
  get_or-set (x ∷ l) u d zero zero h = ground arith
  get_or-set (x ∷ l) u d zero (suc i) h = ground arith
  get_or-set (x ∷ l) u d (suc c) zero h = ground arith
  get_or-set (x ∷ l) u d (suc c) (suc i) h = ground (arith, get_or-set l u d c i)

  -- An element behind a non-empty slice is the one of its own code.
  get_in-append :
      (x : A) (l : List A) (u d : A) (i : ℕ)
      → get_in ((x ∷ l) ++ u ∷ []) d i ≡ (if i == length (x ∷ l) then u else get_in (x ∷ l) d i)
  unfolding get_in
  get_in-append x l u d zero = ground (arith, length-append l (u ∷ []))
  get_in-append x l u d (suc i) = ground (arith, length-append l (u ∷ []), get_or-append l u d i)

  -- The first element, appended, is what was there for that code before.
  get_in-append_first :
      (x : A) (l : List A) (d : A) (i : ℕ) → get_in ((x ∷ l) ++ x ∷ []) d i ≡ get_in (x ∷ l) d i
  unfolding get_in
  get_in-append_first x l d zero = ground arith
  get_in-append_first x l d (suc i) =
      ground (arith, length-append l (x ∷ []), get_or-append l x d i)

  get_in-set :
      (l : List A) (u d : A) (c i : ℕ)
      → c ≢ 0
      → c < length l
      → get_in (set l c u) d i ≡ (if i == c then u else get_in l d i)
  unfolding get_in
  get_in-set [] u d c i nz h = absurd (omega arith)
  get_in-set (x ∷ l) u d zero i nz h = absurd (nz refl)
  get_in-set (x ∷ l) u d (suc c) zero nz h = ground (arith, length-set l c u)
  get_in-set (x ∷ l) u d (suc c) (suc i) nz h =
      ground (arith, length-set l c u, get_or-set l u d c i)

  get_in-pad :
      (n : ℕ) (x : A) (l : List A) (d : A) (i : ℕ)
      → get_in (pad n x (x ∷ l)) d i ≡ get_in (x ∷ l) d i
  unfolding pad
  get_in-pad zero x l d i = refl
  get_in-pad (suc n) x l d i = get_in-pad n x (l ++ x ∷ []) d i ∙ get_in-append_first x l d i

  -- A padded slice is a non-empty slice of the length that the loop counts to.
  pad-cons :
      (n : ℕ) (x y : A) (l : List A)
      → (m : List A) × (pad n y (x ∷ l) ≡ x ∷ m) × (length m ≡ n + length l)
  unfolding pad
  pad-cons zero x y l = (l, refl, omega arith)
  pad-cons (suc n) x y l =
      let (m, e, h) = pad-cons n x y (l ++ y ∷ []) in
      (m, e, omega (arith, length-append l (y ∷ [])))

  padded_append :
      (n : ℕ) (x : A) (l : List A) (u d : A) (c i : ℕ)
      → c ≡ n + suc (length l)
      → get_in (pad n x (x ∷ l) ++ u ∷ []) d i ≡ (if i == c then u else get_in (x ∷ l) d i)
  padded_append n x l u d c i h =
      let (m, e, k) = pad-cons n x x l in
      let same : get_in (x ∷ m) d i ≡ get_in (x ∷ l) d i = rw e at (get_in-pad n x l d i) in
      let long : length (x ∷ m) ≡ c = omega arith in
      rw e (get_in-append x m u d i ∙ rw (long, same))

  get_in_default : (d : A) (i : ℕ) → get_in (d ∷ []) d i ≡ get_in [] d i
  unfolding get_in
  get_in_default d i = ground arith

  one_code :
      (u d : A) (i : ℕ) → get_in (set_in [] d 1 u) d i ≡ (if i == 1 then u else get_in [] d i)
  unfolding set_in get_in
  one_code u d zero = refl
  one_code u d (suc zero) = refl
  one_code u d (suc (suc i)) = ground arith

  get_in-extend :
      (l : List A) (u d : A) (c i : ℕ)
      → 2 ≤ c
      → length l < c
      → get_in (extend l d c u) d i ≡ (if i == c then u else get_in l d i)
  unfolding extend
  get_in-extend [] u d c i h k =
      padded_append (c - 2) d (d ∷ []) u d c i (omega arith)
      ∙ rw (get_in-append_first d [] d i) (rw get_in_default)
  get_in-extend (x ∷ l) u d c i h k =
      padded_append (c - suc (suc (length l))) x (l ++ x ∷ []) u d c i
        (omega (arith, length-append l (x ∷ [])))
      ∙ rw (get_in-append_first x l d i)

  get_in-set_in :
      (l : List A) (u d : A) (c i : ℕ)
      → c ≢ 0
      → get_in (set_in l d c u) d i ≡ (if i == c then u else get_in l d i)
  unfolding set_in
  get_in-set_in [] u d zero i nz = absurd (nz refl)
  get_in-set_in [] u d (suc zero) i nz = one_code u d i
  get_in-set_in [] u d (suc (suc c)) i nz = ground (arith, get_in-extend [] u d (suc (suc c)) i)
  get_in-set_in (x ∷ l) u d c i nz =
      ground
        (arith, get_in-append x l u d i, get_in-set (x ∷ l) u d c i, get_in-extend (x ∷ l) u d c i)

  -- Setting code 0 also changes what every code behind the slice's end maps to.
  get_in-set_in_zero :
      (l : List A) (u d : A) (i : ℕ)
      → get_in (set_in l d 0 u) d i ≡ (if i == 0 || leb (length l) i then u else get_in l d i)
  unfolding set_in get_in
  get_in-set_in_zero [] u d i = ground arith
  get_in-set_in_zero (x ∷ l) u d zero = ground arith
  get_in-set_in_zero (x ∷ l) u d (suc i) = ground arith

  slice-set_slice_self :
      (t : ResponseType) (l : List A) (m : StatusMap A) → slice t (set_slice t l m) ≡ l
  unfolding slice set_slice
  slice-set_slice_self type_ok l m = refl
  slice-set_slice_self _ l m = refl

  slice-set_slice_ne :
      (t k : ResponseType) (l : List A) (m : StatusMap A)
      → t ≢ k
      → slice k (set_slice t l m) ≡ slice k m
  unfolding slice set_slice
  slice-set_slice_ne type_ok type_ok l m ne = absurd (ne refl)
  slice-set_slice_ne type_redirect type_redirect l m ne = absurd (ne refl)
  slice-set_slice_ne type_client_error type_client_error l m ne = absurd (ne refl)
  slice-set_slice_ne type_server_error type_server_error l m ne = absurd (ne refl)
  slice-set_slice_ne type_ok type_redirect l m ne = refl
  slice-set_slice_ne _ _ l m ne = refl

  default-set_slice :
      (t : ResponseType) (l : List A) (m : StatusMap A) → (set_slice t l m).default ≡ m.default
  unfolding set_slice
  default-set_slice type_ok l m = refl
  default-set_slice _ l m = refl

  get_known :
      (m : StatusMap A) (s : ℕ) (k : ResponseType)
      → known_type (status_type s) ≡ some k
      → get m s ≡ get_in (slice k m) m.default (get_code s)
  unfolding get
  get_known m s k e = rw (e, get)

  get_unknown : (m : StatusMap A) (s : ℕ) → known_type (status_type s) ≡ none → get m s ≡ m.default
  unfolding get
  get_unknown m s e = rw (e, get)

  put_known :
      (m : StatusMap A) (s : ℕ) (u : A) (k : ResponseType)
      → known_type (status_type s) ≡ some k
      → put m s u ≡ some (set_slice k (set_in (slice k m) m.default (get_code s) u) m)
  unfolding put
  put_known m s u k e = rw (e, put)

  put_unknown :
      (m : StatusMap A) (s : ℕ) (u : A) → known_type (status_type s) ≡ none → put m s u ≡ none
  unfolding put
  put_unknown m s u e = rw (e, put)

known_type_injective :
    (a b : ℕ) (k : ResponseType) → known_type a ≡ some k → known_type b ≡ some k → a ≡ b
unfolding known_type
known_type_injective a b type_ok h j = ground arith
known_type_injective a b _ h j = ground arith

-- A status is its type and its code.
status_eq : (s t : ℕ) → status_type s ≡ status_type t → get_code s ≡ get_code t → s ≡ t
unfolding status_type get_code
status_eq s t h k = omega arith

module _ {A : Type 0} (m : StatusMap A) (s t : ℕ) (u : A) where
  -- `t` has the type `k` of `s`, and a code different from 0 is set.
  get_same_type :
      (k : ResponseType)
      → known_type (status_type s) ≡ some k
      → known_type (status_type t) ≡ some k
      → get_code s ≢ 0
      → get_in (set_in (slice k m) m.default (get_code s) u) m.default (get_code t)
        ≡ (if t == s then u else get m t)
  get_same_type k hs ht nz =
      get_in-set_in (slice k m) u m.default (get_code s) (get_code t) nz
      ∙ ground (
        arith,
        get_known m t k ht,
        status_eq t s,
        known_type_injective (status_type t) (status_type s) k ht hs,
      )

  module _ (nz : get_code s ≢ 0) (k : ResponseType) (hs : known_type (status_type s) ≡ some k) where
    -- What the map is after the call.
    written : StatusMap A
    written = set_slice k (set_in (slice k m) m.default (get_code s) u) m

    get-written : get written t ≡ (if t == s then u else get m t)
    unfolding written
    get-written = elim (Option-cases (known_type (status_type t))) [
      | inl ht ↦
          get_unknown written t ht
          ∙ default-set_slice k (set_in (slice k m) m.default (get_code s) u) m
          ∙ ground (arith, get_unknown m t ht, hs, ht)
      | inr (j, ht) ↦ elim (ResponseType-discrete k j) [
        | yes e ↦
            get_known written t k (ht ∙ ap some (sym e))
            ∙ rw
                (
                  slice-set_slice_self k (set_in (slice k m) m.default (get_code s) u) m,
                  default-set_slice k (set_in (slice k m) m.default (get_code s) u) m,
                )
                (get_same_type k hs (ht ∙ ap some (sym e)) nz)
        | no ne ↦
            get_known written t j ht
            ∙ rw
                (
                  slice-set_slice_ne k j (set_in (slice k m) m.default (get_code s) u) m ne,
                  default-set_slice k (set_in (slice k m) m.default (get_code s) u) m,
                )
                (ground (arith, get_known m t j ht, hs, ht))
      ]
    ]

  -- After a `Set` of a status with a code other than 0, `Get` returns the new value for this status
  -- and what it returned before for every other status.
  pub get-put :
      (m' : StatusMap A)
      → get_code s ≢ 0
      → put m s u ≡ some m'
      → get m' t ≡ (if t == s then u else get m t)
  unfolding written
  get-put m' nz e = elim (Option-cases (known_type (status_type s))) [
    | inl hs ↦ absurd (ground (arith, put_unknown m s u hs))
    | inr (k, hs) ↦
        let same : m' ≡ written nz k hs = cc (put_known m s u k hs) in rw same (get-written nz k hs)
  ]
