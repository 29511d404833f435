-- ===== src/Http/Chunked/Attempts.antt =====
-- readSource (http/http1/encoding/chunked/chunkedParser.go) ends: after 264 reads at most, of which
-- it passes on the last.
use mathlib.Core.Path.{subst}
use jotpot_server.Base.{
  ℕ, zero, suc, ◌+◌, ◌*◌, ◌≤◌, ◌<◌, ◌≡◌, refl, ap, arith, Bool, true, false, Bool-cases, Option,
  none, some, [], ◌∷◌, Bytes, ltb, ◌==◌, inl, inr,
}
use jotpot_server.Http.Chunked.{Source, if_read, if_done, read_source_from, read_source}

-- The loop ends, and what it returns satisfies P.
abbrev pub Ends :
    {S E : Type 0} → (S × Bytes × Option E → Type 0) → Option (S × Bytes × Option E) → Type 0
Ends P none = ⊥
Ends P (some r) = P r

pub Ends-some :
    {S E : Type 0} (P : S × Bytes × Option E → Type 0) (o : Option (S × Bytes × Option E))
    → Ends P o
    → (r : S × Bytes × Option E) × (o ≡ some r) × P r
Ends-some P none h = absurd h
Ends-some P (some r) h = (r, refl, h)

-- No error, or a temporary one.
abbrev pub IsTemporary : {E : Type 0} → (E → Bool) → Option E → Type 0
IsTemporary is_temp none = Unit
IsTemporary is_temp (some e) = is_temp e ≡ true

-- From the state s, n reads of k bytes lead to another, each without bytes and with no error but a
-- temporary one.
pub data Tries {S E : Type 0} (src : Source S E) (k : ℕ) (s : S) : ℕ → S → Type 0 where
  untried : Tries src k s 0 s
  tried :
      {n : ℕ} {t u : S} (err : Option E)
      → Tries src k s n t
      → src.read t k ≡ (u, [], err)
      → IsTemporary src.is_temp err
      → Tries src k s (suc n) u

-- What is passed on of a read behind n others: bytes, without a temporary error; an error that is not
-- temporary, with any bytes; or, of the read number 264, that it had no bytes, with its error.
pub data PassesOn {E : Type 0} (is_temp : E → Bool) (n : ℕ)
    : Bytes → Option E → Option E → Type 0 where
  some_bytes :
      (b : ℕ) (bs : Bytes) (err : Option E)
      → IsTemporary is_temp err
      → PassesOn is_temp n (b ∷ bs) err none
  failed : (bs : Bytes) (e : E) → is_temp e ≡ false → PassesOn is_temp n bs (some e) (some e)
  gave_up : (err : Option E) → n ≡ 263 → IsTemporary is_temp err → PassesOn is_temp n [] err err

-- What is returned is what the last of the reads gave, of at most 264.
pub record IsLast {S E : Type 0} (src : Source S E) (k : ℕ) (s : S) (r : S × Bytes × Option E)
    : Type 0 where
  pub before : ℕ
  pub at : S
  pub error_read : Option E
  pub few : before < 264
  pub tries : Tries src k s before at
  pub read : src.read at k ≡ (r.0, r.1, error_read)
  pub passes_on : PassesOn src.is_temp before r.1 error_read r.2

module _ {S E : Type 0} (src : Source S E) (k : ℕ) (s : S) where
  if_read-Ends :
      (n : ℕ) (t u : S) (bs : Bytes) (err : Option E) (again : Option (S × Bytes × Option E))
      → n < 264
      → Tries src k s n t
      → src.read t k ≡ (u, bs, err)
      → IsTemporary src.is_temp err
      → ((bs ≡ []) → Ends (IsLast src k s) again)
      → Ends (IsLast src k s) (if_read again u bs)
  unfolding if_read
  if_read-Ends n t u [] err again l h e temp more = more refl
  if_read-Ends n t u (b ∷ bs) err again l h e temp more = record {
    before = n;
    at = t;
    error_read = err;
    few = l;
    tries = h;
    read = e;
    passes_on = some_bytes b bs err temp;
  }

  if_done-Ends :
      (n : ℕ) (t u : S) (bs : Bytes) (err : Option E) (again : Option (S × Bytes × Option E))
      → n < 264
      → Tries src k s n t
      → src.read t k ≡ (u, bs, err)
      → ((bs ≡ []) → IsTemporary src.is_temp err → Ends (IsLast src k s) again)
      → Ends (IsLast src k s) (if_done src.is_temp again u bs err)
  unfolding if_done
  if_done-Ends n t u bs none again l h e more =
      if_read-Ends n t u bs none again l h e tt (λ z. more z tt)
  if_done-Ends n t u bs (some x) again l h e more = elim (Bool-cases (src.is_temp x)) [
    | inl y ↦ rw y (if_read-Ends n t u bs (some x) again l h e y (λ z. more z y))
    | inr y ↦ rw y (record {
      before = n;
      at = t;
      error_read = some x;
      few = l;
      tries = h;
      read = e;
      passes_on = failed bs x y;
    })
  ]

  -- One more read without bytes.
  one_more :
      (n : ℕ) (t : S)
      → Tries src k s n t
      → (src.read t k).1 ≡ []
      → IsTemporary src.is_temp (src.read t k).2
      → Tries src k s (suc n) (src.read t k).0
  one_more n t h e temp =
      tried (src.read t k).2 h (ap (λ bs. ((src.read t k).0, bs, (src.read t k).2)) e) temp

  given_up :
      (n : ℕ) (t : S) (bs : Bytes)
      → n ≡ 263
      → Tries src k s n t
      → src.read t k ≡ ((src.read t k).0, bs, (src.read t k).2)
      → bs ≡ []
      → IsTemporary src.is_temp (src.read t k).2
      → IsLast src k s ((src.read t k).0, bs, (src.read t k).2)
  given_up n t [] i h e z temp = record {
    before = n;
    at = t;
    error_read = (src.read t k).2;
    few = omega (arith, i);
    tries = h;
    read = e;
    passes_on = gave_up (src.read t k).2 i temp;
  }
  given_up n t (b ∷ bs) i h e z temp = ground arith

  -- While the timeout is long, the reads are counted.
  waiting-Ends :
      (left fuel waits timeout n : ℕ) (t : S)
      → Tries src k s n t
      → n + left ≡ 263
      → 250 < timeout
      → waits + left ≡ 255
      → left < fuel
      → Ends (IsLast src k s) (read_source_from fuel timeout waits src t k)
  unfolding read_source_from
  waiting-Ends left zero waits timeout n t h i l w f = ground arith
  waiting-Ends zero (suc fuel) waits timeout n t h i l w f =
      let long : ltb 250 timeout ≡ true = ground arith in
      let last : (waits == 255) ≡ true = ground arith in
      rw (read_source_from, long, last)
        (if_done-Ends n t _ _ _ _ (omega (arith, i)) h refl
          (λ z temp. given_up n t (src.read t k).1 (omega (arith, i)) h refl z temp))
  waiting-Ends (suc left) (suc fuel) waits timeout n t h i l w f =
      let long : ltb 250 timeout ≡ true = ground arith in
      let more : (waits == 255) ≡ false = ground arith in
      rw (read_source_from, long, more)
        (if_done-Ends n t _ _ _ _ (omega (arith, i)) h refl (λ z temp.
          waiting-Ends left fuel (suc waits) timeout (suc n) (src.read t k).0
            (one_more n t h z temp) (omega (arith, i)) l (omega (arith, w)) (omega (arith, f))))

  -- Below, it is doubled.
  doubling-Ends :
      (fuel timeout n : ℕ) (t : S)
      → n < 264
      → timeout ≤ 250
      → ((u : S)
          → Tries src k s (suc n) u
          → Ends (IsLast src k s) (read_source_from fuel (timeout * 2) 0 src u k))
      → Tries src k s n t
      → Ends (IsLast src k s) (read_source_from (suc fuel) timeout 0 src t k)
  unfolding read_source_from
  doubling-Ends fuel timeout n t l i more h =
      let short : ltb 250 timeout ≡ false = ground arith in
      rw (read_source_from, short)
        (if_done-Ends n t _ _ _ _ l h refl
          (λ z temp. more (src.read t k).0 (one_more n t h z temp)))

  tries-Ends : Ends (IsLast src k s) (read_source src s k)
  unfolding read_source
  tries-Ends =
      doubling-Ends 263 1 0 s (omega arith) (omega arith)
        (λ s1. doubling-Ends 262 2 1 s1 (omega arith) (omega arith) (λ s2.
          doubling-Ends 261 4 2 s2 (omega arith) (omega arith) (λ s3.
            doubling-Ends 260 8 3 s3 (omega arith) (omega arith) (λ s4.
              doubling-Ends 259 16 4 s4 (omega arith) (omega arith) (λ s5.
                doubling-Ends 258 32 5 s5 (omega arith) (omega arith) (λ s6.
                  doubling-Ends 257 64 6 s6 (omega arith) (omega arith) (λ s7.
                    doubling-Ends 256 128 7 s7 (omega arith) (omega arith) (λ s8 h.
                      waiting-Ends 255 256 0 256 8 s8 h refl (omega arith) refl
                        (omega arith)))))))))
        untried

-- `readSource` returns for every source, however it behaves, and makes at most 264 reads, the first
-- from the state s and each other from the state that the one before it left. It goes on only behind a
-- read without bytes and with no error but a temporary one, and returns what the last read gave: its
-- bytes, without a temporary error; an error that is not temporary, with the bytes that came with it;
-- or, of the read number 264 only, that there were no bytes, with that read's error.
pub read_source-IsLast :
    {S E : Type 0} (src : Source S E) (s : S) (k : ℕ)
    → (r : S × Bytes × Option E) × (read_source src s k ≡ some r) × IsLast src k s r
read_source-IsLast src s k = Ends-some (IsLast src k s) (read_source src s k) (tries-Ends src k s)

-- A predicate that holds at first and behind each read holds where the last one starts.
pub Tries-kept :
    {S E : Type 0} (src : Source S E) (k : ℕ) (s : S) (I : S → Type 0)
    → ((t : S) → I t → I (src.read t k).0)
    → I s
    → {n : ℕ} {t : S} → Tries src k s n t
    → I t
Tries-kept src k s I step i untried = i
Tries-kept src k s I step i (tried {n} {t} {u} err h e temp) =
    subst I (ap (λ q. q.0) e) (step t (Tries-kept src k s I step i h))
