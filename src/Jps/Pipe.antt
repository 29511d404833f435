-- ===== src/Jps/Pipe.antt =====
-- Chains of readers and of writers (jps/pipe/pipe.go). A reader or a writer is a handle of the type B,
-- and what it does is a parameter: a change of the world W, with an error of the type E.
use jotpot_server.Base.{
  ℕ, Bool, Option, none, some, List, [], ◌∷◌, ◌++◌, if◌then◌else◌, Bytes, ◌⊎◌, inl, inr,
}

pub record Handles (W B E : Type 0) : Type 0 where
  pub write : B → Bytes → W → W × ℕ × Option E
  pub close : B → W → W × Option E
  pub flush : B → W → W × Option E
  pub can_flush : B → Bool

-- A pipe's generator.
abbrev pub Generator : Type 0 → Type 0 → Type 0 → Type 0
Generator W B E = B → W → W × (B ⊎ E)

abbrev pub all_pipes : {A : Type 0} → List (List A) → List A
all_pipes [] = []
all_pipes (ps ∷ pss) = ps ++ all_pipes pss

-- The loops of `From` and `To`: each generator gets the handle before it, and what it makes stands
-- before those made so far.
unfoldable pub through :
    {W B E : Type 0} → List (Generator W B E) → B → List B → W → W × (List B ⊎ E)
through [] b out w = (w, inl out)
through (p ∷ ps) b out w =
    let (w', made) = p b w in
    elim made [ inr e ↦ (w', inr e) | inl b' ↦ through ps b' (b' ∷ out) w' ]

unfoldable pub from : {W B E : Type 0} → B → List (List (Generator W B E)) → W → W × (List B ⊎ E)
from r pipes w = through (all_pipes pipes) r (r ∷ []) w

unfoldable pub to : {W B E : Type 0} → B → List (List (Generator W B E)) → W → W × (List B ⊎ E)
to b pipes w = through (all_pipes pipes) b (b ∷ []) w

-- `Close` ends at an error.
unfoldable pub close_all : {W B E : Type 0} → Handles W B E → List B → W → W × Option E
close_all io [] w = (w, none)
close_all io (b ∷ bs) w =
    let (w', err) = io.close b w in elim err [ some e ↦ (w', some e) | none ↦ close_all io bs w' ]

-- `Flush` passes over what cannot be flushed.
unfoldable pub flush_all : {W B E : Type 0} → Handles W B E → List B → W → W × Option E
flush_all io [] w = (w, none)
flush_all io (b ∷ bs) w =
    let (w', err) = io.flush b w in
    let (w'', err') = flush_all io bs w' in
    let skipped = flush_all io bs w in
    if io.can_flush b then (elim err [ some e ↦ (w', some e) | none ↦ (w'', err') ]) else skipped
