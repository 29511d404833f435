-- ===== src/Jps/Handlers/Calls.antt =====
-- What `Handle` and `HandleWithHandler` call.
use mathlib.Core.Path.{fun_ext}
use jotpot_server.Base.{
  ◌≡◌, refl, ap, inl, inr, ◌⊎◌, true, false, Bool-cases, Option-cases, List, [], ◌∷◌, ◌++◌, All,
  Bytes, ◌==◌, none, some, equal, equal_iff,
}
use jotpot_server.Jps.Handlers.{
  Outcome, Handler, Item, is_final, applies, or_next, call_handler, call_from,
  call_from_with_handler, stream_session_stage_handle,
}

module _ {W E : Type 0} (o : Outcome W E) where
  or_next_final : (next : W → Outcome W E) → is_final o ≡ true → or_next o next ≡ o
  unfolding or_next
  or_next_final next e = rw (e, or_next)

  or_next_passed : (next : W → Outcome W E) → is_final o ≡ false → or_next o next ≡ next o.world
  unfolding or_next
  or_next_passed next e = rw (e, or_next)

module _ {W E : Type 0} (proto : Bytes) where
  -- A handler that is of the protocol, or of every one.
  abbrev pub IsOf : Item W E → Type 0
  IsOf c = (proto ≡ c.handler.protocol) ⊎ (c.handler.protocol ≡ [])

  -- The handler says that it handled, or it has an error.
  abbrev pub IsFinal : Outcome W E → Type 0
  IsFinal o = (o.handled ≡ true) ⊎ ((e : E) × (o.error ≡ some e))

  -- A handler of another protocol is not called; one of the protocol is called, and neither handles
  -- nor fails.
  pub data IsPassed (c : Item W E) : W → W → Type 0 where
    skipped : {w : W} → ¬ IsOf c → IsPassed c w w
    called :
        {w : W}
        → IsOf c
        → (c.handler.call w).handled ≡ false
        → (c.handler.call w).error ≡ none
        → IsPassed c w (c.handler.call w).world

  -- The handlers of the list are passed in turn, from the world `w` to the world `w'`.
  pub data Passes : List (Item W E) → W → W → Type 0 where
    none_left : {w : W} → Passes [] w w
    passed :
        {c : Item W E} {rest : List (Item W E)} {w w' w'' : W}
        → IsPassed c w w'
        → Passes rest w' w''
        → Passes (c ∷ rest) w w''

  -- What `Handle` returns for the list: the first outcome that is final, or none with the world that
  -- all handlers leave.
  pub data Handles : List (Item W E) → W → Outcome W E → Type 0 where
    stopped :
        (before : List (Item W E)) (c : Item W E) (after : List (Item W E)) {l : List (Item W E)}
        {w w' : W} {o : Outcome W E}
        → l ≡ before ++ c ∷ after
        → Passes before w w'
        → IsOf c
        → o ≡ c.handler.call w'
        → IsFinal o
        → Handles l w o
    exhausted :
        {l : List (Item W E)} {w w' : W}
        → Passes l w w'
        → Handles l w (record { handled = false; error = none; world = w' })

  Handles-passed :
      (c : Item W E) {rest : List (Item W E)} (w w' : W) {o : Outcome W E}
      → IsPassed c w w'
      → Handles rest w' o
      → Handles (c ∷ rest) w o
  Handles-passed c w w' f (stopped before d after e p i q final) =
      stopped (c ∷ before) d after (ap (◌∷◌ c) e) (passed f p) i q final
  Handles-passed c w w' f (exhausted p) = exhausted (passed f p)

  applies_cases :
      (c : Item W E)
      → ((applies proto c.handler ≡ true) × IsOf c) ⊎ ((applies proto c.handler ≡ false) × ¬ IsOf c)
  applies_cases c =
      let same = equal_iff proto c.handler.protocol in
      let empty = equal_iff c.handler.protocol [] in
      elim (Bool-cases (equal proto c.handler.protocol)) [
        | inl e ↦ inl (rw e refl, inl (same.0 e))
        | inr e ↦ elim (Bool-cases (equal c.handler.protocol [])) [
          | inl f ↦ inl (rw (e, f) refl, inr (empty.0 f))
          | inr f ↦
              inr (rw (e, f) refl, λ i. elim i [ inl p ↦ cc (same.1 p) | inr p ↦ cc (empty.1 p) ])
        ]
      ]

  is_final_cases :
      (o : Outcome W E)
      → ((is_final o ≡ true) × IsFinal o)
        ⊎ ((is_final o ≡ false) × (o.handled ≡ false) × (o.error ≡ none))
  is_final_cases o = elim (Option-cases o.error) [
    | inr (e, p) ↦ inl (rw p refl, inr (e, p))
    | inl p ↦ elim (Bool-cases o.handled) [
      | inl q ↦ inl (rw p q, inl q)
      | inr q ↦ inr (rw p q, q, p)
    ]
  ]

  call_handler-applies :
      (c : Item W E) (w : W)
      → applies proto c.handler ≡ true
      → call_handler proto c.handler w ≡ c.handler.call w
  unfolding call_handler
  call_handler-applies c w e = rw e refl

  call_handler-skipped :
      (c : Item W E) (w : W)
      → applies proto c.handler ≡ false
      → call_handler proto c.handler w ≡ record { handled = false; error = none; world = w }
  unfolding call_handler
  call_handler-skipped c w e = rw e refl

  -- `callFrom` looks at the handlers in the order of the list and passes over those that are of
  -- another protocol, which is neither the one asked for nor empty. It calls each of the others in
  -- the world that the one before it left, and returns the outcome of the first that handled or
  -- failed, calling none behind it; if none did, it returns "not handled" and no error.
  pub call_from-Handles : (l : List (Item W E)) (w : W) → Handles l w (call_from proto l w)
  unfolding call_from
  call_from-Handles [] w = exhausted none_left
  call_from-Handles (c ∷ rest) w = elim (applies_cases c) [
    | inr (e, n) ↦ rw (call_handler-skipped c w e) (
        rw
          (or_next_passed (record { handled = false; error = none; world = w })
            (call_from proto rest) refl)
          (Handles-passed c w w (skipped n) (call_from-Handles rest w)))
    | inl (e, i) ↦ rw (call_handler-applies c w e) (elim (is_final_cases (c.handler.call w)) [
      | inl (f, final) ↦
          rw (or_next_final (c.handler.call w) (call_from proto rest) f)
            (stopped [] c rest refl none_left i refl final)
      | inr (f, handled, error) ↦ rw (or_next_passed (c.handler.call w) (call_from proto rest) f) (
          Handles-passed c w (c.handler.call w).world (called i handled error)
            (call_from-Handles rest (c.handler.call w).world))
    ])
  ]

  abbrev IsElsewhere : Item W E → Type 0
  IsElsewhere c = (c.stage == stream_session_stage_handle) ≡ false

  -- `HandleWithHandler` calls the given handler as if it stood in front of the first item of the
  -- stage "handle".
  pub call_from_with_handler-inserted :
      (h : Handler W E) (before : List (Item W E)) (c : Item W E) (after : List (Item W E)) (w : W)
      → All IsElsewhere before
      → c.stage ≡ stream_session_stage_handle
      → call_from_with_handler proto h (before ++ c ∷ after) w
        ≡ call_from proto
            (before
              ++ record { handler = h; stage = stream_session_stage_handle; priority = 0 }
                ∷ c
                ∷ after)
            w
  unfolding call_from_with_handler call_from
  call_from_with_handler-inserted h [] c after w a e = rw e
  call_from_with_handler-inserted h (b ∷ before) c after w a e = rw (a.0) (
      ap (or_next (call_handler proto b.handler w))
        (fun_ext λ w'. call_from_with_handler-inserted h before c after w' a.1 e))

  -- It never calls the given handler where no item has the stage "handle".
  pub call_from_with_handler-ignored :
      (h : Handler W E) (l : List (Item W E)) (w : W)
      → All IsElsewhere l
      → call_from_with_handler proto h l w ≡ call_from proto l w
  unfolding call_from_with_handler call_from
  call_from_with_handler-ignored h [] w a = refl
  call_from_with_handler-ignored h (c ∷ rest) w a = rw (a.0) (
      ap (or_next (call_handler proto c.handler w))
        (fun_ext λ w'. call_from_with_handler-ignored h rest w' a.1))
