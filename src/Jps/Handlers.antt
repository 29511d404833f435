-- ===== src/Jps/Handlers.antt =====
-- The lists of handlers of jps/ListMethods.go and the types of jps/ServerSessionHandler.go,
-- jps/StreamSessionHandler.go and jps/ServerFrameHandler.go, which differ only in what a handler
-- is called with. Each method holds the list's lock throughout, so it is one step. `W` is all that
-- a handler may change (the session or frame and the world around it), `E` the type of errors.
pub mod Order
pub mod Calls
pub mod Lists
use jotpot_server.Base.{
  ℕ, Bool, true, false, ◌&&◌, ◌||◌, List, [], ◌∷◌, Option, none, some, ltb, ◌==◌, Bytes, equal,
  if◌then◌else◌,
}

-- What a handler returns, with the world that it leaves.
pub record Outcome (W E : Type 0) : Type 0 where
  pub handled : Bool
  pub error : Option E
  pub world : W

pub record Handler (W E : Type 0) : Type 0 where
  pub protocol : Bytes
  pub call : W → Outcome W E

pub record Item (W E : Type 0) : Type 0 where
  pub handler : Handler W E
  pub stage : ℕ
  pub priority : ℕ

abbrev pub stream_session_stage_handle : ℕ
stream_session_stage_handle = 97

module _ {W E : Type 0} where
  -- The test of `insert`: whether j goes before the item i.
  unfoldable pub goes_before : Item W E → Item W E → Bool
  goes_before j i = (j.stage == i.stage && ltb i.priority j.priority) || ltb j.stage i.stage

  -- The loop of `insert`; the list is what follows the item i.
  unfoldable pub insert_next : Item W E → List (Item W E) → List (Item W E)
  insert_next j [] = j ∷ []
  insert_next j (n ∷ rest) = if goes_before j n then j ∷ n ∷ rest else n ∷ insert_next j rest

  unfoldable pub insert : Item W E → List (Item W E) → List (Item W E)
  unfolding insert_next goes_before
  insert j [] = j ∷ []
  insert j (start ∷ rest) =
      if goes_before j start then j ∷ start ∷ rest else start ∷ insert_next j rest

  -- The loop ends when a handler handled or failed.
  abbrev pub is_final : Outcome W E → Bool
  is_final o = elim o.error [ some e ↦ true | none ↦ o.handled ]

  -- The end of a round: return, or go on to what is next.
  unfoldable pub or_next : Outcome W E → (W → Outcome W E) → Outcome W E
  or_next o next = elim (is_final o) [ true ↦ o | false ↦ next o.world ]

  abbrev pub applies : Bytes → Handler W E → Bool
  applies proto h = equal proto h.protocol || equal h.protocol []

  -- One round of the loops: the handler is called if its protocol fits, and is else passed over.
  unfoldable pub call_handler : Bytes → Handler W E → W → Outcome W E
  call_handler proto h w =
      if applies proto h then h.call w else record { handled = false; error = none; world = w }

  -- The loop of `callFrom`. The results of a handler that did not handle are those that are
  -- returned if it is the last: they say the same as those of a handler that is passed over.
  unfoldable pub call_from : Bytes → List (Item W E) → W → Outcome W E
  call_from proto [] w = record { handled = false; error = none; world = w }
  call_from proto (c ∷ rest) w = or_next (call_handler proto c.handler w) (call_from proto rest)

  -- `callFromWithHandler`: `h` is called when the first item of the stage "handle" is reached.
  unfoldable pub call_from_with_handler : Bytes → Handler W E → List (Item W E) → W → Outcome W E
  call_from_with_handler proto h [] w = record { handled = false; error = none; world = w }
  call_from_with_handler proto h (c ∷ rest) w =
      if c.stage == stream_session_stage_handle
      then or_next (call_handler proto h w) (call_from proto (c ∷ rest))
      else or_next (call_handler proto c.handler w) (call_from_with_handler proto h rest)
