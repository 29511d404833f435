-- ===== src/Jps/Handlers/Lists.antt =====
-- The methods of the three lists of jps/ListMethods.go: for server sessions, stream sessions and
-- server frames. `W` is what the handlers of the list are called with.
use jotpot_server.Base.{List, [], ◌∷◌, false, none, Bytes}
use jotpot_server.Jps.Handlers.{Outcome, Handler, Item, insert, call_from, call_from_with_handler}

module _ {W E : Type 0} where
  unfoldable pub insert_server_session : Item W E → List (Item W E) → List (Item W E)
  insert_server_session j l = insert j l

  unfoldable pub insert_stream_session : Item W E → List (Item W E) → List (Item W E)
  insert_stream_session j l = insert j l

  unfoldable pub insert_server_frame : Item W E → List (Item W E) → List (Item W E)
  insert_server_frame j l = insert j l

  unfoldable pub handle_server_session : Bytes → List (Item W E) → W → Outcome W E
  handle_server_session proto [] w = record { handled = false; error = none; world = w }
  handle_server_session proto (start ∷ rest) w = call_from proto (start ∷ rest) w

  unfoldable pub handle_stream_session : Bytes → List (Item W E) → W → Outcome W E
  handle_stream_session proto [] w = record { handled = false; error = none; world = w }
  handle_stream_session proto (start ∷ rest) w = call_from proto (start ∷ rest) w

  unfoldable pub handle_with_handler : Bytes → Handler W E → List (Item W E) → W → Outcome W E
  handle_with_handler proto h [] w = record { handled = false; error = none; world = w }
  handle_with_handler proto h (start ∷ rest) w = call_from_with_handler proto h (start ∷ rest) w

  unfoldable pub handle_server_frame : Bytes → List (Item W E) → W → Outcome W E
  handle_server_frame proto [] w = record { handled = false; error = none; world = w }
  handle_server_frame proto (start ∷ rest) w = call_from proto (start ∷ rest) w
