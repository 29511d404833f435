-- ===== src/Examples/Server.antt =====
-- Runs and theorems of the handler lists, the status maps and the server at concrete inputs.
use jotpot_server.Base.{
  ℕ, ◌+◌, ◌≡◌, ◌≢◌, refl, arith, Bool, true, false, List, [], ◌∷◌, some, none, codes, ◌==◌,
  if◌then◌else◌,
}
use jotpot_server.Jps.Handlers.{
  Handler, Item, insert, goes_before, call_from, call_handler, or_next,
}
use jotpot_server.Jps.Handlers.Order.{IsOrdered, SplitAt, insert-IsOrdered}
use jotpot_server.Jps.Handlers.Calls.{Handles, call_from-Handles}
use jotpot_server.Jps.Server.{
  closed, closing, open_, Server, Reach, here, next, register, served, call_close,
  register_connection, decrement, change_state_if_test, change_state_if_set, see_none, test_closing,
  set_closed, server_close,
}
use jotpot_server.Jps.Server.Lifecycle.{
  IsCounted, Reach-IsCounted, ReachShut, here_shut, next_shut, closed_drained, closing_at_rest,
  closed_while_serving, at_rest, busy, IsAtRest,
}
use jotpot_server.Jps.Server.Registry.{
  Registry, IsAddOutcome, add_frame_handler, add_session_handler, add_stream_session_handler,
  add_handler-IsValid,
}
use jotpot_server.Jps.Status.{
  StatusMap, put, get, get_code, status_type, known_type, slice, set_slice, set_in, extend, pad,
}
use jotpot_server.Jps.Status.Laws.{get-put}

-- The handlers count their calls in the world; one handles.
abbrev counting : Bool → Handler ℕ ℕ
counting done = record {
  protocol = [];
  call = λ w. record { handled = done; error = none; world = w + 1 };
}

abbrev item : ℕ → ℕ → Bool → Item ℕ ℕ
item stage priority done = record { handler = counting done; stage = stage; priority = priority }

abbrev items : List (Item ℕ ℕ)
items = item 1 0 false ∷ item 97 5 false ∷ item 97 2 true ∷ item 145 0 false ∷ []

items-IsOrdered : IsOrdered items
unfolding goes_before
items-IsOrdered = ground arith

insert-items :
    insert (item 97 5 true) items
    ≡ item 1 0 false ∷ item 97 5 false ∷ item 97 5 true ∷ item 97 2 true ∷ item 145 0 false ∷ []
unfolding insert
insert-items = refl

insert-IsOrdered_example :
    IsOrdered (insert (item 97 5 true) items)
    × SplitAt (item 97 5 true) items (insert (item 97 5 true) items)
insert-IsOrdered_example = insert-IsOrdered (item 97 5 true) items items-IsOrdered

call_from-items :
    call_from (codes "http") items 0 ≡ record { handled = true; error = none; world = 3 }
unfolding call_from or_next call_handler
call_from-items = refl

call_from-Handles_example : Handles (codes "http") items 0 (call_from (codes "http") items 0)
call_from-Handles_example = call_from-Handles (codes "http") items 0

abbrev registry : Registry ℕ ℕ ℕ ℕ
registry = record {
  state = closed;
  stream_session_handlers = items;
  session_handlers = [];
  frame_handlers = [];
}

add_handler-IsValid_example :
    IsAddOutcome registry (add_stream_session_handler 97 5 (counting true) registry)
    × IsAddOutcome registry (add_session_handler 97 5 (counting true) registry)
    × IsAddOutcome registry (add_frame_handler 97 5 (counting true) registry)
add_handler-IsValid_example =
    add_handler-IsValid registry 97 5 (counting true) (counting true) (counting true)
      (record { streams = items-IsOrdered; sessions = tt; frames = tt })

one_connection : Reach (at_rest open_) (record {
  control = record { state = open_; connections = 1 };
  threads = record { serving = 1; decremented = 0; idle = 0; upgrading = 0 };
})
unfolding register_connection
one_connection = next here (register _ _ 0 refl (omega arith) refl)

Reach-IsCounted_example : IsCounted (busy open_ 1 0 0)
Reach-IsCounted_example =
    Reach-IsCounted (record { fits = omega arith; counted = refl }) one_connection

-- A server that is closing with one connection, until that has been served.
abbrev drained : Server
drained = record {
  control = record { state = closed; connections = 0 };
  threads = record { serving = 0; decremented = 0; idle = 0; upgrading = 0 };
}

closing_shut : closing ≢ open_
closing_shut e = cc

closed_shut : closed ≢ open_
closed_shut e = cc

draining : ReachShut (busy closing 1 0 0) drained
unfolding decrement change_state_if_test change_state_if_set
draining =
    let a = next_shut here_shut (served _ _ 0 refl) closing_shut in
    let b = next_shut a (see_none _ _ 0 refl refl) closing_shut in
    let c = next_shut b (test_closing _ _ 0 refl refl) closing_shut in
    next_shut c (set_closed _ _ 0 refl) closed_shut

closed_drained_example : drained.threads.serving ≡ 0
closed_drained_example =
    closed_drained (record { fits = omega arith; counted = refl }) refl refl refl draining refl

closing_at_rest-IsAtRest : IsAtRest (at_rest closing)
closing_at_rest-IsAtRest = record {
  counted = refl;
  serving = refl;
  decremented = refl;
  idle = refl;
  upgrading = refl;
  closing = refl;
}

-- Close is called once more.
closed_twice : ReachShut (at_rest closing) (at_rest closing)
unfolding server_close
closed_twice =
    next_shut here_shut (call_close (at_rest closing).control (at_rest closing).threads)
      closing_shut

closing_at_rest_example : (at_rest closing).control.state ≡ closing
closing_at_rest_example = closing_at_rest closing_at_rest-IsAtRest closed_twice

closed_while_serving_example : Reach (at_rest open_) (busy closed 3 0 0)
closed_while_serving_example = closed_while_serving 3 (omega arith)

abbrev codes_map : StatusMap ℕ
codes_map = record {
  ok = 200 ∷ [];
  redirect = [];
  client_error = [];
  server_error = [];
  default = 0;
}

abbrev with_created : StatusMap ℕ
with_created = record codes_map { ok = 200 ∷ 200 ∷ 201 ∷ [] }

put-created : put codes_map 2 201 ≡ some with_created
unfolding put known_type status_type get_code slice set_slice set_in extend pad
put-created = refl

get-put_example : get with_created 2 ≡ (if 2 == 2 then 201 else get codes_map 2)
get-put_example =
    get-put codes_map 2 2 201 with_created (unfold get_code in omega arith) put-created
