-- ===== src/Jps/Server/Registry.antt =====
-- AddFrameHandler, AddSessionHandler, AddStreamSessionHandler, HandleSession and HandleFrame of
-- jps/server.go. `T` is what the handlers of stream sessions are called with, `S` those of server
-- sessions and `F` those of frames.
use jotpot_server.Base.{ℕ, ◌≡◌, ◌≢◌, refl, List, Option, none, some, inl, inr, ◌⊎◌}
use jotpot_server.Jps.Handlers.{Handler, Item}
use jotpot_server.Jps.Handlers.Order.{IsOrdered, insert-IsOrdered}
use jotpot_server.Jps.Handlers.Lists.{
  insert_server_session, insert_stream_session, insert_server_frame,
}
use jotpot_server.Jps.Server.{State, closed, closing, open_}

pub data AddError : Type 0 where
  err_server_open err_server_closing : AddError

pub record Registry (T S F E : Type 0) : Type 0 where
  pub state : State
  pub stream_session_handlers : List (Item T E)
  pub session_handlers : List (Item S E)
  pub frame_handlers : List (Item F E)

module _ {A : Type 0} where
  -- What the three methods answer in each state; `inserted` is the registry after the insertion.
  unfoldable pub when_closed : State → A → A → A × Option AddError
  when_closed closed old inserted = (inserted, none)
  when_closed open_ old inserted = (old, some err_server_open)
  when_closed closing old inserted = (old, some err_server_closing)

  -- A refused call changes nothing, and a call is refused exactly unless the server is closed.
  when_closed_lem :
      (s : State) (old inserted : A)
      → ((s ≡ closed) × (when_closed s old inserted ≡ (inserted, none)))
        ⊎ ((s ≢ closed)
            × ((when_closed s old inserted).0 ≡ old)
            × ((when_closed s old inserted).1 ≢ none))
  unfolding when_closed
  when_closed_lem closed old inserted = inl (refl, refl)
  when_closed_lem open_ old inserted = inr (λ e. cc, refl, λ e. cc)
  when_closed_lem closing old inserted = inr (λ e. cc, refl, λ e. cc)

module _ {T S F E : Type 0} where
  unfoldable pub add_frame_handler :
      ℕ → ℕ → Handler F E → Registry T S F E → Registry T S F E × Option AddError
  add_frame_handler stage priority h r =
      let j : Item F E = record { handler = h; stage = stage; priority = priority } in
      when_closed r.state r (record r { frame_handlers = insert_server_frame j r.frame_handlers })

  unfoldable pub add_session_handler :
      ℕ → ℕ → Handler S E → Registry T S F E → Registry T S F E × Option AddError
  add_session_handler stage priority h r =
      let j : Item S E = record { handler = h; stage = stage; priority = priority } in
      when_closed r.state r
        (record r { session_handlers = insert_server_session j r.session_handlers })

  unfoldable pub add_stream_session_handler :
      ℕ → ℕ → Handler T E → Registry T S F E → Registry T S F E × Option AddError
  add_stream_session_handler stage priority h r =
      let j : Item T E = record { handler = h; stage = stage; priority = priority } in
      when_closed r.state r
        (record r { stream_session_handlers = insert_stream_session j r.stream_session_handlers })

  -- All three lists are in calling order.
  pub record IsValid (r : Registry T S F E) : Type 0 where
    pub streams : IsOrdered r.stream_session_handlers
    pub sessions : IsOrdered r.session_handlers
    pub frames : IsOrdered r.frame_handlers

  -- The outcome of adding to a list of the registry: unless the server is closed the call is refused
  -- and changes nothing; else the lists stay in calling order.
  abbrev pub IsAddOutcome : Registry T S F E → Registry T S F E × Option AddError → Type 0
  IsAddOutcome r out =
      ((r.state ≡ closed) × IsValid out.0 × (out.1 ≡ none))
      ⊎ ((r.state ≢ closed) × (out.0 ≡ r) × (out.1 ≢ none))

  IsAddOutcome-when_closed :
      (r inserted : Registry T S F E)
      → IsValid inserted
      → IsAddOutcome r (when_closed r.state r inserted)
  IsAddOutcome-when_closed r inserted v = elim (when_closed_lem r.state r inserted) [
    | inl (c, e) ↦ inl (c, rw e v, rw e)
    | inr (c, same, refused) ↦ inr (c, same, refused)
  ]

  -- Each of the three methods that add a handler is refused, and changes nothing, unless the server
  -- is closed; if it is closed, the call succeeds and all three lists are in calling order
  -- afterwards, if they were before.
  pub add_handler-IsValid :
      (r : Registry T S F E) (stage priority : ℕ) (t : Handler T E) (s : Handler S E)
      (f : Handler F E)
      → IsValid r
      → IsAddOutcome r (add_stream_session_handler stage priority t r)
        × IsAddOutcome r (add_session_handler stage priority s r)
        × IsAddOutcome r (add_frame_handler stage priority f r)
  unfolding add_frame_handler add_session_handler add_stream_session_handler insert_server_frame
      insert_server_session insert_stream_session
  add_handler-IsValid r stage priority t s f v = (
    IsAddOutcome-when_closed r _ (record {
      streams = (insert-IsOrdered _ _ v.streams).0;
      sessions = v.sessions;
      frames = v.frames;
    }),
    IsAddOutcome-when_closed r _ (record {
      streams = v.streams;
      sessions = (insert-IsOrdered _ _ v.sessions).0;
      frames = v.frames;
    }),
    IsAddOutcome-when_closed r _ (record {
      streams = v.streams;
      sessions = v.sessions;
      frames = (insert-IsOrdered _ _ v.frames).0;
    }),
  )
