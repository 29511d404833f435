-- ===== src/Http/Session/Frames.antt =====
-- The lock when `Frame` returns.
use jotpot_server.Base.{◌≡◌, refl, sym, inl, inr, true, false, Bytes, Bool-cases, Option-cases}
use mathlib.Core.Path.{subst}
use jotpot_server.Http.Header.{Processor}
use jotpot_server.Http.Requests.{
  Urls, RequestError, RequestResult, request, rejected, panic, no_fuel,
}
use jotpot_server.Http.Session.{
  Stream, Session, unlock, close_stream, skip_empty_lines, FrameResult, frame_of, end_of_session,
  frame_error, waits, frame_panic, abandon, parsed_frame, locked_frame, frame,
}
use jotpot_server.Http.Session.Lock.{IsFresh, if_true, if_false}

-- The session is over and its lock is free.
pub record HasEnded {W : Type 0} (s : Session W) : Type 0 where
  pub free : s.locked ≡ false
  pub closing : s.close ≡ true

abbrev pub LocksFrame : {W U E : Type 0} → FrameResult W U E → Type 0
LocksFrame (frame_of req x) = IsFresh x
LocksFrame (end_of_session s) = HasEnded s
LocksFrame (frame_error e s) = HasEnded s
LocksFrame waits = ⊥
LocksFrame frame_panic = Unit

module _ {W U E : Type 0} (stream : Stream W E) (urls : Urls U E)
    (handle_error : RequestError E → W → W) (p : Processor) (date : Bytes) where
  abandon-LocksFrame :
      (s : Session W) (result : Session W → FrameResult W U E)
      → s.locked ≡ true
      → ((t : Session W) → HasEnded t → LocksFrame (result t))
      → LocksFrame (abandon stream urls handle_error p date s result)
  unfolding abandon unlock close_stream
  abandon-LocksFrame s result l k = rw (l, unlock) (k _ (record { free = refl; closing = refl }))

  parsed_frame-LocksFrame :
      (s : Session W) (r : RequestResult U E)
      → s.locked ≡ true
      → s.hyjacked ≡ false
      → LocksFrame (parsed_frame stream urls handle_error p date s r)
  unfolding parsed_frame
  parsed_frame-LocksFrame s (request req closes r) l h = record {
    unwritten = refl;
    holds = l;
    own = h;
  }
  parsed_frame-LocksFrame s (rejected e true r) l h =
      abandon-LocksFrame _ end_of_session l (λ t k. k)
  parsed_frame-LocksFrame s (rejected e false r) l h =
      abandon-LocksFrame _ (frame_error _) l (λ t k. k)
  parsed_frame-LocksFrame s panic l h = tt
  parsed_frame-LocksFrame s no_fuel l h = tt

  next-LocksFrame :
      (s : Session W)
      → s.locked ≡ true
      → s.hyjacked ≡ false
      → s.close ≡ false
      → LocksFrame (locked_frame stream urls handle_error p date s)
  unfolding locked_frame
  next-LocksFrame s l h c =
      subst LocksFrame (sym (if_false s.close _ _ c))
        (elim (Option-cases (skip_empty_lines 5 s.reader.bytes)) [
          | inl e ↦ rw e (abandon-LocksFrame s _ l (λ t k. k))
          | inr (bytes, e) ↦ rw e (parsed_frame-LocksFrame _ _ l h)
        ])

  closed-LocksFrame :
      (s : Session W)
      → s.locked ≡ true
      → s.close ≡ true
      → LocksFrame (locked_frame stream urls handle_error p date s)
  unfolding locked_frame unlock
  closed-LocksFrame s l c =
      subst LocksFrame (sym (if_true s.close _ _ c))
        (rw (l, unlock) (record { free = refl; closing = c }))

  -- When the lock is free and the stream is not hijacked, `Frame` does not wait: it returns a frame
  -- that holds the lock and whose response has not begun, or a session that is over, with the lock
  -- free, unless it panics.
  pub frame-LocksFrame :
      (s : Session W)
      → s.locked ≡ false
      → s.hyjacked ≡ false
      → LocksFrame (frame stream urls handle_error p date s)
  unfolding frame
  frame-LocksFrame s l h =
      subst LocksFrame (sym (if_false s.locked _ _ l)) (elim (Bool-cases s.close) [
        | inl c ↦ closed-LocksFrame (record s { locked = true }) refl c
        | inr c ↦ next-LocksFrame (record s { locked = true }) refl h c
      ])
