-- ===== src/Http/Session/Broken.antt =====
-- Where the lock of a session goes wrong: the head cannot be written, the stream is hijacked before
-- the head, or the session is ended behind it.
use jotpot_server.Base.{
  ℕ, ◌≤◌, ◌≡◌, refl, ap, ◌∙◌, inl, inr, Bool, true, false, not, ◌||◌, [], ◌∷◌, ◌++◌, ◌==◌, arith,
  Option, some, none, Bytes, length, Bool-cases, ==_iff,
}
use jotpot_server.Base.Int.{is_negative, sub_ℕ}
use jotpot_server.Http.Header.{Header, Processor}
use jotpot_server.Http.Requests.{Urls, RequestError}
use jotpot_server.Http.Session.{
  Stream, Session, Exchange, WriteError, short_header, inner, map_error, unlock, end_session,
  hyjack, connection_header, header_generator, stream_write, write_header, behind_head, write,
  close_stream, close_exchange, close, write_op, serve, waits, frame,
}
use jotpot_server.Http.Session.Lock.{
  connection_header-IsReleased, Works, IsFresh, IsHeaded, says_close, if_true, if_false,
}

-- No write takes anything, as when the client has gone.
pub record TakesNothing {W E : Type 0} (stream : Stream W E) : Type 0 where
  pub nothing : (b : Bytes) (w : W) → (stream.write b w).1 ≡ 0

-- The lock of a session that closes cannot be released a second time.
connection_header-again :
    {W : Type 0} (s : Session W) (h : Header)
    → s.locked ≡ false
    → s.close ≡ true
    → connection_header s h ≡ none
unfolding connection_header unlock
connection_header-again s h l c = elim (Bool-cases (says_close h)) [
  | inl e ↦ rw e (rw l refl)
  | inr e ↦ rw e (rw c (rw l refl))
]

or_true : (b : Bool) → (b || true) ≡ true
or_true true = refl
or_true false = refl

is_negative-sub_ℕ : (n : ℕ) → 1 ≤ n → is_negative (sub_ℕ 0 n) ≡ true
is_negative-sub_ℕ n h = ground arith

module _ {W E : Type 0} (stream : Stream W E) (format : Header → Header × Bytes) where
  header_generator-again :
      (x : Exchange W)
      → x.session.locked ≡ false
      → x.session.close ≡ true
      → header_generator stream format x ≡ none
  unfolding header_generator
  header_generator-again x l c =
      rw (connection_header-again x.session x.header l c, header_generator) refl

  close-again :
      (x : Exchange W)
      → x.head_written ≡ false
      → x.session.locked ≡ false
      → x.session.close ≡ true
      → close stream format x ≡ none
  unfolding close write_header
  close-again x u l c =
      if_false x.head_written _ _ u ∙ rw (header_generator-again x l c, write_header) refl

  -- If the head is never empty, no write to the stream takes anything, and the connection is to be
  -- closed behind the response, then the write of a body's first bytes and the close behind it unlock
  -- a mutex that is not locked, which ends the program.
  pub serve-broken :
      (src : Bytes) (x : Exchange W)
      → TakesNothing stream
      → ((h : Header) → 1 ≤ length (format h).1)
      → IsFresh x
      → says_close x.header || x.session.close ≡ true
      → serve stream format (write_op src ∷ []) x ≡ none
  unfolding serve write header_generator stream_write behind_head
  serve-broken src x broken some_head f c =
      let c' = connection_header-IsReleased x.session x.header f.holds in
      let head = (format c'.header).1 in
      let r = stream.write (head ++ src) c'.session.world in
      let y : Exchange W = record x {
        session = record c'.session { world = r.0 };
        header = (format c'.header).0;
      } in
      let less : is_negative (sub_ℕ r.1 (length head)) ≡ true =
        rw (broken.nothing (head ++ src) c'.session.world)
          (is_negative-sub_ℕ (length head) (some_head c'.header)) in
      let first : write stream format src x
          ≡ some (
            y,
            sub_ℕ r.1 (length head),
            (elim r.2 [ none ↦ some short_header | some e ↦ some (inner e) ]),
          ) =
        if_false x.head_written _ _ f.unwritten
        ∙ rw (c'.is_some, header_generator) (rw (less, behind_head) refl) in
      rw (first, serve) (rw (close-again y f.unwritten (c'.holds ∙ ap not c) (c'.closing ∙ c)) refl)

  -- A stream that is hijacked before the head is written is unlocked twice when the response is
  -- closed, if the head can be written.
  pub close-hyjacked :
      (x : Exchange W)
      → Works stream
      → IsFresh x
      → close stream format (record x { session = hyjack x.session }) ≡ none
  unfolding close write_header header_generator stream_write close_exchange unlock hyjack
  close-hyjacked x works f =
      let s = hyjack x.session in
      let r = connection_header-IsReleased s x.header f.holds in
      let c = or_true (says_close x.header) in
      let w = stream.write (format r.header).1 r.session.world in
      let all : (w.1 == length (format r.header).1) ≡ true =
        (==_iff _ _).1 (works.takes (format r.header).1 r.session.world) in
      if_false x.head_written _ _ f.unwritten
      ∙ rw (r.is_some, write_header)
          (rw (works.no_error (format r.header).1 r.session.world, write_header)
            (rw (all, write_header)
              (rw (r.closing ∙ c, close_exchange) (rw r.own (rw (r.holds ∙ ap not c) refl)))))

  -- A session that is ended behind a head that keeps the connection alive keeps its lock when the
  -- response is closed, so that `Frame` waits for ever.
  pub close-ended :
      {U : Type 0} (urls : Urls U E) (handle_error : RequestError E → W → W) (p : Processor)
      (date : Bytes) (x : Exchange W)
      → IsHeaded false x
      → (y : Exchange W) × (e : Option (WriteError E)) × (close stream format
            (record x { session = end_session x.session })
          ≡ some (y, e))
        × (frame stream urls handle_error p date y.session ≡ waits)
  unfolding close close_exchange close_stream end_session frame
  close-ended urls handle_error p date x h = (
    record x {
      session = record x.session { close = true; world = (stream.close x.session.world).0 };
    },
    map_error inner (stream.close x.session.world).1,
    if_true x.head_written _ _ h.written ∙ rw h.own refl,
    if_true x.session.locked _ _ h.holds,
  )
