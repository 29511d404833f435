-- ===== src/Http/Session/Lock.antt =====
-- The lock of a session over one frame.
pub mod Released
use jotpot_server.Base.{
  ℕ, ◌≤◌, ◌≡◌, refl, ◌∙◌, inl, inr, Bool, true, false, not, ◌||◌, List, [], ◌∷◌, ◌++◌, ◌==◌, arith,
  Option, some, none, if◌then◌else◌, Bytes, length, codes, length-append, Bool-cases, ==_iff,
}
use jotpot_server.Base.Int.{ℤ, is_negative, sub_ℕ}
use jotpot_server.Http.Header.{Header, has}
use jotpot_server.Http.Message.{set_alone}
use jotpot_server.Http.Session.{
  Stream, Session, Exchange, WriteError, inner, map_error, unlock, connection_header,
  header_generator, stream_write, write_header, behind_head, write, flush, close_stream,
  close_exchange, close, Op, write_op, flush_op, serve,
}
pub use jotpot_server.Http.Session.Lock.Released.{
  Works, Wrote, unwritten, wrote, says_close, IsFresh, IsHeaded, connection_header-IsReleased,
  if_true, if_false,
}

module _ {W E : Type 0} (stream : Stream W E) (format : Header → Header × Bytes)
    (works : Works stream) where
  -- Whether the connection is closed behind a response.
  abbrev pub will_close : Exchange W → Bool
  will_close x = says_close x.header || x.session.close

  record IsGenerated (closes : Bool) (x : Exchange W) (g : Option (Exchange W × Bytes))
      : Type 0 where
    next : Exchange W
    head : Bytes
    is_some : g ≡ some (next, head)
    closing : next.session.close ≡ closes
    holds : next.session.locked ≡ not closes
    own : next.session.hyjacked ≡ false
    same : next.session.world ≡ x.session.world

  header_generator-IsGenerated :
      (x : Exchange W) → IsFresh x → IsGenerated (will_close x) x (header_generator stream format x)
  unfolding header_generator
  header_generator-IsGenerated x f =
      let r = connection_header-IsReleased x.session x.header f.holds in
      record {
        next = record x { session = r.session; header = (format r.header).0 };
        head = (format r.header).1;
        is_some = rw (r.is_some, header_generator) refl;
        closing = r.closing;
        holds = r.holds;
        own = r.own ∙ f.own;
        same = r.same;
      }

  -- A step that ends with the head written.
  abbrev Heads : Bool → W → Option (Exchange W × Option (WriteError E)) → Type 0
  Heads closes w r =
      (y : Exchange W) × (e : Option (WriteError E)) × (r ≡ some (y, e))
      × IsHeaded closes y
      × Wrote stream w y.session.world

  abbrev WritesHead : Bool → W → Option (Exchange W × ℤ × Option (WriteError E)) → Type 0
  WritesHead closes w r =
      (y : Exchange W) × (n : ℤ) × (e : Option (WriteError E)) × (r ≡ some (y, n, e))
      × IsHeaded closes y
      × Wrote stream w y.session.world

  behind_head-IsHeaded :
      (closes : Bool) (size : ℕ) (x : Exchange W) (n : ℕ) (err : Option E)
      → size ≤ n
      → x.session.close ≡ closes
      → x.session.locked ≡ not closes
      → x.session.hyjacked ≡ false
      → IsHeaded closes (behind_head stream format size (x, n, err)).0
  unfolding behind_head
  behind_head-IsHeaded closes size x n err l c h o =
      let fits : is_negative (sub_ℕ n size) ≡ false = ground (arith, l) in
      rw (fits, behind_head) (record { written = refl; closing = c; holds = h; own = o })

  behind_head-world :
      (size : ℕ) (x : Exchange W) (n : ℕ) (err : Option E)
      → (behind_head stream format size (x, n, err)).0.session.world ≡ x.session.world
  unfolding behind_head
  behind_head-world size x n err = ground arith

  -- One write.
  Wrote-from : (b : Bytes) (w w' : W) → w ≡ w' → Wrote stream w' (stream.write b w).0
  Wrote-from b w w' e = rw e (wrote b unwritten)

  write-Heads :
      (src : Bytes) (x : Exchange W)
      → IsFresh x
      → WritesHead (will_close x) x.session.world (write stream format src x)
  unfolding write stream_write
  write-Heads src x f =
      let g = header_generator-IsGenerated x f in
      let w = stream.write (g.head ++ src) g.next.session.world in
      let y = record g.next { session = record g.next.session { world = w.0 } } in
      let b = behind_head stream format (length g.head) (y, w.1, w.2) in
      (
        b.0,
        b.1,
        b.2,
        if_false x.head_written _ _ f.unwritten ∙ rw (g.is_some, write) refl,
        behind_head-IsHeaded (will_close x) (length g.head) y w.1 w.2
            (omega
              (arith, works.takes (g.head ++ src) g.next.session.world, length-append g.head src))
            g.closing g.holds g.own,
        rw (behind_head-world (length g.head) y w.1 w.2)
            (Wrote-from (g.head ++ src) g.next.session.world x.session.world g.same),
      )

  write-IsHeaded :
      (closes : Bool) (src : Bytes) (x : Exchange W)
      → IsHeaded closes x
      → WritesHead closes x.session.world (write stream format src x)
  unfolding write stream_write
  write-IsHeaded closes src x h =
      let w = stream.write src x.session.world in
      (
        record x { session = record x.session { world = w.0 } },
        sub_ℕ w.1 0,
        map_error inner w.2,
        if_true x.head_written _ _ h.written,
        record { written = h.written; closing = h.closing; holds = h.holds; own = h.own },
        wrote src unwritten,
      )

  -- The write of the head alone has no error.
  write_header-Heads :
      (x : Exchange W)
      → IsFresh x
      → (y : Exchange W) × (write_header stream format x ≡ some (y, none))
        × IsHeaded (will_close x) y
        × Wrote stream x.session.world y.session.world
  unfolding write_header stream_write
  write_header-Heads x f =
      let g = header_generator-IsGenerated x f in
      let w = stream.write g.head g.next.session.world in
      let all : (w.1 == length g.head) ≡ true =
        (==_iff _ _).1 (works.takes g.head g.next.session.world) in
      (
        record g.next { session = record g.next.session { world = w.0 }; head_written = true },
        rw (g.is_some, write_header)
            (rw (works.no_error g.head g.next.session.world) (rw all refl)),
        record { written = refl; closing = g.closing; holds = g.holds; own = g.own },
        Wrote-from g.head g.next.session.world x.session.world g.same,
      )

  flush-Heads :
      (x : Exchange W) → IsFresh x → Heads (will_close x) x.session.world (flush stream format x)
  unfolding flush
  flush-Heads x f =
      let (y, e, h, w) = write_header-Heads x f in
      (y, none, if_false x.head_written _ _ f.unwritten ∙ e, h, w)

  flush-IsHeaded :
      (closes : Bool) (x : Exchange W)
      → IsHeaded closes x
      → Heads closes x.session.world (flush stream format x)
  unfolding flush
  flush-IsHeaded closes x h = (x, none, if_true x.head_written _ _ h.written, h, unwritten)

  -- From the world `w` only writes to the stream lead to the other one, and then, if it is to be
  -- closed, one call of its Close.
  abbrev pub Leaves : Bool → W → W → Type 0
  Leaves true w w' = (v : W) × Wrote stream w v × (w' ≡ (stream.close v).0)
  Leaves false w w' = Wrote stream w w'

  -- A frame that began in the world `w` is over: the lock is free, and the stream is closed exactly if
  -- it is to be.
  pub record IsOver (closes : Bool) (w : W) (s : Session W) : Type 0 where
    pub free : s.locked ≡ false
    pub closing : s.close ≡ closes
    pub left : Leaves closes w s.world

  close_exchange-IsOver :
      (closes : Bool) (w : W) (x : Exchange W)
      → IsHeaded closes x
      → Wrote stream w x.session.world
      → (y : Exchange W) × (e : Option E) × (close_exchange stream format x ≡ some (y, e))
        × IsOver closes w y.session
  unfolding close_exchange unlock close_stream
  close_exchange-IsOver true w x h v = (
    record x { session = record x.session { world = (stream.close x.session.world).0 } },
    (stream.close x.session.world).1,
    rw (h.closing, close_exchange) (rw h.own refl),
    record { free = h.holds; closing = h.closing; left = (x.session.world, v, refl) },
  )
  close_exchange-IsOver false w x h v = (
    record x { session = record x.session { locked = false } },
    none,
    rw (h.closing, close_exchange) (rw h.holds refl),
    record { free = refl; closing = h.closing; left = v },
  )

  abbrev Closes : Bool → W → {A : Type 0} → Option (Exchange W × A) → Type 0
  Closes closes w {A} r = (y : Exchange W) × (a : A) × (r ≡ some (y, a)) × IsOver closes w y.session

  close-IsHeaded :
      (closes : Bool) (w : W) (x : Exchange W)
      → IsHeaded closes x
      → Wrote stream w x.session.world
      → Closes closes w (close stream format x)
  unfolding close
  close-IsHeaded closes w x h v =
      let (y, e, p, o) = close_exchange-IsOver closes w x h v in
      (y, map_error inner e, if_true x.head_written _ _ h.written ∙ rw p refl, o)

  close-Closes :
      (x : Exchange W) → IsFresh x → Closes (will_close x) x.session.world (close stream format x)
  unfolding close
  close-Closes x f =
      let (y, p, h, w) = write_header-Heads x f in
      let (z, e, q, o) = close_exchange-IsOver (will_close x) x.session.world y h w in
      (z, map_error inner e, if_false x.head_written _ _ f.unwritten ∙ rw (p, close) (rw q refl), o)

  abbrev Serves : Bool → W → Option (Exchange W) → Type 0
  Serves closes w r = (y : Exchange W) × (r ≡ some y) × IsOver closes w y.session

  Wrote-all : {u v w : W} → Wrote stream u v → Wrote stream v w → Wrote stream u w
  Wrote-all a unwritten = a
  Wrote-all a (wrote b c) = wrote b (Wrote-all a c)

  serve-IsHeaded :
      (closes : Bool) (w : W) (ops : List Op) (x : Exchange W)
      → IsHeaded closes x
      → Wrote stream w x.session.world
      → Serves closes w (serve stream format ops x)
  unfolding serve
  serve-IsHeaded closes w [] x h v =
      let (y, e, p, o) = close-IsHeaded closes w x h v in (y, rw (p, serve) refl, o)
  serve-IsHeaded closes w (write_op src ∷ ops) x h v =
      let (y, n, e, p, g, u) = write-IsHeaded closes src x h in
      let (z, q, o) = serve-IsHeaded closes w ops y g (Wrote-all v u) in (z, rw (p, serve) q, o)
  serve-IsHeaded closes w (flush_op ∷ ops) x h v =
      let (y, a, p, g, u) = flush-IsHeaded closes x h in
      let (z, q, o) = serve-IsHeaded closes w ops y g (Wrote-all v u) in (z, rw (p, serve) q, o)

  -- If every write to the stream takes all bytes, then a response that is written, flushed and at last
  -- closed, in whatever steps, never unlocks a free lock, and leaves the session with its lock free.
  -- The session is to be closed exactly if it was before or the header then said so. All that is done
  -- to the stream is to write to it, and behind the writes, exactly if the session is to be closed, to
  -- close it once. The response was not yet begun, held the lock, and nobody hijacks it.
  pub serve-IsOver :
      (ops : List Op) (x : Exchange W)
      → IsFresh x
      → (y : Exchange W) × (serve stream format ops x ≡ some y)
        × IsOver (will_close x) x.session.world y.session
  unfolding serve
  serve-IsOver [] x f = let (y, e, p, o) = close-Closes x f in (y, rw (p, serve) refl, o)
  serve-IsOver (write_op src ∷ ops) x f =
      let (y, n, e, p, g, u) = write-Heads src x f in
      let (z, q, o) = serve-IsHeaded (will_close x) x.session.world ops y g u in
      (z, rw (p, serve) q, o)
  serve-IsOver (flush_op ∷ ops) x f =
      let (y, a, p, g, u) = flush-Heads x f in
      let (z, q, o) = serve-IsHeaded (will_close x) x.session.world ops y g u in
      (z, rw (p, serve) q, o)
