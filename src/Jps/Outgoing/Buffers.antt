-- ===== src/Jps/Outgoing/Buffers.antt =====
-- A writer (jps/outgoing.go) never has a buffer.
use jotpot_server.Base.{
  ℕ, ◌≡◌, refl, arith, Bool, true, false, Option, none, some, List, Bytes, ◌⊎◌, inl, inr,
  Option-cases, length,
}
use jotpot_server.Base.Int.{pos}
use jotpot_server.Jps.Pipe.{Generator}
use jotpot_server.Jps.Outgoing.{
  Below, Writer, WriterError, Result, new_writer, get_raw_body, get_piped_body, get_bufio_writer,
  get_writer, write_to, write, set_buffered, bufio_writer, flush_buffer, close_bodies, close,
  bytes_body, set_length,
}

-- There is no buffer, and the writer does not count as closed.
abbrev pub IsUnbuffered : {W B U E : Type 0} → Writer W B U E → Type 0
IsUnbuffered r = (r.buf ≡ none) × (r.closed ≡ false)

-- So it is in what a method returns.
abbrev pub Leaves : {W B U E A : Type 0} → Result W B U E A → Type 0
Leaves none = Unit
Leaves (some (r, w, a)) = IsUnbuffered r

module _ {W B U E : Type 0} (below : Below W B U E) where
  get_raw_body-Leaves :
      (r : Writer W B U E) (w : W) → IsUnbuffered r → Leaves (get_raw_body below r w)
  unfolding get_raw_body
  get_raw_body-Leaves r w h = ground arith

  get_piped_body-Leaves :
      (r : Writer W B U E) (w : W) → IsUnbuffered r → Leaves (get_piped_body below r w)
  unfolding get_piped_body
  get_piped_body-Leaves r w h = ground (arith, get_raw_body-Leaves r w h)

  get_bufio_writer-Leaves :
      (r : Writer W B U E) (w : W) → IsUnbuffered r → Leaves (get_bufio_writer below r w)
  unfolding get_bufio_writer
  get_bufio_writer-Leaves r w h = ground (arith, h)

  get_writer-Leaves : (r : Writer W B U E) (w : W) → IsUnbuffered r → Leaves (get_writer below r w)
  unfolding get_writer
  get_writer-Leaves r w h =
      ground (arith, get_bufio_writer-Leaves r w h, get_piped_body-Leaves r w h)

  write-Leaves :
      (src : Bytes) (r : Writer W B U E) (w : W) → IsUnbuffered r → Leaves (write below src r w)
  unfolding write
  write-Leaves src r w h = ground (arith, get_writer-Leaves r w h)

  close_bodies-Leaves :
      (r : Writer W B U E) (w : W) → IsUnbuffered r → Leaves (close_bodies below r w)
  unfolding close_bodies
  close_bodies-Leaves r w h = ground arith

  Leaves-some :
      {A : Type 0} (o : Result W B U E A) (r : Writer W B U E) (w : W) (a : A)
      → Leaves o
      → o ≡ some (r, w, a)
      → IsUnbuffered r
  Leaves-some o r w a h e = ground (arith, h, e)

  flush_buffer-none :
      (r : Writer W B U E) (w : W) → r.buf ≡ none → flush_buffer below r w ≡ (r, w, none)
  unfolding flush_buffer
  flush_buffer-none r w e = ground (arith, e)

  close-Leaves : (r : Writer W B U E) (w : W) → IsUnbuffered r → Leaves (close below r w)
  unfolding close
  close-Leaves r w h = elim (Option-cases (get_writer below r w)) [
    | inl e ↦ ground (arith, e, flush_buffer-none r w h.0)
    | inr ((r', w', t), e) ↦
        let u = Leaves-some (get_writer below r w) r' w' t (get_writer-Leaves r w h) e in
        ground (arith, e, flush_buffer-none r w h.0, close_bodies-Leaves r' w' u)
  ]

  bytes_body-Leaves :
      (s : Bytes) (r : Writer W B U E) (w : W) → IsUnbuffered r → Leaves (bytes_body below s r w)
  unfolding bytes_body set_length
  bytes_body-Leaves s r w h =
      let w' = (below.set_body_length (pos (length s)) w).0 in
      elim (Option-cases (write below s r w')) [
        | inl e ↦ ground (arith, e, h)
        | inr ((r', w'', t), e) ↦
            let u = Leaves-some (write below s r w') r' w'' t (write-Leaves s r w' h) e in
            ground (arith, e, h, u, close-Leaves r' w'' u)
      ]

-- What a caller can do: each method returns, and the world may change in between.
pub data Reach {W B U E : Type 0} (below : Below W B U E) (pipes : List (Generator W B E))
    : Writer W B U E → Type 0 where
  start : Reach below pipes (new_writer pipes)
  wrote :
      (r r' : Writer W B U E) (w w' : W) (src : Bytes) (n : ℕ × Option E)
      → Reach below pipes r
      → write below src r w ≡ some (r', w', n)
      → Reach below pipes r'
  gave_body :
      (r r' : Writer W B U E) (w w' : W) (s : Bytes) (err : Option (WriterError E))
      → Reach below pipes r
      → bytes_body below s r w ≡ some (r', w', err)
      → Reach below pipes r'
  closed_body :
      (r r' : Writer W B U E) (w w' : W) (err : Option E)
      → Reach below pipes r
      → close below r w ≡ some (r', w', err)
      → Reach below pipes r'
  chose :
      (r : Writer W B U E) (buffer : Bool)
      → Reach below pipes r
      → Reach below pipes (set_buffered buffer r).0
  got_buffer :
      (r r' : Writer W B U E) (w w' : W) (u : Option U ⊎ E)
      → Reach below pipes r
      → bufio_writer below r w ≡ some (r', w', u)
      → Reach below pipes r'

-- Whatever a caller does with a writer, it never has a buffer, and its mark of being closed is never
-- set: getBufioWriter makes a buffer only where there is one already, and Close does not set the mark.
pub Reach-IsUnbuffered :
    {W B U E : Type 0} (below : Below W B U E) (pipes : List (Generator W B E)) (r : Writer W B U E)
    → Reach below pipes r
    → IsUnbuffered r
unfolding new_writer set_buffered bufio_writer get_bufio_writer
Reach-IsUnbuffered below pipes _ start = (refl, refl)
Reach-IsUnbuffered below pipes _ (wrote r r' w w' src n h e) =
    Leaves-some below (write below src r w) r' w' n
      (write-Leaves below src r w (Reach-IsUnbuffered below pipes r h)) e
Reach-IsUnbuffered below pipes _ (gave_body r r' w w' s err h e) =
    Leaves-some below (bytes_body below s r w) r' w' err
      (bytes_body-Leaves below s r w (Reach-IsUnbuffered below pipes r h)) e
Reach-IsUnbuffered below pipes _ (closed_body r r' w w' err h e) =
    Leaves-some below (close below r w) r' w' err
      (close-Leaves below r w (Reach-IsUnbuffered below pipes r h)) e
Reach-IsUnbuffered below pipes _ (chose r buffer h) =
    let i = Reach-IsUnbuffered below pipes r h in ground (arith, i)
Reach-IsUnbuffered below pipes _ (got_buffer r r' w w' u h e) =
    let i = Reach-IsUnbuffered below pipes r h in ground (arith, i, e)

-- Once a caller asks for buffering, in whatever state its calls have led to from a new writer, the next
-- write panics, whatever its bytes and whatever the world is then.
pub write-buffered :
    {W B U E : Type 0} (below : Below W B U E) (pipes : List (Generator W B E)) (r : Writer W B U E)
    (src : Bytes) (w : W)
    → Reach below pipes r
    → write below src (set_buffered true r).0 w ≡ none
unfolding write get_writer get_bufio_writer write_to set_buffered
write-buffered below pipes r src w h =
    let i = Reach-IsUnbuffered below pipes r h in
    rw (set_buffered, i.0) (rw (write, get_writer, get_bufio_writer, i.0) refl)
