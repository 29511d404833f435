-- ===== src/Jps/Outgoing.antt =====
-- The writer of a response's body (jps/outgoing.go). The response below, the buffers and the handles
-- are parameters that change the world W; `none` is a panic. `Body` returns a body or an error.
pub mod Buffers
use jotpot_server.Base.{
  ℕ, Bool, true, false, not, Option, none, some, List, [], ◌∷◌, if◌then◌else◌, ◌==◌, Bytes, length,
  ◌⊎◌, inl, inr,
}
use jotpot_server.Base.Int.{ℤ, pos}
use jotpot_server.Jps.Pipe.{Handles, Generator, to, close_all, flush_all}

-- U is the type of the bufio.Writers.
pub record Below (W B U E : Type 0) : Type 0 where
  pub handles : Handles W B E
  pub body : W → W × (B ⊎ E)
  pub set_body_length : ℤ → W → W × Option E
  pub body_length : W → W × ℤ × Option E
  pub new_buffer : List B → W → W × U
  pub recycle : U → W → W
  pub buffer_write : U → Bytes → W → W × ℕ × Option E
  pub buffer_flush : U → W → W × Option E

-- The piped body: none, the nil pipe that is left by an error of pipe.To, or the pipe's writers.
pub data Piped (B : Type 0) : Type 0 where
  absent nil_pipe : Piped B
  pipe : List B → Piped B

pub record Writer (W B U E : Type 0) : Type 0 where
  pub pipes : List (Generator W B E)
  pub raw_body : Option B
  pub piped_body : Piped B
  pub buf : Option U
  pub buffer_body : Bool
  pub closed : Bool

pub data WriterError (E : Type 0) : Type 0 where
  err_body_already_started err_short_write : WriterError E
  failed : E → WriterError E

unfoldable pub new_writer : {W B U E : Type 0} → List (Generator W B E) → Writer W B U E
new_writer pipes = record {
  pipes = pipes;
  raw_body = none;
  piped_body = absent;
  buf = none;
  buffer_body = false;
  closed = false;
}

-- What a method returns: the writer, the world and a result.
abbrev pub Result : Type 0 → Type 0 → Type 0 → Type 0 → Type 0 → Type 0
Result W B U E A = Option (Writer W B U E × W × A)

unfoldable pub get_raw_body :
    {W B U E : Type 0} → Below W B U E → Writer W B U E → W → Result W B U E (B ⊎ E)
get_raw_body below r w = elim r.raw_body [
  | some b ↦ some (r, w, inl b)
  | none ↦
      if r.closed
      then none
      else (let (w', made) = below.body w in
          elim made [
            | inl b ↦ some (record r { raw_body = some b }, w', inl b)
            | inr e ↦ some (r, w', inr e)
          ])
]

unfoldable pub get_piped_body :
    {W B U E : Type 0} → Below W B U E → Writer W B U E → W → Result W B U E (Piped B ⊎ E)
get_piped_body below r w = elim r.piped_body [
  | nil_pipe ↦ some (r, w, inl nil_pipe)
  | pipe bs ↦ some (r, w, inl (pipe bs))
  | absent ↦ elim (get_raw_body below r w) [
    | none ↦ none
    | some (r', w', raw) ↦ elim raw [
      | inr e ↦ some (r', w', inr e)
      | inl b ↦
          let (w'', made) = to b (r.pipes ∷ []) w' in
          elim made [
            | inl bs ↦ some (record r' { piped_body = pipe bs }, w'', inl (pipe bs))
            | inr e ↦ some (record r' { piped_body = nil_pipe }, w'', inr e)
          ]
    ]
  ]
]

-- The writers of the pipe; a nil pipe has none to look at.
abbrev pub pipe_writers : {B : Type 0} → Piped B → List B
pipe_writers (pipe bs) = bs
pipe_writers _ = []

-- A buffered writer is made only where there is one.
unfoldable pub get_bufio_writer :
    {W B U E : Type 0} → Below W B U E → Writer W B U E → W → Result W B U E (Option U ⊎ E)
get_bufio_writer below r w = elim r.buf [
  | none ↦ some (r, w, inl none)
  | some u ↦ elim (get_piped_body below r w) [
    | none ↦ none
    | some (r', w', piped) ↦ elim piped [
      | inr e ↦ some (r', w', inr e)
      | inl p ↦
          let (w'', u') = below.new_buffer (pipe_writers p) w' in
          some (record r' { buf = some u' }, w'', inl (some u'))
    ]
  ]
]

-- What is written to: a bufio.Writer, which may be nil, or the piped body.
pub data Target (B U : Type 0) : Type 0 where
  buffered : Option U → Target B U
  unbuffered : Piped B → Target B U

unfoldable pub get_writer :
    {W B U E : Type 0} → Below W B U E → Writer W B U E → W → Result W B U E (Target B U ⊎ E)
get_writer below r w =
    if r.buffer_body
    then (elim (get_bufio_writer below r w) [
      | none ↦ none
      | some (r', w', got) ↦ some (r', w', elim got [ inl u ↦ inl (buffered u) | inr e ↦ inr e ])
    ])
    else (elim (get_piped_body below r w) [
      | none ↦ none
      | some (r', w', got) ↦ some (r', w', elim got [ inl p ↦ inl (unbuffered p) | inr e ↦ inr e ])
    ])

-- A nil writer, and a pipe without writers, panic.
unfoldable pub write_to :
    {W B U E : Type 0} → Below W B U E → Target B U → Bytes → W → Option (W × ℕ × Option E)
write_to below (buffered (some u)) src w = some (below.buffer_write u src w)
write_to below (buffered none) src w = none
write_to below (unbuffered (pipe (b ∷ bs))) src w = some (below.handles.write b src w)
write_to below (unbuffered (pipe [])) src w = none
write_to below (unbuffered nil_pipe) src w = none
write_to below (unbuffered absent) src w = none

unfoldable pub write :
    {W B U E : Type 0} → Below W B U E → Bytes → Writer W B U E → W → Result W B U E (ℕ × Option E)
write below src r w = elim (get_writer below r w) [
  | none ↦ none
  | some (r', w', target) ↦ elim target [
    | inr e ↦ some (r', w', (0, some e))
    | inl t ↦ elim (write_to below t src w') [
      | none ↦ none
      | some (w'', n, err) ↦ some (r', w'', (n, err))
    ]
  ]
]

unfoldable pub set_buffered : {W B U E : Type 0} → Bool → Writer W B U E → Writer W B U E × Bool
set_buffered buffer r = elim r.buf [
  | some u ↦ (r, true)
  | none ↦ (record r { buffer_body = buffer }, buffer)
]

-- GetBufioWriter.
unfoldable pub bufio_writer :
    {W B U E : Type 0} → Below W B U E → Writer W B U E → W → Result W B U E (Option U ⊎ E)
bufio_writer below r w = elim r.buf [
  | none ↦ get_bufio_writer below (record r { buffer_body = true }) w
  | some u ↦ some (r, w, inl (some u))
]

-- The flush of `Close`: the buffer is given back whatever the error is.
unfoldable pub flush_buffer :
    {W B U E : Type 0} → Below W B U E → Writer W B U E → W → Writer W B U E × W × Option E
flush_buffer below r w = elim r.buf [
  | none ↦ (r, w, none)
  | some u ↦
      let (w', err) = below.buffer_flush u w in (record r { buf = none }, below.recycle u w', err)
]

-- The bodies that `Close` closes.
unfoldable pub close_bodies :
    {W B U E : Type 0} → Below W B U E → Writer W B U E → W → Result W B U E (Option E)
close_bodies below r w = elim r.piped_body [
  | nil_pipe ↦ none
  | pipe bs ↦
      let (w', err) = close_all below.handles bs w in
      some (record r { piped_body = absent; raw_body = none }, w', err)
  | absent ↦ elim r.raw_body [
    | none ↦ some (r, w, none)
    | some b ↦
        let (w', err) = below.handles.close b w in some (record r { raw_body = none }, w', err)
  ]
]

abbrev pub error_of : {A E : Type 0} → A ⊎ E → Option E
error_of (inl a) = none
error_of (inr e) = some e

abbrev pub first_error : {E : Type 0} → Option E → Option E → Option E
first_error none later = later
first_error (some e) later = some e

unfoldable pub close :
    {W B U E : Type 0} → Below W B U E → Writer W B U E → W → Result W B U E (Option E)
close below r w =
    let (r₁, w₁, err) = flush_buffer below r w in
    elim (get_writer below r₁ w₁) [
      | none ↦ none
      | some (r₂, w₂, target) ↦ elim (close_bodies below r₂ w₂) [
        | none ↦ none
        | some (r₃, w₃, err₃) ↦ some (r₃, w₃, first_error err (first_error (error_of target) err₃))
      ]
    ]

-- The flush of the piped or of the raw body.
unfoldable pub flush_bodies :
    {W B U E : Type 0} → Below W B U E → Writer W B U E → W → Option (W × Option E)
flush_bodies below r w = elim r.piped_body [
  | nil_pipe ↦ none
  | pipe bs ↦ some (flush_all below.handles bs w)
  | absent ↦ elim r.raw_body [ none ↦ some (w, none) | some b ↦ some (below.handles.flush b w) ]
]

unfoldable pub flush :
    {W B U E : Type 0} → Below W B U E → Writer W B U E → W → Option (W × Option E)
flush below r w = elim r.buf [
  | none ↦ flush_bodies below r w
  | some u ↦
      let (w', err) = below.buffer_flush u w in
      elim err [ some e ↦ some (w', some e) | none ↦ flush_bodies below r w' ]
]

unfoldable pub set_length : {W B U E : Type 0} → Below W B U E → ℤ → W → W × Option E
set_length below l w = below.set_body_length l w

unfoldable pub body_length_of : {W B U E : Type 0} → Below W B U E → W → W × ℤ × Option E
body_length_of below w = below.body_length w

-- StringBody and BytesBody: the length is set, and the text is written and closed.
unfoldable pub bytes_body :
    {W B U E : Type 0}
    → Below W B U E
    → Bytes
    → Writer W B U E
    → W
    → Result W B U E (Option (WriterError E))
bytes_body below s r w = elim r.raw_body [
  | some b ↦ some (r, w, some err_body_already_started)
  | none ↦
      let (w', err) = set_length below (pos (length s)) w in
      elim err [
        | some e ↦ some (r, w', some (failed e))
        | none ↦ elim (write below s r w') [
          | none ↦ none
          | some (r₂, w₂, wrote) ↦ elim wrote.1 [
            | some e ↦ some (r₂, w₂, some (failed e))
            | none ↦
                if wrote.0 == length s
                then (elim (close below r₂ w₂) [
                  | none ↦ none
                  | some (r₃, w₃, err₃) ↦
                      some (r₃, w₃, elim err₃ [ none ↦ none | some e ↦ some (failed e) ])
                ])
                else some (r₂, w₂, some err_short_write)
          ]
        ]
      ]
]
