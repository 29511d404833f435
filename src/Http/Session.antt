-- ===== src/Http/Session.antt =====
-- The session of a connection (http/http1/handler.go) and the writer that puts the head before the
-- body (writerWrapper of http/http1/bodyWriter.go). What the stream and the handler of errors do to
-- the world W is a parameter. The lock of the connection is a Boolean: `none` is what Go makes of the
-- unlock of a mutex that is not locked, the end of the whole program.
pub mod Lock
pub mod Broken
pub mod Frames
use jotpot_server.Base.{
  ℕ, zero, suc, ◌-◌, Bool, true, false, not, ◌&&◌, ◌||◌, Option, none, some, List, [], ◌∷◌, ◌++◌,
  ◌==◌, if◌then◌else◌, Bytes, equal, codes, length, inl, inr,
}
use jotpot_server.Base.Int.{ℤ, is_negative, sub_ℕ}
use jotpot_server.Http.Header.{Header, Processor, Meanwhile, new_header, set_values_raw, has}
use jotpot_server.Http.Message.{set_alone}
use jotpot_server.Http.Cache.Resource.{ResourceCacheControl}
use jotpot_server.Http.Cache.Held.{Held, format_response_cache_control}
use jotpot_server.Http.Version.{Version}
use jotpot_server.Http.Heads.{Reader, ReadError}
use jotpot_server.Http.Requests.{
  Urls, RequestHead, RequestError, RequestResult, request, rejected, panic, no_fuel, parse_request,
  ResponseHead, format_response,
}

pub record Stream (W E : Type 0) : Type 0 where
  pub write : Bytes → W → W × ℕ × Option E
  pub close : W → W × Option E

pub record Session (W : Type 0) : Type 0 where
  pub reader : Reader
  pub close : Bool
  pub hyjacked : Bool
  pub locked : Bool
  pub world : W

-- A response whose head is or is not yet written, and the session.
pub record Exchange (W : Type 0) : Type 0 where
  pub session : Session W
  pub header : Header
  pub head_written : Bool

pub data WriteError (E : Type 0) : Type 0 where
  inner : E → WriteError E
  failed_to_write_header : E → WriteError E
  short_header : WriteError E

abbrev pub map_error : {E : Type 0} → (E → WriteError E) → Option E → Option (WriteError E)
map_error f none = none
map_error f (some e) = some (f e)

module _ {W : Type 0} where
  unfoldable pub unlock : Session W → Option (Session W)
  unlock s = if s.locked then some (record s { locked = false }) else none

  unfoldable pub end_session : Session W → Session W
  end_session s = record s { close = true }

  -- The stream that is handed out reads what the session has not read.
  unfoldable pub hyjack : Session W → Session W
  hyjack s = record s { hyjacked = true; close = true }

  -- The session and the header behind the tests of the header generator.
  unfoldable pub connection_header : Session W → Header → Option (Session W × Header)
  connection_header s h =
      let (h', says_close) = has (codes "Connection") (codes "close" ∷ []) h in
      if says_close
      then (elim (unlock (record s { close = true })) [ none ↦ none | some s' ↦ some (s', h') ])
      else if s.close
      then (elim (unlock s) [
        | none ↦ none
        | some s' ↦ some (s', set_alone (codes "Connection") (codes "close") h')
      ])
      else some (s, set_alone (codes "Connection") (codes "keep-alive") h')

-- The fields of the response that its head is made of, beside the header.
pub record Response : Type 0 where
  pub version : Version
  pub status_code : ℕ
  pub status_text : Bytes
  pub has_cache_control : Bool
  pub cache_control : ResourceCacheControl

-- `FormatCacheControl`, whose error is not looked at, and `FormatResponse`.
unfoldable pub format_head :
    (Bytes → Bytes) → (ℤ → Bytes) → ℤ → (ℕ → Bytes) → Response → Header → Header × Bytes
format_head to_lower format now status_text resp h =
    let (held, err) = format_response_cache_control to_lower format now (record {
      header = h;
      has_cache_control = resp.has_cache_control;
      cache_control = resp.cache_control;
    }) in
    (
      held.header,
      format_response status_text (record {
        version = resp.version;
        status_code = resp.status_code;
        status_text = resp.status_text;
        header = held.header;
      }),
    )

unfoldable pub close_stream : {W E : Type 0} → Stream W E → Session W → Session W × Option E
close_stream stream s = let (w, err) = stream.close s.world in (record s { world = w }, err)

-- What a handler does with the response's writer.
pub data Op : Type 0 where
  write_op : Bytes → Op
  flush_op : Op

-- `format` is `format_head` of the response.
module _ {W E : Type 0} (stream : Stream W E) (format : Header → Header × Bytes) where
  unfoldable pub header_generator : Exchange W → Option (Exchange W × Bytes)
  header_generator x = elim (connection_header x.session x.header) [
    | none ↦ none
    | some (s, h) ↦ let (h', head) = format h in some (record x { session = s; header = h' }, head)
  ]

  -- A write to the stream.
  unfoldable pub stream_write : Bytes → Exchange W → Exchange W × ℕ × Option E
  stream_write bytes x =
      let (w, n, err) = stream.write bytes x.session.world in
      (record x { session = record x.session { world = w } }, n, err)

  unfoldable pub write_header : Exchange W → Option (Exchange W × Option (WriteError E))
  write_header x = elim (header_generator x) [
    | none ↦ none
    | some (x', head) ↦
        let (x'', n, err) = stream_write head x' in
        elim err [
          | some e ↦ some (x'', some (failed_to_write_header e))
          | none ↦
              if n == length head
              then some (record x'' { head_written = true }, none)
              else some (x'', some short_header)
        ]
  ]

  -- What `Write` does behind the write of the head of `size` bytes with the body's first ones.
  unfoldable pub behind_head :
      ℕ → Exchange W × ℕ × Option E → Exchange W × ℤ × Option (WriteError E)
  behind_head size (x, n, err) =
      if is_negative (sub_ℕ n size)
      then (x, sub_ℕ n size, (elim err [ none ↦ some short_header | some e ↦ some (inner e) ]))
      else (record x { head_written = true }, sub_ℕ n size, map_error inner err)

  unfoldable pub write : Bytes → Exchange W → Option (Exchange W × ℤ × Option (WriteError E))
  write src x =
      if x.head_written
      then (let (x', n, err) = stream_write src x in some (x', sub_ℕ n 0, map_error inner err))
      else (elim (header_generator x) [
        | none ↦ none
        | some (x', head) ↦ some (behind_head (length head) (stream_write (head ++ src) x'))
      ])

  -- The flush of the stream does nothing.
  unfoldable pub flush : Exchange W → Option (Exchange W × Option (WriteError E))
  flush x = if x.head_written then some (x, none) else write_header x

  -- The function that the session gives the writer to close it.
  unfoldable pub close_exchange : Exchange W → Option (Exchange W × Option E)
  close_exchange x =
      let (s, err) = close_stream stream x.session in
      if x.session.close && not x.session.hyjacked
      then some (record x { session = s }, err)
      else (elim (unlock x.session) [
        | none ↦ none
        | some s' ↦ some (record x { session = s' }, none)
      ])

  unfoldable pub close : Exchange W → Option (Exchange W × Option (WriteError E))
  close x =
      let closed : Exchange W
          → Option (WriteError E)
          → Option (Exchange W × Option (WriteError E)) =
        λ y first. elim (close_exchange y) [
          | none ↦ none
          | some (y', err) ↦ elim first [
            | some e ↦ some (y', some e)
            | none ↦ some (y', map_error inner err)
          ]
        ] in
      if x.head_written
      then closed x none
      else (elim (write_header x) [ none ↦ none | some (x', err) ↦ closed x' err ])

  -- The operations, and the close behind them.
  unfoldable pub serve : List Op → Exchange W → Option (Exchange W)
  serve [] x = elim (close x) [ none ↦ none | some (x', err) ↦ some x' ]
  serve (write_op src ∷ ops) x = elim (write src x) [ none ↦ none | some (x', _, _) ↦ serve ops x' ]
  serve (flush_op ∷ ops) x = elim (flush x) [ none ↦ none | some (x', _) ↦ serve ops x' ]

-- The loop over empty lines: `Peek(2)` fails if fewer than two bytes are to come.
unfoldable pub skip_empty_lines : ℕ → Bytes → Option Bytes
skip_empty_lines zero bytes = some bytes
skip_empty_lines (suc i) [] = none
skip_empty_lines (suc i) (a ∷ []) = none
skip_empty_lines (suc i) (a ∷ b ∷ rest) =
    let more = skip_empty_lines i rest in if a == 13 && b == 10 then more else some (a ∷ b ∷ rest)

pub data FrameError (E : Type 0) : Type 0 where
  consumer_loop : ReadError → FrameError E
  parsing : RequestError E → FrameError E

-- What `Frame` returns; or it waits for the lock, or panics.
pub data FrameResult (W U E : Type 0) : Type 0 where
  frame_of : RequestHead U → Exchange W → FrameResult W U E
  end_of_session : Session W → FrameResult W U E
  frame_error : FrameError E → Session W → FrameResult W U E
  waits frame_panic : FrameResult W U E

-- `handle_error` is what `HandleError` does, `date` the text of the time.
module _ {W U E : Type 0} (stream : Stream W E) (urls : Urls U E)
    (handle_error : RequestError E → W → W) (p : Processor) (date : Bytes) where
  -- What every failure of `Frame` does behind its own part: the session is to be closed, the lock is
  -- released and the stream is closed.
  unfoldable pub abandon : Session W → (Session W → FrameResult W U E) → FrameResult W U E
  abandon s result = elim (unlock (record s { close = true })) [
    | none ↦ frame_panic
    | some s' ↦ result (close_stream stream s').0
  ]

  unfoldable pub response_header : Header
  response_header =
      let h = new_header p in
      record h { values = set_values_raw (λ m. m) (codes "Date") (date ∷ []) h.values }

  -- A head on which the model's fuel ran out would count as a panic.
  unfoldable pub parsed_frame : Session W → RequestResult U E → FrameResult W U E
  parsed_frame s (request req closes r) =
      let s' = record s { reader = r; close = closes } in
      frame_of req (record { session = s'; header = response_header; head_written = false })
  parsed_frame s (rejected e true r) =
      abandon (record s { reader = r; world = handle_error e s.world }) end_of_session
  parsed_frame s (rejected e false r) = abandon (record s { reader = r }) (frame_error (parsing e))
  parsed_frame s panic = frame_panic
  parsed_frame s no_fuel = frame_panic

  -- `Frame` behind the lock.
  unfoldable pub locked_frame : Session W → FrameResult W U E
  locked_frame s =
      let next : FrameResult W U E = elim (skip_empty_lines 5 s.reader.bytes) [
        | none ↦ abandon s (frame_error (consumer_loop s.reader.ends))
        | some bytes ↦
            let r = record s.reader { bytes = bytes } in
            parsed_frame (record s { reader = r }) (parse_request urls p r)
      ] in
      if s.close
      then (elim (unlock s) [ none ↦ frame_panic | some s' ↦ end_of_session s' ])
      else next

  -- `Frame` waits as long as the lock is held.
  unfoldable pub frame : Session W → FrameResult W U E
  frame s = if s.locked then waits else locked_frame (record s { locked = true })
