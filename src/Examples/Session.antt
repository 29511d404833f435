-- ===== src/Examples/Session.antt =====
-- Runs and theorems of the session of a connection at concrete sessions.
use jotpot_server.Base.{
  ℕ, ◌≡◌, refl, Bool, true, false, ◌||◌, none, some, Option, [], ◌∷◌, ◌++◌, inl, Bytes, codes,
  length, arith,
}
use jotpot_server.Http.Header.{
  Header, Processor, new_header, has, get_key, process_values, get_values_raw_key, has_from,
}
use jotpot_server.Http.Requests.{Urls, RequestError}
use jotpot_server.Http.Heads.{eof}
use jotpot_server.Http.Heads.Lines.{reader}
use jotpot_server.Http.Session.{
  Stream, Session, Exchange, WriteError, write_op, flush_op, serve, close, hyjack, end_session,
  frame, waits,
}
use jotpot_server.Http.Session.Lock.{
  Works, IsFresh, IsHeaded, IsOver, will_close, says_close, serve-IsOver,
}
use jotpot_server.Http.Session.Broken.{TakesNothing, serve-broken, close-hyjacked, close-ended}
use jotpot_server.Http.Session.Frames.{LocksFrame, frame-LocksFrame}

-- The world is what the client has received; "!" stands for the end of the stream.
abbrev stream : Stream Bytes ℕ
stream = record { write = λ b w. (w ++ b, length b, none); close = λ w. (w ++ codes "!", none) }

stream-Works : Works stream
stream-Works = record { takes = λ b w. refl; no_error = λ b w. refl }

abbrev gone : Stream Bytes ℕ
gone = record { write = λ b w. (w, 0, some 32); close = λ w. (w, none) }

gone-TakesNothing : TakesNothing gone
gone-TakesNothing = record { nothing = λ b w. refl }

abbrev plain : Processor
plain = record { key_transforms = []; values_processors = [] }

abbrev head : Header → Header × Bytes
head h = (h, codes "HEAD ")

abbrev session : Bool → Session Bytes
session closes = record {
  reader = reader (codes "GET") eof;
  close = closes;
  hyjacked = false;
  locked = true;
  world = [];
}

abbrev exchange : Bool → Exchange Bytes
exchange closes = record {
  session = session closes;
  header = new_header plain;
  head_written = false;
}

exchange-IsFresh : (closes : Bool) → IsFresh (exchange closes)
exchange-IsFresh closes = record { unwritten = refl; holds = refl; own = refl }

serve-IsOver_example :
    (y : Exchange Bytes) × (serve stream head
        (write_op (codes "a") ∷ flush_op ∷ write_op (codes "b") ∷ [])
        (exchange true)
      ≡ some y)
    × IsOver stream head stream-Works
        (will_close stream head stream-Works (exchange true))
        (exchange true).session.world
        y.session
serve-IsOver_example =
    serve-IsOver stream head stream-Works
      (write_op (codes "a") ∷ flush_op ∷ write_op (codes "b") ∷ []) (exchange true)
      (exchange-IsFresh true)

closes_behind : says_close (exchange true).header || (exchange true).session.close ≡ true
unfolding has get_key process_values get_values_raw_key has_from new_header
closes_behind = refl

serve-broken_example : serve gone head (write_op (codes "a") ∷ []) (exchange true) ≡ none
serve-broken_example =
    serve-broken gone head (codes "a") (exchange true) gone-TakesNothing (λ h. omega arith)
      (exchange-IsFresh true) closes_behind

close-hyjacked_example :
    close stream head (record (exchange false) { session = hyjack (session false) }) ≡ none
close-hyjacked_example =
    close-hyjacked stream head (exchange false) stream-Works (exchange-IsFresh false)

abbrev urls : Urls Bytes ℕ
urls = record {
  parse_request_uri = λ s. inl s;
  host = λ u. [];
  set_host = λ h u. u;
  set_scheme = λ s u. u;
}

abbrev handle_error : RequestError ℕ → Bytes → Bytes
handle_error e w = w ++ codes "E"

abbrev headed : Exchange Bytes
headed = record (exchange false) { head_written = true }

headed-IsHeaded : IsHeaded false headed
headed-IsHeaded = record { written = refl; closing = refl; holds = refl; own = refl }

close-ended_example :
    (y : Exchange Bytes) × (e : Option (WriteError ℕ)) × (close stream head
        (record headed { session = end_session headed.session })
      ≡ some (y, e))
    × (frame stream urls handle_error plain (codes "now") y.session ≡ waits)
close-ended_example =
    close-ended stream head urls handle_error plain (codes "now") headed headed-IsHeaded

frame-LocksFrame_example :
    LocksFrame (
      frame stream urls handle_error plain
        (codes "now")
        (record (session false) { locked = false }))
frame-LocksFrame_example =
    frame-LocksFrame stream urls handle_error plain (codes "now")
      (record (session false) { locked = false }) refl refl
