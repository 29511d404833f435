-- ===== src/Http/Session/Lock/Released.antt =====
-- Where the header generator releases the lock of a session.
use jotpot_server.Base.{
  ◌≡◌, refl, inl, inr, Bool, true, false, not, ◌||◌, [], ◌∷◌, Option, some, none, if◌then◌else◌,
  Bytes, length, codes, Bool-cases,
}
use jotpot_server.Http.Header.{Header, has}
use jotpot_server.Http.Message.{set_alone}
use jotpot_server.Http.Session.{Stream, Session, Exchange, unlock, connection_header}

-- Every write to the stream takes all bytes.
pub record Works {W E : Type 0} (stream : Stream W E) : Type 0 where
  pub takes : (b : Bytes) (w : W) → (stream.write b w).1 ≡ length b
  pub no_error : (b : Bytes) (w : W) → (stream.write b w).2 ≡ none

-- From the world `w` other writes to the stream, and nothing else, lead to the second world.
pub data Wrote {W E : Type 0} (stream : Stream W E) (w : W) : W → Type 0 where
  unwritten : Wrote stream w w
  wrote : {w' : W} (b : Bytes) → Wrote stream w w' → Wrote stream w (stream.write b w').0

-- The response says that the connection is to be closed behind it.
abbrev pub says_close : Header → Bool
says_close h = (has (codes "Connection") (codes "close" ∷ []) h).1

-- Before the head is written the frame holds the lock.
pub record IsFresh {W : Type 0} (x : Exchange W) : Type 0 where
  pub unwritten : x.head_written ≡ false
  pub holds : x.session.locked ≡ true
  pub own : x.session.hyjacked ≡ false

-- Behind the head, the lock is held if the connection goes on.
pub record IsHeaded {W : Type 0} (closes : Bool) (x : Exchange W) : Type 0 where
  pub written : x.head_written ≡ true
  pub closing : x.session.close ≡ closes
  pub holds : x.session.locked ≡ not closes
  pub own : x.session.hyjacked ≡ false

pub record IsReleased {W : Type 0} (h : Header) (s : Session W) (r : Option (Session W × Header))
    : Type 0 where
  pub session : Session W
  pub header : Header
  pub is_some : r ≡ some (session, header)
  pub closing : session.close ≡ says_close h || s.close
  pub holds : session.locked ≡ not (says_close h || s.close)
  pub own : session.hyjacked ≡ s.hyjacked
  pub same : session.world ≡ s.world

pub connection_header-IsReleased :
    {W : Type 0} (s : Session W) (h : Header)
    → s.locked ≡ true
    → IsReleased h s (connection_header s h)
unfolding connection_header unlock
connection_header-IsReleased s h l = elim (Bool-cases (says_close h)) [
  | inl c ↦ record {
    session = record s { close = true; locked = false };
    header = (has (codes "Connection") (codes "close" ∷ []) h).0;
    is_some = rw c (rw l refl);
    closing = rw c refl;
    holds = rw c refl;
    own = refl;
    same = refl;
  }
  | inr c ↦ elim (Bool-cases s.close) [
    | inl d ↦ record {
      session = record s { locked = false };
      header =
          set_alone (codes "Connection") (codes "close")
            (has (codes "Connection") (codes "close" ∷ []) h).0;
      is_some = rw c (rw d (rw l refl));
      closing = rw (c, d) refl;
      holds = rw (c, d) refl;
      own = refl;
      same = refl;
    }
    | inr d ↦ record {
      session = s;
      header =
          set_alone (codes "Connection") (codes "keep-alive")
            (has (codes "Connection") (codes "close" ∷ []) h).0;
      is_some = rw c (rw d refl);
      closing = rw (c, d) refl;
      holds = rw (c, d) l;
      own = refl;
      same = refl;
    }
  ]
]

pub if_true {ℓ} : {A : Type ℓ} (b : Bool) (x y : A) → b ≡ true → (if b then x else y) ≡ x
if_true b x y e = rw e refl

pub if_false {ℓ} : {A : Type ℓ} (b : Bool) (x y : A) → b ≡ false → (if b then x else y) ≡ y
if_false b x y e = rw e refl
