-- ===== src/Jps/Server/Lifecycle.antt =====
-- What closing the server guarantees, and what it does not.
use mathlib.Core.Path.{subst}
use jotpot_server.Base.{ℕ, zero, suc, ◌+◌, ◌%◌, ◌^◌, ◌<◌, ◌≡◌, ◌≢◌, ◌⊎◌, inl, refl, arith}
use jotpot_server.Jps.Server.{
  State, closed, closing, open_, Server, decrement, register_connection, server_open, server_close,
  change_state_if_test, change_state_if_set, Step, register, refuse, served, see_none, see_some,
  test_closing, test_other, set_closed, call_close, call_open, Reach, here, next,
}

-- The count is the number of goroutines that serve a connection.
pub record IsCounted (s : Server) : Type 0 where
  pub fits : s.threads.serving < 2 ^ 64
  pub counted : s.control.connections ≡ s.threads.serving

Step-IsCounted : {s t : Server} → Step s t → IsCounted s → IsCounted t
unfolding register_connection decrement server_close server_open change_state_if_set
Step-IsCounted (register c t n e f h) v = ground arith
Step-IsCounted (refuse c t h) v = ground arith
Step-IsCounted (served c t n e) v = ground arith
Step-IsCounted (see_none c t n e h) v = ground arith
Step-IsCounted (see_some c t n e h) v = ground arith
Step-IsCounted (test_closing c t n e h) v = ground arith
Step-IsCounted (test_other c t n e h) v = ground arith
Step-IsCounted (set_closed c t n e) v = ground arith
Step-IsCounted (call_close c t) v = ground arith
Step-IsCounted (call_open c t) v = ground arith

-- Whatever Open, Close and the goroutines do, the count of connections stays the number of
-- goroutines that serve one; in particular no decrement wraps around.
pub Reach-IsCounted : {s t : Server} → IsCounted s → Reach s t → IsCounted t
Reach-IsCounted v here = v
Reach-IsCounted v (next r st) = Step-IsCounted st (Reach-IsCounted v r)

-- Steps during which the server is never open again.
pub data ReachShut (s : Server) : Server → Type 0 where
  here_shut : ReachShut s s
  next_shut : {t u : Server} → ReachShut s t → Step t u → u.control.state ≢ open_ → ReachShut s u

-- No goroutine that saw no connection is still to test the state unless there is none, and a closed
-- server has none.
pub record IsDraining (s : Server) : Type 0 where
  pub counted : IsCounted s
  pub not_open : s.control.state ≢ open_
  pub idle_none : (s.threads.idle ≡ 0) ⊎ (s.control.connections ≡ 0)
  pub upgrading_none : (s.threads.upgrading ≡ 0) ⊎ (s.control.connections ≡ 0)
  pub closed_none : (s.control.state ≢ closed) ⊎ (s.control.connections ≡ 0)

Step-IsDraining : {s t : Server} → Step s t → t.control.state ≢ open_ → IsDraining s → IsDraining t
unfolding register_connection decrement server_close server_open change_state_if_set
Step-IsDraining (register c t n e f h) shut v = ground arith
Step-IsDraining (refuse c t h) shut v = ground arith
Step-IsDraining (served c t n e) shut v = ground arith
Step-IsDraining (see_none c t n e h) shut v = ground arith
Step-IsDraining (see_some c t n e h) shut v = ground arith
Step-IsDraining (test_closing c t n e h) shut v = ground arith
Step-IsDraining (test_other c t n e h) shut v = ground arith
Step-IsDraining (set_closed c t n e) shut v = ground arith
Step-IsDraining (call_close c t) shut v = ground arith
Step-IsDraining (call_open c t) shut v = ground arith

ReachShut-IsDraining : {s t : Server} → IsDraining s → ReachShut s t → IsDraining t
ReachShut-IsDraining v here_shut = v
ReachShut-IsDraining v (next_shut r st shut) = Step-IsDraining st shut (ReachShut-IsDraining v r)

-- If no goroutine stands between its test of the count and its test of the state when the server
-- begins to close, then as long as it is not opened again it is closed only when no goroutine
-- serves a connection.
pub closed_drained :
    {s t : Server}
    → IsCounted s
    → s.control.state ≡ closing
    → s.threads.idle ≡ 0
    → s.threads.upgrading ≡ 0
    → ReachShut s t
    → t.control.state ≡ closed
    → t.threads.serving ≡ 0
closed_drained {s} v e i u r c =
    let d : IsDraining s = record {
      counted = v;
      not_open = λ o. cc;
      idle_none = inl i;
      upgrading_none = inl u;
      closed_none = inl (λ o. cc);
    } in
    let d' = ReachShut-IsDraining d r in ground (arith, d'.counted.counted, d'.closed_none, c)

abbrev pub at_rest : State → Server
at_rest s = record {
  control = record { state = s; connections = 0 };
  threads = record { serving = 0; decremented = 0; idle = 0; upgrading = 0 };
}

-- No goroutine is anywhere.
pub record IsAtRest (s : Server) : Type 0 where
  pub counted : s.control.connections ≡ 0
  pub serving : s.threads.serving ≡ 0
  pub decremented : s.threads.decremented ≡ 0
  pub idle : s.threads.idle ≡ 0
  pub upgrading : s.threads.upgrading ≡ 0
  pub closing : s.control.state ≡ closing

Step-IsAtRest : {s t : Server} → Step s t → t.control.state ≢ open_ → IsAtRest s → IsAtRest t
unfolding register_connection decrement server_close server_open change_state_if_set
Step-IsAtRest (register c t n e f h) shut v = ground arith
Step-IsAtRest (refuse c t h) shut v = ground arith
Step-IsAtRest (served c t n e) shut v = ground arith
Step-IsAtRest (see_none c t n e h) shut v = ground arith
Step-IsAtRest (see_some c t n e h) shut v = ground arith
Step-IsAtRest (test_closing c t n e h) shut v = ground arith
Step-IsAtRest (test_other c t n e h) shut v = ground arith
Step-IsAtRest (set_closed c t n e) shut v = ground arith
Step-IsAtRest (call_close c t) shut v = ground arith
Step-IsAtRest (call_open c t) shut v = ground arith

-- A server that is closing while no goroutine serves a connection, or has one to report as done,
-- stays in that state until it is opened again: it never becomes closed.
pub closing_at_rest : {s t : Server} → IsAtRest s → ReachShut s t → t.control.state ≡ closing
closing_at_rest v r = (go v r).closing
  where
    go : {s t : Server} → IsAtRest s → ReachShut s t → IsAtRest t
    go v here_shut = v
    go v (next_shut r st shut) = Step-IsAtRest st shut (go v r)

-- The server is open, `n` goroutines serve a connection and `i` have seen none.
abbrev pub busy : State → ℕ → ℕ → ℕ → Server
busy s n d i = record {
  control = record { state = s; connections = n };
  threads = record { serving = n; decremented = d; idle = i; upgrading = 0 };
}

Reach-register :
    {s : Server} (n d i : ℕ)
    → suc n < 2 ^ 64
    → Reach s (busy open_ n d i)
    → Reach s (busy open_ (suc n) d i)
unfolding register_connection
Reach-register {s} n d i h r =
    let counted : (n + 1) % 2 ^ 64 ≡ suc n = omega arith in
    subst
      (λ k. Reach s (record {
        control = record { state = open_; connections = k };
        threads = record { serving = suc n; decremented = d; idle = i; upgrading = 0 };
      }))
      counted (next r (register _ _ n refl h refl))

Reach-served : {s : Server} (i : ℕ) → Reach s (busy open_ 1 0 i) → Reach s (busy open_ 0 1 i)
unfolding decrement
Reach-served i r = next r (served _ _ 0 refl)

Reach-busy : (n : ℕ) → n < 2 ^ 64 → Reach (at_rest open_) (busy open_ n 0 1)
Reach-busy zero h =
    next (Reach-served 0 (Reach-register 0 0 0 (omega arith) here)) (see_none _ _ 0 refl refl)
Reach-busy (suc n) h = Reach-register n 0 1 h (Reach-busy n (omega arith))

-- A goroutine that saw no connection while the server was open closes it after Close is called: from
-- an open server at rest, a closed server that still serves n connections is reached, for every n
-- below 2^64.
pub closed_while_serving : (n : ℕ) → n < 2 ^ 64 → Reach (at_rest open_) (busy closed n 0 0)
unfolding server_close change_state_if_set change_state_if_test
closed_while_serving n h =
    let closing_now = next (Reach-busy n h) (call_close _ _) in
    next (next closing_now (test_closing _ _ 0 refl refl)) (set_closed _ _ 0 refl)
