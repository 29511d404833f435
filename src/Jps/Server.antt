-- ===== src/Jps/Server.antt =====
-- The state of the server and its count of connections (jps/server.go). The fields that the locks
-- guard are `Control`; each function is what one holder of the locks does, and `Step` interleaves
-- the goroutines that serve connections with calls of Open and Close.
pub mod Lifecycle
pub mod Registry
use jotpot_server.Base.{
  ℕ, suc, ◌+◌, ◌-◌, ◌%◌, ◌^◌, ◌<◌, ◌≡◌, Bool, true, false, Option, none, some, ◌==◌, if◌then◌else◌,
}

pub data State : Type 0 where
  closed closing open_ : State

pub State-discrete : Discrete State
State-discrete = hlevel

-- `s.state == x`.
unfoldable pub is_state : State → State → Bool
is_state closed closed = true
is_state closing closing = true
is_state open_ open_ = true
is_state _ _ = false

pub record Control : Type 0 where
  pub state : State
  pub connections : ℕ

-- `connections` is a uint64.
unfoldable pub increment : Control → Control
increment c = record c { connections = (c.connections + 1) % 2 ^ 64 }

unfoldable pub decrement : Control → Control
decrement c = record c { connections = (c.connections + 2 ^ 64 - 1) % 2 ^ 64 }

-- Whether the connection may be served. The state's lock is held from the test to the increment.
unfoldable pub register_connection : Control → Control × Bool
unfolding is_state increment
register_connection c = if is_state c.state open_ then (increment c, true) else (c, false)

unfoldable pub change_state : State → Control → Control
change_state s c = record c { state = s }

unfoldable pub server_open : Control → Control
unfolding change_state
server_open c = change_state open_ c

unfoldable pub server_close : Control → Control
unfolding change_state
server_close c = change_state closing c

-- The two critical sections of `changeStateIf`: the test under the read lock, then the test and the
-- change under the write lock.
unfoldable pub change_state_if_test : State → Control → Bool
unfolding is_state
change_state_if_test cond c = is_state c.state cond

unfoldable pub change_state_if_set : State → State → Control → Control
unfolding is_state
change_state_if_set cond to c = if is_state c.state cond then record c { state = to } else c

-- How many goroutines stand where in HandleStream, HandleStreamSession and deregisterConnection:
-- serving a connection; behind the decrement; behind a test that saw no connection; behind the
-- first test of changeStateIf.
pub record Threads : Type 0 where
  pub serving : ℕ
  pub decremented : ℕ
  pub idle : ℕ
  pub upgrading : ℕ

pub record Server : Type 0 where
  pub control : Control
  pub threads : Threads

-- One goroutine passes one critical section, or an owner of the server calls Close or Open. That
-- there are fewer than 2^64 goroutines is the premise of `register`.
pub data Step : Server → Server → Type 0 where
  register :
      (c : Control) (t : Threads) (n : ℕ)
      → t.serving ≡ n
      → suc n < 2 ^ 64
      → (register_connection c).1 ≡ true
      → Step
          (record { control = c; threads = t })
          (record { control = (register_connection c).0; threads = record t { serving = suc n } })
  refuse :
      (c : Control) (t : Threads)
      → (register_connection c).1 ≡ false
      → Step
          (record { control = c; threads = t })
          (record { control = (register_connection c).0; threads = t })
  served :
      (c : Control) (t : Threads) (n : ℕ)
      → t.serving ≡ suc n
      → Step
          (record { control = c; threads = t })
          (record {
            control = decrement c;
            threads = record t { serving = n; decremented = suc t.decremented };
          })
  see_none :
      (c : Control) (t : Threads) (n : ℕ)
      → t.decremented ≡ suc n
      → (c.connections == 0) ≡ true
      → Step
          (record { control = c; threads = t })
          (record { control = c; threads = record t { decremented = n; idle = suc t.idle } })
  see_some :
      (c : Control) (t : Threads) (n : ℕ)
      → t.decremented ≡ suc n
      → (c.connections == 0) ≡ false
      → Step
          (record { control = c; threads = t })
          (record { control = c; threads = record t { decremented = n } })
  test_closing :
      (c : Control) (t : Threads) (n : ℕ)
      → t.idle ≡ suc n
      → change_state_if_test closing c ≡ true
      → Step
          (record { control = c; threads = t })
          (record { control = c; threads = record t { idle = n; upgrading = suc t.upgrading } })
  test_other :
      (c : Control) (t : Threads) (n : ℕ)
      → t.idle ≡ suc n
      → change_state_if_test closing c ≡ false
      → Step
          (record { control = c; threads = t })
          (record { control = c; threads = record t { idle = n } })
  set_closed :
      (c : Control) (t : Threads) (n : ℕ)
      → t.upgrading ≡ suc n
      → Step
          (record { control = c; threads = t })
          (record {
            control = change_state_if_set closing closed c;
            threads = record t { upgrading = n };
          })
  call_close :
      (c : Control) (t : Threads)
      → Step
          (record { control = c; threads = t })
          (record { control = server_close c; threads = t })
  call_open :
      (c : Control) (t : Threads)
      → Step (record { control = c; threads = t }) (record { control = server_open c; threads = t })

-- The steps in between, in turn.
pub data Reach (s : Server) : Server → Type 0 where
  here : Reach s s
  next : {t u : Server} → Reach s t → Step t u → Reach s u
