-- ===== src/Ssh/Moves.antt =====
-- internal/sshrun/runner.go: any number of callers of `client` and of the functions that drop
-- connections, interleaved.
use khealth_tui.Base.{ℕ, ◌+◌, ◌≡◌, ◌≢◌, Option, none, some, if◌then◌else◌, ◌==◌}
use khealth_tui.Text.{Text}
use khealth_tui.Ssh.{
  Runner, Caller, idle, queued, inside, dialing, opened, denied, connected, failed, dropping,
  cached, refused, absent, look, start_dial, arrived, store, dial_failed, forget_dead, close_conn,
  drop_host, close, new_runner,
}

-- The address whose mutex of `dialing` the caller holds.
abbrev pub holds : Caller → Option Text
holds (inside a) = some a
holds (dialing a c) = some a
holds (opened a c) = some a
holds (denied a e) = some a
holds _ = none

pub record System : Type 0 where
  pub runner : Runner
  pub caller : ℕ → Caller

-- The system with no connection and no caller.
abbrev pub at_rest : System
at_rest = record { runner = new_runner; caller = λ i. idle }

-- Caller `i` moves to `p`.
abbrev pub moved : (ℕ → Caller) → ℕ → Caller → ℕ → Caller
moved f i p j = if i == j then p else f j

-- `dm.Lock()` returns only when nobody holds the mutex of the address. Each section under `mu` is one
-- step, as are the start of a dial, its end, and the close of a dead connection, which holds no lock.
pub data Step (s : System) : System → Type 0 where
  call :
      (i : ℕ) (addr : Text)
      → s.caller i ≡ idle
      → Step s (record s { caller = moved s.caller i (queued addr) })
  lock :
      (i : ℕ) (addr : Text)
      → s.caller i ≡ queued addr
      → ((j : ℕ) → holds (s.caller j) ≢ some addr)
      → Step s (record s { caller = moved s.caller i (inside addr) })
  hit :
      (i : ℕ) (addr : Text) (now c : ℕ)
      → s.caller i ≡ inside addr
      → look s.runner addr now ≡ cached c
      → Step s (record s { caller = moved s.caller i (connected addr c) })
  memo :
      (i : ℕ) (addr : Text) (now : ℕ) (e : Text)
      → s.caller i ≡ inside addr
      → look s.runner addr now ≡ refused e
      → Step s (record s { caller = moved s.caller i (failed addr e) })
  miss :
      (i : ℕ) (addr : Text) (now : ℕ)
      → s.caller i ≡ inside addr
      → look s.runner addr now ≡ absent
      → Step s (record {
        runner = start_dial s.runner;
        caller = moved s.caller i (dialing addr (s.runner.dials + 1));
      })
  answer :
      (i : ℕ) (addr : Text) (c : ℕ)
      → s.caller i ≡ dialing addr c
      → Step s
          (record { runner = arrived s.runner addr c; caller = moved s.caller i (opened addr c) })
  keep_conn :
      (i : ℕ) (addr : Text) (c : ℕ)
      → s.caller i ≡ opened addr c
      → Step s
          (record { runner = store s.runner addr c; caller = moved s.caller i (connected addr c) })
  no_answer :
      (i : ℕ) (addr : Text) (c : ℕ) (e : Text)
      → s.caller i ≡ dialing addr c
      → Step s (record s { caller = moved s.caller i (denied addr e) })
  keep_error :
      (i : ℕ) (addr e : Text) (now : ℕ)
      → s.caller i ≡ denied addr e
      → Step s (record {
        runner = dial_failed s.runner addr e now;
        caller = moved s.caller i (failed addr e);
      })
  back_connected :
      (i : ℕ) (addr : Text) (c : ℕ)
      → s.caller i ≡ connected addr c
      → Step s (record s { caller = moved s.caller i idle })
  back_failed :
      (i : ℕ) (addr e : Text)
      → s.caller i ≡ failed addr e
      → Step s (record s { caller = moved s.caller i idle })
  dead :
      (i : ℕ) (addr : Text) (c : ℕ)
      → s.caller i ≡ connected addr c
      → Step s (record {
        runner = forget_dead s.runner addr c;
        caller = moved s.caller i (dropping addr c);
      })
  shut_dead :
      (i : ℕ) (addr : Text) (c : ℕ)
      → s.caller i ≡ dropping addr c
      → Step s
          (record { runner = close_conn s.runner c; caller = moved s.caller i (connected addr c) })
  stale : (addr : Text) → Step s (record s { runner = drop_host s.runner addr })
  end_all : Step s (record s { runner = close s.runner })

pub data Reach : System → Type 0 where
  start : Reach at_rest
  later : {s t : System} → Reach s → Step s t → Reach t
