-- ===== src/Ssh.antt =====
-- internal/sshrun/runner.go: the cache of connections, which concurrent callers share.
pub mod Cache
pub mod Env
pub mod Become
pub mod Run
pub mod Moves
pub mod Owned
pub mod Single
mod Tests
use khealth_tui.Base.{
  ℕ, ◌+◌, ◌-◌, ◌*◌, Bool, true, false, List, [], ◌∷◌, Option, none, some, if◌then◌else◌, ltb, ◌==◌,
  not, keep,
}
use khealth_tui.Text.{Text, text_eq}
use khealth_tui.Text.Assoc.{get, put, del}

-- `dialFailure`, with its time in nanoseconds.
pub record DialFailure : Type 0 where
  pub err : Text
  pub at : ℕ

-- `becomeMethod`: no tool for a login that is root already.
pub record Method : Type 0 where
  pub tool : Text
  pub with_pass : Bool

-- The fields of `Runner` that change. A connection is the number of the dial that opened it; `live`
-- holds the connections that are open, with their addresses.
pub record Runner : Type 0 where
  pub clients : List (Text × ℕ)
  pub dials : ℕ
  pub dial_fail : List (Text × DialFailure)
  pub become : List (Text × Method)
  pub live : List (Text × ℕ)

abbrev pub dial_fail_memo : ℕ
dial_fail_memo = 5000000000

abbrev pub new_runner : Runner
new_runner = record { clients = []; dials = 0; dial_fail = []; become = []; live = [] }

-- `c.Close()`.
unfoldable pub shut : ℕ → List (Text × ℕ) → List (Text × ℕ)
shut c [] = []
shut c ((a, d) ∷ live) = let rest = shut c live in if c == d then rest else (a, d) ∷ rest

-- What `client` finds before it dials: a connection, an error that still answers, or nothing.
pub data Found : Type 0 where
  cached : ℕ → Found
  refused : Text → Found
  absent : Found

unfoldable pub look : Runner → Text → ℕ → Found
look r addr now = elim (get addr r.clients) [
  | some c ↦ cached c
  | none ↦ elim (get addr r.dial_fail) [
    | none ↦ absent
    | some f ↦ (if ltb (now - f.at) dial_fail_memo then refused f.err else absent)
  ]
]

-- `r.dials.Add(1)`; the new count names the connection.
unfoldable pub start_dial : Runner → Runner
start_dial r = record r { dials = r.dials + 1 }

-- The dial has ended with an open connection, which no cache holds yet.
unfoldable pub arrived : Runner → Text → ℕ → Runner
arrived r addr c = record r { live = (addr, c) ∷ r.live }

-- `r.clients[addr] = c`, under `mu`.
unfoldable pub store : Runner → Text → ℕ → Runner
store r addr c = record r { clients = put addr c r.clients }

-- Both, when nobody comes between.
unfoldable pub dialed : Runner → Text → ℕ → Runner
unfolding arrived store
dialed r addr c = store (arrived r addr c) addr c

unfoldable pub dial_failed : Runner → Text → Text → ℕ → Runner
dial_failed r addr e now = record r {
  dial_fail = put addr (record { err = e; at = now }) r.dial_fail;
}

abbrev pub is_conn : Option ℕ → ℕ → Bool
is_conn none c = false
is_conn (some d) c = d == c

-- What `dropDead` does under `mu`, and after it: the connection is closed without the lock.
unfoldable pub forget_dead : Runner → Text → ℕ → Runner
forget_dead r addr c =
    if is_conn (get addr r.clients) c
    then record r { clients = del addr r.clients; become = del addr r.become }
    else r

unfoldable pub close_conn : Runner → ℕ → Runner
unfolding shut
close_conn r c = record r { live = shut c r.live }

-- Both, when nobody comes between.
unfoldable pub drop_dead : Runner → Text → ℕ → Runner
unfolding forget_dead close_conn
drop_dead r addr c = close_conn (forget_dead r addr c) c

unfoldable pub drop_host : Runner → Text → Runner
unfolding shut
drop_host r addr = elim (get addr r.clients) [
  | none ↦ record r { become = del addr r.become }
  | some c ↦ record r {
    clients = del addr r.clients;
    become = del addr r.become;
    live = shut c r.live;
  }
]

-- The loop of `Close`.
unfoldable pub shut_all : List (Text × ℕ) → List (Text × ℕ) → List (Text × ℕ)
unfolding shut
shut_all [] live = live
shut_all ((a, c) ∷ clients) live = shut_all clients (shut c live)

unfoldable pub close : Runner → Runner
unfolding shut_all
close r = record r { clients = []; live = shut_all r.clients r.live }

-- Where a caller of `client` stands, with its address: before the lock of the address, holding it,
-- dialing under it, with the end of the dial that is not written down yet, or back with a connection or
-- an error; and between the two halves of `dropDead`.
pub data Caller : Type 0 where
  idle : Caller
  queued : Text → Caller
  inside : Text → Caller
  dialing : Text → ℕ → Caller
  opened : Text → ℕ → Caller
  denied : Text → Text → Caller
  connected : Text → ℕ → Caller
  failed : Text → Text → Caller
  dropping : Text → ℕ → Caller
