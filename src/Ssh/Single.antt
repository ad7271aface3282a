-- ===== src/Ssh/Single.antt =====
-- internal/sshrun/runner.go: the dials and connections of an address, between the moves of its callers.
use khealth_tui.Base.{
  Option, ℕ, ◌+◌, ◌≡◌, ◌≢◌, refl, sym, ◌∙◌, subst, ap, none, some, arith, inl, inr, List, [], ◌∷◌,
  All, All-map_pred, In,
}
use khealth_tui.Text.{Text}
use khealth_tui.Text.Assoc.{get, get-put_other}
use khealth_tui.Ssh.{
  Caller, idle, queued, inside, dialing, opened, denied, connected, failed, dropping, start_dial,
  arrived, store, dial_failed, forget_dead, close_conn, close,
}
use khealth_tui.Ssh.Cache.{look-absent, forget_dead-free, drop_host-free}
use khealth_tui.Ssh.Moves.{
  System, Step, Reach, holds, moved, call, lock, hit, memo, miss, answer, keep_conn, no_answer,
  keep_error, back_connected, back_failed, dead, shut_dead, stale, end_all, start, later,
}
use khealth_tui.Ssh.Owned.{
  waits, stores, closes, Owned, moved_cases, moved_same, Owned-moved, none-some, no_part, some-text,
  waits-holds, stores-waits, forget_dead-live, drop_host-Owned, close-Owned, stored-Owned,
  forgotten-Owned, closed-Owned, arrived-Owned,
}

-- No two callers hold the mutex of one address.
abbrev OneHolder : (ℕ → Caller) → Type 0
OneHolder f = (i j : ℕ) (a : Text) → holds (f i) ≡ some a → holds (f j) ≡ some a → i ≡ j

-- From the start of a dial to the write of its end, no connection to the address is cached.
abbrev IsFree : List (Text × ℕ) → (ℕ → Caller) → Type 0
IsFree clients f = (i : ℕ) (a : Text) → waits (f i) ≡ some a → get a clients ≡ none

pub record Single (s : System) : Type 0 where
  pub one_holder : OneHolder s.caller
  pub free : IsFree s.runner.clients s.caller
  pub kept : All (Owned s.runner.clients s.caller) s.runner.live

OneHolder-moved :
    (f : ℕ → Caller) (i : ℕ) (p : Caller)
    → OneHolder f
    → ((k : ℕ) (a : Text) → holds p ≡ some a → holds (f k) ≡ some a → i ≡ k)
    → OneHolder (moved f i p)
OneHolder-moved f i p one mine j k a hj hk = elim (moved_cases f i p j) [
  | inl (ej, pj) ↦ (elim (moved_cases f i p k) [
    | inl (ek, pk) ↦ sym ej ∙ ek
    | inr ok ↦ sym ej ∙ mine k a (ap holds (sym pj) ∙ hj) (ap holds (sym ok) ∙ hk)
  ])
  | inr oj ↦ (elim (moved_cases f i p k) [
    | inl (ek, pk) ↦ sym (mine j a (ap holds (sym pk) ∙ hk) (ap holds (sym oj) ∙ hj)) ∙ ek
    | inr ok ↦ one j k a (ap holds (sym oj) ∙ hj) (ap holds (sym ok) ∙ hk)
  ])
]

-- A caller that held the mutex, or comes to hold none.
OneHolder-kept :
    (f : ℕ → Caller) (i : ℕ) (p : Caller)
    → ((a : Text) → holds p ≡ some a → holds (f i) ≡ some a)
    → OneHolder f
    → OneHolder (moved f i p)
OneHolder-kept f i p same one = OneHolder-moved f i p one (λ k a hp hk. one i k a (same a hp) hk)

IsFree-moved :
    (clients : List (Text × ℕ)) (f : ℕ → Caller) (i : ℕ) (p : Caller)
    → IsFree clients f
    → ((a : Text) → waits p ≡ some a → get a clients ≡ none)
    → IsFree clients (moved f i p)
IsFree-moved clients f i p free mine j a h = elim (moved_cases f i p j) [
  | inl (e, q) ↦ mine a (ap waits (sym q) ∙ h)
  | inr q ↦ free j a (ap waits (sym q) ∙ h)
]

-- A caller with no part in the connections moves, to a place without a part either.
Single-moved :
    (s : System) (i : ℕ) (from to : Caller)
    → s.caller i ≡ from
    → (stores from ≡ none) × (closes from ≡ none)
    → ((a : Text) → holds to ≡ some a → holds from ≡ some a)
    → ((a : Text) → waits to ≡ some a → get a s.runner.clients ≡ none)
    → Single s
    → Single (record s { caller = moved s.caller i to })
Single-moved s i from to e (ns, nc) hh hw inv = record {
  one_holder = OneHolder-kept s.caller i to (λ a h. ap holds e ∙ hh a h) inv.one_holder;
  free = IsFree-moved s.runner.clients s.caller i to inv.free hw;
  kept =
      All-map_pred s.runner.live
        (λ x.
          Owned-moved s.runner.clients s.runner.clients s.caller i to x inl
            (no_part stores s.caller i from x e ns) (no_part closes s.caller i from x e nc))
        inv.kept;
}

Step-Single : {s t : System} → Step s t → Single s → Single t
unfolding start_dial arrived store dial_failed close_conn close
Step-Single {s} (call i addr e) inv =
    Single-moved s i idle (queued addr) e (refl, refl) (λ a h. h) (λ a h. absurd (none-some a h))
      inv
Step-Single {s} (lock i addr e alone) inv = record {
  one_holder =
      OneHolder-moved s.caller i (inside addr) inv.one_holder
        (λ k a h q. absurd (alone k (q ∙ sym h)));
  free =
      IsFree-moved s.runner.clients s.caller i (inside addr) inv.free
        (λ a h. absurd (none-some a h));
  kept =
      All-map_pred s.runner.live
        (λ x.
          Owned-moved s.runner.clients s.runner.clients s.caller i (inside addr) x inl
            (no_part stores s.caller i (queued addr) x e refl)
            (no_part closes s.caller i (queued addr) x e refl))
        inv.kept;
}
Step-Single {s} (hit i addr now c e f) inv =
    Single-moved s i (inside addr) (connected addr c) e (refl, refl) (λ a h. absurd (none-some a h))
      (λ a h. absurd (none-some a h)) inv
Step-Single {s} (memo i addr now x e f) inv =
    Single-moved s i (inside addr) (failed addr x) e (refl, refl) (λ a h. absurd (none-some a h))
      (λ a h. absurd (none-some a h)) inv
Step-Single {s} (miss i addr now e f) inv =
    let next =
      Single-moved s i (inside addr) (dialing addr (s.runner.dials + 1)) e (refl, refl) (λ a h. h)
        (λ a h.
          subst (λ k. get k s.runner.clients ≡ none) (some-text addr a h)
            (look-absent s.runner addr now f))
        inv in
    record { one_holder = next.one_holder; free = next.free; kept = next.kept }
Step-Single {s} (answer i addr c e) inv = record {
  one_holder = OneHolder-kept s.caller i (opened addr c) (λ a h. ap holds e ∙ h) inv.one_holder;
  free =
      IsFree-moved s.runner.clients s.caller i (opened addr c) inv.free
        (λ a h. inv.free i a (ap waits e ∙ h));
  kept = arrived-Owned s.runner s.caller i addr c e inv.kept;
}
Step-Single {s} (keep_conn i addr c e) inv = record {
  one_holder =
      OneHolder-kept s.caller i (connected addr c) (λ a h. absurd (none-some a h)) inv.one_holder;
  free = λ j a q. elim (moved_cases s.caller i (connected addr c) j) [
    | inl (x, y) ↦ absurd (none-some a (ap waits (sym y) ∙ q))
    | inr y ↦
        (let at : waits (s.caller j) ≡ some a = ap waits (sym y) ∙ q in
          get-put_other a addr c s.runner.clients (λ same. absurd (apart j a at y same))
          ∙ inv.free j a at)
  ];
  kept = stored-Owned s.runner s.caller i addr c e (inv.free i addr (ap waits e)) inv.kept;
}
  where
    -- Another caller does not wait for the same address.
    apart :
        (j : ℕ) (a : Text)
        → waits (s.caller j) ≡ some a
        → moved s.caller i (connected addr c) j ≡ s.caller j
        → a ≡ addr
        → ⊥
    apart j a at y same =
        let eq : i ≡ j =
          inv.one_holder i j addr (ap holds e) (waits-holds (s.caller j) a at ∙ ap some same) in
        none-some a (
          ap waits (
            sym (moved_same s.caller i (connected addr c))
            ∙ subst
                (λ k. moved s.caller i (connected addr c) i ≡ moved s.caller i (connected addr c) k)
                eq refl
            ∙ y)
          ∙ at)
Step-Single {s} (no_answer i addr c x e) inv =
    Single-moved s i (dialing addr c) (denied addr x) e (refl, refl) (λ a h. h)
      (λ a h. absurd (none-some a h)) inv
Step-Single {s} (keep_error i addr x now e) inv =
    let next =
      Single-moved s i (denied addr x) (failed addr x) e (refl, refl)
        (λ a h. absurd (none-some a h)) (λ a h. absurd (none-some a h)) inv in
    record { one_holder = next.one_holder; free = next.free; kept = next.kept }
Step-Single {s} (back_connected i addr c e) inv =
    Single-moved s i (connected addr c) idle e (refl, refl) (λ a h. h)
      (λ a h. absurd (none-some a h)) inv
Step-Single {s} (back_failed i addr x e) inv =
    Single-moved s i (failed addr x) idle e (refl, refl) (λ a h. h) (λ a h. absurd (none-some a h))
      inv
Step-Single {s} (dead i addr c e) inv = record {
  one_holder =
      OneHolder-kept s.caller i (dropping addr c) (λ a h. absurd (none-some a h)) inv.one_holder;
  free =
      IsFree-moved (forget_dead s.runner addr c).clients s.caller i (dropping addr c)
        (λ j a q. forget_dead-free s.runner addr a c (inv.free j a q))
        (λ a h. absurd (none-some a h));
  kept =
      subst (All (Owned (forget_dead s.runner addr c).clients (moved s.caller i (dropping addr c))))
        (sym (forget_dead-live s.runner addr c))
        (forgotten-Owned s.runner s.caller i addr c e inv.kept);
}
Step-Single {s} (shut_dead i addr c e) inv = record {
  one_holder =
      OneHolder-kept s.caller i (connected addr c) (λ a h. absurd (none-some a h)) inv.one_holder;
  free =
      IsFree-moved s.runner.clients s.caller i (connected addr c) inv.free
        (λ a h. absurd (none-some a h));
  kept = closed-Owned s.runner.clients s.runner.live s.caller i addr c e inv.kept;
}
Step-Single {s} (stale addr) inv = record {
  one_holder = inv.one_holder;
  free = λ j a q. drop_host-free s.runner addr a (inv.free j a q);
  kept = drop_host-Owned s.runner addr s.caller inv.kept;
}
Step-Single {s} end_all inv = record {
  one_holder = inv.one_holder;
  free = λ j a q. refl;
  kept = close-Owned s.runner s.caller inv.kept;
}

Reach_inv : {s : System} → Reach s → Single s
Reach_inv start = record {
  one_holder = λ i j a h k. absurd (none-some a h);
  free = λ i a h. refl;
  kept = tt;
}
Reach_inv (later r st) = Step-Single st (Reach_inv r)

-- The connection is open, and no caller is about to close it.
abbrev pub InUse : System → Text × ℕ → Type 0
InUse s x = In x s.runner.live × ((j : ℕ) → closes (s.caller j) ≢ some x)

-- Two connections to one address that are open and not about to be closed are the same.
abbrev pub AtMostOne : System → Type 0
AtMostOne s = (a : Text) (c d : ℕ) → InUse s (a, c) → InUse s (a, d) → c ≡ d

Single-AtMostOne : (s : System) → Single s → AtMostOne s
Single-AtMostOne s inv a c d (lc, nc) (ld, nd) =
    go (All-at (Owned s.runner.clients s.caller) s.runner.live (a, c) inv.kept lc)
      (All-at (Owned s.runner.clients s.caller) s.runner.live (a, d) inv.kept ld)
  where
    All-at : (P : Text × ℕ → Type 0) (l : List (Text × ℕ)) (x : Text × ℕ) → All P l → In x l → P x
    All-at P [] x h i = absurd i
    All-at P (y ∷ l) x (h, hs) (inl e) = subst P e h
    All-at P (y ∷ l) x (h, hs) (inr i) = All-at P l x hs i

    none-left : (k : ℕ) → get a s.runner.clients ≡ none → get a s.runner.clients ≡ some k → ⊥
    none-left k e h = none-some k (sym e ∙ h)

    number : ◌≡◌ {A = Option (Text × ℕ)} (some (a, c)) (some (a, d)) → c ≡ d
    number e = ground (arith, e)

    go : Owned s.runner.clients s.caller (a, c) → Owned s.runner.clients s.caller (a, d) → c ≡ d
    go (inr (inr (j, h))) q = absurd (nc j h)
    go p (inr (inr (j, h))) = absurd (nd j h)
    go (inl p) (inl q) = ground (arith, p, q)
    go (inl p) (inr (inl (j, h))) =
        absurd (none-left c (inv.free j a (stores-waits (s.caller j) (a, d) h)) p)
    go (inr (inl (j, h))) (inl q) =
        absurd (none-left d (inv.free j a (stores-waits (s.caller j) (a, c) h)) q)
    go (inr (inl (i, h))) (inr (inl (j, k))) =
        let same : i ≡ j =
          inv.one_holder i j a (waits-holds (s.caller i) a (stores-waits (s.caller i) (a, c) h))
            (waits-holds (s.caller j) a (stores-waits (s.caller j) (a, d) k)) in
        number (sym h ∙ ap (λ n. stores (s.caller n)) same ∙ k)

-- However the callers of `client` and the functions that drop connections interleave, the two halves of
-- dropDead included: no two callers hold the mutex of one address; from the start of a dial until its
-- end is written down, no connection to the address is cached; every open connection is the cached one
-- of its address, or one caller is about to store it, or to close it; and so of the open connections to
-- an address that no caller is about to close there is at most one.
pub Reach-Single : {s : System} → Reach s → Single s × AtMostOne s
Reach-Single {s} r = let inv = Reach_inv r in (inv, Single-AtMostOne s inv)
