-- ===== src/Ssh/Owned.antt =====
-- internal/sshrun/runner.go: what becomes of an open connection when a caller moves.
use khealth_tui.Base.{
  ℕ, ◌≡◌, ◌≢◌, ◌⊎◌, refl, sym, ◌∙◌, subst, ap, Option, none, some, arith, ◌==◌, Bool-cases, inl,
  inr, List, [], ◌∷◌, All, All-map_pred, Option-cases, ==→eq, ==_refl,
}
use khealth_tui.Text.{Text}
use khealth_tui.Text.Assoc.{get, del, get-put_same}
use khealth_tui.Ssh.{
  Runner, Caller, idle, queued, inside, dialing, opened, denied, connected, failed, dropping, store,
  forget_dead, drop_host, shut, shut_all,
}
use khealth_tui.Ssh.Cache.{
  IsCached, All-shut, All-shut_all, get-absent, del-IsCached, forget_dead-IsCached, store-IsCached,
}
use khealth_tui.Ssh.Moves.{holds, moved}

-- The address that the caller dials, or has dialed and not written down.
abbrev pub waits : Caller → Option Text
waits (dialing a c) = some a
waits (opened a c) = some a
waits _ = none

-- The connection that the caller is about to store, and the one that it is about to close.
abbrev pub stores : Caller → Option (Text × ℕ)
stores (opened a c) = some (a, c)
stores _ = none

abbrev pub closes : Caller → Option (Text × ℕ)
closes (dropping a c) = some (a, c)
closes _ = none

-- A connection is the cached one of its address, or a caller is about to store it, or to close it.
abbrev pub Owned : List (Text × ℕ) → (ℕ → Caller) → Text × ℕ → Type 0
Owned clients f x =
    IsCached clients x ⊎ ((j : ℕ) × (stores (f j) ≡ some x)) ⊎ ((j : ℕ) × (closes (f j) ≡ some x))

-- A move changes the place of one caller.
pub moved_cases :
    (f : ℕ → Caller) (i : ℕ) (p : Caller) (j : ℕ)
    → ((i ≡ j) × (moved f i p j ≡ p)) ⊎ (moved f i p j ≡ f j)
moved_cases f i p j = elim (Bool-cases (i == j)) [
  | inl e ↦ inl (==→eq i j e, rw e refl)
  | inr e ↦ inr (rw e refl)
]

pub moved_same : (f : ℕ → Caller) (i : ℕ) (p : Caller) → moved f i p i ≡ p
moved_same f i p = rw (==_refl i) refl

-- What another caller is about to do with a connection, it still is when caller `i` has moved.
still :
    {A : Type 0} (g : Caller → Option A) (f : ℕ → Caller) (i : ℕ) (p : Caller) (x : A)
    → ((j : ℕ) × (g (f j) ≡ some x))
    → (g (f i) ≡ some x) ⊎ ((j : ℕ) × (g (moved f i p j) ≡ some x))
still g f i p x (j, h) = elim (moved_cases f i p j) [
  | inl (e, q) ↦ inl (subst (λ k. g (f k) ≡ some x) (sym e) h)
  | inr q ↦ inr (j, ap g q ∙ h)
]

-- A connection keeps an owner when its cached place and the part of caller `i` are seen to.
pub Owned-moved :
    (clients new : List (Text × ℕ)) (f : ℕ → Caller) (i : ℕ) (p : Caller) (x : Text × ℕ)
    → (IsCached clients x → Owned new (moved f i p) x)
    → (stores (f i) ≡ some x → Owned new (moved f i p) x)
    → (closes (f i) ≡ some x → Owned new (moved f i p) x)
    → Owned clients f x
    → Owned new (moved f i p) x
Owned-moved clients new f i p x hc hs hd (inl h) = hc h
Owned-moved clients new f i p x hc hs hd (inr (inl h)) = elim (still stores f i p x h) [
  | inl e ↦ hs e
  | inr e ↦ inr (inl e)
]
Owned-moved clients new f i p x hc hs hd (inr (inr h)) = elim (still closes f i p x h) [
  | inl e ↦ hd e
  | inr e ↦ inr (inr e)
]

pub none-some : {A : Type 0} (a : A) → none ≡ some a → ⊥
none-some a e = ground (arith, e)

-- A caller in neither of the two places owns nothing.
pub no_part :
    (g : Caller → Option (Text × ℕ)) (f : ℕ → Caller) (i : ℕ) (p : Caller) {P : Type 0}
    (x : Text × ℕ)
    → f i ≡ p
    → g p ≡ none
    → g (f i) ≡ some x
    → P
no_part g f i p x e n h = absurd (none-some x (sym n ∙ ap g (sym e) ∙ h))

pub some-text : (a b : Text) → some a ≡ some b → a ≡ b
some-text a b e = cc

pub waits-holds : (p : Caller) (a : Text) → waits p ≡ some a → holds p ≡ some a
waits-holds idle a h = absurd (none-some a h)
waits-holds (queued b) a h = absurd (none-some a h)
waits-holds (inside b) a h = absurd (none-some a h)
waits-holds (dialing b c) a h = h
waits-holds (opened b c) a h = h
waits-holds (denied b e) a h = absurd (none-some a h)
waits-holds (connected b c) a h = absurd (none-some a h)
waits-holds (failed b e) a h = absurd (none-some a h)
waits-holds (dropping b c) a h = absurd (none-some a h)

pub stores-waits : (p : Caller) (x : Text × ℕ) → stores p ≡ some x → waits p ≡ some x.0
stores-waits idle x h = absurd (none-some x h)
stores-waits (queued b) x h = absurd (none-some x h)
stores-waits (inside b) x h = absurd (none-some x h)
stores-waits (dialing b c) x h = absurd (none-some x h)
stores-waits (opened b c) x h = cc
stores-waits (denied b e) x h = absurd (none-some x h)
stores-waits (connected b c) x h = absurd (none-some x h)
stores-waits (failed b e) x h = absurd (none-some x h)
stores-waits (dropping b c) x h = absurd (none-some x h)

pub forget_dead-live : (r : Runner) (addr : Text) (c : ℕ) → (forget_dead r addr c).live ≡ r.live
unfolding forget_dead
forget_dead-live r addr c = ground arith

-- A host is dropped with its connection.
pub drop_host-Owned :
    (r : Runner) (addr : Text) (f : ℕ → Caller)
    → All (Owned r.clients f) r.live
    → All (Owned (drop_host r addr).clients f) (drop_host r addr).live
unfolding drop_host
drop_host-Owned r addr f h = elim (Option-cases (get addr r.clients)) [
  | inl e ↦ rw (drop_host, e) h
  | inr (c, e) ↦
      rw (drop_host, e)
        (All-map_pred (shut c r.live) (λ x p. dropped c e x p.0 p.1)
          (All-shut (Owned r.clients f) c r.live h))
]
  where
    dropped :
        (c : ℕ)
        → get addr r.clients ≡ some c
        → (x : Text × ℕ) → Owned r.clients f x
        → x.1 ≢ c
        → Owned (del addr r.clients) f x
    dropped c e x (inl p) n = inl (del-IsCached addr c r.clients x e n p)
    dropped c e x (inr p) n = inr p

pub close-Owned :
    (r : Runner) (f : ℕ → Caller)
    → All (Owned r.clients f) r.live
    → All (Owned [] f) (shut_all r.clients r.live)
close-Owned r f h =
    All-map_pred (shut_all r.clients r.live) (λ x p. closed x p.0 p.1)
      (All-shut_all (Owned r.clients f) r.clients r.live h)
  where
    closed : (x : Text × ℕ) → Owned r.clients f x → All (λ y. x.1 ≢ y.1) r.clients → Owned [] f x
    closed x (inl p) n = absurd (get-absent x.0 x.1 r.clients n p)
    closed x (inr p) n = inr p

-- The connection is stored: its caller's part ends and its cached place begins.
pub stored-Owned :
    (r : Runner) (f : ℕ → Caller) (i : ℕ) (addr : Text) (c : ℕ)
    → f i ≡ opened addr c
    → get addr r.clients ≡ none
    → All (Owned r.clients f) r.live
    → All (Owned (store r addr c).clients (moved f i (connected addr c))) r.live
unfolding store
stored-Owned r f i addr c e free h =
    All-map_pred r.live
      (λ x.
        Owned-moved r.clients (store r addr c).clients f i (connected addr c) x
          (λ p. inl (store-IsCached r addr c x free p))
          (λ p.
            let q : (addr, c) ≡ x = pair-of x (sym (ap stores e) ∙ p) in
            inl (subst (IsCached (store r addr c).clients) q (get-put_same addr c r.clients)))
          (no_part closes f i (opened addr c) x e refl))
      h
  where
    pair-of : (x : Text × ℕ) → some (addr, c) ≡ some x → (addr, c) ≡ x
    pair-of x k = cc

-- The connection is forgotten: its cached place, if it has one, becomes the part of its caller.
pub forgotten-Owned :
    (r : Runner) (f : ℕ → Caller) (i : ℕ) (addr : Text) (c : ℕ)
    → f i ≡ connected addr c
    → All (Owned r.clients f) r.live
    → All (Owned (forget_dead r addr c).clients (moved f i (dropping addr c))) r.live
forgotten-Owned r f i addr c e h =
    All-map_pred r.live
      (λ x.
        Owned-moved r.clients (forget_dead r addr c).clients f i (dropping addr c) x
          (λ p. elim (forget_dead-IsCached r addr c x p) [
            | inl q ↦ inr (inr (i, ap closes (moved_same f i (dropping addr c)) ∙ ap some (sym q)))
            | inr q ↦ inl q
          ])
          (no_part stores f i (connected addr c) x e refl)
          (no_part closes f i (connected addr c) x e refl))
      h

-- The connection is closed, and with it ends the part of its caller.
pub closed-Owned :
    (clients live : List (Text × ℕ)) (f : ℕ → Caller) (i : ℕ) (addr : Text) (c : ℕ)
    → f i ≡ dropping addr c
    → All (Owned clients f) live
    → All (Owned clients (moved f i (connected addr c))) (shut c live)
closed-Owned clients live f i addr c e h =
    All-map_pred (shut c live)
      (λ x p.
        Owned-moved clients clients f i (connected addr c) x inl
          (no_part stores f i (dropping addr c) x e refl)
          (λ k. absurd (p.1 (number x (sym (ap closes e) ∙ k)))) p.0)
      (All-shut (Owned clients f) c live h)
  where
    number : (x : Text × ℕ) → some (addr, c) ≡ some x → x.1 ≡ c
    number x k = ground (arith, k)

-- A dial has ended: the new connection is its caller's to store.
pub arrived-Owned :
    (r : Runner) (f : ℕ → Caller) (i : ℕ) (addr : Text) (c : ℕ)
    → f i ≡ dialing addr c
    → All (Owned r.clients f) r.live
    → All (Owned r.clients (moved f i (opened addr c))) ((addr, c) ∷ r.live)
arrived-Owned r f i addr c e h = (
  inr (inl (i, ap stores (moved_same f i (opened addr c)))),
  All-map_pred r.live
      (λ x.
        Owned-moved r.clients r.clients f i (opened addr c) x inl
          (no_part stores f i (dialing addr c) x e refl)
          (no_part closes f i (dialing addr c) x e refl))
      h,
)
