-- ===== src/Ssh/Cache.antt =====
-- internal/sshrun/runner.go: which of the open connections the cache holds.
use khealth_tui.Base.{
  ℕ, ◌≡◌, ◌≢◌, ◌⊎◌, sym, ◌∙◌, subst, ap, true, List, [], ◌∷◌, Option, none, some, arith, ◌==◌, All,
  All-map_pred, Bool-cases, Option-cases, inl, inr, ==→eq, ==_refl,
}
use khealth_tui.Text.{Text, text_eq}
use khealth_tui.Text.Laws.{text_eq→eq, text_eq_refl}
use khealth_tui.Text.Assoc.{get, del, get-del_same, get-del_other, get-put_other}
use khealth_tui.Ssh.{Runner, absent, look, shut, shut_all, is_conn, store, forget_dead, drop_host}

pub look-absent :
    (r : Runner) (addr : Text) (now : ℕ) → look r addr now ≡ absent → get addr r.clients ≡ none
unfolding look
look-absent r addr now h = elim (Option-cases (get addr r.clients)) [
  | inl e ↦ e
  | inr (c, e) ↦ absurd (ground (arith, h, e))
]

get-del_absent : (a b : Text) (m : List (Text × ℕ)) → get a m ≡ none → get a (del b m) ≡ none
get-del_absent a b m h = elim (Bool-cases (text_eq a b)) [
  | inl e ↦ subst (λ x. get x (del b m) ≡ none) (sym (text_eq→eq a b e)) (get-del_same b m)
  | inr e ↦
      get-del_other a b m (λ q. absurd (ground (arith, e, ap (text_eq a) q, text_eq_refl a))) ∙ h
]

-- Closing a connection leaves those with another number.
pub All-shut :
    (P : Text × ℕ → Type 0) (c : ℕ) (live : List (Text × ℕ))
    → All P live
    → All (λ x. P x × (x.1 ≢ c)) (shut c live)
unfolding shut
All-shut P c [] h = tt
All-shut P c ((a, d) ∷ live) (h, hs) = elim (Bool-cases (c == d)) [
  | inl e ↦ rw e (All-shut P c live hs)
  | inr e ↦ rw e ((h, λ q. absurd (ground (arith, q, e, ==_refl d))), All-shut P c live hs)
]

-- After the connections of a list are closed, no number of the list is left.
pub All-shut_all :
    (P : Text × ℕ → Type 0) (cs live : List (Text × ℕ))
    → All P live
    → All (λ x. P x × All (λ y. x.1 ≢ y.1) cs) (shut_all cs live)
unfolding shut_all
All-shut_all P [] live h = All-map_pred live (λ x p. (p, tt)) h
All-shut_all P ((a, c) ∷ cs) live h =
    All-map_pred (shut_all cs (shut c live)) (λ x p. (p.0.0, (p.0.1, p.1)))
      (All-shut_all (λ x. P x × (x.1 ≢ c)) cs (shut c live) (All-shut P c live h))

pub get-absent :
    (a : Text) (d : ℕ) (cs : List (Text × ℕ)) → All (λ y. d ≢ y.1) cs → get a cs ≢ some d
get-absent a d [] h e = absurd (ground (arith, e))
get-absent a d ((b, c) ∷ cs) (n, ns) e = elim (Bool-cases (text_eq b a)) [
  | inl q ↦ absurd (ground (arith, e, q, n))
  | inr q ↦ get-absent a d cs ns (ground (arith, e, q))
]

some-inj : (c d : ℕ) → some c ≡ some d → c ≡ d
some-inj c d e = ground (arith, e)

-- A connection is the cached one of its address.
abbrev pub IsCached : List (Text × ℕ) → Text × ℕ → Type 0
IsCached clients x = get x.0 clients ≡ some x.1

-- A connection that is cached stays so when another number is dropped.
pub del-IsCached :
    (addr : Text) (c : ℕ) (clients : List (Text × ℕ)) (x : Text × ℕ)
    → get addr clients ≡ some c
    → x.1 ≢ c
    → IsCached clients x
    → IsCached (del addr clients) x
del-IsCached addr c clients x g n h =
    get-del_other x.0 addr clients (λ q. n (some-inj x.1 c (sym h ∙ ap (λ k. get k clients) q ∙ g)))
    ∙ h

is_conn-some : (o : Option ℕ) (c : ℕ) → is_conn o c ≡ true → o ≡ some c
is_conn-some none c q = absurd (ground (arith, q))
is_conn-some (some d) c q = ap some (==→eq d c q)

-- What a caller forgets is the connection that it holds; every other cached one stays.
pub forget_dead-IsCached :
    (r : Runner) (addr : Text) (c : ℕ) (x : Text × ℕ)
    → IsCached r.clients x
    → (x ≡ (addr, c)) ⊎ IsCached (forget_dead r addr c).clients x
unfolding forget_dead
forget_dead-IsCached r addr c x h = elim (Bool-cases (is_conn (get addr r.clients) c)) [
  | inr e ↦ rw e (inr h)
  | inl e ↦
      (let g = is_conn-some (get addr r.clients) c e in
        elim (Bool-cases (text_eq x.0 addr)) [
          | inl q ↦
              (let at = text_eq→eq x.0 addr q in
                let num = some-inj x.1 c (sym h ∙ ap (λ k. get k r.clients) at ∙ g) in
                inl (pair-eq x addr c at num))
          | inr q ↦ rw e (
              inr (
                get-del_other x.0 addr r.clients
                  (λ k. absurd (ground (arith, q, ap (text_eq x.0) k, text_eq_refl x.0)))
                ∙ h))
        ])
]
  where
    pair-eq : (y : Text × ℕ) (a : Text) (d : ℕ) → y.0 ≡ a → y.1 ≡ d → y ≡ (a, d)
    pair-eq y a d p q = cc

-- Storing a connection under an address that has none leaves the others.
pub store-IsCached :
    (r : Runner) (addr : Text) (c : ℕ) (x : Text × ℕ)
    → get addr r.clients ≡ none
    → IsCached r.clients x
    → IsCached (store r addr c).clients x
unfolding store
store-IsCached r addr c x free h =
    get-put_other x.0 addr c r.clients
      (λ q. absurd (ground (arith, h, ap (λ k. get k r.clients) q, free)))
    ∙ h

-- What a drop leaves unset.
pub forget_dead-free :
    (r : Runner) (addr a : Text) (c : ℕ)
    → get a r.clients ≡ none
    → get a (forget_dead r addr c).clients ≡ none
unfolding forget_dead
forget_dead-free r addr a c h = elim (Bool-cases (is_conn (get addr r.clients) c)) [
  | inl e ↦ rw e (get-del_absent a addr r.clients h)
  | inr e ↦ rw e h
]

pub drop_host-free :
    (r : Runner) (addr a : Text) → get a r.clients ≡ none → get a (drop_host r addr).clients ≡ none
unfolding drop_host
drop_host-free r addr a h = elim (Option-cases (get addr r.clients)) [
  | inl e ↦ rw (drop_host, e) h
  | inr (c, e) ↦ rw (drop_host, e) (get-del_absent a addr r.clients h)
]
