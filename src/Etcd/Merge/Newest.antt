-- ===== src/Etcd/Merge/Newest.antt =====
-- internal/etcd/probe.go, `Merge`: each section of a chain of probes is the newest that was collected.
use khealth_tui.Base.{◌≡◌, refl, ◌∙◌, Bool, true, false, List, [], ◌∷◌, some, arith, if◌then◌else◌}
use khealth_tui.Etcd.Merge.{Scan, merge, merge_log, merge_peers, merge_full, merge_ctl}

-- What a cycle leaves, from the first probe on: each new probe is merged with what was there.
abbrev pub cycles : Scan → List Scan → Scan
cycles s [] = s
cycles s (p ∷ ps) = cycles (merge p (some s)) ps

-- The newest probe that has not skipped something.
abbrev pub newest : (Scan → Bool) → Scan → List Scan → Scan
newest skipped s [] = s
newest skipped s (p ∷ ps) = newest skipped (if skipped p then s else p) ps

-- A probe that has skipped nothing but, perhaps, the leader log.
abbrev pub IsFull : Scan → Type 0
IsFull s = (s.peers_skipped ≡ false) × (s.full_skipped ≡ false) × (s.etcdctl_skipped ≡ false)

merge-IsFull : (p s : Scan) → IsFull s → IsFull (merge p (some s))
unfolding merge merge_log merge_peers merge_full merge_ctl
merge-IsFull p s (a, b, c) =
    (ground (arith, a, b, c), ground (arith, a, b, c), ground (arith, a, b, c))

peers-merge :
    (p s : Scan)
    → s.peers_skipped ≡ false
    → (merge p (some s)).peers ≡ (if p.peers_skipped then s.peers else p.peers)
unfolding merge merge_log merge_peers merge_full merge_ctl
peers-merge p s h = ground (arith, h)

files-merge :
    (p s : Scan)
    → s.full_skipped ≡ false
    → (merge p (some s)).files ≡ (if p.full_skipped then s.files else p.files)
unfolding merge merge_log merge_peers merge_full merge_ctl
files-merge p s h = ground (arith, h)

ctl-merge :
    (p s : Scan)
    → s.etcdctl_skipped ≡ false
    → (merge p (some s)).ctl ≡ (if p.etcdctl_skipped then s.ctl else p.ctl)
unfolding merge merge_log merge_peers merge_full merge_ctl
ctl-merge p s h = ground (arith, h)

cycles-IsFull : (s : Scan) (ps : List Scan) → IsFull s → IsFull (cycles s ps)
cycles-IsFull s [] h = h
cycles-IsFull s (p ∷ ps) h = cycles-IsFull (merge p (some s)) ps (merge-IsFull p s h)

either-get :
    {A : Type 0} (get : Scan → A) (b : Bool) (s t p : Scan)
    → get s ≡ get t
    → (if b then get s else get p) ≡ get (if b then t else p)
either-get get true s t p e = e
either-get get false s t p e = refl

-- A section that one merge carries over is the newest one at the end.
module _ {A : Type 0} (get : Scan → A) (skipped : Scan → Bool) where
  section-newest :
      ((p s : Scan) → IsFull s → get (merge p (some s)) ≡ (if skipped p then get s else get p))
      → (s t : Scan) (ps : List Scan) → IsFull s
      → get s ≡ get t
      → get (cycles s ps) ≡ get (newest skipped t ps)
  section-newest step s t [] f e = e
  section-newest step s t (p ∷ ps) f e =
      section-newest step (merge p (some s)) (if skipped p then t else p) ps (merge-IsFull p s f)
        (step p s f ∙ either-get get (skipped p) s t p e)

-- When the first probe was a full one, then after any number of cycles the merged probe counts as full,
-- and its peers, its files (configuration, snapshots, backup hints) and its answers of etcdctl are those
-- of the newest probe that collected them.
pub cycles-newest :
    (s : Scan) (ps : List Scan)
    → IsFull s
    → IsFull (cycles s ps)
      × ((cycles s ps).peers ≡ (newest (λ p. p.peers_skipped) s ps).peers)
      × ((cycles s ps).files ≡ (newest (λ p. p.full_skipped) s ps).files)
      × ((cycles s ps).ctl ≡ (newest (λ p. p.etcdctl_skipped) s ps).ctl)
cycles-newest s ps f = (
  cycles-IsFull s ps f,
  section-newest (λ p. p.peers) (λ p. p.peers_skipped) (λ p t g. peers-merge p t g.0) s s ps f refl,
  section-newest (λ p. p.files) (λ p. p.full_skipped) (λ p t g. files-merge p t g.1) s s ps f refl,
  section-newest (λ p. p.ctl) (λ p. p.etcdctl_skipped) (λ p t g. ctl-merge p t g.2) s s ps f refl,
)
