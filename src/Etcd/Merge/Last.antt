-- ===== src/Etcd/Merge/Last.antt =====
-- internal/etcd/probe.go, `LastLeader`: the election that it returns.
use khealth_tui.Base.{
  ◌≡◌, ◌≤◌, ◌<◌, ◌⊎◌, refl, Bool, true, false, ◌&&◌, ◌||◌, ◌==◌, ltb, List, [], ◌∷◌, none, some,
  arith, Bool-cases, inl, inr, All, In,
}
use khealth_tui.Etcd.Merge.{Scan, LeaderEvent, last_loop, last_leader}

-- `a` is no later than `b`: a lower term, or the same and no later time.
abbrev pub NotAfter : LeaderEvent → LeaderEvent → Type 0
NotAfter b a = (a.term < b.term) ⊎ ((a.term ≡ b.term) × (a.time ≤ b.time))

abbrev later : LeaderEvent → LeaderEvent → Bool
later best ev = ltb best.term ev.term || ((ev.term == best.term) && ltb best.time ev.time)

NotAfter-trans : (a b c : LeaderEvent) → NotAfter b a → NotAfter c b → NotAfter c a
NotAfter-trans a b c (inl h) (inl k) = inl (omega arith)
NotAfter-trans a b c (inl h) (inr (k, l)) = inl (omega arith)
NotAfter-trans a b c (inr (h, i)) (inl k) = inl (omega arith)
NotAfter-trans a b c (inr (h, i)) (inr (k, l)) = inr (omega arith, omega arith)

later-NotAfter : (best ev : LeaderEvent) → later best ev ≡ true → NotAfter ev best
later-NotAfter best ev h = ground (arith, h)

not_later-NotAfter : (best ev : LeaderEvent) → later best ev ≡ false → NotAfter best ev
not_later-NotAfter best ev h = elim (Bool-cases (ltb ev.term best.term)) [
  | inl e ↦ inl (ground (arith, e))
  | inr e ↦ inr (ground (arith, h, e), ground (arith, h, e))
]

-- The event is one of the list, and none of the list comes after it.
abbrev pub IsLast : LeaderEvent → List LeaderEvent → Type 0
IsLast ev evs = In ev evs × All (NotAfter ev) evs

loop-IsLast :
    (best : LeaderEvent) (evs : List LeaderEvent)
    → (ev : LeaderEvent) × (last_loop (some best) evs ≡ some ev) × IsLast ev (best ∷ evs)
unfolding last_loop
loop-IsLast best [] = (best, refl, (inl refl, (inr (refl, omega arith), tt)))
loop-IsLast best (e ∷ evs) = elim (Bool-cases (later best e)) [
  | inl h ↦
      (let (ev, eq, l) = loop-IsLast e evs in
        (ev, rw h eq, (inr l.0, (NotAfter-trans best e ev (later-NotAfter best e h) l.1.0, l.1))))
  | inr h ↦
      (let (ev, eq, l) = loop-IsLast best evs in
        (
          ev,
          rw h eq,
          (
            behind l.0,
            (l.1.0, (NotAfter-trans e best ev (not_later-NotAfter best e h) l.1.0, l.1.1)),
          ),
        ))
]
  where
    behind : {ev : LeaderEvent} → In ev (best ∷ evs) → In ev (best ∷ e ∷ evs)
    behind (inl q) = inl q
    behind (inr q) = inr (inr q)

-- LastLeader finds nothing exactly when the log shows no election; else it returns one of the elections
-- of the log, and no other has a higher term, or the same term and a later time.
pub last_leader-IsLast :
    (p : Scan)
    → ((p.leader_events ≡ []) × (last_leader p ≡ none))
      ⊎ ((ev : LeaderEvent) × (last_leader p ≡ some ev) × IsLast ev p.leader_events)
unfolding last_leader last_loop
last_leader-IsLast p = go p.leader_events
  where
    go :
        (evs : List LeaderEvent)
        → ((evs ≡ []) × (last_loop none evs ≡ none))
          ⊎ ((ev : LeaderEvent) × (last_loop none evs ≡ some ev) × IsLast ev evs)
    go [] = inl (refl, refl)
    go (e ∷ evs) = inr (loop-IsLast e evs)
