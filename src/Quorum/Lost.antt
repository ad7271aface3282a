-- ===== src/Quorum/Lost.antt =====
-- internal/checks/etcd_triage.go: what a lost quorum means.
use khealth_tui.Base.{
  ℕ, ◌+◌, ◌-◌, ◌≤◌, ◌<◌, ◌≡◌, ◌↔◌, refl, sym, subst, not, true, ◌&&◌, List, [], ◌∷◌, arith, ltb,
  length, keep,
}
use khealth_tui.Etcd.{Member}
use khealth_tui.Quorum.{
  Triage, StatusMap, voters, tally_recs, quorum_of, majority, counts_up, counts_down,
}

tally_keep : (ts : List Triage) → (tally_recs ts).0 ≡ length (keep counts_up ts)
unfolding tally_recs
tally_keep [] = refl
tally_keep (t ∷ ts) = ground (arith, tally_keep ts)

tally_keep_down : (ts : List Triage) → (tally_recs ts).1 ≡ length (keep counts_down ts)
unfolding tally_recs
tally_keep_down [] = refl
tally_keep_down (t ∷ ts) = ground (arith, tally_keep_down ts)

lost_arith :
    (t u d k n : ℕ)
    → u ≡ k
    → d ≡ n
    → k + n ≤ t
    → ((ltb 0 t && (ltb u (majority t) && ltb (t - d) (majority t))) ≡ true)
      ↔ ((0 < t) × (t < n + majority t))
lost_arith t u d k n e f h = ((λ l. ground arith), (λ l. ground arith))

-- The members that can vote: those that are no learners, or one for each record when no member is known.
abbrev pub voting : List Triage → List Member → ℕ
voting recs [] = length recs
voting recs (m ∷ ms) = length (keep (λ (x : Member). not x.is_learner) (m ∷ ms))

voters-keep : (ms : List Member) → voters ms ≡ length (keep (λ (x : Member). not x.is_learner) ms)
unfolding voters
voters-keep [] = refl
voters-keep (m ∷ ms) = ground (arith, voters-keep ms)

total-voting :
    (recs : List Triage) (members : List Member) (sts : StatusMap)
    → (quorum_of recs members sts).total ≡ voting recs members
unfolding quorum_of
total-voting recs [] sts = refl
total-voting recs (m ∷ ms) sts = voters-keep (m ∷ ms)

-- The total is the number of members that are no learners, or of the records when no member is known.
-- When at most so many records are known to be up or down: the quorum is lost exactly when there is a
-- voting member and even with every member that is not known to be down no majority of them remains.
pub lost_iff :
    (recs : List Triage) (members : List Member) (sts : StatusMap)
    → length (keep counts_up recs) + length (keep counts_down recs) ≤ voting recs members
    → ((quorum_of recs members sts).total ≡ voting recs members)
      × (((quorum_of recs members sts).lost ≡ true) ↔ (
          (0 < voting recs members)
          × (voting recs members
              < length (keep counts_down recs) + majority (voting recs members))))
unfolding quorum_of
lost_iff recs members sts h =
    let t = total-voting recs members sts in
    (
      t,
      subst
          (λ n.
            ((ltb 0 n
                && (ltb (tally_recs recs).0 (majority n)
                    && ltb (n - (tally_recs recs).1) (majority n)))
              ≡ true)
            ↔ ((0 < voting recs members)
                × (voting recs members
                    < length (keep counts_down recs) + majority (voting recs members))))
          (sym t)
          (lost_arith (voting recs members) (tally_recs recs).0 (tally_recs recs).1
            (length (keep counts_up recs)) (length (keep counts_down recs)) (tally_keep recs)
            (tally_keep_down recs) h),
    )
