-- ===== src/Stig/Score/Tally.antt =====
-- internal/stig/score.go, `Scores`: each number of a scorecard is a count of outcomes.
use khealth_tui.Base.{◌≡◌, refl, Bool, List, [], ◌∷◌, arith, All, Bool-cases, inl, inr}
use khealth_tui.Text.Laws.{text_eq_refl}
use khealth_tui.Stig.{Status, pass, fail, manual, not_applicable, unknown, Result}
use khealth_tui.Stig.Score.{
  Score, Outcome, add, new_score, has_key, score, score_loop, score_less, insert_score, sort_scores,
  outcomes, scores,
}
use khealth_tui.Stig.Score.Fields.{
  Field, Counts, count_from, counted, IsTally, Differs, IsNew, more, add-IsTally, IsTally-other,
  new_score-IsTally,
}
use khealth_tui.Stig.Score.Keys.{IsDistinct, same-Differs, score-Differs, score-Differs_inv}

-- What holds of the scorecards after the outcomes that `e` counts.
record Tallied (e : Counts) (acc : List Score) : Type 0 where
  tallies : All (IsTally e) acc
  distinct : IsDistinct acc
  fresh : IsNew e acc

score-IsTally :
    (e : Counts) (acc : List Score) (o : Outcome)
    → ((k : Field) → All (Differs o.benchmark o.node) acc → e (counted o.benchmark o.node k) ≡ 0)
    → IsDistinct acc
    → All (IsTally e) acc
    → All (IsTally (more e o)) (score acc o)
unfolding score
score-IsTally e [] o new d h = (
  add-IsTally e (new_score o.benchmark o.node) o.benchmark o.node o.status o.cat
      (ground (arith, text_eq_refl o.benchmark, text_eq_refl o.node))
      (new_score-IsTally e o.benchmark o.node (λ k. new k tt)),
  tt,
)
score-IsTally e (s ∷ acc) o new (d, ds) (h, hs) = elim (Bool-cases (has_key o.benchmark o.node s)) [
  | inl q ↦ rw q (
    add-IsTally e s o.benchmark o.node o.status o.cat q h,
    others acc (same-Differs o.benchmark o.node s acc q d) hs,
  )
  | inr q ↦ rw q (IsTally-other e s o q h, score-IsTally e acc o (λ k r. new k (q, r)) ds hs)
]
  where
    others :
        (ts : List Score)
        → All (Differs o.benchmark o.node) ts
        → All (IsTally e) ts
        → All (IsTally (more e o)) ts
    others [] a b = tt
    others (t ∷ ts) (a, a1) (b, b1) = (IsTally-other e t o a b, others ts a1 b1)

score-IsDistinct : (acc : List Score) (o : Outcome) → IsDistinct acc → IsDistinct (score acc o)
unfolding score add
score-IsDistinct [] o d = (tt, tt)
score-IsDistinct (s ∷ acc) o (d, ds) = elim (Bool-cases (has_key o.benchmark o.node s)) [
  | inl q ↦ rw q (kept o.status, ds)
  | inr q ↦ rw q (score-Differs s.benchmark s.node acc o q d, score-IsDistinct acc o ds)
]
  where
    kept : (st : Status) → All (Differs (add s st o.cat).benchmark (add s st o.cat).node) acc
    kept pass = d
    kept fail = d
    kept manual = d
    kept not_applicable = d
    kept unknown = d

score-IsNew :
    (e : Counts) (acc : List Score) (o : Outcome) → IsNew e acc → IsNew (more e o) (score acc o)
score-IsNew e acc o new b n k h =
    let (d, q) = score-Differs_inv b n acc o h in let z = new b n k d in ground (arith, z, q)

loop-Tallied :
    (e : Counts) (acc : List Score) (os : List Outcome)
    → Tallied e acc
    → All (IsTally (λ f. count_from (e f) f os)) (score_loop acc os)
unfolding score_loop
loop-Tallied e acc [] h = h.tallies
loop-Tallied e acc (o ∷ os) h = loop-Tallied (more e o) (score acc o) os (record {
  tallies = score-IsTally e acc o (h.fresh o.benchmark o.node) h.distinct h.tallies;
  distinct = score-IsDistinct acc o h.distinct;
  fresh = score-IsNew e acc o h.fresh;
})

All-sort : (P : Score → Type 0) (ss : List Score) → All P ss → All P (sort_scores ss)
unfolding sort_scores
All-sort P [] h = tt
All-sort P (s ∷ ss) (h, hs) = insert (sort_scores ss) (All-sort P ss hs)
  where
    insert : (ts : List Score) → All P ts → All P (insert_score s ts)
    insert [] a = (h, tt)
    insert (t ∷ ts) (a, a1) = elim (Bool-cases (score_less s t)) [
      | inl e ↦ rw (insert_score, e) (h, (a, a1))
      | inr e ↦ rw (insert_score, e) (a, insert ts a1)
    ]

-- Every number on every scorecard of Scores is the count of the outcomes that it is named for: those of
-- the scorecard's benchmark and node, with the status and, for the numbers by severity, the severity.
pub scores-IsTally :
    (rs : List Result) (per_node : Bool)
    → All (IsTally (λ f. count_from 0 f (outcomes per_node rs))) (scores rs per_node)
unfolding scores
scores-IsTally rs per_node =
    All-sort (IsTally (λ f. count_from 0 f (outcomes per_node rs)))
      (score_loop [] (outcomes per_node rs))
      (loop-Tallied (λ f. 0) [] (outcomes per_node rs)
        (record { tallies = tt; distinct = tt; fresh = λ b n k h. refl }))
