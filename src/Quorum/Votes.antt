-- ===== src/Quorum/Votes.antt =====
-- internal/checks/etcd_triage.go: the leader id most statuses agree on.
use khealth_tui.Base.{
  ℕ, ◌≤◌, ◌<◌, refl, List, [], ◌∷◌, inl, inr, arith, if◌then◌else◌, ltb, In, Bool-cases, ap, subst,
}
use khealth_tui.Text.{Text, text_eq}
use khealth_tui.Text.Laws.{text_eq_iff}
use khealth_tui.Quorum.{StatusMap, votes_for, sorted_keys, insert_key, best_loop, best_vote, is_nil}

best_loop-start :
    (votes : Text → ℕ) (best : Text) (ids : List Text)
    → votes best ≤ votes (best_loop votes best ids)
unfolding best_loop
best_loop-start votes best [] = omega arith
best_loop-start votes best (id ∷ ids) =
    ground (arith, best_loop-start votes best ids, best_loop-start votes id ids)

best_loop-max :
    (votes : Text → ℕ) (best : Text) (ids : List Text) (id : Text)
    → In id ids
    → votes id ≤ votes (best_loop votes best ids)
unfolding best_loop
best_loop-max votes best [] id h = absurd h
best_loop-max votes best (x ∷ ids) id (inl e) =
    ground (arith, ap votes e, best_loop-start votes best ids, best_loop-start votes x ids)
best_loop-max votes best (x ∷ ids) id (inr h) =
    best_loop-max votes (if ltb (votes best) (votes x) then x else best) ids id h

In-insert_key_new : (k : Text) (xs : List Text) → In k (insert_key k xs)
unfolding insert_key
In-insert_key_new k [] = inl refl
In-insert_key_new k (x ∷ xs) = ground (arith, text_eq_iff k x, In-insert_key_new k xs)

In-insert_key : (k id : Text) (xs : List Text) → In id xs → In id (insert_key k xs)
unfolding insert_key
In-insert_key k id [] h = absurd h
In-insert_key k id (x ∷ xs) (inl e) = ground (arith, e)
In-insert_key k id (x ∷ xs) (inr h) = ground (arith, h, In-insert_key k id xs)

In-sorted_keys : (id : Text) (sts : StatusMap) → 0 < votes_for sts id → In id (sorted_keys sts)
unfolding votes_for sorted_keys
In-sorted_keys id [] h = absurd (omega (arith, h))
In-sorted_keys id ((k, st) ∷ rest) h = elim (Bool-cases (is_nil st.leader_id)) [
  | inl e ↦ rw e (In-sorted_keys id rest (ground (arith, h, e)))
  | inr e ↦ rw e (elim (Bool-cases (text_eq st.leader_id id)) [
    | inl q ↦
        subst (λ x. In x (insert_key st.leader_id (sorted_keys rest)))
          ((text_eq_iff st.leader_id id).0 q) (In-insert_key_new st.leader_id (sorted_keys rest))
    | inr q ↦
        In-insert_key st.leader_id id (sorted_keys rest)
          (In-sorted_keys id rest (ground (arith, h, q)))
  ])
]

-- No id has more votes than the one that `etcdQuorumOf` chooses.
pub best_vote-max : (sts : StatusMap) (id : Text) → votes_for sts id ≤ votes_for sts (best_vote sts)
unfolding best_vote
best_vote-max sts id = elim (Bool-cases (ltb 0 (votes_for sts id))) [
  | inl e ↦
      best_loop-max (votes_for sts) [] (sorted_keys sts) id (In-sorted_keys id sts (ground arith))
  | inr e ↦ ground arith
]
