-- ===== src/Stig/Checklist/Covers.antt =====
-- internal/stig/checklist.go, `Checklist`: nothing open is lost when results share a target or a change.
use khealth_tui.Base.{
  ℕ, ◌+◌, ◌≡◌, ◌≢◌, refl, true, List, [], ◌∷◌, if◌then◌else◌, All, Any, All-map_pred, Bool-cases,
  inl, inr, map,
}
use khealth_tui.Base.Sort.{Any-sort_by}
use khealth_tui.Text.{Text, text_eq}
use khealth_tui.Text.Laws.{text_eq→eq}
use khealth_tui.Stig.{Result, Target}
use khealth_tui.Stig.Checklist.{
  Group, key_of, is_open, change_of, place_target, place_targets, item_less, group_less, finished,
  checklist_loop, checklist,
}
use khealth_tui.Stig.Checklist.Targets.{targets_of}
use khealth_tui.Stig.Checklist.Somewhere.{targets_of-cons}
use khealth_tui.Stig.Checklist.Items.{Names, Has, place_item-new, place_item-kept}

abbrev pub target_key : Target → Text
target_key t = key_of t.kind t.name

place_target-new :
    (gs : List Group) (r : Result) (i : ℕ) (t : Target)
    → Has (target_key t) r (place_target gs r i t)
unfolding place_target
place_target-new [] r i t = inl (refl, place_item-new t.kind [] r i (change_of t r))
place_target-new (g ∷ gs) r i t =
    elim (Bool-cases (text_eq (key_of g.kind g.name) (target_key t))) [
      | inl e ↦ rw e (inl (text_eq→eq _ _ e, place_item-new t.kind g.items r i (change_of t r)))
      | inr e ↦ rw e (inr (place_target-new gs r i t))
    ]

place_target-kept :
    (key : Text) (q : Result) (gs : List Group) (r : Result) (i : ℕ) (t : Target)
    → Has key q gs
    → Has key q (place_target gs r i t)
unfolding place_target
place_target-kept key q [] r i t h = absurd h
place_target-kept key q (g ∷ gs) r i t (inl (a, b)) =
    elim (Bool-cases (text_eq (key_of g.kind g.name) (target_key t))) [
      | inl e ↦ rw e (inl (a, place_item-kept q t.kind g.items r i (change_of t r) b))
      | inr e ↦ rw e (inl (a, b))
    ]
place_target-kept key q (g ∷ gs) r i t (inr h) =
    elim (Bool-cases (text_eq (key_of g.kind g.name) (target_key t))) [
      | inl e ↦ rw e (inr h)
      | inr e ↦ rw e (inr (place_target-kept key q gs r i t h))
    ]

place_targets-kept :
    (key : Text) (q : Result) (gs : List Group) (r : Result) (i : ℕ) (ts : List Target)
    → Has key q gs
    → Has key q (place_targets gs r i ts)
unfolding place_targets
place_targets-kept key q gs r i [] h = h
place_targets-kept key q gs r i (t ∷ ts) h =
    place_targets-kept key q (place_target gs r i t) r i ts (place_target-kept key q gs r i t h)

place_targets-new :
    (gs : List Group) (r : Result) (i : ℕ) (ts : List Target)
    → All (λ t. Has (target_key t) r (place_targets gs r i ts)) ts
unfolding place_targets
place_targets-new gs r i [] = tt
place_targets-new gs r i (t ∷ ts) = (
  place_targets-kept (target_key t) r (place_target gs r i t) r i ts (place_target-new gs r i t),
  place_targets-new (place_target gs r i t) r i ts,
)

finished-Has :
    (key : Text) (q : Result) (gs : List Group) → Has key q gs → Has key q (map finished gs)
unfolding finished
finished-Has key q [] h = absurd h
finished-Has key q (g ∷ gs) (inl (a, b)) = inl (a, Any-sort_by item_less (Names q) g.items b)
finished-Has key q (g ∷ gs) (inr h) = inr (finished-Has key q gs h)

module _ (find_path find_dropin : Text → Text) where
  loop-kept :
      (key : Text) (q : Result) (gs : List Group) (i : ℕ) (rs : List Result)
      → Has key q gs
      → Has key q (checklist_loop find_path find_dropin gs i rs)
  unfolding checklist_loop
  loop-kept key q gs i [] h = h
  loop-kept key q gs i (r ∷ rs) h = elim (Bool-cases (is_open r.status)) [
    | inl e ↦ rw e (
        loop-kept key q (place_targets gs r i (targets_of find_path find_dropin r)) (i + 1) rs
          (place_targets-kept key q gs r i (targets_of find_path find_dropin r) h))
    | inr e ↦ rw e (loop-kept key q gs (i + 1) rs h)
  ]

  -- The result has a target, and in each group of its targets an item names the result.
  abbrev pub Covered : List Group → Result → Type 0
  Covered gs r =
      is_open r.status ≡ true
      → (targets_of find_path find_dropin r ≢ [])
        × All (λ t. Has (target_key t) r gs) (targets_of find_path find_dropin r)

  loop-Covered :
      (gs : List Group) (i : ℕ) (rs : List Result)
      → All (Covered (checklist_loop find_path find_dropin gs i rs)) rs
  unfolding checklist_loop
  loop-Covered gs i [] = tt
  loop-Covered gs i (r ∷ rs) =
      let placed = place_targets gs r i (targets_of find_path find_dropin r) in
      (
        (λ o. (
          targets_of-cons find_path find_dropin r,
          rw o (
              All-map_pred (targets_of find_path find_dropin r)
                (λ t h. loop-kept (target_key t) r placed (i + 1) rs h)
                (place_targets-new gs r i (targets_of find_path find_dropin r))),
        )),
        loop-Covered (if is_open r.status then placed else gs) (i + 1) rs,
      )

-- Every result that failed or needs a look stands in the checklist: it has at least one target, and for
-- each of its targets the group of that target has an item that names the result, fails if the result
-- does, and lists all nodes that the result is open on.
pub checklist-Covered :
    (find_path find_dropin : Text → Text) (rs : List Result)
    → All (Covered find_path find_dropin (checklist find_path find_dropin rs)) rs
unfolding checklist
checklist-Covered find_path find_dropin rs =
    let gs = checklist_loop find_path find_dropin [] 0 rs in
    All-map_pred rs
      (λ r c o. (
        (c o).0,
        All-map_pred (targets_of find_path find_dropin r)
            (λ t h.
              Any-sort_by group_less
                (λ g. (key_of g.kind g.name ≡ target_key t) × Any (Names r) g.items)
                (map finished gs) (finished-Has (target_key t) r gs h))
            (c o).1,
      ))
      (loop-Covered find_path find_dropin [] 0 rs)
