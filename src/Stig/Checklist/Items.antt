-- ===== src/Stig/Checklist/Items.antt =====
-- internal/stig/checklist.go: an item of the checklist keeps the results that it has taken in.
use khealth_tui.Base.{
  ℕ, ◌≡◌, refl, subst, Bool, true, not, ◌||◌, List, [], ◌∷◌, ◌++◌, arith, All, Any, In,
  All-map_pred, Any-append_left, Any-append_right, Bool-cases, inl, inr,
}
use khealth_tui.Base.Sort.{Any-sort_by}
use khealth_tui.Text.{Text, text_eq, text_less}
use khealth_tui.Text.Laws.{text_eq→eq}
use khealth_tui.Strutil.{uniq}
use khealth_tui.Strutil.Uniq.{uniq_lem}
use khealth_tui.Stig
use khealth_tui.Stig.{Status, fail, Result, Target, TargetKind}
use khealth_tui.Stig.Checklist.{
  Item, Group, key_of, is_fail, is_review, union_sorted, open_nodes, has_id, join_item, new_item,
  place_item,
}

All-In : (xs ys : List Text) → ((x : Text) → In x xs → In x ys) → All (λ x. In x ys) xs
All-In [] ys f = tt
All-In (x ∷ xs) ys f = (f x (inl refl), All-In xs ys (λ z h. f z (inr h)))

In-All : (P : Text → Type 0) (xs : List Text) (x : Text) → All P xs → In x xs → P x
In-All P (y ∷ ys) x (h, hs) (inl e) = subst P e h
In-All P (y ∷ ys) x (h, hs) (inr i) = In-All P ys x hs i
In-All P [] x h i = absurd i

-- A union has the items of both lists.
In-union_left : (x : Text) (xs ys : List Text) → In x xs → In x (union_sorted xs ys)
unfolding union_sorted
In-union_left x xs [] h = h
In-union_left x xs (y ∷ ys) h =
    Any-sort_by text_less (λ z. z ≡ x) (uniq (xs ++ (y ∷ ys)))
      (In-All (λ s. In s (uniq (xs ++ (y ∷ ys)))) (xs ++ (y ∷ ys)) x (uniq_lem (xs ++ (y ∷ ys))).2
        (Any-append_left (λ z. z ≡ x) xs (y ∷ ys) h))

In-union_right : (x : Text) (xs ys : List Text) → In x ys → In x (union_sorted xs ys)
unfolding union_sorted
In-union_right x xs [] h = absurd h
In-union_right x xs (y ∷ ys) h =
    Any-sort_by text_less (λ z. z ≡ x) (uniq (xs ++ (y ∷ ys)))
      (In-All (λ s. In s (uniq (xs ++ (y ∷ ys)))) (xs ++ (y ∷ ys)) x (uniq_lem (xs ++ (y ∷ ys))).2
        (Any-append_right (λ z. z ≡ x) xs (y ∷ ys) h))

-- The item names the result, fails if the result does, and holds the nodes that it is open on.
abbrev pub Names : Result → Item → Type 0
Names r it =
    In r.id it.ids × (r.status ≡ fail → it.status ≡ fail) × All (λ n. In n it.nodes) (open_nodes r)

abbrev pub Has : Text → Result → List Group → Type 0
Has key r gs = Any (λ g. (key_of g.kind g.name ≡ key) × Any (Names r) g.items) gs

has_id-In : (ids : List Text) (id : Text) → has_id ids id ≡ true → In id ids
has_id-In [] id h = absurd (ground (arith, h))
has_id-In (x ∷ xs) id h = elim (Bool-cases (text_eq x id)) [
  | inl e ↦ inl (text_eq→eq x id e)
  | inr e ↦ inr (has_id-In xs id (ground (arith, h, e)))
]

is_fail-eq : (s : Status) → is_fail s ≡ true → s ≡ fail
is_fail-eq fail h = refl
is_fail-eq Stig.pass h = absurd (ground (arith, h))
is_fail-eq Stig.manual h = absurd (ground (arith, h))
is_fail-eq Stig.not_applicable h = absurd (ground (arith, h))
is_fail-eq Stig.unknown h = absurd (ground (arith, h))

ids-In : (it : Item) (r : Result) (i : ℕ) → In r.id (join_item it r i).ids
unfolding join_item
ids-In it r i = elim (Bool-cases (has_id it.ids r.id)) [
  | inl e ↦ rw e (has_id-In it.ids r.id e)
  | inr e ↦ rw e (Any-append_right (λ z. z ≡ r.id) it.ids (r.id ∷ []) (inl refl))
]

ids-kept :
    (it : Item) (q : Result) (i : ℕ) (id : Text) → In id it.ids → In id (join_item it q i).ids
unfolding join_item
ids-kept it q i id h = elim (Bool-cases (has_id it.ids q.id)) [
  | inl e ↦ rw e h
  | inr e ↦ rw e (Any-append_left (λ z. z ≡ id) it.ids (q.id ∷ []) h)
]

status-kept : (it : Item) (q : Result) (i : ℕ) → it.status ≡ fail → (join_item it q i).status ≡ fail
unfolding join_item
status-kept it q i h = ground (arith, h)

status-joined :
    (it : Item) (r : Result) (i : ℕ) → r.status ≡ fail → (join_item it r i).status ≡ fail
unfolding join_item
status-joined it r i h = elim (Bool-cases (is_fail it.status)) [
  | inl e ↦ rw e (ground (arith, is_fail-eq it.status e))
  | inr e ↦ ground (arith, h, e)
]

nodes-In :
    (it : Item) (r : Result) (i : ℕ) (n : Text)
    → In n (open_nodes r)
    → In n (join_item it r i).nodes
unfolding join_item
nodes-In it r i n h = In-union_right n it.nodes (open_nodes r) h

nodes-kept :
    (it : Item) (q : Result) (i : ℕ) (n : Text) → In n it.nodes → In n (join_item it q i).nodes
unfolding join_item
nodes-kept it q i n h = In-union_left n it.nodes (open_nodes q) h

joined-Names : (it : Item) (r : Result) (i : ℕ) → Names r (join_item it r i)
joined-Names it r i = (
  ids-In it r i,
  status-joined it r i,
  All-In (open_nodes r) (join_item it r i).nodes (λ n h. nodes-In it r i n h),
)

kept-Names : (it : Item) (q r : Result) (i : ℕ) → Names q it → Names q (join_item it r i)
kept-Names it q r i (a, b, c) = (
  ids-kept it r i q.id a,
  (λ h. status-kept it r i (b h)),
  All-map_pred (open_nodes q) (λ n h. nodes-kept it r i n h) c,
)

new-Names : (r : Result) (i : ℕ) (change : Text) → Names r (new_item r i change)
new-Names r i change = (inl refl, (λ h. h), All-In (open_nodes r) (open_nodes r) (λ n h. h))

abbrev passes_by : TargetKind → Item → Text → Bool
passes_by k it change = not (text_eq it.change change) || is_review k

pub place_item-new :
    (k : TargetKind) (items : List Item) (r : Result) (i : ℕ) (c : Text)
    → Any (Names r) (place_item k items r i c)
unfolding place_item
place_item-new k [] r i c = inl (new-Names r i c)
place_item-new k (it ∷ items) r i c = elim (Bool-cases (passes_by k it c)) [
  | inl e ↦ rw e (inr (place_item-new k items r i c))
  | inr e ↦ rw e (inl (joined-Names it r i))
]

pub place_item-kept :
    (q : Result) (k : TargetKind) (items : List Item) (r : Result) (i : ℕ) (c : Text)
    → Any (Names q) items
    → Any (Names q) (place_item k items r i c)
unfolding place_item
place_item-kept q k [] r i c h = absurd h
place_item-kept q k (it ∷ items) r i c (inl h) = elim (Bool-cases (passes_by k it c)) [
  | inl e ↦ rw e (inl h)
  | inr e ↦ rw e (inl (kept-Names it q r i h))
]
place_item-kept q k (it ∷ items) r i c (inr h) = elim (Bool-cases (passes_by k it c)) [
  | inl e ↦ rw e (inr (place_item-kept q k items r i c h))
  | inr e ↦ rw e (inr h)
]
