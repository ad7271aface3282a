-- ===== src/Stig/Checklist.antt =====
-- internal/stig/checklist.go: the open results, regrouped by what their fixes change.
pub mod Targets
pub mod Somewhere
pub mod Items
pub mod Covers
mod Tests
use khealth_tui.Base.{
  ℕ, zero, suc, ◌+◌, Bool, true, false, not, ◌&&◌, ◌||◌, List, [], ◌∷◌, ◌++◌, Option, none, some,
  ltb, ◌==◌, if◌then◌else◌, map,
}
use khealth_tui.Base.Sort.{sort_by}
use khealth_tui.Text.{Text, lit, text_eq, text_less}
use khealth_tui.Strutil.{uniq, first_non_empty}
use khealth_tui.Stig.{
  Status, pass, fail, manual, not_applicable, unknown, Result, Target, TargetKind, file, resource,
  boot, packages, unit, review,
}
use khealth_tui.Stig.Checklist.Targets.{kind_text, kind_rank, target_hint, targets_of}

-- `ChecklistItem`.
pub record Item : Type 0 where
  pub ids : List Text
  pub cat : Text
  pub title : Text
  pub status : Status
  pub change : Text
  pub detail : Text
  pub nodes : List Text
  pub result : ℕ

-- `ChecklistGroup`.
pub record Group : Type 0 where
  pub kind : TargetKind
  pub name : Text
  pub hint : Text
  pub nodes : List Text
  pub items : List Item

abbrev pub key_of : TargetKind → Text → Text
key_of k name = kind_text k ++ (0 ∷ name)

unfoldable pub cat_rank : Text → ℕ
cat_rank c =
    if text_eq c (lit "I")
    then 0
    else if text_eq c (lit "II")
    then 1
    else if text_eq c (lit "III")
    then 2
    else 3

abbrev pub is_fail : Status → Bool
is_fail fail = true
is_fail _ = false

abbrev pub is_open : Status → Bool
is_open fail = true
is_open manual = true
is_open _ = false

abbrev pub is_review : TargetKind → Bool
is_review review = true
is_review _ = false

unfoldable pub union_sorted : List Text → List Text → List Text
union_sorted xs [] = xs
union_sorted xs (y ∷ ys) = sort_by text_less (uniq (xs ++ (y ∷ ys)))

unfoldable pub open_of : List (Text × Status) → List Text
open_of [] = []
open_of ((n, st) ∷ rest) = let ns = open_of rest in if is_open st then n ∷ ns else ns

unfoldable pub open_nodes : Result → List Text
unfolding open_of
open_nodes r = sort_by text_less (open_of r.per_node)

abbrev pub has_id : List Text → Text → Bool
has_id [] id = false
has_id (x ∷ xs) id = text_eq x id || has_id xs id

-- The result `r`, number `i`, joins an item with the same change.
unfoldable pub join_item : Item → Result → ℕ → Item
unfolding union_sorted open_nodes cat_rank
join_item it r i =
    let ids = if has_id it.ids r.id then it.ids else it.ids ++ (r.id ∷ []) in
    let worse = is_fail r.status && not (is_fail it.status) in
    record {
      ids = ids;
      cat = if ltb (cat_rank r.cat) (cat_rank it.cat) then r.cat else it.cat;
      title = if worse then r.title else it.title;
      status = if worse then fail else it.status;
      change = it.change;
      detail = if worse then r.detail else it.detail;
      nodes = union_sorted it.nodes (open_nodes r);
      result = if worse then i else it.result;
    }

abbrev pub new_item : Result → ℕ → Text → Item
new_item r i change = record {
  ids = r.id ∷ [];
  cat = r.cat;
  title = r.title;
  status = r.status;
  change = change;
  detail = r.detail;
  nodes = open_nodes r;
  result = i;
}

-- The loop over the items of a group, and the item added after it.
unfoldable pub place_item : TargetKind → List Item → Result → ℕ → Text → List Item
unfolding join_item
place_item k [] r i change = new_item r i change ∷ []
place_item k (it ∷ items) r i change =
    let rest = place_item k items r i change in
    if not (text_eq it.change change) || is_review k then it ∷ rest else join_item it r i ∷ items

abbrev pub change_of : Target → Result → Text
change_of t r = first_non_empty (t.change ∷ r.fix ∷ [])

-- One target of a result: in its group, which is made when there is none.
unfoldable pub place_target : List Group → Result → ℕ → Target → List Group
unfolding place_item
place_target [] r i t =
    record {
      kind = t.kind;
      name = t.name;
      hint = target_hint t;
      nodes = [];
      items = place_item t.kind [] r i (change_of t r);
    }
    ∷ []
place_target (g ∷ gs) r i t =
    let rest = place_target gs r i t in
    if text_eq (key_of g.kind g.name) (key_of t.kind t.name)
    then record g { items = place_item t.kind g.items r i (change_of t r) } ∷ gs
    else g ∷ rest

unfoldable pub place_targets : List Group → Result → ℕ → List Target → List Group
unfolding place_target
place_targets gs r i [] = gs
place_targets gs r i (t ∷ ts) = place_targets (place_target gs r i t) r i ts

abbrev status_rank : Status → ℕ
status_rank fail = 0
status_rank manual = 1
status_rank unknown = 2
status_rank not_applicable = 4
status_rank pass = 3

abbrev first_id : Item → Text
first_id it = first it.ids
  where
    first : List Text → Text
    first [] = []
    first (x ∷ xs) = x

unfoldable pub item_less : Item → Item → Bool
unfolding cat_rank
item_less x y =
    if not (status_rank x.status == status_rank y.status)
    then ltb (status_rank x.status) (status_rank y.status)
    else if not (text_eq x.cat y.cat)
    then ltb (cat_rank x.cat) (cat_rank y.cat)
    else text_less (first_id x) (first_id y)

unfoldable pub group_less : Group → Group → Bool
group_less x y =
    if not (kind_rank x.kind == kind_rank y.kind)
    then ltb (kind_rank x.kind) (kind_rank y.kind)
    else text_less x.name y.name

unfoldable pub all_nodes : List Text → List Item → List Text
unfolding union_sorted
all_nodes ns [] = ns
all_nodes ns (it ∷ items) = all_nodes (union_sorted ns it.nodes) items

-- A group as it is handed out.
unfoldable pub finished : Group → Group
unfolding all_nodes item_less
finished g =
    let items = sort_by item_less g.items in
    record g { items = items; nodes = all_nodes g.nodes items }

-- `find_path` and `find_dropin` are detailPath.FindString and sshdDropin.FindString.
module _ (find_path find_dropin : Text → Text) where
  unfoldable pub checklist_loop : List Group → ℕ → List Result → List Group
  unfolding place_targets
  checklist_loop gs i [] = gs
  checklist_loop gs i (r ∷ rs) =
      let placed = place_targets gs r i (targets_of find_path find_dropin r) in
      checklist_loop (if is_open r.status then placed else gs) (i + 1) rs

  unfoldable pub checklist : List Result → List Group
  unfolding checklist_loop finished group_less
  checklist rs = sort_by group_less (map finished (checklist_loop [] 0 rs))
