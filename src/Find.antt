-- ===== src/Find.antt =====
-- internal/ui/find.go: the search in a page of lines that may grow.
pub mod Hits
mod Tests
use khealth_tui.Base.{
  ℕ, zero, suc, ◌+◌, ◌-◌, ◌/◌, ◌%◌, Bool, true, false, ◌&&◌, ◌||◌, not, List, [], ◌∷◌, ◌++◌, Option,
  none, some, if◌then◌else◌, ltb, leb, ◌==◌, length, get_elem?, drop,
}
use khealth_tui.Text.{Text, to_lower, contains}

-- `textFind`.
pub record TextFind : Type 0 where
  pub query : Text
  pub typing : Bool
  pub hits : List ℕ
  pub cur : ℕ
  pub scanned : ℕ

abbrev pub is_nil : {A : Type 0} → List A → Bool
is_nil [] = true
is_nil (x ∷ xs) = false

-- `active`, `clear`.
unfoldable pub active : TextFind → Bool
active f = not (is_nil f.query) || f.typing

abbrev pub cleared : TextFind
cleared = record { query = []; typing = false; hits = []; cur = 0; scanned = 0 }

-- The line of the current hit.
unfoldable pub current : TextFind → Option ℕ
current f = get_elem? f.hits f.cur

-- The place of the first hit that passes a test.
unfoldable pub first_place : (ℕ → Bool) → ℕ → List ℕ → Option ℕ
first_place p i [] = none
first_place p i (h ∷ hs) = let rest = first_place p (suc i) hs in if p h then some i else rest

-- `step` with 1, and with -1: the remainder of -1 by `n`, plus `n`, is `n - 1`, or 0 where `n` is 1.
unfoldable pub step_next : TextFind → TextFind × Option ℕ
unfolding current
step_next f =
    let n = length f.hits in
    let g = record f { cur = ((f.cur + 1) % n + n) % n } in
    if is_nil f.hits then (f, none) else (g, current g)

unfoldable pub step_back : TextFind → TextFind × Option ℕ
unfolding current
step_back f =
    let n = length f.hits in
    let to = if f.cur == 0 then (n - 1) % n else ((f.cur - 1) % n + n) % n in
    let g = record f { cur = to } in if is_nil f.hits then (f, none) else (g, current g)

unfoldable pub jump_scroll : ℕ → ℕ → ℕ → ℕ
jump_scroll hit visible most = let s = hit - visible / 3 in if ltb most s then most else s

-- `strip` is ansi.Strip, which takes the escape sequences off a line.
module _ (strip : Text → Text) where
  unfoldable pub line_matches : Text → Text → Bool
  line_matches q line = contains (to_lower (strip line)) q

  -- The loop of `extend` over the lines from the one with index `i` on.
  unfoldable pub scan : Text → ℕ → List Text → List ℕ
  unfolding line_matches
  scan q i [] = []
  scan q i (line ∷ lines) =
      let rest = scan q (suc i) lines in if line_matches q line then i ∷ rest else rest

  unfoldable pub extend : List Text → TextFind → TextFind
  unfolding scan
  extend lines f = if is_nil f.query then f else record f {
    hits = f.hits ++ scan (to_lower f.query) f.scanned (drop f.scanned lines);
    scanned = length lines;
  }

  -- The choice of the current hit at the end of `run`; `prev` is none for -1.
  unfoldable pub choose : Option ℕ → ℕ → List ℕ → ℕ
  unfolding first_place
  choose prev near hits =
      let at_near = elim (first_place (λ h. leb near h) 0 hits) as (λ _. ℕ) [
        | none ↦ 0
        | some i ↦ i
      ] in
      elim prev [
        | none ↦ at_near
        | some p ↦ (elim (first_place (λ h. h == p) 0 hits) [ none ↦ at_near | some i ↦ i ])
      ]

  unfoldable pub run : List Text → ℕ → TextFind → TextFind
  unfolding current extend choose
  run lines near f =
      let empty = record f { hits = []; scanned = 0; cur = 0 } in
      let g = extend lines empty in
      if is_nil f.query then empty else record g { cur = choose (current f) near g.hits }
