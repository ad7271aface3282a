-- ===== src/Table.antt =====
-- internal/ui/table.go, `renderTable`: the widths of the columns.
pub mod Fits
pub mod Wrap
mod Tests
use khealth_tui.Base.{
  ℕ, zero, suc, ◌+◌, ◌-◌, ◌*◌, Bool, true, false, ◌&&◌, List, [], ◌∷◌, Option, none, some,
  if◌then◌else◌, ltb, length,
}
use khealth_tui.Text.{Text}

pub record Column : Type 0 where
  pub title : Text
  pub most : ℕ
  pub right : Bool

-- `cell_width` is ansi.StringWidth.
module _ (cell_width : Text → ℕ) where
  -- The widths of one row's cells: wider cells widen their columns.
  unfoldable pub widen : List ℕ → List Text → List ℕ
  widen [] cells = []
  widen (w ∷ ws) [] = w ∷ ws
  widen (w ∷ ws) (c ∷ cells) = (if ltb w (cell_width c) then cell_width c else w) ∷ widen ws cells

  unfoldable pub widen_rows : List ℕ → List (List Text) → List ℕ
  unfolding widen
  widen_rows ws [] = ws
  widen_rows ws (r ∷ rows) = widen_rows (widen ws r) rows

  unfoldable pub titles_widths : List Column → List ℕ
  titles_widths [] = []
  titles_widths (c ∷ cols) = cell_width c.title ∷ titles_widths cols

unfoldable pub cap_widths : List Column → List ℕ → List ℕ
cap_widths (c ∷ cols) (w ∷ ws) =
    (if ltb 0 c.most && ltb c.most w then c.most else w) ∷ cap_widths cols ws
cap_widths _ ws = ws

unfoldable pub sum : List ℕ → ℕ
sum [] = 0
sum (w ∷ ws) = w + sum ws

-- `total`, with gaps of two between the columns.
unfoldable pub total : List ℕ → ℕ
unfolding sum
total ws = 2 * (length ws - 1) + sum ws

-- The first widest column of more than eight, as its index and width; `best` is what is found so far.
unfoldable pub widest : ℕ → Option (ℕ × ℕ) → List ℕ → Option (ℕ × ℕ)
widest i best [] = best
widest i none (w ∷ ws) = widest (suc i) (if ltb 8 w then some (i, w) else none) ws
widest i (some (j, v)) (w ∷ ws) =
    widest (suc i) (if ltb 8 w && ltb v w then some (i, w) else some (j, v)) ws

-- `widths[i]--`.
unfoldable pub narrow : ℕ → List ℕ → List ℕ
narrow i [] = []
narrow zero (w ∷ ws) = (w - 1) ∷ ws
narrow (suc i) (w ∷ ws) = w ∷ narrow i ws

-- The loop `for total() > width`, on rounds.
unfoldable pub shrink : ℕ → ℕ → List ℕ → List ℕ
unfolding total widest narrow
shrink zero width ws = ws
shrink (suc n) width ws =
    let wi = widest 0 none ws in
    let next = elim wi as (λ _. List ℕ) [
      | none ↦ ws
      | some (i, w) ↦ shrink n width (narrow i ws)
    ] in
    if ltb width (total ws) then next else ws

-- The widths of a table; the sum of the widths is enough rounds.
unfoldable pub column_widths : (Text → ℕ) → ℕ → List Column → List (List Text) → List ℕ
unfolding widen_rows titles_widths cap_widths sum shrink
column_widths cell_width width cols rows =
    let ws = cap_widths cols (widen_rows cell_width (titles_widths cell_width cols) rows) in
    shrink (sum ws) width ws
