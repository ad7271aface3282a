-- ===== src/Table/Fits.antt =====
-- internal/ui/table.go, `renderTable`: the table fits, or no column can be made narrower.
use khealth_tui.Base.{
  ℕ, zero, suc, ◌+◌, ◌≤◌, ◌<◌, ◌≡◌, refl, ap, ◌∙◌, subst, Bool, true, false, ◌&&◌, List, [], ◌∷◌,
  Option, none, some, arith, ◌⊎◌, inl, inr, if◌then◌else◌, ltb, get_elem?, All, Bool-cases,
  Option-cases,
}
use khealth_tui.Text.{Text}
use khealth_tui.Table.{
  Column, sum, total, widest, narrow, shrink, column_widths, cap_widths, widen_rows, titles_widths,
}

abbrev pub IsNarrow : List ℕ → Type 0
IsNarrow ws = All (λ w. w ≤ 8) ws

widest-some : (i j v : ℕ) (ws : List ℕ) → widest i (some (j, v)) ws ≡ none → ⊥
unfolding widest
widest-some i j v [] h = ground (arith, h)
widest-some i j v (w ∷ ws) h = elim (Bool-cases (ltb 8 w && ltb v w)) [
  | inl e ↦ widest-some (suc i) i w ws (ground (arith, h, e))
  | inr e ↦ widest-some (suc i) j v ws (ground (arith, h, e))
]

widest-IsNarrow : (i : ℕ) (ws : List ℕ) → widest i none ws ≡ none → IsNarrow ws
unfolding widest
widest-IsNarrow i [] h = tt
widest-IsNarrow i (w ∷ ws) h = elim (Bool-cases (ltb 8 w)) [
  | inl e ↦ absurd (widest-some (suc i) i w ws (ground (arith, h, e)))
  | inr e ↦ (ground (arith, e), widest-IsNarrow (suc i) ws (ground (arith, h, e)))
]

sum-narrow :
    (i v : ℕ) (ws : List ℕ) → get_elem? ws i ≡ some v → 8 < v → suc (sum (narrow i ws)) ≡ sum ws
unfolding sum narrow
sum-narrow i v [] h l = absurd (ground (arith, h))
sum-narrow zero v (w ∷ ws) h l = ground arith
sum-narrow (suc i) v (w ∷ ws) h l = omega (arith, sum-narrow i v ws h l)

-- What is found so far is a column of the list, and is wider than eight.
abbrev IsColumn : List ℕ → Option (ℕ × ℕ) → Type 0
IsColumn all best = (j v : ℕ) → best ≡ some (j, v) → (get_elem? all j ≡ some v) × (8 < v)

IsColumn-step :
    (all : List ℕ) (c : Bool) (i w : ℕ) (best : Option (ℕ × ℕ))
    → get_elem? all i ≡ some w
    → (c ≡ true → 8 < w)
    → IsColumn all best
    → IsColumn all (if c then some (i, w) else best)
IsColumn-step all false i w best e l h j v q = h j v q
IsColumn-step all true i w best e l h j v q =
    let a : i ≡ j = ground (arith, q) in
    let b : w ≡ v = ground (arith, q) in
    (subst (λ x. get_elem? all x ≡ some v) a (e ∙ ap some b), subst (λ x. 8 < x) b (l refl))

-- `ws` are the columns behind the first `i` of the list.
widest-IsColumn :
    (all : List ℕ) (i : ℕ) (best : Option (ℕ × ℕ)) (ws : List ℕ)
    → ((k : ℕ) → get_elem? all (i + k) ≡ get_elem? ws k)
    → IsColumn all best
    → IsColumn all (widest i best ws)
unfolding widest
widest-IsColumn all i best [] hk hb = hb
widest-IsColumn all i none (w ∷ ws) hk hb =
    widest-IsColumn all (suc i) (if ltb 8 w then some (i, w) else none) ws
      (λ k. ap (λ n. get_elem? all n) (omega arith) ∙ hk (suc k))
      (IsColumn-step all (ltb 8 w) i w none (ap (λ n. get_elem? all n) (omega arith) ∙ hk 0)
        (λ e. ground (arith, e)) hb)
widest-IsColumn all i (some (a, b)) (w ∷ ws) hk hb =
    widest-IsColumn all (suc i) (if ltb 8 w && ltb b w then some (i, w) else some (a, b)) ws
      (λ k. ap (λ n. get_elem? all n) (omega arith) ∙ hk (suc k))
      (IsColumn-step all (ltb 8 w && ltb b w) i w (some (a, b))
        (ap (λ n. get_elem? all n) (omega arith) ∙ hk 0) (λ e. ground (arith, e)) hb)

sum_zero : (ws : List ℕ) → sum ws ≡ 0 → IsNarrow ws
unfolding sum
sum_zero [] h = tt
sum_zero (w ∷ ws) h = (omega (arith, h), sum_zero ws (omega (arith, h)))

shrink-fits :
    (n width : ℕ) (ws : List ℕ)
    → sum ws ≤ n
    → (total (shrink n width ws) ≤ width) ⊎ IsNarrow (shrink n width ws)
unfolding shrink
shrink-fits zero width ws h = inr (sum_zero ws (omega (arith, h)))
shrink-fits (suc n) width ws h = elim (Bool-cases (ltb width (total ws))) [
  | inr e ↦ rw e (inl (ground (arith, e)))
  | inl e ↦ (elim (Option-cases (widest 0 none ws)) [
    | inl z ↦ rw (e, z) (inr (widest-IsNarrow 0 ws z))
    | inr ((i, w), z) ↦
        let (g, l) =
          widest-IsColumn ws 0 none ws (λ k. ap (λ m. get_elem? ws m) (omega arith)) (λ j v q. cc) i
            w z in
        rw (e, z) (shrink-fits n width (narrow i ws) (omega (arith, h, sum-narrow i w ws g l)))
  ])
]

-- Whatever the cells: the columns with their gaps fit into the width, or no column is wider than eight.
pub column_widths-fits :
    (cell_width : Text → ℕ) (width : ℕ) (cols : List Column) (rows : List (List Text))
    → (total (column_widths cell_width width cols rows) ≤ width)
      ⊎ IsNarrow (column_widths cell_width width cols rows)
unfolding column_widths
column_widths-fits cell_width width cols rows =
    let ws = cap_widths cols (widen_rows cell_width (titles_widths cell_width cols) rows) in
    shrink-fits (sum ws) width ws (omega arith)
