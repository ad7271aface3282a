-- ===== src/Table/Tests.antt =====
-- Two columns that are too wide together.
use khealth_tui.Base.{◌≤◌, ◌≡◌, ◌⊎◌, refl, false, List, [], ◌∷◌, length}
use khealth_tui.Text.{Text, codes}
use khealth_tui.Table.{Column, total, column_widths}
use khealth_tui.Table.Fits.{IsNarrow, column_widths-fits}

abbrev cols : List Column
cols =
    record { title = codes "name"; most = 0; right = false }
    ∷ record { title = codes "reason"; most = 12; right = false }
    ∷ []

abbrev rows : List (List Text)
rows = (codes "node-one.example" ∷ codes "no route to host" ∷ []) ∷ []

shrunk : column_widths length 24 cols rows ≡ 11 ∷ 11 ∷ []
unfolding column_widths
shrunk = refl

column_widths-fits_example :
    (total (column_widths length 24 cols rows) ≤ 24) ⊎ IsNarrow (column_widths length 24 cols rows)
column_widths-fits_example = column_widths-fits length 24 cols rows
