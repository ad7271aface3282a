-- ===== src/Table/Wrap/Tests.antt =====
-- internal/ui/table.go, `wrap` and `flow`: a text and items that do not fit on one line.
use khealth_tui.Base.{◌≡◌, refl, [], ◌∷◌, length}
use khealth_tui.Text.{Text, codes, concat}
use khealth_tui.Table.Wrap.{wrap, flow, at_least}
use khealth_tui.Table.Wrap.Bounds.{Fit, ink, wrap-Fit}

abbrev text : Text
text = codes "no route to the host\nretry"

wrapped : wrap text 12 ≡ codes "no route to" ∷ codes "the host" ∷ codes "retry" ∷ []
unfolding wrap khealth_tui.Text.split
wrapped = refl

flowed :
    flow length 4 2 (codes "first item" ∷ [] ∷ codes "next" ∷ codes "the third" ∷ [])
    ≡ codes "first item  next" ∷ codes "  the third" ∷ []
unfolding flow
flowed = refl

wrap-Fit_example : Fit (at_least 10 12) (wrap text 12) × (ink (concat (wrap text 12)) ≡ ink text)
wrap-Fit_example = wrap-Fit text 12
