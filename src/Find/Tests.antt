-- ===== src/Find/Tests.antt =====
-- A page of three lines.
use khealth_tui.Base.{◌≡◌, refl, false, List, [], ◌∷◌, ◌++◌, some, inl, inr, arith}
use khealth_tui.Text.{Text, codes}
use khealth_tui.Find.{TextFind, run, extend, current, step_next}
use khealth_tui.Find.Hits.{extend-run, current-run}

abbrev page : List Text
page = codes "an Error" ∷ codes "fine" ∷ codes "error again" ∷ []

-- The second hit, on the third line, is the current one.
abbrev search : TextFind
search = record { query = codes "ERROR"; typing = false; hits = 0 ∷ 2 ∷ []; cur = 1; scanned = 3 }

wraps : (step_next search).1 ≡ some 0
unfolding step_next
wraps = refl

extend-run_example :
    (extend (λ t. t) (page ++ page) (run (λ t. t) page 0 search)).hits
    ≡ (run (λ t. t) (page ++ page) 0 search).hits
extend-run_example = extend-run (λ t. t) page page 0 search

current-run_example : current (run (λ t. t) page 0 search) ≡ some 2
unfolding current run
current-run_example =
    current-run (λ t. t) page 0 search 2 (λ e. absurd (ground (arith, e))) refl (inr (inl refl))
