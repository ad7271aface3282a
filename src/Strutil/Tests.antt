-- ===== src/Strutil/Tests.antt =====
-- Lists and scalars of the configuration files.
use khealth_tui.Base.{◌*◌, ◌≡◌, refl, List, [], ◌∷◌, ◌++◌, inl, All, In}
use khealth_tui.Text.{Text, codes, lit, trim_space, itoa}
use khealth_tui.Strutil.{uniq, yaml_scalar, human_dur}
use khealth_tui.Strutil.Uniq.{IsUniq, firsts, uniq_lem}
use khealth_tui.Strutil.Scalar.{yaml_scalar-quoted}

abbrev names : List Text
names = codes "b" ∷ codes "a" ∷ codes "b" ∷ []

three_names : uniq names ≡ codes "b" ∷ codes "a" ∷ []
unfolding uniq
three_names = refl

uniq_lem_example :
    (uniq names ≡ firsts names) × IsUniq (uniq names) × All (λ s. In s (uniq names)) names
uniq_lem_example = uniq_lem names

yaml_scalar-quoted_example : yaml_scalar (34 ∷ (codes "10.0.0.5" ++ (34 ∷ []))) ≡ codes "10.0.0.5"
yaml_scalar-quoted_example = yaml_scalar-quoted 34 (codes "10.0.0.5") (inl refl) refl

commented : yaml_scalar (codes " 10.0.0.5 # moved") ≡ codes "10.0.0.5"
unfolding yaml_scalar lit trim_space
commented = refl

hours_and_minutes : human_dur (7500 * 1000000000) ≡ codes "2h05m"
unfolding human_dur lit itoa
hours_and_minutes = refl
