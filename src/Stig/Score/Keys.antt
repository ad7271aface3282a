-- ===== src/Stig/Score/Keys.antt =====
-- internal/stig/score.go: one scorecard per benchmark and node.
use khealth_tui.Base.{
  ◌≡◌, refl, sym, ◌∙◌, subst, Bool, true, false, ◌&&◌, List, [], ◌∷◌, arith, All, All-map_pred,
  Bool-cases, inl, inr,
}
use khealth_tui.Text.{Text, text_eq}
use khealth_tui.Text.Laws.{text_eq_iff, text_eq→eq}
use khealth_tui.Stig.{Status, pass, fail, manual, not_applicable, unknown}
use khealth_tui.Stig.Score.{Score, Outcome, add, new_score, has_key, score}
use khealth_tui.Stig.Score.Fields.{Differs}

-- No two scorecards have one key.
abbrev pub IsDistinct : List Score → Type 0
IsDistinct [] = Unit
IsDistinct (s ∷ acc) = All (Differs s.benchmark s.node) acc × IsDistinct acc

abbrev is_key : Text → Text → Outcome → Bool
is_key b n o = text_eq b o.benchmark && text_eq n o.node

key_sym : (b n c m : Text) → (text_eq b c && text_eq n m) ≡ (text_eq c b && text_eq m n)
key_sym b n c m = ground (arith, text_eq_iff b c, text_eq_iff c b, text_eq_iff n m, text_eq_iff m n)

add-key :
    (b n : Text) (s : Score) (st : Status) (cat : Text) → has_key b n (add s st cat) ≡ has_key b n s
unfolding add
add-key b n s pass cat = refl
add-key b n s fail cat = refl
add-key b n s manual cat = refl
add-key b n s not_applicable cat = refl
add-key b n s unknown cat = refl

pub same-Differs :
    (b n : Text) (s : Score) (acc : List Score)
    → has_key b n s ≡ true
    → All (Differs s.benchmark s.node) acc
    → All (Differs b n) acc
same-Differs b n s acc h d =
    let eb = text_eq→eq s.benchmark b (ground (arith, h)) in
    let en = text_eq→eq s.node n (ground (arith, h)) in
    All-map_pred acc
      (λ t q.
        subst (λ x. has_key x n t ≡ false) eb (subst (λ x. has_key s.benchmark x t ≡ false) en q))
      d

pub score-Differs :
    (b n : Text) (acc : List Score) (o : Outcome)
    → is_key b n o ≡ false
    → All (Differs b n) acc
    → All (Differs b n) (score acc o)
unfolding score
score-Differs b n [] o h d = (
  add-key b n (new_score o.benchmark o.node) o.status o.cat ∙ key_sym o.benchmark o.node b n ∙ h,
  tt,
)
score-Differs b n (s ∷ acc) o h (d, ds) = elim (Bool-cases (has_key o.benchmark o.node s)) [
  | inl q ↦ rw q (add-key b n s o.status o.cat ∙ d, ds)
  | inr q ↦ rw q (d, score-Differs b n acc o h ds)
]

key_apart :
    (b n : Text) (s : Score) (o : Outcome)
    → has_key o.benchmark o.node s ≡ true
    → has_key b n s ≡ false
    → is_key b n o ≡ false
key_apart b n s o h d =
    let eb = text_eq→eq s.benchmark o.benchmark (ground (arith, h)) in
    let en = text_eq→eq s.node o.node (ground (arith, h)) in
    key_sym b n o.benchmark o.node
    ∙ subst (λ x. (text_eq x b && text_eq o.node n) ≡ false) eb
        (subst (λ x. (text_eq s.benchmark b && text_eq x n) ≡ false) en d)

pub score-Differs_inv :
    (b n : Text) (acc : List Score) (o : Outcome)
    → All (Differs b n) (score acc o)
    → All (Differs b n) acc × (is_key b n o ≡ false)
unfolding score
score-Differs_inv b n [] o (d, _) = (
  tt,
  key_sym b n o.benchmark o.node
      ∙ sym (add-key b n (new_score o.benchmark o.node) o.status o.cat)
      ∙ d,
)
score-Differs_inv b n (s ∷ acc) o h = elim (Bool-cases (has_key o.benchmark o.node s)) [
  | inl q ↦
      (let (d, ds) : All (Differs b n) (add s o.status o.cat ∷ acc) = rw q at h in
        let e = sym (add-key b n s o.status o.cat) ∙ d in ((e, ds), key_apart b n s o q e))
  | inr q ↦
      (let (d, ds) : All (Differs b n) (s ∷ score acc o) = rw q at h in
        let (r, k) = score-Differs_inv b n acc o ds in ((d, r), k))
]
