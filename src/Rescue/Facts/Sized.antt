-- ===== src/Rescue/Facts/Sized.antt =====
-- internal/rescue/rescue.go, `parseFacts`: a size of the snapshot is one that the script printed.
use khealth_tui.Base.{
  ℕ, ◌≡◌, ◌≢◌, refl, sym, ◌∙◌, subst, ◌++◌, List, [], ◌∷◌, some, arith, Bool-cases, Option-cases,
  inl, inr, ◌⊎◌, ◌==◌, Any,
}
use khealth_tui.Text.{Text, lit, has_prefix, trim_prefix, trim_right, trim_space, cut, split}
use khealth_tui.Text.Laws.{text_eq_iff}
use khealth_tui.Rescue.Types.{Facts}
use khealth_tui.Rescue.Facts.{
  config_pair, set_config, set_fact, set_more, fact_line, facts_loop, parse_facts, no_facts,
  parse_int,
}

-- The line says `snapshot_size=` with a text of this value.
abbrev pub SaysSize : ℕ → Text → Type 0
SaysSize n l =
    (v : Text) × (cut (trim_right (λ c. c == 13) l) 61 ≡ some (lit "snapshot_size", v))
    × ((parse_int (trim_space v)).0 ≡ n)

set_config-size : (f : Facts) (k v : Text) → (set_config f k v).snapshot_size ≡ f.snapshot_size
unfolding set_config
set_config-size f k v = ground arith

set_more-size :
    (f : Facts) (k v : Text)
    → ((set_more f k v).snapshot_size ≡ f.snapshot_size)
      ⊎ ((k ≡ lit "snapshot_size") × ((parse_int v).0 ≡ (set_more f k v).snapshot_size))
unfolding set_more
set_more-size f k v = ground (arith, text_eq_iff k (lit "snapshot_size"))

set_fact-size :
    (f : Facts) (k v : Text)
    → ((set_fact f k v).snapshot_size ≡ f.snapshot_size)
      ⊎ ((k ≡ lit "snapshot_size") × ((parse_int v).0 ≡ (set_fact f k v).snapshot_size))
unfolding set_fact
set_fact-size f k v = ground (arith, set_more-size f k v)

fact_line-size :
    (f : Facts) (l : Text)
    → ((fact_line f l).snapshot_size ≡ f.snapshot_size) ⊎ SaysSize (fact_line f l).snapshot_size l
unfolding fact_line
fact_line-size f raw =
    let l = trim_right (λ c. c == 13) raw in
    elim (Bool-cases (has_prefix l (lit "ERROR: "))) [
      | inl e ↦ inl (ground (arith, e))
      | inr e ↦ (elim (Bool-cases (has_prefix l (lit "config: "))) [
        | inl c ↦
            (let t = trim_prefix l (lit "config: ") in
              let q = config_pair t in
              let same = set_config-size (record f { config = f.config ++ (t ∷ []) }) q.0 q.1 in
              inl (ground (arith, e, c, same)))
        | inr c ↦ (elim (Option-cases (cut l 61)) [
          | inl n ↦ inl (ground (arith, e, c, n))
          | inr ((k, v), s) ↦
              (let here : (fact_line f raw).snapshot_size
                    ≡ (set_fact f k (trim_space v)).snapshot_size =
                  ground (arith, e, c, s) in
                elim (set_fact-size f k (trim_space v)) [
                  | inl o ↦ inl (here ∙ o)
                  | inr (a, b) ↦ inr (v, subst (λ x. cut l 61 ≡ some (x, v)) a s, b ∙ sym here)
                ])
        ])
      ])
    ]

loop-size :
    (f : Facts) (ls : List Text)
    → ((facts_loop f ls).snapshot_size ≡ f.snapshot_size)
      ⊎ Any (SaysSize (facts_loop f ls).snapshot_size) ls
unfolding facts_loop
loop-size f [] = inl refl
loop-size f (l ∷ ls) = elim (loop-size (fact_line f l) ls) [
  | inr s ↦ inr (inr s)
  | inl e ↦ (elim (fact_line-size f l) [
    | inl k ↦ inl (e ∙ k)
    | inr s ↦ inr (inl (subst (λ n. SaysSize n l) (sym e) s))
  ])
]

-- A size other than 0 stands on a line that says `snapshot_size=`.
pub parse_facts-size :
    (out : Text)
    → (parse_facts out).snapshot_size ≢ 0
    → Any (SaysSize (parse_facts out).snapshot_size) (split out 10)
unfolding parse_facts
parse_facts-size out h = elim (loop-size no_facts (split out 10)) [
  | inl e ↦ absurd (h e)
  | inr s ↦ s
]
