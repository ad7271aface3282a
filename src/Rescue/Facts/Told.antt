-- ===== src/Rescue/Facts/Told.antt =====
-- internal/rescue/rescue.go, `parseFacts`: a preflight passes only if the script says so.
use khealth_tui.Base.{
  ◌≡◌, subst, ◌++◌, true, List, [], ◌∷◌, some, arith, Bool-cases, Option-cases, inl, inr, ◌⊎◌, ◌==◌,
  Any,
}
use khealth_tui.Text.{Text, lit, has_prefix, trim_prefix, trim_right, trim_space, cut, split}
use khealth_tui.Text.Laws.{text_eq_iff}
use khealth_tui.Rescue.Types.{Facts}
use khealth_tui.Rescue.Facts.{
  config_pair, set_config, set_fact, set_more, fact_line, facts_loop, parse_facts, no_facts,
}

-- The line says `preflight=ok`, but for carriage returns at its end and white space around "ok".
abbrev pub SaysOk : Text → Type 0
SaysOk l =
    (v : Text) × (cut (trim_right (λ c. c == 13) l) 61 ≡ some (lit "preflight", v))
    × (trim_space v ≡ lit "ok")

set_config-ok : (f : Facts) (k v : Text) → (set_config f k v).ok ≡ f.ok
unfolding set_config
set_config-ok f k v = ground arith

set_more-ok :
    (f : Facts) (k v : Text)
    → (set_more f k v).ok ≡ true
    → (f.ok ≡ true) ⊎ ((k ≡ lit "preflight") × (v ≡ lit "ok"))
unfolding set_more
set_more-ok f k v h = ground (arith, text_eq_iff k (lit "preflight"), text_eq_iff v (lit "ok"))

set_fact-ok :
    (f : Facts) (k v : Text)
    → (set_fact f k v).ok ≡ true
    → (f.ok ≡ true) ⊎ ((k ≡ lit "preflight") × (v ≡ lit "ok"))
unfolding set_fact
set_fact-ok f k v h = ground (arith, set_more-ok f k v)

fact_line-ok : (f : Facts) (l : Text) → (fact_line f l).ok ≡ true → (f.ok ≡ true) ⊎ SaysOk l
unfolding fact_line
fact_line-ok f raw h =
    let l = trim_right (λ c. c == 13) raw in
    elim (Bool-cases (has_prefix l (lit "ERROR: "))) [
      | inl e ↦ inl (ground (arith, h, e))
      | inr e ↦ (elim (Bool-cases (has_prefix l (lit "config: "))) [
        | inl c ↦
            (let t = trim_prefix l (lit "config: ") in
              let q = config_pair t in
              let same = set_config-ok (record f { config = f.config ++ (t ∷ []) }) q.0 q.1 in
              inl (ground (arith, h, e, c, same)))
        | inr c ↦ (elim (Option-cases (cut l 61)) [
          | inl n ↦ inl (ground (arith, h, e, c, n))
          | inr ((k, v), s) ↦
              (let set : (set_fact f k (trim_space v)).ok ≡ true = ground (arith, h, e, c, s) in
                elim (set_fact-ok f k (trim_space v) set) [
                  | inl o ↦ inl o
                  | inr (a, b) ↦ inr (v, subst (λ x. cut l 61 ≡ some (x, v)) a s, b)
                ])
        ])
      ])
    ]

loop-ok : (f : Facts) (ls : List Text) → (facts_loop f ls).ok ≡ true → (f.ok ≡ true) ⊎ Any SaysOk ls
unfolding facts_loop
loop-ok f [] h = inl h
loop-ok f (l ∷ ls) h = elim (loop-ok (fact_line f l) ls h) [
  | inl e ↦ (elim (fact_line-ok f l e) [ inl k ↦ inl k | inr s ↦ inr (inl s) ])
  | inr s ↦ inr (inr s)
]

-- A node's preflight counts as passed only if one line of the script's output says `preflight=ok`.
pub parse_facts-ok : (out : Text) → (parse_facts out).ok ≡ true → Any SaysOk (split out 10)
unfolding parse_facts
parse_facts-ok out h = elim (loop-ok no_facts (split out 10) h) [
  | inl e ↦ absurd (ground (arith, e))
  | inr s ↦ s
]
