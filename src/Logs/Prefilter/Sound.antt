-- ===== src/Logs/Prefilter/Sound.antt =====
-- internal/logs/prefilter.go: the prefilter loses no match of the expression it was derived from.
use khealth_tui.Base.{
  ℕ, zero, suc, ◌≤◌, ◌≡◌, ◌≢◌, refl, sym, ap, ◌∙◌, subst, Bool, true, false, [], ◌∷◌, ◌++◌, length,
  all, leb, ltb, ◌&&◌, not, ◌⊎◌, inl, inr, arith, Any, Bool-cases, if◌then◌else◌,
}
use khealth_tui.Text.{Text, to_lower}
use khealth_tui.Text.Laws.{to_lower-append}
use khealth_tui.Logs.Prefilter.{
  LitInfo, need_literals, min_need, need_of, literals, sub_literals, is_empty, max_exact, unknown,
}
use khealth_tui.Logs.Prefilter.Syntax.{
  Regexp, Regexps, literal, zero_width, capture, quest, plus, star, repeat, alternate, concat,
  one_rune, no_match, end, ◌⨾◌, Matches, MatchesOne, MatchesSeq, Copies,
}
use khealth_tui.Logs.Prefilter.Sets.{
  Hit, Hit-grow, Fits, FitsSeq, Hit-ahead, Hit-need_of, Hit-self, alternate-Fits, concat-Fits,
}

literal_low :
    (fold : Bool) (rs s : Text)
    → (if fold then to_lower s ≡ to_lower rs else s ≡ rs)
    → to_lower rs ≡ to_lower s
literal_low true rs s h = sym h
literal_low false rs s h = ap to_lower (sym h)

-- The first of several copies carries the literals.
first_copy :
    (c : LitInfo) (s u v : Text)
    → s ≡ u ++ v
    → Fits c (to_lower u)
    → need_of c ≢ []
    → Hit (to_lower s) (need_of c)
first_copy c s u v e f n =
    subst (λ t. Hit t (need_of c)) (sym (ap to_lower e ∙ to_lower-append u v))
      (Hit-ahead (to_lower u) (to_lower v) (need_of c) (Hit-need_of c (to_lower u) f n))

unknown-Fits : (l : Text) → Fits unknown l
unknown-Fits l = ((λ n. absurd (n refl)), (λ n. absurd (n refl)))

quest-Fits :
    (c : LitInfo) (l : Text)
    → (l ≡ []) ⊎ Fits c l
    → Fits
        (if not (is_empty c.exact) && ltb (length c.exact) max_exact
          then record { exact = [] ∷ c.exact; need = [] }
          else unknown)
        l
quest-Fits c l h = elim (Bool-cases (not (is_empty c.exact) && ltb (length c.exact) max_exact)) [
  | inl e ↦ rw e (
    (λ _. elim h [ inl z ↦ inl (sym z) | inr f ↦ inr (f.0 (λ z. absurd (ground (arith, z, e)))) ]),
    (λ n. absurd (n refl)),
  )
  | inr e ↦ rw e (unknown-Fits l)
]

repeat-Fits :
    (c : LitInfo) (least n : ℕ) (P : Text → Type 0) (s : Text)
    → ((u : Text) → P u → Fits c (to_lower u))
    → least ≤ n
    → Copies P n s
    → Fits (if leb 1 least then record { exact = []; need = need_of c } else unknown) (to_lower s)
repeat-Fits c zero n P s f le m = unknown-Fits (to_lower s)
repeat-Fits c (suc k) zero P s f le m = absurd (omega (arith, le))
repeat-Fits c (suc k) (suc n) P s f le (u, v, e, p, _) =
    (rw (leb-true k) ((λ z. absurd (z refl)), first_copy c s u v e (f u p)))
  where
    leb-true : (k : ℕ) → leb 1 (suc k) ≡ true
    leb-true k = ground arith

mutual
  unfolding literals Matches

  literals-Fits : (r : Regexp) (s : Text) → Matches r s → Fits (literals r) (to_lower s)
  literals-Fits (literal fold rs) s h =
      let e = literal_low fold rs s h in
      ((λ _. inl e), (λ _. Hit-self (to_lower s) (to_lower rs ∷ []) (inl e)))
  literals-Fits zero_width s h = ((λ _. inl (ap to_lower (sym h))), (λ n. absurd (n refl)))
  literals-Fits (capture r) s h = literals-Fits r s h
  literals-Fits (quest r) s h =
      quest-Fits (literals r) (to_lower s)
        (elim h [ inl z ↦ inl (ap to_lower z) | inr m ↦ inr (literals-Fits r s m) ])
  literals-Fits (plus r) s (n, (u, v, e, m, _)) =
      ((λ z. absurd (z refl)), first_copy (literals r) s u v e (literals-Fits r u m))
  literals-Fits (repeat least most r) s (n, ge, le, m) =
      repeat-Fits (literals r) least n (Matches r) s (λ u p. literals-Fits r u p) ge m
  literals-Fits (alternate rs) s h =
      alternate-Fits [] [] true true (sub_literals rs) (to_lower s) (one-Fits rs s h)
  literals-Fits (concat rs) s h =
      concat-Fits [] ([] ∷ []) true (sub_literals rs) [] [] (to_lower s) (inl refl) (λ _. refl)
        (λ n. absurd (n refl)) (seq-Fits rs s h)
  literals-Fits (star r) s h = unknown-Fits (to_lower s)
  literals-Fits (one_rune ok) s h = unknown-Fits (to_lower s)
  literals-Fits no_match s h = unknown-Fits (to_lower s)

  one-Fits :
      (rs : Regexps) (s : Text) → MatchesOne rs s → Any (λ c. Fits c (to_lower s)) (sub_literals rs)
  one-Fits end s h = absurd h
  one-Fits (r ⨾ rs) s (inl h) = inl (literals-Fits r s h)
  one-Fits (r ⨾ rs) s (inr h) = inr (one-Fits rs s h)

  seq-Fits : (rs : Regexps) (s : Text) → MatchesSeq rs s → FitsSeq (sub_literals rs) (to_lower s)
  seq-Fits end s h = ap to_lower h
  seq-Fits (r ⨾ rs) s (u, v, e, m, ms) = (
    to_lower u,
    to_lower v,
    ap to_lower e ∙ to_lower-append u v,
    literals-Fits r u m,
    seq-Fits rs v ms,
  )

-- A line in which the expression matches contains, lower-cased, one of the literals that the prefilter
-- keeps for it, if it keeps any (the line and the expression are ASCII).
pub Hit-need_literals :
    (r : Regexp) (u s v : Text)
    → Matches r s
    → need_literals r ≢ []
    → Hit (to_lower (u ++ (s ++ v))) (need_literals r)
unfolding need_literals
Hit-need_literals r u s v m n =
    elim (Bool-cases (all (λ t. leb min_need (length t)) (need_of (literals r)))) [
      | inl e ↦ rw e (
          subst (λ t. Hit t (need_of (literals r))) (sym (low u s v))
            (Hit-grow (to_lower u) (to_lower s) (to_lower v) (need_of (literals r)) (
              Hit-need_of (literals r) (to_lower s) (literals-Fits r s m)
                (λ z. n (ground (arith, z, e))))))
      | inr e ↦ absurd (n (ground (arith, e)))
    ]
  where
    low : (u s v : Text) → to_lower (u ++ (s ++ v)) ≡ to_lower u ++ (to_lower s ++ to_lower v)
    low u s v = cc (to_lower-append u (s ++ v), to_lower-append s v)
