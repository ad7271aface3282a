-- ===== src/Strutil/Uniq.antt =====
-- internal/strutil/strutil.go, `Uniq`: the items without repetition.
use khealth_tui.Base.{
  ◌≡◌, ◌≢◌, ◌↔◌, refl, sym, subst, ap, ◌∙◌, ◌⊎◌, true, not, keep, List, [], ◌∷◌, arith, inl, inr,
  Bool-cases, All, In, any,
}
use khealth_tui.Text.{Text, text_eq}
use khealth_tui.Text.Laws.{text_eq_iff, text_eq→eq}
use khealth_tui.Strutil.{uniq, uniq_loop}

-- No item is repeated.
abbrev pub IsUniq : List Text → Type 0
IsUniq [] = Unit
IsUniq (s ∷ l) = All (λ t. t ≢ s) l × IsUniq l

-- The first of each item, in their order: the head, and what comes first behind it and is another.
abbrev pub firsts : List Text → List Text
firsts [] = []
firsts (s ∷ l) = s ∷ keep (λ t. not (text_eq s t)) (firsts l)

seen_iff : (s : Text) (seen : List Text) → (any (λ t. text_eq t s) seen ≡ true) ↔ In s seen
seen_iff s [] = ((λ h. cc), (λ h. absurd h))
seen_iff s (t ∷ seen) = (
  (λ h. ground (arith, text_eq_iff t s, (seen_iff s seen).0)),
  (λ h. ground (arith, text_eq_iff t s, (seen_iff s seen).1)),
)

-- Nothing that was seen comes again.
loop_new : (seen l : List Text) (s : Text) → In s seen → All (λ t. t ≢ s) (uniq_loop seen l)
unfolding uniq_loop
loop_new seen [] s h = tt
loop_new seen (x ∷ l) s h = elim (Bool-cases (any (λ t. text_eq t x) seen)) [
  | inl e ↦ rw e (loop_new seen l s h)
  | inr e ↦ rw e (
    (λ q. absurd (ground (arith, e, (seen_iff x seen).1 (subst (λ y. In y seen) (sym q) h)))),
    loop_new (x ∷ seen) l s (inr h),
  )
]

loop-IsUniq : (seen l : List Text) → IsUniq (uniq_loop seen l)
unfolding uniq_loop
loop-IsUniq seen [] = tt
loop-IsUniq seen (x ∷ l) = elim (Bool-cases (any (λ t. text_eq t x) seen)) [
  | inl e ↦ rw e (loop-IsUniq seen l)
  | inr e ↦ rw e (loop_new (x ∷ seen) l x (inl refl), loop-IsUniq (x ∷ seen) l)
]

loop_keeps : (seen l : List Text) (s : Text) → In s l → In s seen ⊎ In s (uniq_loop seen l)
unfolding uniq_loop
loop_keeps seen [] s h = absurd h
loop_keeps seen (x ∷ l) s h = elim (Bool-cases (any (λ t. text_eq t x) seen)) [
  | inl e ↦ (elim h [
    | inl q ↦ inl (subst (λ y. In y seen) q ((seen_iff x seen).0 e))
    | inr k ↦ rw e (loop_keeps seen l s k)
  ])
  | inr e ↦ (elim h [
    | inl q ↦ rw e (inr (inl q))
    | inr k ↦ rw e (elim (loop_keeps (x ∷ seen) l s k) [
      | inl (inl q) ↦ inr (inl q)
      | inl (inr z) ↦ inl z
      | inr z ↦ inr (inr z)
    ])
  ])
]

-- The items of a list that have not been seen.
abbrev unseen : List Text → List Text → List Text
unseen seen = keep (λ t. not (any (λ u. text_eq u t) seen))

-- What is seen already and what equals `x` may be taken out in one go.
unseen-cons :
    (seen : List Text) (x : Text) (l : List Text)
    → unseen seen (keep (λ t. not (text_eq x t)) l) ≡ unseen (x ∷ seen) l
unseen-cons seen x [] = refl
unseen-cons seen x (t ∷ l) = elim (Bool-cases (text_eq x t)) [
  | inl e ↦ rw e (unseen-cons seen x l)
  | inr e ↦ rw e (elim (Bool-cases (any (λ u. text_eq u t) seen)) [
    | inl k ↦ rw k (unseen-cons seen x l)
    | inr k ↦ rw k (ap (λ r. t ∷ r) (unseen-cons seen x l))
  ])
]

-- Taking out a seen item first changes nothing.
unseen-seen :
    (seen : List Text) (x : Text) (l : List Text)
    → any (λ u. text_eq u x) seen ≡ true
    → unseen (x ∷ seen) l ≡ unseen seen l
unseen-seen seen x [] h = refl
unseen-seen seen x (t ∷ l) h = elim (Bool-cases (text_eq x t)) [
  | inl e ↦
      (let k : any (λ u. text_eq u t) seen ≡ true =
          subst (λ y. any (λ u. text_eq u y) seen ≡ true) (text_eq→eq x t e) h in
        rw (e, k) (unseen-seen seen x l h))
  | inr e ↦ rw e (elim (Bool-cases (any (λ u. text_eq u t) seen)) [
    | inl k ↦ rw k (unseen-seen seen x l h)
    | inr k ↦ rw k (ap (λ r. t ∷ r) (unseen-seen seen x l h))
  ])
]

loop-firsts : (seen l : List Text) → uniq_loop seen l ≡ unseen seen (firsts l)
unfolding uniq_loop
loop-firsts seen [] = refl
loop-firsts seen (x ∷ l) = elim (Bool-cases (any (λ t. text_eq t x) seen)) [
  | inl e ↦ rw e (
      loop-firsts seen l
      ∙ sym (unseen-seen seen x (firsts l) e)
      ∙ sym (unseen-cons seen x (firsts l)))
  | inr e ↦ rw e (ap (λ r. x ∷ r) (loop-firsts (x ∷ seen) l ∙ sym (unseen-cons seen x (firsts l))))
]

unseen-nil : (l : List Text) → unseen [] l ≡ l
unseen-nil [] = refl
unseen-nil (t ∷ l) = ap (λ r. t ∷ r) (unseen-nil l)

All-In : (l : List Text) (P : Text → Type 0) → ((s : Text) → In s l → P s) → All P l
All-In [] P f = tt
All-In (x ∷ l) P f = (f x (inl refl), All-In l P (λ s h. f s (inr h)))

-- `Uniq` gives the first occurrence of each item, in the order of these; so no item comes twice, and
-- every one comes.
pub uniq_lem : (l : List Text) → (uniq l ≡ firsts l) × IsUniq (uniq l) × All (λ s. In s (uniq l)) l
unfolding uniq
uniq_lem l = (
  loop-firsts [] l ∙ unseen-nil (firsts l),
  loop-IsUniq [] l,
  All-In l (λ s. In s (uniq_loop [] l))
      (λ s h. elim (loop_keeps [] l s h) [ inl z ↦ absurd z | inr k ↦ k ]),
)
