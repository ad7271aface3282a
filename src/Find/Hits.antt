-- ===== src/Find/Hits.antt =====
-- internal/ui/find.go: the hits and the current one.
use khealth_tui.Base.{
  ℕ, suc, ◌+◌, ◌≡◌, ◌≢◌, refl, sym, ap, ◌∙◌, subst, Bool, List, [], ◌∷◌, ◌++◌, Option, none, some,
  arith, Bool-cases, inl, inr, ◌==◌, length, get_elem?, drop, In, ==→eq,
}
use khealth_tui.Text.{Text, to_lower}
use khealth_tui.Find.{TextFind, scan, extend, run, current, choose, first_place, line_matches}

drop_append : (xs ys : List Text) → drop (length xs) (xs ++ ys) ≡ ys
drop_append [] ys = refl
drop_append (x ∷ xs) ys = drop_append xs ys

module _ (strip : Text → Text) where
  scan-append :
      (q : Text) (i : ℕ) (xs ys : List Text)
      → scan strip q i (xs ++ ys) ≡ scan strip q i xs ++ scan strip q (i + length xs) ys
  unfolding scan
  scan-append q i [] ys = ap (λ j. scan strip q j ys) (omega arith)
  scan-append q i (x ∷ xs) ys =
      let e : suc i + length xs ≡ i + suc (length xs) = omega arith in
      let ih =
        scan-append q (suc i) xs ys ∙ ap (λ j. scan strip q (suc i) xs ++ scan strip q j ys) e in
      elim (Bool-cases (line_matches strip q x)) [
        | inl m ↦ rw m (ap (λ t. i ∷ t) ih)
        | inr m ↦ rw m ih
      ]

  -- A page that grew after a search: scanning the new lines gives the hits of a new search of all.
  pub extend-run :
      (xs ys : List Text) (near : ℕ) (f : TextFind)
      → (extend strip (xs ++ ys) (run strip xs near f)).hits ≡ (run strip (xs ++ ys) near f).hits
  unfolding extend run
  extend-run xs ys near f = of_query f.query f.typing f.hits f.cur f.scanned
    where
      of_query :
          (q : Text) (t : Bool) (hs : List ℕ) (c s : ℕ)
          → (extend strip (xs ++ ys) (
              run strip xs near
                record { query = q; typing = t; hits = hs; cur = c; scanned = s })).hits
            ≡ (run strip
                (xs ++ ys)
                near
                record { query = q; typing = t; hits = hs; cur = c; scanned = s }).hits
      of_query [] t hs c s = refl
      of_query (b ∷ q) t hs c s =
          let low = to_lower (b ∷ q) in
          ap (λ l. scan strip low 0 xs ++ scan strip low (length xs) l) (drop_append xs ys)
          ∙ sym (
              scan-append low 0 xs ys
              ∙ ap (λ j. scan strip low 0 xs ++ scan strip low j ys) (omega arith))

first_place-found :
    (h i : ℕ) (hits : List ℕ)
    → In h hits
    → (k : ℕ) × (first_place (λ x. x == h) i hits ≡ some (i + k)) × (get_elem? hits k ≡ some h)
unfolding first_place
first_place-found h i [] z = absurd z
first_place-found h i (x ∷ hits) z = elim (Bool-cases (x == h)) [
  | inl e ↦ (0, rw e (ap some (omega arith)), ap some (==→eq x h e))
  | inr e ↦ (elim z [
    | inl q ↦ absurd (ground (arith, q, e))
    | inr y ↦
        let (k, p, g) = first_place-found h (suc i) hits y in
        (suc k, rw e (p ∙ ap some (omega arith)), g)
  ])
]

-- A new search keeps the current hit on its line if that line still matches.
pub current-run :
    (strip : Text → Text) (lines : List Text) (near : ℕ) (f : TextFind) (h : ℕ)
    → f.query ≢ []
    → current f ≡ some h
    → In h (run strip lines near f).hits
    → current (run strip lines near f) ≡ some h
unfolding current run choose extend
current-run strip lines near f h n e z = of_query f.query f.typing f.hits f.cur f.scanned n e z
  where
    chosen :
        (prev : Option ℕ) (hits : List ℕ)
        → prev ≡ some h
        → In h hits
        → get_elem? hits (choose strip prev near hits) ≡ some h
    chosen none hits e z = cc
    chosen (some p) hits e z =
        let (k, q, g) = first_place-found h 0 hits z in
        let pe : p ≡ h = ground (arith, e) in
        let at : k ≡ 0 + k = omega arith in
        subst (λ y. get_elem? hits (choose strip (some y) near hits) ≡ some h) (sym pe)
          (rw (choose, q) (subst (λ j. get_elem? hits j ≡ some h) at g))

    of_query :
        (q : Text) (t : Bool) (hs : List ℕ) (c s : ℕ)
        → q ≢ []
        → get_elem? hs c ≡ some h
        → In h
            (run strip lines near
              record { query = q; typing = t; hits = hs; cur = c; scanned = s }).hits
        → current
            (run strip lines near record { query = q; typing = t; hits = hs; cur = c; scanned = s })
          ≡ some h
    of_query [] t hs c s n e z = absurd (n refl)
    of_query (b ∷ q) t hs c s n e z =
        chosen (get_elem? hs c) (scan strip (to_lower (b ∷ q)) 0 lines) e z
