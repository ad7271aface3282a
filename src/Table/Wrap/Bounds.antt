-- ===== src/Table/Wrap/Bounds.antt =====
-- internal/ui/table.go, `wrap`: no line is too wide, and only blanks are lost.
use khealth_tui.Base.{
  append-nil, append_assoc, take-append-drop, ◌||◌, ℕ, zero, suc, ◌-◌, ◌/◌, ◌≤◌, ◌<◌, ◌≡◌, refl,
  sym, ◌∙◌, ap, Bool, true, false, not, List, [], ◌∷◌, ◌++◌, some, arith, if◌then◌else◌, ltb, ◌==◌,
  length, take, drop, keep, All, Bool-cases, Option-cases, inl, inr,
}
use khealth_tui.Text.{cons_head, Text, split, last_index_byte, trim_left, concat}
use khealth_tui.Table.Wrap.{cut_at, wrap_line, wrap_lines, wrap, is_blank, at_least}

length-drop : (n : ℕ) (s : Text) → length (drop n s) ≡ length s - n
length-drop zero s = omega arith
length-drop (suc n) [] = omega arith
length-drop (suc n) (c ∷ s) = ground (arith, length-drop n s)

length-take : (n : ℕ) (s : Text) → length (take n s) ≤ n
length-take zero s = omega arith
length-take (suc n) [] = omega arith
length-take (suc n) (c ∷ s) = ground (arith, length-take n s)

length-trim_left : (f : ℕ → Bool) (s : Text) → length (trim_left f s) ≤ length s
length-trim_left f [] = omega arith
length-trim_left f (c ∷ s) = ground (arith, length-trim_left f s)

-- The cut keeps at least half of the width and at most all of it.
last_index-lt : (s : Text) (b i : ℕ) → last_index_byte s b ≡ some i → i < length s
last_index-lt [] b i h = absurd (ground (arith, h))
last_index-lt (c ∷ s) b i h = elim (Option-cases (last_index_byte s b)) [
  | inl e ↦ ground (arith, h, e)
  | inr (j, e) ↦ (let k = last_index-lt s b j e in ground (arith, h, e, k))
]

cut_at_lem :
    (width : ℕ) (line : Text) → (width / 2 ≤ cut_at width line) × (cut_at width line ≤ width)
unfolding cut_at
cut_at_lem width line = elim (Option-cases (last_index_byte (take width line) 32)) [
  | inl e ↦ ground (arith, e)
  | inr (i, e) ↦
      (let k = last_index-lt (take width line) 32 i e in
        let t = length-take width line in ground (arith, e, k, t))
]

abbrev pub Fit : ℕ → List Text → Type 0
Fit width ls = All (λ l. length l ≤ width) ls

wrap_line-Fit :
    (rounds width : ℕ) (line : Text)
    → 1 ≤ width / 2
    → length line ≤ rounds
    → Fit width (wrap_line rounds width line)
unfolding wrap_line
wrap_line-Fit zero width line h e = (omega arith, tt)
wrap_line-Fit (suc rounds) width line h e =
    let i = cut_at width line in
    let (low, high) = cut_at_lem width line in
    elim (Bool-cases (ltb width (length line))) [
      | inl c ↦
          (let shorter = length-trim_left is_blank (drop i line) in
            let less = length-drop i line in
            let short = length-take i line in
            rw c (
              omega arith,
              wrap_line-Fit rounds width (trim_left is_blank (drop i line)) h
                  (ground (arith, shorter, less, low, h, e, c)),
            ))
      | inr c ↦ rw c (ground (arith, c), tt)
    ]

-- What is seen of a text: all but blanks and line ends.
abbrev pub is_ink : ℕ → Bool
is_ink c = not ((c == 32) || (c == 10))

abbrev pub ink : Text → Text
ink s = keep is_ink s

ink-append : (s t : Text) → ink (s ++ t) ≡ ink s ++ ink t
ink-append [] t = refl
ink-append (c ∷ s) t = elim (Bool-cases (is_ink c)) [
  | inl e ↦ rw (e, ink-append s t) refl
  | inr e ↦ rw (e, ink-append s t) refl
]

ink-trim_left : (s : Text) → ink (trim_left is_blank s) ≡ ink s
ink-trim_left [] = refl
ink-trim_left (c ∷ s) = elim (Bool-cases (is_blank c)) [
  | inl e ↦ ground (arith, e, ink-trim_left s)
  | inr e ↦ ground (arith, e)
]

ink-wrap_line :
    (rounds width : ℕ) (line : Text) → ink (concat (wrap_line rounds width line)) ≡ ink line
unfolding wrap_line
ink-wrap_line zero width line = rw (append-nil line) refl
ink-wrap_line (suc rounds) width line =
    let i = cut_at width line in
    let next = trim_left is_blank (drop i line) in
    elim (Bool-cases (ltb width (length line))) [
      | inl c ↦ rw c (
          ink-append (take i line) (concat (wrap_line rounds width next))
          ∙ ap (λ t. ink (take i line) ++ t)
              (ink-wrap_line rounds width next ∙ ink-trim_left (drop i line))
          ∙ sym (ink-append (take i line) (drop i line))
          ∙ ap ink (take-append-drop i line))
      | inr c ↦ rw (c, append-nil line) refl
    ]

Fit-append : (width : ℕ) (xs ys : List Text) → Fit width xs → Fit width ys → Fit width (xs ++ ys)
Fit-append width [] ys h k = k
Fit-append width (x ∷ xs) ys (h, hs) k = (h, Fit-append width xs ys hs k)

wrap_lines-Fit : (width : ℕ) (ls : List Text) → 1 ≤ width / 2 → Fit width (wrap_lines width ls)
unfolding wrap_lines
wrap_lines-Fit width [] h = tt
wrap_lines-Fit width (l ∷ ls) h =
    Fit-append width (wrap_line (length l) width l) (wrap_lines width ls)
      (wrap_line-Fit (length l) width l h (omega arith)) (wrap_lines-Fit width ls h)

concat-append : (xs ys : List Text) → concat (xs ++ ys) ≡ concat xs ++ concat ys
concat-append [] ys = refl
concat-append (x ∷ xs) ys =
    ap (λ t. x ++ t) (concat-append xs ys) ∙ sym (append_assoc x (concat xs) (concat ys))

ink-wrap_lines : (width : ℕ) (ls : List Text) → ink (concat (wrap_lines width ls)) ≡ ink (concat ls)
unfolding wrap_lines
ink-wrap_lines width [] = refl
ink-wrap_lines width (l ∷ ls) =
    let ws = wrap_line (length l) width l in
    ap ink (concat-append ws (wrap_lines width ls))
    ∙ ink-append (concat ws) (concat (wrap_lines width ls))
    ∙ ap (λ t. t ++ ink (concat (wrap_lines width ls))) (ink-wrap_line (length l) width l)
    ∙ ap (λ t. ink l ++ t) (ink-wrap_lines width ls)
    ∙ sym (ink-append l (concat ls))

ink-cons_head : (c : ℕ) (ls : List Text) → ink (concat (cons_head c ls)) ≡ ink (c ∷ concat ls)
ink-cons_head c [] = refl
ink-cons_head c (l ∷ ls) = refl

ink-cons : (c : ℕ) (s t : Text) → ink s ≡ ink t → ink (c ∷ s) ≡ ink (c ∷ t)
ink-cons c s t h = elim (Bool-cases (is_ink c)) [
  | inl e ↦ rw e (ap (λ t. c ∷ t) h)
  | inr e ↦ rw e h
]

either-ink :
    (b : Bool) (xs ys : List Text) (t : Text)
    → (b ≡ true → ink (concat xs) ≡ t)
    → ink (concat ys) ≡ t
    → ink (concat (if b then xs else ys)) ≡ t
either-ink true xs ys t h k = h refl
either-ink false xs ys t h k = k

ink-split : (s : Text) → ink (concat (split s 10)) ≡ ink s
unfolding split
ink-split [] = refl
ink-split (c ∷ s) =
    either-ink (c == 10) ([] ∷ split s 10) (cons_head c (split s 10)) (ink (c ∷ s))
      (λ e. ground (arith, e, ink-split s))
      (ink-cons_head c (split s 10) ∙ ink-cons c (concat (split s 10)) s (ink-split s))

-- Every line that wrap gives is at most as wide as asked for, but at least ten bytes are allowed; and
-- the lines together hold all bytes of the text in their order, blanks and line ends aside.
pub wrap-Fit :
    (s : Text) (width : ℕ)
    → Fit (at_least 10 width) (wrap s width) × (ink (concat (wrap s width)) ≡ ink s)
unfolding wrap at_least
wrap-Fit s width = (
  wrap_lines-Fit (at_least 10 width) (split s 10) (ground arith),
  ink-wrap_lines (at_least 10 width) (split s 10) ∙ ink-split s,
)
