-- ===== src/Version.antt =====
-- internal/helmcheck/helmcheck.go: `CompareVersions`, which orders chart versions.
pub mod Order
mod Tests
use khealth_tui.Base.{
  ℕ, zero, suc, ◌+◌, ◌-◌, ◌*◌, Bool, true, false, ◌&&◌, ◌||◌, not, List, [], ◌∷◌, Option, none,
  some, if◌then◌else◌, ltb, ◌==◌, take,
}
use khealth_tui.Text.{
  Text, lit, text_eq, trim_prefix, trim_left, trim_right, index_byte, contains, cut, is_digit,
}

-- The result: -1, 0 or 1.
pub data Sign : Type 0 where
  minus : Sign
  equal : Sign
  plus : Sign

-- The text before the first byte that passes the test.
unfoldable pub before : (ℕ → Bool) → Text → Text
before f [] = []
before f (c ∷ s) = let rest = before f s in if f c then [] else c ∷ rest

unfoldable pub strip_meta : Text → Text
unfolding before
strip_meta v = before (λ c. c == 43) (trim_prefix v (lit "v"))

unfoldable pub is_prerelease : Text → Bool
unfolding strip_meta
is_prerelease v = contains (strip_meta v) (lit "-")

-- strconv.Atoi of a text whose first and last bytes are digits, with the error dropped: 0 where another
-- byte stands between, and the greatest int where the number is greater.
abbrev pub max_int : ℕ
max_int = 9223372036854775807

abbrev all_digits : Text → Bool
all_digits [] = true
all_digits (c ∷ s) = is_digit c && all_digits s

abbrev number_from : ℕ → Text → ℕ
number_from n [] = n
number_from n (c ∷ s) = number_from (10 * n + (c - 48)) s

unfoldable pub atoi : Text → ℕ
atoi s =
    if not (all_digits s)
    then 0
    else if ltb max_int (number_from 0 s)
    then max_int
    else number_from 0 s

-- strings.TrimFunc and Atoi of one part.
unfoldable pub part : Text → ℕ
unfolding atoi
part p = atoi (trim_right (λ c. not (is_digit c)) (trim_left (λ c. not (is_digit c)) p))

-- strings.SplitN at ".": the first part, and the rest behind a dot.
unfoldable pub split_first : Text → Text × Option Text
split_first s = elim (cut s 46) [ none ↦ (s, none) | some (a, b) ↦ (a, some b) ]

abbrev part_opt : Option Text → ℕ
part_opt none = 0
part_opt (some s) = part s

unfoldable pub parts : Text → ℕ × ℕ × ℕ
unfolding before part split_first
parts v =
    let core = before (λ c. (c == 45) || (c == 43)) (trim_prefix v (lit "v")) in
    let (a, rest) = split_first core in
    elim rest [
      | none ↦ (part a, 0, 0)
      | some s ↦ (let (b, last) = split_first s in (part a, part b, part_opt last))
    ]

-- strings.Compare.
unfoldable pub compare_text : Text → Text → Sign
compare_text [] [] = equal
compare_text [] (d ∷ t) = minus
compare_text (c ∷ s) [] = plus
compare_text (c ∷ s) (d ∷ t) =
    let rest = compare_text s t in if c == d then rest else if ltb c d then minus else plus

unfoldable pub compare_number : ℕ → ℕ → Sign → Sign
compare_number a b rest = if a == b then rest else if ltb a b then minus else plus

unfoldable pub compare_release : Bool → Bool → Sign → Sign
compare_release true false rest = minus
compare_release false true rest = plus
compare_release _ _ rest = rest

unfoldable pub compare_versions : Text → Text → Sign
unfolding parts is_prerelease strip_meta compare_text compare_number compare_release
compare_versions a b =
    let (a0, a1, a2) = parts a in
    let (b0, b1, b2) = parts b in
    compare_number a0 b0 (
      compare_number a1 b1 (
        compare_number a2 b2 (
          compare_release (is_prerelease a) (is_prerelease b)
            (compare_text (strip_meta a) (strip_meta b)))))
