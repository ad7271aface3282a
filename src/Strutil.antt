-- ===== src/Strutil.antt =====
-- internal/strutil/strutil.go: the formatting helpers.
pub mod Uniq
pub mod Scalar
mod Tests
use khealth_tui.Base.{
  ℕ, ◌-◌, ◌/◌, ◌%◌, ◌&&◌, ◌||◌, ◌==◌, List, [], ◌∷◌, ◌++◌, none, some, leb, ltb, if◌then◌else◌,
  length, take, any,
}
use khealth_tui.Text.{Text, lit, text_eq, index_byte, index_of, has_prefix, trim_space, join, itoa}

unfoldable pub trunc_str : Text → ℕ → Text
trunc_str s n = if leb (length s) n then s else take n s ++ lit "..."

-- The text behind the first end of line is dropped.
head_line : Text → Text
head_line s = elim (index_byte s 10) [ none ↦ s | some i ↦ trim_space (take i s) ]

unfoldable pub first_line : Text → Text
unfolding head_line
first_line s = trunc_str (head_line (trim_space s)) 200

unfoldable pub trunc_list : List Text → ℕ → Text
trunc_list l n =
    if leb (length l) n
    then join l (lit ", ")
    else join (take n l) (lit ", ") ++ (lit " (+" ++ (itoa (length l - n) ++ lit " more)"))

unfoldable pub first_non_empty : List Text → Text
first_non_empty [] = []
first_non_empty (s ∷ v) = if text_eq s [] then first_non_empty v else s

unfoldable pub prefix_if : Text → Text → Text
prefix_if prefix s = if text_eq s [] then [] else prefix ++ s

-- `Uniq`: `seen` is the map, as the list of what was kept.
unfoldable pub uniq_loop : List Text → List Text → List Text
uniq_loop seen [] = []
uniq_loop seen (s ∷ l) =
    let old = uniq_loop seen l in
    let new = s ∷ uniq_loop (s ∷ seen) l in if any (λ t. text_eq t s) seen then old else new

unfoldable pub uniq : List Text → List Text
unfolding uniq_loop
uniq l = uniq_loop [] l

-- The end of `YAMLScalar`: one pair of enclosing quotes is taken off.
abbrev pub last_byte : Text → ℕ
last_byte [] = 0
last_byte (c ∷ []) = c
last_byte (c ∷ d ∷ s) = last_byte (d ∷ s)

abbrev pub init : Text → Text
init [] = []
init (c ∷ []) = []
init (c ∷ d ∷ s) = c ∷ init (d ∷ s)

unfoldable pub unquote : Text → Text
unquote [] = []
unquote (c ∷ []) = c ∷ []
unquote (c ∷ d ∷ s) =
    if (c == 34 && last_byte (d ∷ s) == 34) || (c == 39 && last_byte (d ∷ s) == 39)
    then init (d ∷ s)
    else c ∷ d ∷ s

-- What stands before a comment.
unfoldable pub uncomment : Text → Text
uncomment s = elim (index_of s (lit " #")) [ none ↦ s | some i ↦ trim_space (take i s) ]

unfoldable pub yaml_scalar : Text → Text
unfolding unquote uncomment
yaml_scalar raw =
    let s = trim_space raw in if has_prefix s (lit "#") then [] else unquote (uncomment s)

-- `HumanDur` of a duration in nanoseconds that is not negative.
abbrev pub two_digits : ℕ → Text
two_digits n = if ltb n 10 then 48 ∷ itoa n else itoa n

unfoldable pub human_dur : ℕ → Text
human_dur d =
    let secs = d / 1000000000 in
    let mins = secs / 60 in
    let hours = mins / 60 in
    if ltb secs 60
    then itoa secs ++ lit "s"
    else if ltb mins 60
    then itoa mins ++ lit "m"
    else if ltb hours 48
    then itoa hours ++ (lit "h" ++ (two_digits (mins % 60) ++ lit "m"))
    else if ltb hours 720
    then itoa (hours / 24) ++ (lit "d" ++ (itoa (hours % 24) ++ lit "h"))
    else itoa (hours / 24) ++ lit "d"
