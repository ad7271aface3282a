-- ===== src/Rescue/Output.antt =====
-- internal/rescue/rescue.go: reading what a script printed (lines, markers, the last message).
use mathlib.Core.List.{reverse}
use khealth_tui.Base.{
  ℕ, ◌-◌, Bool, not, ◌&&◌, ◌||◌, List, [], ◌∷◌, ◌++◌, Option, none, some, ltb, leb, ◌==◌,
  if◌then◌else◌, length, take, drop, keep, any, map,
}
use khealth_tui.Text.{
  Text, lit, text_eq, has_prefix, has_suffix, contains, trim_prefix, trim_right, trim_space, split,
  is_digit,
}

-- strings.TrimRight(s, "\n").
unfoldable pub chomp : Text → Text
chomp s = trim_right (λ c. c == 10) s

unfoldable pub lines : Text → List Text
lines s = split s 10

-- The first line with this prefix, without it.
unfoldable pub first_after : Text → List Text → Option Text
first_after p [] = none
first_after p (l ∷ ls) = if has_prefix l p then some (trim_prefix l p) else first_after p ls

-- A loop that assigns a variable at each line with this prefix: the last one counts.
unfoldable pub last_after : Text → Text → List Text → Text
last_after p v [] = v
last_after p v (l ∷ ls) =
    last_after p (if has_prefix l p then trim_space (trim_prefix l p) else v) ls

-- The line of the marker ends the output, or stands inside it.
unfoldable pub has_marker : Text → Text → Bool
unfolding chomp
has_marker out marker =
    contains out ((10 ∷ []) ++ (marker ++ 10 ∷ [])) || has_suffix (chomp out) marker

abbrev pub opens_data : Text → Bool
opens_data t =
    has_prefix t (lit "---")
    || (has_prefix t (lit "{")
        || (has_prefix t (lit "[") || (has_prefix t (lit "}") || has_prefix t (lit "]"))))

-- The loop of `lastInteresting`, over the lines from the last to the first.
unfoldable pub last_message : List Text → Text
last_message [] = []
last_message (l ∷ ls) =
    let t = trim_space l in
    let rest = last_message ls in
    if text_eq t [] || opens_data t then rest else if ltb 200 (length t) then take 200 t else t

unfoldable pub last_interesting : Text → Text
unfolding last_message lines
last_interesting out = last_message (reverse (lines (trim_space out)))

-- One round of `lastError`: the last line that holds `want`.
unfoldable pub last_with : Text → List Text → Option Text
last_with want [] = none
last_with want (l ∷ ls) =
    let t = trim_space l in
    if contains t want
    then some (if ltb 300 (length t) then take 300 t else t)
    else last_with want ls

unfoldable pub last_error_of : List Text → List Text → Text → Text
last_error_of [] ls other = other
last_error_of (w ∷ ws) ls other = elim (last_with w ls) [
  | some t ↦ t
  | none ↦ last_error_of ws ls other
]

unfoldable pub last_error : Text → Text
unfolding last_error_of last_with lines last_interesting
last_error out =
    last_error_of (lit "level=fatal" ∷ lit "level=error" ∷ lit "Shutdown request" ∷ [])
      (reverse (lines (trim_space out))) (last_interesting out)

abbrev is_live : Text → Bool
is_live t =
    not (text_eq t [])
    && not (has_prefix t (lit "{") || (has_prefix t (lit "[") || has_prefix t (lit "---")))

unfoldable pub live_lines : Text → List Text
unfolding lines chomp
live_lines out =
    let ls = keep is_live (map trim_space (lines (chomp out))) in
    if ltb 12 (length ls) then drop (length ls - 12) ls else ls

-- etcd.Clean: only letters, digits and _ . / : @ % = + , - stay.
abbrev safe_byte : ℕ → Bool
safe_byte c =
    (leb b'A' c && leb c b'Z')
    || ((leb b'a' c && leb c b'z')
        || (is_digit c
            || any (λ d. c == d)
                (b'_' ∷ b'.' ∷ b'/' ∷ b':' ∷ b'@' ∷ b'%' ∷ b'=' ∷ b'+' ∷ b',' ∷ b'-' ∷ [])))

unfoldable pub clean : Text → Text
clean = keep safe_byte
