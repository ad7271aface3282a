-- ===== src/Table/Wrap.antt =====
-- internal/ui/table.go: `wrap`, which breaks plain text into lines, and `flow`, which lays out items.
pub mod Bounds
mod Tests
use khealth_tui.Base.{
  ℕ, zero, suc, ◌+◌, ◌/◌, Bool, true, false, List, [], ◌∷◌, ◌++◌, Option, none, some, if◌then◌else◌,
  ltb, leb, ◌==◌, length, take, drop,
}
use khealth_tui.Text.{Text, split, last_index_byte, trim_left, repeat, text_eq}

unfoldable pub at_least : ℕ → ℕ → ℕ
at_least low n = if ltb n low then low else n

-- Where a line that is too long is cut: at its last blank within the width, unless that leaves less
-- than half of it.
unfoldable pub cut_at : ℕ → Text → ℕ
cut_at width line = elim (last_index_byte (take width line) 32) [
  | none ↦ width
  | some i ↦ (if ltb i (width / 2) then width else i)
]

abbrev pub is_blank : ℕ → Bool
is_blank c = c == 32

-- The loop on one line, on rounds: each round cuts off something, so a line's length is enough.
unfoldable pub wrap_line : ℕ → ℕ → Text → List Text
unfolding cut_at
wrap_line zero width line = line ∷ []
wrap_line (suc rounds) width line =
    let i = cut_at width line in
    let rest = wrap_line rounds width (trim_left is_blank (drop i line)) in
    if ltb width (length line) then take i line ∷ rest else line ∷ []

unfoldable pub wrap_lines : ℕ → List Text → List Text
unfolding wrap_line
wrap_lines width [] = []
wrap_lines width (l ∷ ls) = wrap_line (length l) width l ++ wrap_lines width ls

unfoldable pub wrap : Text → ℕ → List Text
unfolding wrap_lines at_least
wrap s width = wrap_lines (at_least 10 width) (split s 10)

-- `cell_width` is ansi.StringWidth.
module _ (cell_width : Text → ℕ) where
  -- The rest of the items, with the line so far and its width.
  unfoldable pub flow_loop : ℕ → ℕ → Text → ℕ → List Text → List Text
  flow_loop width indent line w [] = if text_eq line [] then [] else line ∷ []
  flow_loop width indent line w (it ∷ items) =
      let iw = cell_width it in
      let skipped = flow_loop width indent line w items in
      let first = flow_loop width indent it iw items in
      let joined = flow_loop width indent (line ++ (32 ∷ 32 ∷ it)) (w + (2 + iw)) items in
      let broken = flow_loop width indent (repeat 32 indent ++ it) (indent + iw) items in
      if text_eq it []
      then skipped
      else if text_eq line []
      then first
      else if leb (w + 2 + iw) width
      then joined
      else line ∷ broken

  unfoldable pub flow : ℕ → ℕ → List Text → List Text
  unfolding flow_loop at_least
  flow width indent items = flow_loop (at_least 20 width) indent [] 0 items
