-- ===== src/Text/Defs.antt =====
-- The bytes of a text and the standard library's functions on them.
use Prim.Native.Char.{code}
use Prim.Native.String.{String}
use mathlib.Core.List.{reverse}
use khealth_tui.Base.{
  ℕ, zero, suc, ◌+◌, ◌-◌, ◌/◌, ◌%◌, Bool, true, false, ◌&&◌, ◌||◌, List, [], ◌∷◌, ◌++◌, Option,
  none, some, ltb, leb, ◌==◌, if◌then◌else◌, length, take, drop, replicate, keep, not,
}

abbrev pub Text : Type 0
Text = List ℕ

abbrev pub codes : String → Text
codes String.[] = []
codes (String.◌∷◌ c s) = code c ∷ codes s

-- A literal of the source. It stays shut, so that proofs carry its name and not its bytes.
unfoldable pub lit : String → Text
lit s = codes s

abbrev pub text_eq : Text → Text → Bool
text_eq [] [] = true
text_eq [] (d ∷ t) = false
text_eq (c ∷ s) [] = false
text_eq (c ∷ s) (d ∷ t) = (c == d) && text_eq s t

abbrev pub has_prefix : Text → Text → Bool
has_prefix s [] = true
has_prefix [] (p ∷ ps) = false
has_prefix (c ∷ s) (p ∷ ps) = (c == p) && has_prefix s ps

-- strings.HasSuffix: some tail of `s` is `p`.
abbrev pub has_suffix : Text → Text → Bool
has_suffix [] p = text_eq [] p
has_suffix (c ∷ s) p = text_eq (c ∷ s) p || has_suffix s p

unfoldable pub trim_prefix : Text → Text → Text
trim_prefix s p = if has_prefix s p then drop (length p) s else s

unfoldable pub trim_suffix : Text → Text → Text
trim_suffix s p = if has_suffix s p then take (length s - length p) s else s

abbrev pub contains : Text → Text → Bool
contains [] p = has_prefix [] p
contains (c ∷ s) p = has_prefix (c ∷ s) p || contains s p

abbrev pub shift : Option ℕ → Option ℕ
shift none = none
shift (some i) = some (suc i)

-- strings.IndexByte; `none` is -1.
abbrev pub index_byte : Text → ℕ → Option ℕ
index_byte [] b = none
index_byte (c ∷ s) b = if c == b then some 0 else shift (index_byte s b)

-- strings.Index; `none` is -1.
abbrev pub index_of : Text → Text → Option ℕ
index_of [] p = if has_prefix [] p then some 0 else none
index_of (c ∷ s) p = if has_prefix (c ∷ s) p then some 0 else shift (index_of s p)

-- strings.LastIndex of one byte; `none` is -1.
abbrev pub last_index_byte : Text → ℕ → Option ℕ
last_index_byte [] b = none
last_index_byte (c ∷ s) b = elim (last_index_byte s b) [
  | none ↦ (if c == b then some 0 else none)
  | some i ↦ some (suc i)
]

abbrev pub cons_head : ℕ → List Text → List Text
cons_head c [] = (c ∷ []) ∷ []
cons_head c (l ∷ ls) = (c ∷ l) ∷ ls

-- strings.Split by one byte: always at least one part.
unfoldable pub split : Text → ℕ → List Text
split [] b = [] ∷ []
split (c ∷ s) b = let rest = split s b in if c == b then [] ∷ rest else cons_head c rest

-- strings.Cut at one byte: the parts before and after the first one, or `none`.
unfoldable pub cut : Text → ℕ → Option (Text × Text)
cut [] b = none
cut (c ∷ s) b =
    if c == b then some ([], s) else elim (cut s b) [ none ↦ none | some (u, v) ↦ some (c ∷ u, v) ]

-- The ASCII white space of unicode.IsSpace.
abbrev pub is_space : ℕ → Bool
is_space c = (leb 9 c && leb c 13) || (c == 32)

abbrev pub trim_left : (ℕ → Bool) → Text → Text
trim_left f [] = []
trim_left f (c ∷ s) = let rest = trim_left f s in if f c then rest else c ∷ s

abbrev pub trim_right : (ℕ → Bool) → Text → Text
trim_right f s = reverse (trim_left f (reverse s))

unfoldable pub trim_space : Text → Text
trim_space s = trim_right is_space (trim_left is_space s)

-- strings.ReplaceAll(s, b, "") for one byte.
abbrev pub remove_byte : ℕ → Text → Text
remove_byte b = keep (λ c. not (c == b))

abbrev pub concat : List Text → Text
concat [] = []
concat (t ∷ ts) = t ++ concat ts

unfoldable pub join : List Text → Text → Text
join [] sep = []
join (t ∷ []) sep = t
join (t ∷ u ∷ ts) sep = t ++ (sep ++ join (u ∷ ts) sep)

abbrev pub digits : ℕ → ℕ → Text → Text
digits zero n acc = acc
digits (suc f) n acc =
    let rest = digits f (n / 10) ((48 + n % 10) ∷ acc) in if n == 0 then acc else rest

-- %d of a number that is not negative: `n + 1` rounds are more than its digits.
unfoldable pub itoa : ℕ → Text
itoa n = if n == 0 then 48 ∷ [] else digits (n + 1) n []

abbrev pub lower_byte : ℕ → ℕ
lower_byte c = if leb 65 c && leb c 90 then c + 32 else c

-- strings.ToLower of an ASCII text.
abbrev pub to_lower : Text → Text
to_lower [] = []
to_lower (c ∷ s) = lower_byte c ∷ to_lower s

abbrev pub repeat : ℕ → ℕ → Text
repeat b n = replicate n b

abbrev pub is_digit : ℕ → Bool
is_digit c = leb 48 c && leb c 57

-- `<` of strings.
unfoldable pub text_less : Text → Text → Bool
text_less s [] = false
text_less [] (d ∷ t) = true
text_less (c ∷ s) (d ∷ t) = ltb c d || ((c == d) && text_less s t)
