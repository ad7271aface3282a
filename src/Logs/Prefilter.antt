-- ===== src/Logs/Prefilter.antt =====
-- internal/logs/prefilter.go: the literals that every match of a regular expression contains.
pub mod Syntax
pub mod Sets
pub mod Sound
use khealth_tui.Base.{
  ℕ, zero, suc, ◌*◌, Bool, true, false, ◌&&◌, ◌||◌, not, List, [], ◌∷◌, ◌++◌, length, if◌then◌else◌,
  ltb, leb, ◌==◌, all, map,
}
use khealth_tui.Text.{Text, text_eq, to_lower}
use Syntax.{
  Regexp, Regexps, literal, zero_width, capture, quest, plus, star, repeat, alternate, concat,
  one_rune, no_match, end, ◌⨾◌,
}

-- `litInfo`. The source's nil is the empty list: none of its sets is empty and not nil.
pub record LitInfo : Type 0 where
  pub exact : List Text
  pub need : List Text

abbrev pub max_exact : ℕ
max_exact = 32

abbrev pub min_need : ℕ
min_need = 3

abbrev pub is_empty : List Text → Bool
is_empty [] = true
is_empty (x ∷ xs) = false

unfoldable pub usable : List Text → Bool
usable set = not (is_empty set) && all (λ s. not (text_eq s [])) set

unfoldable pub need_of : LitInfo → List Text
unfolding usable
need_of c = if not (is_empty c.need) then c.need else if usable c.exact then c.exact else []

-- Every item of `a` before every item of `b`.
unfoldable pub cross : List Text → List Text → List Text
cross [] b = []
cross (x ∷ a) b = map (λ y. x ++ y) b ++ cross a b

-- The loop of `shortest` behind its first round.
abbrev pub shortest_loop : ℕ → List Text → ℕ
shortest_loop m [] = m
shortest_loop m (s ∷ set) = shortest_loop (if ltb (length s) m then length s else m) set

-- `shortest` + 1, so that 0 is the source's -1.
unfoldable pub shortest : List Text → ℕ
shortest [] = 0
shortest (s ∷ set) = suc (shortest_loop (length s) set)

unfoldable pub better : List Text → List Text → Bool
unfolding shortest
better a b =
    if shortest a == shortest b then ltb (length a) (length b) else ltb (shortest b) (shortest a)

-- The closure `consider`, with the variable `best` passed on.
unfoldable pub consider : List Text → List Text → List Text
unfolding usable better
consider set best = if usable set && (is_empty best || better set best) then set else best

-- The case of alternatives: `ex`, `nd`, `exOK` and `ndOK` are passed on.
unfoldable pub alternate_loop : List Text → List Text → Bool → Bool → List LitInfo → LitInfo
unfolding need_of
alternate_loop ex nd ex_ok nd_ok [] = record {
  exact = (if ex_ok && leb (length ex) max_exact then ex else []);
  need = (if nd_ok then nd else []);
}
alternate_loop ex nd ex_ok nd_ok (c ∷ cs) =
    let n = need_of c in
    alternate_loop (ex ++ c.exact) (nd ++ n) (ex_ok && not (is_empty c.exact))
      (nd_ok && not (is_empty n)) cs

-- The case of a sequence: `best`, `cur` and `allExact` are passed on.
unfoldable pub concat_loop : List Text → List Text → Bool → List LitInfo → LitInfo
unfolding need_of cross consider
concat_loop best cur all_exact [] =
    let best1 = consider cur best in
    if all_exact then record { exact = cur; need = best1 } else record { exact = []; need = best1 }
concat_loop best cur all_exact (c ∷ cs) =
    let joined = concat_loop best (cross cur c.exact) all_exact cs in
    let apart =
      concat_loop (consider (need_of c) (consider cur best))
        (if is_empty c.exact then [] ∷ [] else c.exact) false cs in
    if not (is_empty c.exact) && leb (length cur * length c.exact) max_exact then joined else apart

abbrev pub unknown : LitInfo
unknown = record { exact = []; need = [] }

unfoldable mutual
  unfolding need_of alternate_loop concat_loop

  pub literals : Regexp → LitInfo
  literals (literal fold rs) = let s = to_lower rs in record { exact = s ∷ []; need = s ∷ [] }
  literals zero_width = record { exact = [] ∷ []; need = [] }
  literals (capture r) = literals r
  literals (quest r) =
      let c = literals r in
      if not (is_empty c.exact) && ltb (length c.exact) max_exact
      then record { exact = [] ∷ c.exact; need = [] }
      else unknown
  literals (plus r) = record { exact = []; need = need_of (literals r) }
  literals (repeat least most r) =
      let c = literals r in if leb 1 least then record { exact = []; need = need_of c } else unknown
  literals (alternate rs) = alternate_loop [] [] true true (sub_literals rs)
  literals (concat rs) = concat_loop [] ([] ∷ []) true (sub_literals rs)
  literals (star r) = unknown
  literals (one_rune ok) = unknown
  literals no_match = unknown

  pub sub_literals : Regexps → List LitInfo
  sub_literals end = []
  sub_literals (r ⨾ rs) = literals r ∷ sub_literals rs

-- `needLiterals` behind the parser: `r` is the simplified expression.
unfoldable pub need_literals : Regexp → List Text
unfolding literals need_of
need_literals r =
    let set = need_of (literals r) in if all (λ s. leb min_need (length s)) set then set else []
