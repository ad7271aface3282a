-- ===== src/Logs/Prefilter/Syntax.antt =====
-- The syntax trees of regexp/syntax that internal/logs/prefilter.go reads, and what they match.
use khealth_tui.Base.{
  ℕ, zero, suc, ◌≡◌, Bool, true, [], ◌++◌, Option, none, some, ◌≤◌, ◌⊎◌, if◌then◌else◌,
}
use khealth_tui.Text.{Text, to_lower}

infixr 20 ◌⨾◌
-- `zero_width` is the empty match and the assertions; `one_rune` the classes and any-character nodes.
mutual
  pub data Regexp : Type 0 where
    literal : Bool → Text → Regexp
    zero_width : Regexp
    capture : Regexp → Regexp
    quest : Regexp → Regexp
    plus : Regexp → Regexp
    star : Regexp → Regexp
    repeat : ℕ → Option ℕ → Regexp → Regexp
    alternate : Regexps → Regexp
    concat : Regexps → Regexp
    one_rune : (Text → Bool) → Regexp
    no_match : Regexp

  pub data Regexps : Type 0 where
    end : Regexps
    ◌⨾◌ : Regexp → Regexps → Regexps

-- `n` matches of `P`, one after the other.
abbrev pub Copies : (Text → Type 0) → ℕ → Text → Type 0
Copies P zero s = s ≡ []
Copies P (suc n) s = (u : Text) × (v : Text) × (s ≡ u ++ v) × P u × Copies P n v

abbrev pub AtMost : Option ℕ → ℕ → Type 0
AtMost none n = Unit
AtMost (some m) n = n ≤ m

-- `Matches r s`: `r` can match exactly the ASCII text `s`. An assertion may hold anywhere.
unfoldable mutual
  pub Matches : Regexp → Text → Type 0
  Matches (literal fold rs) s = if fold then to_lower s ≡ to_lower rs else s ≡ rs
  Matches zero_width s = s ≡ []
  Matches (capture r) s = Matches r s
  Matches (quest r) s = (s ≡ []) ⊎ Matches r s
  Matches (plus r) s = (n : ℕ) × Copies (Matches r) (suc n) s
  Matches (star r) s = (n : ℕ) × Copies (Matches r) n s
  Matches (repeat least most r) s = (n : ℕ) × (least ≤ n) × AtMost most n × Copies (Matches r) n s
  Matches (alternate rs) s = MatchesOne rs s
  Matches (concat rs) s = MatchesSeq rs s
  Matches (one_rune ok) s = ok s ≡ true
  Matches no_match s = ⊥

  pub MatchesOne : Regexps → Text → Type 0
  MatchesOne end s = ⊥
  MatchesOne (r ⨾ rs) s = Matches r s ⊎ MatchesOne rs s

  pub MatchesSeq : Regexps → Text → Type 0
  MatchesSeq end s = s ≡ []
  MatchesSeq (r ⨾ rs) s = (u : Text) × (v : Text) × (s ≡ u ++ v) × Matches r u × MatchesSeq rs v
