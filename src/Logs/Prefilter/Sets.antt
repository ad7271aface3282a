-- ===== src/Logs/Prefilter/Sets.antt =====
-- The sets of literals of internal/logs/prefilter.go: what is required of a lower-cased text.
use khealth_tui.Base.{
  ◌*◌, ◌≡◌, ◌≢◌, refl, sym, subst, Bool, true, false, ◌&&◌, ◌||◌, not, List, [], ◌∷◌, ◌++◌, length,
  if◌then◌else◌, leb, map, inl, inr, arith, Any, In, Bool-cases, Any-append_left, Any-append_right,
  Any-map_pred, append_assoc, append-nil, &&-true,
}
use khealth_tui.Text.{Text, contains}
use khealth_tui.Text.Laws.{contains-middle, contains_grow}
use khealth_tui.Logs.Prefilter.{
  LitInfo, need_of, usable, cross, better, consider, alternate_loop, concat_loop, is_empty,
  max_exact,
}

-- The text contains one of the literals.
abbrev pub Hit : Text → List Text → Type 0
Hit l set = Any (λ n. contains l n ≡ true) set

-- What `litInfo` says of a match.
abbrev pub Fits : LitInfo → Text → Type 0
Fits c l = (c.exact ≢ [] → In l c.exact) × (c.need ≢ [] → Hit l c.need)

pub Hit-grow : (u l v : Text) (set : List Text) → Hit l set → Hit (u ++ (l ++ v)) set
Hit-grow u l v set h = Any-map_pred set (λ n. contains_grow u l v n) h

pub Hit-In : (u l v : Text) (set : List Text) → In l set → Hit (u ++ (l ++ v)) set
Hit-In u l v set h =
    Any-map_pred set
      (λ n e. subst (λ t. contains (u ++ (t ++ v)) n ≡ true) e (contains-middle u n v)) h

whole : (l : Text) → [] ++ (l ++ []) ≡ l
whole l = append-nil l

pub Hit-self : (l : Text) (set : List Text) → In l set → Hit l set
Hit-self l set h = subst (λ t. Hit t set) (whole l) (Hit-In [] l [] set h)

pub Hit-need_of : (c : LitInfo) (l : Text) → Fits c l → need_of c ≢ [] → Hit l (need_of c)
unfolding need_of
Hit-need_of c l (f, g) h = elim (Bool-cases (is_empty c.need)) [
  | inl e ↦ rw e (elim (Bool-cases (usable c.exact)) [
    | inl u ↦ rw u (Hit-self l c.exact (f (λ z. absurd (h (ground arith)))))
    | inr u ↦ absurd (h (ground arith))
  ])
  | inr e ↦ rw e (g (λ z. absurd (ground arith)))
]

pub In-cross : (x y : Text) (a b : List Text) → In x a → In y b → In (x ++ y) (cross a b)
unfolding cross
In-cross x y [] b h k = absurd h
In-cross x y (z ∷ a) b (inl e) k =
    Any-append_left _ (map (λ w. z ++ w) b) (cross a b) (In-map z b k)
  where
    In-map : (w : Text) (b : List Text) → In y b → In (x ++ y) (map (λ v. z ++ v) b)
    In-map w [] k = absurd k
    In-map w (v ∷ b) (inl d) = inl (cc (e, d))
    In-map w (v ∷ b) (inr k) = inr (In-map w b k)
In-cross x y (z ∷ a) b (inr h) k =
    Any-append_right _ (map (λ w. z ++ w) b) (cross a b) (In-cross x y a b h k)

pub Hit-consider :
    (set best : List Text) (l : Text)
    → (best ≢ [] → Hit l best)
    → (set ≢ [] → Hit l set)
    → consider set best ≢ []
    → Hit l (consider set best)
unfolding consider usable
Hit-consider set best l hb hs h =
    elim (Bool-cases (usable set && (is_empty best || better set best))) [
      | inl e ↦ rw e (hs (λ z. absurd (ground (arith, z, e))))
      | inr e ↦ rw e (hb (λ z. h (ground (arith, z, e))))
    ]

pub alternate-kept :
    (ex nd : List Text) (ex_ok nd_ok : Bool) (cs : List LitInfo) (l : Text)
    → (ex_ok ≡ true → In l ex)
    → (nd_ok ≡ true → Hit l nd)
    → Fits (alternate_loop ex nd ex_ok nd_ok cs) l
unfolding alternate_loop
alternate-kept ex nd ex_ok nd_ok [] l f g = (ground arith, ground arith)
alternate-kept ex nd ex_ok nd_ok (c ∷ cs) l f g =
    alternate-kept (ex ++ c.exact) (nd ++ need_of c) (ex_ok && not (is_empty c.exact))
      (nd_ok && not (is_empty (need_of c))) cs l
      (λ h. Any-append_left (λ n. n ≡ l) ex c.exact (f (&&-true ex_ok _ h).0))
      (λ h. Any-append_left (λ n. contains l n ≡ true) nd (need_of c) (g (&&-true nd_ok _ h).0))

is_empty-false : (set : List Text) → not (is_empty set) ≡ true → set ≢ []
is_empty-false set h e = absurd (ground (arith, h, e))

pub alternate-Fits :
    (ex nd : List Text) (ex_ok nd_ok : Bool) (cs : List LitInfo) (l : Text)
    → Any (λ c. Fits c l) cs
    → Fits (alternate_loop ex nd ex_ok nd_ok cs) l
unfolding alternate_loop
alternate-Fits ex nd ex_ok nd_ok [] l h = absurd h
alternate-Fits ex nd ex_ok nd_ok (c ∷ cs) l (inl (f, g)) =
    alternate-kept (ex ++ c.exact) (nd ++ need_of c) (ex_ok && not (is_empty c.exact))
      (nd_ok && not (is_empty (need_of c))) cs l
      (λ h.
        Any-append_right (λ n. n ≡ l) ex c.exact (f (is_empty-false c.exact (&&-true ex_ok _ h).1)))
      (λ h.
        Any-append_right (λ n. contains l n ≡ true) nd (need_of c)
          (Hit-need_of c l (f, g) (is_empty-false (need_of c) (&&-true nd_ok _ h).1)))
alternate-Fits ex nd ex_ok nd_ok (c ∷ cs) l (inr h) =
    alternate-Fits (ex ++ c.exact) (nd ++ need_of c) (ex_ok && not (is_empty c.exact))
      (nd_ok && not (is_empty (need_of c))) cs l h

-- The parts of a sequence match one after the other.
abbrev pub FitsSeq : List LitInfo → Text → Type 0
FitsSeq [] l = l ≡ []
FitsSeq (c ∷ cs) l = (u : Text) × (v : Text) × (l ≡ u ++ v) × Fits c u × FitsSeq cs v

Hit-behind : (p q : Text) (set : List Text) → In q set → Hit (p ++ q) set
Hit-behind p q set h = subst (λ t. Hit (p ++ t) set) (append-nil q) (Hit-In p q [] set h)

pub Hit-ahead : (l v : Text) (set : List Text) → Hit l set → Hit (l ++ v) set
Hit-ahead l v set h = Hit-grow [] l v set h

Hit-last : (u l : Text) (set : List Text) → Hit l set → Hit (u ++ l) set
Hit-last u l set h = subst (λ t. Hit (u ++ t) set) (append-nil l) (Hit-grow u l [] set h)

-- The literals considered where a part is not joined.
considered :
    (best cur : List Text) (c : LitInfo) (p q u : Text)
    → In q cur
    → (best ≢ [] → Hit (p ++ q) best)
    → Fits c u
    → consider (need_of c) (consider cur best) ≢ []
    → Hit ((p ++ q) ++ u) (consider (need_of c) (consider cur best))
considered best cur c p q u hq hb fu =
    Hit-consider (need_of c) (consider cur best) ((p ++ q) ++ u)
      (λ n.
        Hit-ahead (p ++ q) u (consider cur best)
          (Hit-consider cur best (p ++ q) hb (λ _. Hit-behind p q cur hq) n))
      (λ n. Hit-last (p ++ q) u (need_of c) (Hit-need_of c u fu n))

joined_eq : (p q u v l : Text) → l ≡ u ++ v → (p ++ (q ++ u)) ++ v ≡ (p ++ q) ++ l
joined_eq p q u v l e =
    cc (e, append_assoc p (q ++ u) v, append_assoc p q (u ++ v), append_assoc q u v)

apart_eq : (r u v l : Text) → l ≡ u ++ v → ((r ++ u) ++ []) ++ v ≡ r ++ l
apart_eq r u v l e = cc (e, append-nil (r ++ u), append_assoc r u v)

next_eq : (r u v l : Text) → l ≡ u ++ v → (r ++ u) ++ v ≡ r ++ l
next_eq r u v l e = cc (e, append_assoc r u v)

-- The exact parts start again behind a part that is not joined.
restart :
    {b : Bool} (exact best : List Text) (cs : List LitInfo) (l : Text)
    → is_empty exact ≡ b
    → Fits (concat_loop best (if b then [] ∷ [] else exact) false cs) l
    → Fits (concat_loop best (if is_empty exact then [] ∷ [] else exact) false cs) l
restart exact best cs l e f =
    subst (λ t. Fits (concat_loop best (if t then [] ∷ [] else exact) false cs) l) (sym e) f

-- `p` is matched, and `q` by the exact parts behind it.
pub concat-Fits :
    (best cur : List Text) (all_exact : Bool) (cs : List LitInfo) (p q l : Text)
    → In q cur
    → (all_exact ≡ true → p ≡ [])
    → (best ≢ [] → Hit (p ++ q) best)
    → FitsSeq cs l
    → Fits (concat_loop best cur all_exact cs) ((p ++ q) ++ l)
unfolding concat_loop
concat-Fits best cur all_exact [] p q l hq hp hb e =
    let eq : (p ++ q) ++ l ≡ p ++ q = cc (e, append-nil (p ++ q)) in
    let need = Hit-consider cur best (p ++ q) hb (λ _. Hit-behind p q cur hq) in
    subst (Fits (concat_loop best cur all_exact [])) (sym eq) (elim (Bool-cases all_exact) [
      | inl a ↦ rw a ((λ _. subst (λ t. In (t ++ q) cur) (sym (hp a)) hq), need)
      | inr a ↦ rw a ((λ n. absurd (n refl)), need)
    ])
concat-Fits best cur all_exact (c ∷ cs) p q l hq hp hb (u, v, e, fu, fv) =
    elim (Bool-cases (not (is_empty c.exact) && leb (length cur * length c.exact) max_exact)) [
      | inl a ↦
          let joined =
            concat-Fits best (cross cur c.exact) all_exact cs p (q ++ u) v
              (In-cross q u cur c.exact hq (fu.0 (is_empty-false c.exact (&&-true _ _ a).0))) hp
              (λ n. subst (λ t. Hit t best) (append_assoc p q u) (Hit-ahead (p ++ q) u best (hb n)))
              fv in
          rw a (
            subst (Fits (concat_loop best (cross cur c.exact) all_exact cs)) (joined_eq p q u v l e)
              joined)
      | inr a ↦
          let best1 = consider (need_of c) (consider cur best) in
          let seen = considered best cur c p q u hq hb fu in
          rw a (elim (Bool-cases (is_empty c.exact)) [
            | inl b ↦ restart c.exact best1 cs ((p ++ q) ++ l) b (
                subst (Fits (concat_loop best1 ([] ∷ []) false cs)) (apart_eq (p ++ q) u v l e) (
                  concat-Fits best1 ([] ∷ []) false cs ((p ++ q) ++ u) [] v (inl refl)
                    (λ z. absurd (ground (arith, z)))
                    (λ n. subst (λ t. Hit t best1) (sym (append-nil ((p ++ q) ++ u))) (seen n)) fv))
            | inr b ↦ restart c.exact best1 cs ((p ++ q) ++ l) b (
                subst (Fits (concat_loop best1 c.exact false cs)) (next_eq (p ++ q) u v l e) (
                  concat-Fits best1 c.exact false cs (p ++ q) u v
                    (fu.0 (λ z. absurd (ground (arith, z, b)))) (λ z. absurd (ground (arith, z)))
                    seen fv))
          ])
    ]
