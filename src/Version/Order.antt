-- ===== src/Version/Order.antt =====
-- internal/helmcheck/helmcheck.go, `CompareVersions`: it orders the versions.
use khealth_tui.Base.{ℕ, ◌≡◌, ◌≢◌, refl, Bool, true, false, [], ◌∷◌, arith}
use khealth_tui.Text.{Text}
use khealth_tui.Version.{
  Sign, minus, equal, plus, compare_text, compare_number, compare_release, compare_versions, parts,
  is_prerelease, strip_meta,
}

abbrev pub opposite : Sign → Sign
opposite minus = plus
opposite equal = equal
opposite plus = minus

compare_text-opposite : (s t : Text) → compare_text t s ≡ opposite (compare_text s t)
unfolding compare_text
compare_text-opposite [] [] = refl
compare_text-opposite [] (d ∷ t) = refl
compare_text-opposite (c ∷ s) [] = refl
compare_text-opposite (c ∷ s) (d ∷ t) = ground (arith, compare_text-opposite s t)

compare_number-opposite :
    (a b : ℕ) (r q : Sign) → q ≡ opposite r → compare_number b a q ≡ opposite (compare_number a b r)
unfolding compare_number
compare_number-opposite a b r q h = ground arith

compare_release-opposite :
    (a b : Bool) (r q : Sign)
    → q ≡ opposite r
    → compare_release b a q ≡ opposite (compare_release a b r)
unfolding compare_release
compare_release-opposite true true r q h = h
compare_release-opposite true false r q h = refl
compare_release-opposite false true r q h = refl
compare_release-opposite false false r q h = h

-- Exchanging the two versions exchanges -1 and 1.
pub compare_versions-opposite :
    (a b : Text) → compare_versions b a ≡ opposite (compare_versions a b)
unfolding compare_versions
compare_versions-opposite a b = compare_number-opposite (parts a).0 (parts b).0 _ _ (
    compare_number-opposite (parts a).1 (parts b).1 _ _ (
      compare_number-opposite (parts a).2 (parts b).2 _ _ (
        compare_release-opposite (is_prerelease a) (is_prerelease b) _ _
          (compare_text-opposite (strip_meta a) (strip_meta b)))))

-- Transitivity of "not after", for the rest of a comparison as for the whole.
abbrev Chain : Sign → Sign → Sign → Type 0
Chain x y z = x ≢ plus → y ≢ plus → z ≢ plus

compare_text-Chain : (r s t : Text) → Chain (compare_text r s) (compare_text s t) (compare_text r t)
unfolding compare_text
compare_text-Chain [] s [] = λ h k e. absurd (ground (arith, e))
compare_text-Chain [] s (d ∷ t) = λ h k e. absurd (ground (arith, e))
compare_text-Chain (b ∷ r) [] t = λ h k. absurd (h refl)
compare_text-Chain (b ∷ r) (c ∷ s) [] = λ h k. absurd (k refl)
compare_text-Chain (b ∷ r) (c ∷ s) (d ∷ t) = ground (arith, compare_text-Chain r s t)

compare_number-Chain :
    (a b c : ℕ) (x y z : Sign)
    → Chain x y z
    → Chain (compare_number a b x) (compare_number b c y) (compare_number a c z)
unfolding compare_number
compare_number-Chain a b c x y z h = ground (arith, h)

compare_release-Chain :
    (a b c : Bool) (x y z : Sign)
    → Chain x y z
    → Chain (compare_release a b x) (compare_release b c y) (compare_release a c z)
unfolding compare_release
compare_release-Chain a b c x y z h = ground (arith, h)

-- A version that is not after a second one, which is not after a third one, is not after the third.
pub compare_versions_trans :
    (a b c : Text)
    → compare_versions a b ≢ plus
    → compare_versions b c ≢ plus
    → compare_versions a c ≢ plus
unfolding compare_versions
compare_versions_trans a b c = compare_number-Chain (parts a).0 (parts b).0 (parts c).0 _ _ _ (
    compare_number-Chain (parts a).1 (parts b).1 (parts c).1 _ _ _ (
      compare_number-Chain (parts a).2 (parts b).2 (parts c).2 _ _ _ (
        compare_release-Chain (is_prerelease a) (is_prerelease b) (is_prerelease c) _ _ _
          (compare_text-Chain (strip_meta a) (strip_meta b) (strip_meta c)))))
