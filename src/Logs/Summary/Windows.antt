-- ===== src/Logs/Summary/Windows.antt =====
-- internal/logs/patterns.go: the windows in which a node was starting.
use khealth_tui.Base.{
  ℕ, ◌+◌, ◌*◌, ◌≤◌, ◌<◌, ◌≡◌, ◌≢◌, true, ◌&&◌, List, [], ◌∷◌, ◌++◌, Option, none, some, arith,
  Bool-cases, inl, inr, if◌then◌else◌, ltb, leb, Any, In, any, Any-append_left, Any-append_right,
  Any-append_cases,
}
use khealth_tui.Logs.Summary.{
  Summary, minute, window_end, windows_loop, startup_windows, in_startup,
}

-- From a time on, each start marker is no earlier than the one before it.
abbrev pub Ascending : ℕ → List ℕ → Type 0
Ascending k [] = Unit
Ascending k (st ∷ starts) = (k ≤ st) × Ascending st starts

-- Each window ends before the next one begins.
abbrev pub Apart : List (ℕ × ℕ) → Type 0
Apart [] = Unit
Apart (w ∷ []) = Unit
Apart (w ∷ x ∷ ws) = (w.1 < x.0) × Apart (x ∷ ws)

abbrev Inside : ℕ → ℕ × ℕ → Type 0
Inside t w = (w.0 ≤ t) × (t ≤ w.1)

abbrev opt_window : Option (ℕ × ℕ) → List (ℕ × ℕ)
opt_window none = []
opt_window (some w) = w ∷ []

window_end_le : (st e : ℕ) (ups : List ℕ) → e ≤ window_end st e ups
unfolding window_end
window_end_le st e [] = omega arith
window_end_le st e (up ∷ ups) =
    ground (arith, window_end_le st e ups, window_end_le st (up + 2 * minute) ups)

-- The first window of a list that is put together may end later.
Apart-grow :
    (out : List (ℕ × ℕ)) (s e f : ℕ) → Apart (out ++ ((s, e) ∷ [])) → Apart (out ++ ((s, f) ∷ []))
Apart-grow [] s e f h = tt
Apart-grow (w ∷ []) s e f h = h
Apart-grow (w ∷ x ∷ out) s e f (l, h) = (l, Apart-grow (x ∷ out) s e f h)

Apart-snoc :
    (out : List (ℕ × ℕ)) (s e st f : ℕ)
    → Apart (out ++ ((s, e) ∷ []))
    → e < st
    → Apart ((out ++ ((s, e) ∷ [])) ++ ((st, f) ∷ []))
Apart-snoc [] s e st f h l = (l, tt)
Apart-snoc (w ∷ []) s e st f (k, h) l = (k, (l, tt))
Apart-snoc (w ∷ x ∷ out) s e st f (k, h) l = (k, Apart-snoc (x ∷ out) s e st f h l)

Apart-nil : (out : List (ℕ × ℕ)) → Apart (out ++ []) → Apart out
Apart-nil [] h = tt
Apart-nil (w ∷ []) h = tt
Apart-nil (w ∷ x ∷ out) (l, h) = (l, Apart-nil (x ∷ out) h)

module _ (ups : List ℕ) where
  loop-Apart :
      (out : List (ℕ × ℕ)) (s e : ℕ) (starts : List ℕ)
      → Apart (out ++ ((s, e) ∷ []))
      → Apart (windows_loop ups out (some (s, e)) starts)
  unfolding windows_loop
  loop-Apart out s e [] h = h
  loop-Apart out s e (st ∷ starts) h =
      let e1 = window_end st (st + 5 * minute) ups in
      elim (Bool-cases (leb st e)) [
        | inl a ↦
            rw a (loop-Apart out s (if ltb e e1 then e1 else e) starts (Apart-grow out s e _ h))
        | inr a ↦ rw a (
            loop-Apart (out ++ ((s, e) ∷ [])) st e1 starts
              (Apart-snoc out s e st e1 h (ground (arith, a))))
      ]

  -- A time inside a window found so far stays inside one.
  loop_keeps :
      (t : ℕ) (out : List (ℕ × ℕ)) (s e : ℕ) (starts : List ℕ)
      → Any (Inside t) (out ++ ((s, e) ∷ []))
      → Any (Inside t) (windows_loop ups out (some (s, e)) starts)
  unfolding windows_loop
  loop_keeps t out s e [] h = h
  loop_keeps t out s e (st ∷ starts) h =
      let e1 = window_end st (st + 5 * minute) ups in
      let f = if ltb e e1 then e1 else e in
      elim (Bool-cases (leb st e)) [
        | inl a ↦ rw a (
            loop_keeps t out s f starts (elim (Any-append_cases (Inside t) out ((s, e) ∷ []) h) [
              | inl b ↦ Any-append_left (Inside t) out ((s, f) ∷ []) b
              | inr (inl (b, c)) ↦
                  Any-append_right (Inside t) out ((s, f) ∷ []) (inl (b, ground (arith, c)))
              | inr (inr z) ↦ absurd z
            ]))
        | inr a ↦ rw a (
            loop_keeps t (out ++ ((s, e) ∷ [])) st e1 starts
              (Any-append_left (Inside t) (out ++ ((s, e) ∷ [])) ((st, e1) ∷ []) h))
      ]

  loop_covers :
      (t : ℕ) (out : List (ℕ × ℕ)) (s e : ℕ) (starts : List ℕ)
      → Ascending s starts
      → In t starts
      → Any (Inside t) (windows_loop ups out (some (s, e)) starts)
  unfolding windows_loop
  loop_covers t out s e [] h z = absurd z
  loop_covers t out s e (st ∷ starts) (l, h) z =
      let e1 = window_end st (st + 5 * minute) ups in
      let f = if ltb e e1 then e1 else e in
      elim (Bool-cases (leb st e)) [
        | inl a ↦ rw a (elim z [
          | inl q ↦ loop_keeps t out s f starts (
              Any-append_right (Inside t) out ((s, f) ∷ [])
                (inl (omega (arith, l, q), ground (arith, a, q))))
          | inr q ↦ loop_covers t out s f starts (weaken starts l h) q
        ])
        | inr a ↦ rw a (elim z [
          | inl q ↦ loop_keeps t (out ++ ((s, e) ∷ [])) st e1 starts (
              Any-append_right (Inside t) (out ++ ((s, e) ∷ [])) ((st, e1) ∷ [])
                (inl (omega (arith, q), omega (arith, q, window_end_le st (st + 5 * minute) ups))))
          | inr q ↦ loop_covers t (out ++ ((s, e) ∷ [])) st e1 starts h q
        ])
      ]
    where
      weaken : {k j : ℕ} (xs : List ℕ) → k ≤ j → Ascending j xs → Ascending k xs
      weaken [] l h = tt
      weaken (x ∷ xs) l (k, h) = (omega (arith, l, k), h)

Inside-any :
    (t : ℕ) (ws : List (ℕ × ℕ))
    → Any (Inside t) ws
    → any (λ (w : ℕ × ℕ). leb w.0 t && leb t w.1) ws ≡ true
Inside-any t [] h = absurd h
Inside-any t (w ∷ ws) (inl (a, b)) = ground arith
Inside-any t (w ∷ ws) (inr h) = ground (arith, Inside-any t ws h)

-- The startup windows of a summary are apart: each one ends before the next one begins.
pub windows-Apart : (s : Summary) → Apart (startup_windows s)
unfolding startup_windows windows_loop
windows-Apart s = apart s.starts
  where
    apart : (starts : List ℕ) → Apart (windows_loop s.ups [] none starts)
    apart [] = tt
    apart (st ∷ starts) = loop-Apart s.ups [] st _ starts tt

-- If the start markers of a summary are in order, then the time of each one (but the zero time) is in
-- startup.
pub start_in_startup :
    (s : Summary) (t : ℕ) → Ascending 0 s.starts → t ≢ 0 → In t s.starts → in_startup s t ≡ true
unfolding startup_windows in_startup windows_loop
start_in_startup s t h n z =
    ground (arith, n, Inside-any t (windows_loop s.ups [] none s.starts) (covers s.starts h z))
  where
    covers :
        (starts : List ℕ)
        → Ascending 0 starts
        → In t starts
        → Any (Inside t) (windows_loop s.ups [] none starts)
    covers [] h z = absurd z
    covers (st ∷ starts) (l, h) (inl q) =
        loop_keeps s.ups t [] st _ starts
          (inl (omega (arith, q), omega (arith, q, window_end_le st (st + 5 * minute) s.ups)))
    covers (st ∷ starts) (l, h) (inr q) = loop_covers s.ups t [] st _ starts h q
