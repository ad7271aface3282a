-- ===== src/Defrag/OneBad.antt =====
-- internal/etcd/defrag.go: at most one member is ever left failed or unhealthy.
use khealth_tui.Base.{
  ◌≡◌, ◌≢◌, false, if◌then◌else◌, List, [], ◌∷◌, ◌++◌, none, ◌⊎◌, inl, inr, arith, Bool-cases, All,
}
use khealth_tui.Text.{Text, codes, lit, text_eq}
use khealth_tui.Text.Laws.{text_eq_iff}
use khealth_tui.Etcd.{Member}
use khealth_tui.Defrag.{Env, Step, members_loop, new_step, why_skipped, touch, defrag, ordered}

-- The member was touched and is not known to be well.
abbrev pub IsBad : Step → Type 0
IsBad s = (s.skipped ≡ []) × ((s.err ≢ none) ⊎ (s.healthy ≡ false))

abbrev pub IsSkipped : Step → Type 0
IsSkipped s = s.skipped ≢ []

-- Behind a bad step every member is skipped.
abbrev pub StopsAtBad : List Step → Type 0
StopsAtBad [] = Unit
StopsAtBad (s ∷ ss) = (IsBad s → All IsSkipped ss) × StopsAtBad ss

append-nonempty : (s t : Text) → t ≢ [] → (s ++ t) ≢ []
append-nonempty [] t h = h
append-nonempty (c ∷ s) t h = ground arith

failed_text :
    (s : Text) → (s ++ lit " failed to defragment; the remaining members were left alone") ≢ []
unfolding lit
failed_text s =
    append-nonempty s (codes " failed to defragment; the remaining members were left alone")
      (λ e. ground arith)

unhealthy_text :
    (s : Text)
    → (s ++ lit " is not healthy after its defrag; the remaining members were left alone") ≢ []
unfolding lit
unhealthy_text s =
    append-nonempty s
      (codes " is not healthy after its defrag; the remaining members were left alone")
      (λ e. ground arith)

why_aborted : (aborted : Text) (m : Member) → aborted ≢ [] → why_skipped aborted m ≢ []
unfolding why_skipped lit
why_aborted aborted m h = ground (arith, text_eq_iff aborted [])

module _ (env : Env) (dist : Text) where
  -- Once `rep.Aborted` is set, every member is skipped and nothing is called.
  aborted_loop :
      (w : env.World) (id aborted : Text) (ms : List Member)
      → aborted ≢ []
      → All IsSkipped (members_loop env dist w id aborted ms).0
  unfolding members_loop
  aborted_loop w id aborted [] h = tt
  aborted_loop w id aborted (m ∷ ms) h = elim (Bool-cases (text_eq (why_skipped aborted m) [])) [
    | inl e ↦ absurd (why_aborted aborted m h ((text_eq_iff (why_skipped aborted m) []).0 e))
    | inr e ↦ rw e (why_aborted aborted m h, aborted_loop w id aborted ms h)
  ]

  touch-bad :
      (w : env.World) (id : Text) (m : Member)
      → IsBad (touch env dist w m (new_step id m)).0
      → (touch env dist w m (new_step id m)).1 ≢ []
  unfolding touch new_step
  touch-bad w id m h = ground (
    arith,
    failed_text (if text_eq m.name [] then m.id else m.name),
    unhealthy_text (if text_eq m.name [] then m.id else m.name),
  )

  loop_stops :
      (w : env.World) (id aborted : Text) (ms : List Member)
      → StopsAtBad (members_loop env dist w id aborted ms).0
  unfolding members_loop
  loop_stops w id aborted [] = tt
  loop_stops w id aborted (m ∷ ms) = elim (Bool-cases (text_eq (why_skipped aborted m) [])) [
    | inl e ↦
        let r = touch env dist w m (new_step id m) in
        rw e ((λ b. aborted_loop r.2 id r.1 ms (touch-bad w id m b)), loop_stops r.2 id r.1 ms)
    | inr e ↦ rw e (
      (λ b. absurd (ground (arith, text_eq_iff (why_skipped aborted m) [], b))),
      loop_stops w id aborted ms,
    )
  ]

-- In the report of a defragmentation, whatever the calls answer, every member that comes after one that
-- failed to defragment or was not healthy afterwards is skipped.
pub defrag_one_bad :
    (env : Env) (dist : Text) (w : env.World) (members : List Member) (id : Text)
    → StopsAtBad (defrag env dist w members id).0.steps
unfolding defrag
defrag_one_bad env dist w members id = loop_stops env dist w id [] (ordered id members)
