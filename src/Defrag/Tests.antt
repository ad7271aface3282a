-- ===== src/Defrag/Tests.antt =====
-- A cluster of two members whose leader answers badly, for the runs of `Defrag`.
use khealth_tui.Base.{ℕ, suc, ◌≡◌, refl, Bool, true, false, List, [], ◌∷◌, ◌++◌, none, map}
use khealth_tui.Base.{Any, inl, inr}
use khealth_tui.Text.{Text, lit, text_eq}
use khealth_tui.Etcd.{Member}
use khealth_tui.Defrag.{Env, Step, defrag, ordered}
use khealth_tui.Defrag.OneBad.{StopsAtBad, defrag_one_bad}
use khealth_tui.Defrag.Order.{LeaderLast, IsStepOf, defrag_order}

-- Every call ends with "x", and the health is what is asked of it.
abbrev calm : Bool → Env
calm ok = record {
  World = ℕ;
  exec_in_pod = λ w args. ((lit "x", [], none), suc w);
  now = λ w. w;
  pause = λ w. suc w;
  ctx_done = λ w. false;
  parse_health = λ t. ok ∷ [];
  parse_sizes = λ t. 4096 ∷ [];
}

abbrev member : Text → Member
member id = record {
  id = id;
  name = id ++ lit "-node";
  peer_urls = [];
  client_urls = lit "https://10.0.0.1:2379" ∷ [];
  is_learner = false;
}

abbrev three : List Member
three = member (lit "a") ∷ member (lit "b") ∷ member (lit "c") ∷ []

-- The second step is bad; the third is skipped.
sick_steps :
    map
      (λ s. text_eq (Step.skipped s) [])
      (defrag (calm false) (lit "rke2") 0 three (lit "a")).0.steps
    ≡ true ∷ false ∷ false ∷ []
unfolding defrag ordered lit
sick_steps = refl

calm_steps :
    map {B = Bool × Bool}
      (λ s. (Step.leader s, Step.healthy s))
      (defrag (calm true) (lit "rke2") 0 three (lit "a")).0.steps
    ≡ (false, true) ∷ (false, true) ∷ (true, true) ∷ []
unfolding defrag ordered lit
calm_steps = refl

defrag_one_bad_example : StopsAtBad (defrag (calm false) (lit "rke2") 0 three (lit "a")).0.steps
defrag_one_bad_example = defrag_one_bad (calm false) (lit "rke2") 0 three (lit "a")

defrag_order_example :
    LeaderLast (defrag (calm true) (lit "k3s") 0 three (lit "a")).0.steps
    × Any
        (IsStepOf (lit "a") (member (lit "b")))
        (defrag (calm true) (lit "k3s") 0 three (lit "a")).0.steps
defrag_order_example =
    defrag_order (calm true) (lit "k3s") 0 three (lit "a") (member (lit "b")) (inr (inl refl))
