-- ===== src/Rescue/Run.antt =====
-- internal/rescue/rescue.go: `Run`, `finishNotes` and the servers that they are about.
use khealth_tui.Base.{
  ℕ, suc, Bool, true, false, not, ◌&&◌, ◌||◌, List, [], ◌∷◌, ◌++◌, Option, none, some,
  if◌then◌else◌, keep, any, map, length,
}
use khealth_tui.Text.{Text, lit, text_eq, itoa, join, trim_suffix}
use khealth_tui.Rescue.Types.{Kind, kubeadm, Node, Plan, running, done, failed, skipped, Step}
use khealth_tui.Rescue.Env.{Env}
use khealth_tui.Rescue.Monad.{Error, plain, needs_reset, out_of_rounds, Res, ok, err, St}
use khealth_tui.Rescue.Exec.{kind_text, data_dir_of}
use khealth_tui.Rescue.Wait.{svc}
use khealth_tui.Rescue.Perform.{perform}

unfoldable pub touched : Plan → List Node
touched p = if p.rejoin then p.others else p.target ∷ p.others

abbrev pub agent_runs : Node → Bool
agent_runs n =
    let a = n.facts.agent in
    text_eq a (lit "active") || (text_eq a (lit "activating") || text_eq a (lit "reloading"))

unfoldable pub agent_nodes : Plan → List Node
unfolding touched
agent_nodes p = keep agent_runs (touched p)

abbrev pub is_rancher : Kind → Bool
is_rancher kubeadm = false
is_rancher _ = true

abbrev pub drop_in_path : Plan → Text
drop_in_path p =
    lit "/etc/rancher/" ++ (kind_text p.kind ++ lit "/config.yaml.d/zz-khealth-rescue.yaml")

abbrev pub holds : Text → List Text → Bool
holds t = any (λ u. text_eq u t)

-- The nodes whose rancher-system-agent the rescue stopped and has not started again.
unfoldable pub still_off : Plan → List Text → List Text
unfolding agent_nodes
still_off p off = keep (λ t. holds t off) (map (λ (n : Node). n.name) (agent_nodes p))

kept_notes : List Node → List Text
kept_notes [] = []
kept_notes (n ∷ ns) =
    if text_eq n.facts.rescue []
    then kept_notes ns
    else (n.name
        ++ (lit ": previous etcd data kept in "
            ++ (n.facts.rescue ++ lit " (delete it once the cluster has been fine for a while)")))
      ∷ kept_notes ns

left_out_note : Plan → Node → Text
left_out_note p n =
    n.name
    ++ (lit " was left out ("
        ++ (n.facts.err
            ++ (lit "): when it is reachable again stop "
                ++ (svc p
                    ++ (lit ", move "
                        ++ (data_dir_of p n
                            ++ (lit " aside and start " ++ (svc p ++ lit " so it rejoins"))))))))

off_note : Plan → List Text → List Text
off_note p [] = []
off_note p off =
    (lit "rancher-system-agent is still stopped on "
      ++ (join off (lit ", ")
          ++ (lit " (left so on purpose: a plan would rewrite 50-rancher.yaml and restart "
              ++ (svc p
                  ++ (lit " mid-repair). Once the servers are back and "
                      ++ (drop_in_path p
                          ++ lit " is gone: systemctl start rancher-system-agent"))))))
    ∷ []

failed_note : Option Text → List Text
failed_note none = []
failed_note (some e) =
    lit
      "the cluster is in the state the failed step left it; the steps above say what was done on each node. Data moved aside is never deleted by khealth."
    ∷ []

-- The notes that `finishNotes` adds.
unfoldable pub finish_notes : Plan → List Text → Option Text → List Text
unfolding kept_notes left_out_note off_note failed_note still_off
finish_notes p off e =
    kept_notes (touched p)
    ++ ((if is_rancher p.kind && not p.rejoin
          then (kind_text p.kind
              ++ (lit " also keeps the pre-restore data "
                  ++ (p.target.name
                      ++ (lit " itself as "
                          ++ (trim_suffix (data_dir_of p p.target) (lit "/etcd")
                              ++ lit "/etcd-old-<time>")))))
            ∷ []
          else [])
        ++ (map (left_out_note p) p.left_out
            ++ ((if is_rancher p.kind
                  then []
                  else lit
                      "worker kubelets were not restarted: if pods look stale on a worker, systemctl restart kubelet there"
                    ∷ [])
                ++ (off_note p (still_off p off) ++ failed_note e))))

abbrev pub error_text : Error → Text
error_text (plain t) = t
error_text (needs_reset t) = t
error_text out_of_rounds = []

-- The final state of a step from the error of its closure.
abbrev pub close_step : Step → ℕ → Res (Unit {0}) → Step
close_step s t (ok _) = record s { finished = some t; state = done }
close_step s t (err e) = record s { finished = some t; state = failed; error = error_text e }

abbrev pub skip_step : Step → Step
skip_step s = record s { state = skipped }

unfoldable pub failure : ℕ → ℕ → Step → Res (Unit {0}) → Option Text
failure i total s (ok _) = none
failure i total s (err e) = some (
    lit "step "
    ++ (itoa (suc i)
        ++ (lit "/"
            ++ (itoa total
                ++ (lit " failed on "
                    ++ (s.node ++ (lit ": " ++ (s.title ++ (lit ": " ++ error_text e)))))))))

module _ (env : Env) where
  open env use {World}

  -- What the steps of a run share.
  pub record Shared : Type 0 where
    pub notes : List Text
    pub agent_off : List Text
    pub clusters : List (ℕ × Text)
    pub world : World

  pub record Outcome : Type 0 where
    pub steps : List Step
    pub shared : Shared
    pub err : Option Text

abbrev pub has_err : Option Text → Bool
has_err none = false
has_err (some e) = true

module _ {env : Env} where
  open env use {now, ctx_err, aborted, emit}

  abbrev pub enter : Shared env → Step → St env
  enter h s = record {
    step = s;
    notes = h.notes;
    agent_off = h.agent_off;
    clusters = h.clusters;
    world = h.world;
  }

  abbrev pub leave : St env → Shared env
  leave s = record {
    notes = s.notes;
    agent_off = s.agent_off;
    clusters = s.clusters;
    world = s.world;
  }

  -- failed != nil || p.abort.Load() || ctx.Err() != nil.
  abbrev pub stops : Option Text → Shared env → Bool
  stops e h = has_err e || (aborted h.world || has_err (ctx_err h.world))

  abbrev send : Shared env → List Step → Option ℕ → Bool → Option Text → Shared env
  send h steps cur fin e = record h {
    world = emit h.world (record { steps = steps; current = cur; is_done = fin; err = e });
  }

  module _ (p : Plan) where
    -- One step: marked running, its closure, its end, and the two events around it.
    unfoldable pub run_step :
        List Step → List Step → ℕ → Step → Shared env → Step × Shared env × Option Text
    run_step before after i s h =
        let s1 = record s { state = running; started = some (now h.world) } in
        let h1 = send h (before ++ s1 ∷ after) (some i) false none in
        let (r, t) = perform p s1.action (enter h1 s1) in
        let s2 = close_step t.step (now t.world) r in
        let h2 = send (leave t) (before ++ s2 ∷ after) (some i) false none in
        (s2, h2, failure i (length (before ++ s ∷ after)) s2 r)

    unfoldable pub run_loop :
        List Step → ℕ → Option Text → List Step → Shared env → List Step × Shared env × Option Text
    run_loop before i e [] h = (before, h, e)
    run_loop before i e (s ∷ after) h =
        let pass = run_loop (before ++ skip_step s ∷ []) (suc i) e after h in
        let (s2, h2, e2) = run_step before after i s h in
        let next = run_loop (before ++ s2 ∷ []) (suc i) e2 after h2 in
        if stops e h then pass else next

    unfoldable pub aborted_error : Option Text → Shared env → Option Text
    aborted_error (some e) h = some e
    aborted_error none h =
        if aborted h.world
        then some (lit "aborted by the operator after the step in progress")
        else none

    unfoldable pub run : List Step → Shared env → Outcome env
    unfolding run_loop
    run steps h =
        let (after, h1, e1) = run_loop [] 0 none steps h in
        let e2 = aborted_error e1 h1 in
        let h2 = record h1 { notes = h1.notes ++ finish_notes p h1.agent_off e2 } in
        record { steps = after; shared = send h2 after none true e2; err = e2 }
