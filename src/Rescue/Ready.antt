-- ===== src/Rescue/Ready.antt =====
-- internal/rescue/rescue.go: what it means that `Status.Ready` says yes.
use khealth_tui.Base.{ℕ, ◌≤◌, ◌<◌, ◌≡◌, ◌≢◌, ◌↔◌, ◌⊎◌, Bool, true, false, [], arith}
use khealth_tui.Text.{Text}
use khealth_tui.Text.Laws.{text_eq_iff}
use khealth_tui.Rescue.Status.{Status, ready, has_peer, readyz_ok}

-- `want` voting members that are all healthy, one leader, no alarm, the wanted peer address if one is
-- given, and the apiserver answering if that is asked for.
pub record IsReady (st : Status) (want : ℕ) (api : Bool) (ip : Text) : Type 0 where
  pub some_member : 0 < st.members
  pub count : st.members ≡ want
  pub voters : st.learners ≡ 0
  pub all_healthy : st.members ≤ st.healthy
  pub led : st.leader ≢ []
  pub no_alarm : st.alarms ≡ 0
  pub peer : (ip ≡ []) ⊎ (has_peer st.probe.members ip ≡ true)
  pub api_up : (api ≡ false) ⊎ (readyz_ok st.readyz ≡ true)

ready-IsReady :
    (st : Status) (want : ℕ) (api : Bool) (ip : Text)
    → (ready st want api ip).0 ≡ true
    → IsReady st want api ip
unfolding ready
ready-IsReady st want api ip h = ground (arith, text_eq_iff st.leader [], text_eq_iff ip [])

IsReady-ready :
    (st : Status) (want : ℕ) (api : Bool) (ip : Text)
    → IsReady st want api ip
    → (ready st want api ip).0 ≡ true
unfolding ready
IsReady-ready st want api ip h = ground (arith, text_eq_iff st.leader [], text_eq_iff ip [])

-- `Ready` says yes exactly when the cluster has `want` members, none of them a learner and all of
-- them healthy, a leader, no alarm, a member with the peer address `ip` unless `ip` is empty, and an
-- apiserver that answers /readyz if `api` is set.
pub ready_iff :
    (st : Status) (want : ℕ) (api : Bool) (ip : Text)
    → ((ready st want api ip).0 ≡ true) ↔ IsReady st want api ip
ready_iff st want api ip = (ready-IsReady st want api ip, IsReady-ready st want api ip)
