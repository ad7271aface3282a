-- ===== src/Etcd/Leader.antt =====
-- internal/etcd/probe.go, `Probe.Leader`: what it means that there is a leader.
use khealth_tui.Base.{◌≡◌, ◌≢◌, ◌↔◌, refl, List, [], ◌∷◌, All, arith}
use khealth_tui.Text.{Text}
use khealth_tui.Text.Laws.{text_eq_iff}
use khealth_tui.Etcd.{EndpointStatus, Probe, leader_loop, leader}

abbrev pub Names : Text → List EndpointStatus → Type 0
Names l = All (λ st. st.leader_id ≡ l)

loop_sound :
    (k l : Text) (sts : List EndpointStatus)
    → k ≢ []
    → l ≢ []
    → leader_loop k sts ≡ l
    → (k ≡ l) × Names l sts
unfolding leader_loop
loop_sound k l [] hk hl h = (h, tt)
loop_sound k l (st ∷ rest) hk hl h = ground (
  arith,
  text_eq_iff st.leader_id [],
  text_eq_iff k [],
  text_eq_iff st.leader_id k,
  loop_sound k l rest,
)

loop_complete :
    (l : Text) (sts : List EndpointStatus) → l ≢ [] → Names l sts → leader_loop l sts ≡ l
unfolding leader_loop
loop_complete l [] hl h = refl
loop_complete l (st ∷ rest) hl (e, h) = ground (
  arith,
  text_eq_iff st.leader_id [],
  text_eq_iff l [],
  text_eq_iff st.leader_id l,
  loop_complete l rest hl h,
)

-- `Leader` returns the id `l`, which is not empty, exactly when there is an endpoint status and every
-- endpoint status names `l` as the leader.
pub leader_iff :
    (p : Probe) (l : Text) → l ≢ [] → (leader p ≡ l) ↔ ((p.statuses ≢ []) × Names l p.statuses)
unfolding leader
leader_iff p l hl = (sound p.statuses, complete p.statuses)
  where
    sound : (sts : List EndpointStatus) → leader_loop [] sts ≡ l → (sts ≢ []) × Names l sts
    sound [] h = ground arith
    sound (st ∷ rest) h =
        ground (arith, text_eq_iff st.leader_id [], loop_sound st.leader_id l rest)

    complete : (sts : List EndpointStatus) → (sts ≢ []) × Names l sts → leader_loop [] sts ≡ l
    complete [] (n, h) = absurd (n refl)
    complete (st ∷ rest) (n, (e, h)) =
        ground (arith, text_eq_iff st.leader_id [], loop_complete l rest hl h)
