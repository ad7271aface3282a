-- ===== src/Rescue/Status.antt =====
-- internal/rescue/rescue.go: ParseStatus and Status.Ready.
use khealth_tui.Base.{
  ℕ, Bool, true, false, not, ◌&&◌, ◌||◌, List, [], ◌∷◌, ◌++◌, none, some, ltb, ◌==◌, if◌then◌else◌,
  length, keep, any,
}
use khealth_tui.Text.{Text, lit, text_eq, contains, index_of, cut, split, trim_space, itoa}
use khealth_tui.Base.{take}
use khealth_tui.Etcd.{Member, Probe}
use khealth_tui.Etcd
use khealth_tui.Strutil.{first_line, first_non_empty}

pub record Status : Type 0 where
  pub svc : Text
  pub health : Text
  pub readyz : Text
  pub members : ℕ
  pub learners : ℕ
  pub healthy : ℕ
  pub leader : Text
  pub alarms : ℕ
  pub probe : Probe

-- The three texts that the head of the output sets.
pub record Head : Type 0 where
  pub svc : Text
  pub health : Text
  pub readyz : Text

set_head : Head → Text → Text → Head
set_head h k v =
    if text_eq k (lit "svc_state")
    then record h { svc = v }
    else if text_eq k (lit "health")
    then record h { health = v }
    else if text_eq k (lit "readyz")
    then record h { readyz = v }
    else h

head_loop : Head → List Text → Head
head_loop h [] = h
head_loop h (l ∷ ls) =
    head_loop (elim (cut l b'=') [ none ↦ h | some (k, v) ↦ set_head h k (trim_space v) ]) ls

-- The output before the first "---".
head_of : Text → Text
head_of out = elim (index_of out (lit "---")) [ none ↦ out | some i ↦ take i out ]

unfoldable pub parse_status : (Text → Text → Probe) → Text → Text → Status
unfolding set_head head_loop head_of
parse_status parse_ctl node out =
    let h = head_loop (record { svc = []; health = []; readyz = [] }) (split (head_of out) 10) in
    let p = parse_ctl node out in
    record {
      svc = h.svc;
      health = h.health;
      readyz = h.readyz;
      members = length p.members;
      learners = length (keep (λ (m : Member). m.is_learner) p.members);
      healthy = length (keep (λ (b : Bool). b) p.endpoint_health);
      leader = Etcd.leader p;
      alarms = length p.alarms;
      probe = p;
    }

-- A member has a peer URL at this address, written "//ip:" or "//[ip]:".
unfoldable pub has_peer : List Member → Text → Bool
has_peer ms ip =
    any
      (λ (m : Member).
        any
          (λ (u : Text).
            contains u (lit "//" ++ (ip ++ lit ":")) || contains u (lit "//[" ++ (ip ++ lit "]:")))
          m.peer_urls)
      ms

unfoldable pub readyz_ok : Text → Bool
readyz_ok r = text_eq r (lit "200") || (text_eq r (lit "401") || text_eq r (lit "403"))

-- The two checks behind the switch.
ready_rest : Status → Bool → Text → Bool × Text
ready_rest st api ip =
    if not (text_eq ip []) && not (has_peer st.probe.members ip)
    then (false, lit "no member with peer address " ++ ip)
    else if api && not (readyz_ok st.readyz)
    then (
      false,
      lit "apiserver not answering /readyz yet ("
          ++ (first_non_empty (st.readyz ∷ lit "-" ∷ []) ++ lit ")"),
    )
    else (true, [])

unfoldable pub ready : Status → ℕ → Bool → Text → Bool × Text
unfolding ready_rest
ready st want api ip =
    if st.members == 0
    then (if not (text_eq st.health []) && not (contains st.health (lit "\"true\""))
        then (false, lit "etcd not up yet (health: " ++ (first_line st.health ++ lit ")"))
        else (false, lit "no member list yet"))
    else if ltb st.members want
    then (false, itoa st.members ++ (lit "/" ++ (itoa want ++ lit " members")))
    else if ltb want st.members
    then (false, itoa st.members ++ (lit " members, expected " ++ itoa want))
    else if ltb 0 st.learners
    then (false, itoa st.learners ++ lit " learner(s) still syncing")
    else if ltb st.healthy st.members
    then (false, itoa st.healthy ++ (lit "/" ++ (itoa st.members ++ lit " endpoints healthy")))
    else if text_eq st.leader []
    then (false, lit "no leader agreed by every member")
    else if ltb 0 st.alarms
    then (false, itoa st.alarms ++ lit " alarm(s)")
    else ready_rest st api ip
