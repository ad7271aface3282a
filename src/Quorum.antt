-- ===== src/Quorum.antt =====
-- internal/checks/etcd_triage.go, `etcdQuorumOf`: who leads etcd and whether its quorum is lost.
pub mod Lost
pub mod Votes
mod Tests
use khealth_tui.Base.{
  ℕ, zero, suc, ◌+◌, ◌-◌, ◌/◌, Bool, true, false, ◌&&◌, ◌||◌, not, List, [], ◌∷◌, Option, none,
  some, if◌then◌else◌, ltb, ◌==◌, length,
}
use khealth_tui.Text.{Text, text_eq, text_less}
use khealth_tui.Etcd.{Member, EndpointStatus}

-- What `etcdQuorumOf` reads of an `etcdTriage`.
pub record Triage : Type 0 where
  pub node : Text
  pub member : Option Member
  pub healthy : Bool
  pub known : Bool

pub record Quorum : Type 0 where
  pub total : ℕ
  pub up : ℕ
  pub have_members : Bool
  pub leader : Text
  pub term : ℕ
  pub leader_index : ℕ
  pub lost : Bool
  pub down : ℕ

abbrev is_nil : Text → Bool
is_nil [] = true
is_nil (c ∷ s) = false

-- The voting members: learners do not vote.
unfoldable pub voters : List Member → ℕ
voters [] = 0
voters (m ∷ ms) = let rest = voters ms in if m.is_learner then rest else suc rest

abbrev pub is_learner_rec : Triage → Bool
is_learner_rec t = elim t.member [ none ↦ false | some m ↦ m.is_learner ]

abbrev pub counts_up : Triage → Bool
counts_up t = not (is_learner_rec t) && (t.known && t.healthy)

abbrev pub counts_down : Triage → Bool
counts_down t = not (is_learner_rec t) && (t.known && not t.healthy)

-- The loop over the records: `q.healthy` and `down`.
unfoldable pub tally_recs : List Triage → ℕ × ℕ
tally_recs [] = (0, 0)
tally_recs (t ∷ ts) =
    let (h, d) = tally_recs ts in
    if is_learner_rec t
    then (h, d)
    else if t.known && t.healthy
    then (suc h, d)
    else if t.known
    then (h, suc d)
    else (h, d)

-- `statusByID`, a map.
abbrev pub StatusMap : Type 0
StatusMap = List (Text × EndpointStatus)

unfoldable pub status_of : StatusMap → Text → Option EndpointStatus
status_of [] id = none
status_of ((k, st) ∷ rest) id = if text_eq k id then some st else status_of rest id

-- The last member that calls itself the leader: its name, term and index.
unfoldable pub claim_loop : StatusMap → List Member → Text × ℕ × ℕ → Text × ℕ × ℕ
unfolding status_of
claim_loop sts [] q = q
claim_loop sts (m ∷ ms) q =
    let next : Text × ℕ × ℕ = elim (status_of sts m.id) [
      | none ↦ q
      | some st ↦
          (if not (is_nil st.leader_id) && text_eq st.leader_id st.member_id
            then (m.name, st.raft_term, st.raft_index)
            else q)
    ] in
    claim_loop sts ms next

-- `votes[id]`.
unfoldable pub votes_for : StatusMap → Text → ℕ
votes_for [] id = 0
votes_for ((k, st) ∷ rest) id =
    let n = votes_for rest id in
    if not (is_nil st.leader_id) && text_eq st.leader_id id then suc n else n

-- A key of the map, in its place among the sorted keys.
unfoldable pub insert_key : Text → List Text → List Text
unfolding text_less
insert_key k [] = k ∷ []
insert_key k (x ∷ xs) =
    let rest = insert_key k xs in
    if text_eq k x then x ∷ xs else if text_less k x then k ∷ x ∷ xs else x ∷ rest

unfoldable pub sorted_keys : StatusMap → List Text
unfolding insert_key
sorted_keys [] = []
sorted_keys ((k, st) ∷ rest) =
    let keys = sorted_keys rest in
    if is_nil st.leader_id then keys else insert_key st.leader_id keys

-- The loop over the sorted ids, which keeps the one with most votes.
unfoldable pub best_loop : (Text → ℕ) → Text → List Text → Text
best_loop votes best [] = best
best_loop votes best (id ∷ ids) =
    best_loop votes (if ltb (votes best) (votes id) then id else best) ids

unfoldable pub best_vote : StatusMap → Text
unfolding votes_for sorted_keys best_loop
best_vote sts = best_loop (votes_for sts) [] (sorted_keys sts)

-- The last member with the id.
unfoldable pub name_loop : Text → List Member → Text → Text
name_loop id [] name = name
name_loop id (m ∷ ms) name = name_loop id ms (if text_eq m.id id then m.name else name)

abbrev pub majority : ℕ → ℕ
majority n = n / 2 + 1

unfoldable pub quorum_of : List Triage → List Member → StatusMap → Quorum
unfolding voters tally_recs claim_loop best_vote name_loop
quorum_of recs members sts =
    let have = elim members as (λ _. Bool) [ [] ↦ false | m ∷ ms ↦ true ] in
    let total = if have then voters members else length recs in
    let (healthy, down) = tally_recs recs in
    let (leader, term, index) = claim_loop sts members ([], 0, 0) in
    record {
      total = total;
      up = healthy;
      have_members = have;
      leader = (if is_nil leader then name_loop (best_vote sts) members leader else leader);
      term = term;
      leader_index = index;
      lost = ltb 0 total && (ltb healthy (majority total) && ltb (total - down) (majority total));
      down = down;
    }
