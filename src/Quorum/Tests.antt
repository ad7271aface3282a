-- ===== src/Quorum/Tests.antt =====
-- Three members, two of them known to be down.
use khealth_tui.Base.{
  ◌+◌, ◌≤◌, ◌<◌, ◌≡◌, ◌↔◌, refl, Bool, true, false, List, [], ◌∷◌, some, arith, length, keep,
}
use khealth_tui.Text.{Text, codes}
use khealth_tui.Etcd.{Member}
use khealth_tui.Quorum.{Triage, StatusMap, quorum_of, counts_down, majority, best_vote, votes_for}
use khealth_tui.Quorum.Lost.{voting, lost_iff}
use khealth_tui.Quorum.Votes.{best_vote-max}

abbrev member : Text → Member
member n = record { id = n; name = n; peer_urls = []; client_urls = []; is_learner = false }

abbrev rec : Text → Bool → Bool → Triage
rec n up known = record { node = n; member = some (member n); healthy = up; known = known }

abbrev recs : List Triage
recs = rec (codes "a") true true ∷ rec (codes "b") false true ∷ rec (codes "c") false true ∷ []

abbrev members : List Member
members = member (codes "a") ∷ member (codes "b") ∷ member (codes "c") ∷ []

abbrev statuses : StatusMap
statuses =
    (
      codes "a",
      record {
        endpoint = [];
        version = [];
        db_size = 0;
        leader_id = codes "b";
        member_id = codes "a";
        raft_term = 1;
        raft_index = 2;
      },
    )
    ∷ []

named_leader : (quorum_of recs members statuses).leader ≡ codes "b"
unfolding quorum_of
named_leader = refl

lost_iff_example :
    ((quorum_of recs members statuses).total ≡ voting recs members)
    × (((quorum_of recs members statuses).lost ≡ true) ↔ (
        (0 < voting recs members)
        × (voting recs members < length (keep counts_down recs) + majority (voting recs members))))
lost_iff_example = lost_iff recs members statuses (omega arith)

best_vote-max_example : votes_for statuses (codes "c") ≤ votes_for statuses (best_vote statuses)
best_vote-max_example = best_vote-max statuses (codes "c")
