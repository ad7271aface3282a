-- ===== src/Rescue/Plans.antt =====
-- internal/rescue/rescue.go: `Supported`, and the plans that New and NewRejoin prepare.
use khealth_tui.Base.{
  ◌*◌, Bool, true, false, List, [], ◌∷◌, ◌++◌, Option, none, some, if◌then◌else◌, ◌≡◌, refl,
}
use khealth_tui.Text.{Text, lit, text_eq, has_suffix, trim_suffix, codes}
use khealth_tui.Rescue.Types
use khealth_tui.Rescue.Exec.{kind_text}
use khealth_tui.Rescue.Types.{Kind, Node, Plan, second, minute}

unfoldable pub supported : Text → Option Kind
supported dist =
    if text_eq dist (lit "rke2")
    then some Types.rke2
    else if text_eq dist (lit "k3s")
    then some Types.k3s
    else if text_eq dist (lit "kubeadm")
    then some Types.kubeadm
    else none

-- The directory `DD` of a new plan.
unfoldable pub plan_dir : Kind → Node → Text
plan_dir Types.kubeadm target = []
plan_dir kind target =
    if has_suffix target.data_dir (lit "/server/db/etcd")
    then trim_suffix target.data_dir (lit "/server/db/etcd")
    else lit "/var/lib/rancher/" ++ kind_text kind

-- `New`; `stamp` is the time as a text.
unfoldable pub new_plan : Text → Kind → Node → List Node → Text → Bool → Plan
unfolding plan_dir
new_plan stamp kind target others snapshot s3 = record {
  kind = kind;
  dd = plan_dir kind target;
  target = target;
  others = others;
  snapshot = snapshot;
  s3 = s3;
  take_snapshot = true;
  stamp = stamp;
  poll_interval = 4 * second;
  wait_timeout = 15 * minute;
  rejoin = false;
  member_count = 0;
  left_out = [];
}

-- `NewRejoin`.
unfoldable pub new_rejoin : Text → Kind → Node → Node → Plan
unfolding new_plan
new_rejoin stamp kind anchor node = record (new_plan stamp kind anchor (node ∷ []) [] false) {
  rejoin = true;
  take_snapshot = false;
}

unknown_dist : supported (codes "eks") ≡ none
unfolding supported lit
unknown_dist = refl
