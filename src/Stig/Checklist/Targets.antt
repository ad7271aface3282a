-- ===== src/Stig/Checklist/Targets.antt =====
-- internal/stig/checklist.go: what the fix of a result changes.
use khealth_tui.Base.{
  ℕ, suc, ◌+◌, Bool, true, false, not, ◌&&◌, ◌||◌, List, [], ◌∷◌, ◌++◌, Option, none, some, ltb,
  ◌==◌, if◌then◌else◌, map, keep, length, take,
}
use khealth_tui.Text.{
  Text, lit, text_eq, has_prefix, has_suffix, contains, trim_right, last_index_byte,
}
use khealth_tui.Strutil.{uniq}
use khealth_tui.Stig.{Result, Target, TargetKind, file, resource, boot, packages, unit, review}

unfoldable pub kind_text : TargetKind → Text
kind_text file = lit "file"
kind_text resource = lit "resource"
kind_text boot = lit "boot"
kind_text packages = lit "package"
kind_text unit = lit "unit"
kind_text review = lit "review"

unfoldable pub kind_rank : TargetKind → ℕ
kind_rank file = 0
kind_rank resource = 1
kind_rank boot = 2
kind_rank packages = 3
kind_rank unit = 4
kind_rank review = 5

unfoldable pub file_hint : Text → Text
file_hint n =
    if has_prefix n (lit "/etc/sysctl.d/")
    then lit "then sysctl --system"
    else if has_prefix n (lit "/etc/audit/rules.d/")
    then lit "then augenrules --load (a reboot when the rules end with -e 2)"
    else if text_eq n (lit "/etc/audit/auditd.conf")
    then lit "then service auditd reload"
    else if text_eq n (lit "/etc/ssh/sshd_config")
    then lit
        "or a drop-in under /etc/ssh/sshd_config.d/ (the first value read wins); sshd -t, then systemctl reload sshd"
    else if has_prefix n (lit "/etc/ssh/sshd_config.d/")
    then lit
        "change the existing line here: drop-ins are read before sshd_config and the first value wins; sshd -t, then systemctl reload sshd"
    else if has_prefix n (lit "/etc/rancher/rke2/")
    then lit
        "or a file under config.yaml.d/; then systemctl restart rke2-server (rke2-agent on agents), one node at a time"
    else if has_prefix n (lit "/etc/rancher/k3s/")
    then lit "then systemctl restart k3s (k3s-agent on agents), one node at a time"
    else if has_prefix n (lit "/etc/kubernetes/manifests/")
    then lit "the kubelet recreates the static pod when the manifest changes"
    else if text_eq n (lit "/var/lib/kubelet/config.yaml")
    then lit "then systemctl restart kubelet"
    else if has_prefix n (lit "/etc/modprobe.d/")
    then lit "applies at the next load: rmmod the module or reboot"
    else if has_prefix n (lit "/etc/dconf/")
    then lit "then dconf update"
    else if text_eq n (lit "/etc/fstab")
    then lit "then mount -o remount <mount point>"
    else if has_prefix n (lit "/etc/systemd/")
    then lit "then systemctl daemon-reload and restart the unit"
    else []

unfoldable pub target_hint : Target → Text
unfolding file_hint
target_hint t = elim t.kind [
  | boot ↦
      lit
        "RHEL: grubby --update-kernel=ALL --args='<arg>'; Ubuntu: GRUB_CMDLINE_LINUX in /etc/default/grub, then update-grub; reboot"
  | packages ↦ lit "dnf / apt-get"
  | resource ↦
      lit
        "kubectl edit, or change the chart / manifest that owns it so the fix survives the next deploy"
  | file ↦ file_hint t.name
  | unit ↦ file_hint t.name
  | review ↦ file_hint t.name
]

-- strings.IndexAny(p, "*?["); `none` is -1.
abbrev index_glob : Text → Option ℕ
index_glob [] = none
index_glob (c ∷ s) =
    if (c == 42) || ((c == 63) || (c == 91))
    then some 0
    else elim (index_glob s) [ none ↦ none | some i ↦ some (suc i) ]

unfoldable pub path_name : Text → Text
path_name p0 =
    let p = trim_right (λ c. c == 46) p0 in
    elim (index_glob p) [
      | none ↦ p
      | some i ↦ elim (last_index_byte (take i p) 47) [ none ↦ [] | some j ↦ take (j + 1) p ]
    ]

-- strings.Split(s, "; ").
abbrev pub semi_head : ℕ → List Text → List Text
semi_head c [] = (c ∷ []) ∷ []
semi_head c (l ∷ ls) = (c ∷ l) ∷ ls

unfoldable pub segments : Text → List Text
segments [] = [] ∷ []
segments (c ∷ []) = (c ∷ []) ∷ []
segments (c ∷ d ∷ s) =
    let rest = segments s in
    let next = segments (d ∷ s) in if (c == 59) && (d == 32) then [] ∷ rest else semi_head c next

abbrev pub is_file : Target → Bool
is_file t = elim t.kind as (λ _. Bool) [
  | file ↦ not (has_suffix t.name (lit "/")) && not (contains t.name (lit "*"))
  | resource ↦ false
  | boot ↦ false
  | packages ↦ false
  | unit ↦ false
  | review ↦ false
]

abbrev pub is_named : Text → Target → Bool
is_named detail t = is_file t && contains detail t.name

abbrev pub is_nil : List Target → Bool
is_nil [] = true
is_nil (t ∷ ts) = false

unfoldable pub narrowed : Text → List Target → List Target
narrowed detail ts =
    let files = keep is_file ts in
    let named = keep (is_named detail) ts in
    if not (is_nil named) && ltb (length named) (length files)
    then named ++ keep (λ t. not (is_file t)) ts
    else ts

module _ (find_path find_dropin : Text → Text) where
  -- The names of the files that an sshd fix is moved to, each once.
  abbrev pub dropin_name : Text → Text → Text
  dropin_name name seg = if text_eq (find_dropin seg) [] then name else find_dropin seg

  abbrev pub moved_to : Text → Text → Target
  moved_to change name = record { kind = file; name = name; change = change }

  unfoldable pub sshd_targets : Text → List Target → List Target
  unfolding segments
  sshd_targets detail [] = []
  sshd_targets detail (t ∷ ts) =
      let rest = sshd_targets detail ts in
      let names = uniq (map (dropin_name t.name) (segments detail)) in
      if text_eq t.name (lit "/etc/ssh/sshd_config")
      then map (moved_to t.change) names ++ rest
      else t ∷ rest

  abbrev on_host : Text → Bool
  on_host g =
      text_eq g (lit "os")
      || (text_eq g (lit "node") || (text_eq g (lit "rke2") || text_eq g (lit "root")))

  abbrev review_target : Target
  review_target = record {
    kind = review;
    name = lit "no single target (read the fix)";
    change = [];
  }

  unfoldable pub inferred : Result → List Target
  unfolding path_name
  inferred r =
      let m = find_path r.detail in
      let path = if text_eq m [] && text_eq r.group (lit "os") then find_path r.fix else m in
      if on_host r.group && not (text_eq path [])
      then record { kind = file; name = path_name path; change = [] } ∷ []
      else review_target ∷ []

  unfoldable pub targets_of : Result → List Target
  unfolding narrowed sshd_targets inferred
  targets_of r =
      if is_nil r.targets then inferred r else narrowed r.detail (sshd_targets r.detail r.targets)
