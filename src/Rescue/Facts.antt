-- ===== src/Rescue/Facts.antt =====
-- internal/rescue/rescue.go, `parseFacts`: reading what the preflight script printed.
pub mod Told
pub mod Sized
use khealth_tui.Base.{
  ℕ, ◌*◌, ◌+◌, ◌-◌, Bool, true, false, not, ◌&&◌, ◌||◌, List, [], ◌∷◌, ◌++◌, Option, none, some,
  ltb, ◌==◌, if◌then◌else◌,
}
use khealth_tui.Text.{
  Text, lit, text_eq, has_prefix, trim_prefix, trim_right, trim_space, cut, split, is_space,
  is_digit,
}
use khealth_tui.Strutil.{yaml_scalar}
use khealth_tui.Rescue.Types.{Facts, second}

abbrev pub no_facts : Facts
no_facts = record {
  ok = false;
  err = [];
  hostname = [];
  bin = [];
  svc_state = [];
  owner = [];
  mode = [];
  member = [];
  size_kb = 0;
  avail_kb = 0;
  mount = false;
  rescue = [];
  config = [];
  has_server = false;
  server_url = [];
  node_ip = [];
  cluster_init = false;
  agent = [];
  rancher = false;
  addrs = [];
  profile = [];
  s3 = false;
  s3_secret = [];
  etcd_user = false;
  manifest = [];
  api_endpoint = [];
  member_name = [];
  peer_url = [];
  image = [];
  initial_cluster = [];
  tools = [];
  snapshot = [];
  snapshot_size = 0;
  snapshot_time = 0;
}

-- strconv.ParseInt of a text with no minus sign: the value, and whether there is no error.
abbrev max_int : ℕ
max_int = 9223372036854775807

abbrev all_digits : Text → Bool
all_digits [] = true
all_digits (c ∷ s) = is_digit c && all_digits s

abbrev number_from : ℕ → Text → ℕ
number_from n [] = n
number_from n (c ∷ s) = number_from (10 * n + (c - 48)) s

abbrev unsigned : Text → Text
unsigned [] = []
unsigned (c ∷ s) = if c == 43 then s else c ∷ s

unfoldable pub parse_int : Text → ℕ × Bool
parse_int s =
    let d = unsigned s in
    let n = number_from 0 d in
    if text_eq d [] || not (all_digits d)
    then (0, false)
    else if ltb max_int n
    then (max_int, false)
    else (n, true)

-- strings.Fields: the parts between white space.
abbrev add_byte : ℕ → Bool × List Text → Bool × List Text
add_byte c (open_word, w ∷ ws) =
    if open_word then (true, (c ∷ w) ∷ ws) else (true, (c ∷ []) ∷ w ∷ ws)
add_byte c (open_word, []) = (true, (c ∷ []) ∷ [])

unfoldable pub fields_loop : Text → Bool × List Text
fields_loop [] = (false, [])
fields_loop (c ∷ s) =
    let rest = fields_loop s in if is_space c then (false, rest.1) else add_byte c rest

unfoldable pub fields : Text → List Text
unfolding fields_loop
fields s = (fields_loop s).1

-- The key and the value of a line of the configuration.
unfoldable pub config_pair : Text → Text × Text
config_pair c = elim (cut c 58) [
  | none ↦ (trim_space c, yaml_scalar [])
  | some (k, v) ↦ (trim_space k, yaml_scalar v)
]

unfoldable pub set_config : Facts → Text → Text → Facts
set_config f k v =
    if text_eq k (lit "server")
    then record f { has_server = not (text_eq v []); server_url = v }
    else if text_eq k (lit "node-ip")
    then record f { node_ip = v }
    else if text_eq k (lit "cluster-init")
    then record f { cluster_init = text_eq v (lit "true") }
    else if text_eq k (lit "profile")
    then record f { profile = v }
    else if text_eq k (lit "etcd-s3")
    then record f { s3 = text_eq v (lit "true") }
    else if text_eq k (lit "etcd-s3-config-secret")
    then record f { s3_secret = v }
    else f

-- The first half of the keys, and what is left to the second half.
unfoldable pub set_more : Facts → Text → Text → Facts
unfolding parse_int
set_more f k v =
    if text_eq k (lit "api_endpoint")
    then record f { api_endpoint = v }
    else if text_eq k (lit "name")
    then record f { member_name = v }
    else if text_eq k (lit "peer")
    then record f { peer_url = v }
    else if text_eq k (lit "image")
    then record f { image = v }
    else if text_eq k (lit "initial_cluster")
    then record f { initial_cluster = v }
    else if text_eq k (lit "tool")
    then record f { tools = f.tools ++ (v ∷ []) }
    else if text_eq k (lit "snapshot")
    then record f { snapshot = v }
    else if text_eq k (lit "snapshot_size")
    then record f { snapshot_size = (parse_int v).0 }
    else if text_eq k (lit "snapshot_mtime")
    then record f {
      snapshot_time =
          (if (parse_int v).1 && ltb 0 (parse_int v).0
            then (parse_int v).0 * second
            else f.snapshot_time);
    }
    else if text_eq k (lit "preflight")
    then record f { ok = text_eq v (lit "ok") }
    else f

unfoldable pub set_fact : Facts → Text → Text → Facts
unfolding parse_int fields set_more
set_fact f k v =
    if text_eq k (lit "hostname")
    then record f { hostname = v }
    else if text_eq k (lit "bin")
    then record f { bin = v }
    else if text_eq k (lit "svc_state")
    then record f { svc_state = v }
    else if text_eq k (lit "owner")
    then record f { owner = v }
    else if text_eq k (lit "mode")
    then record f { mode = v }
    else if text_eq k (lit "size_kb")
    then record f { size_kb = (parse_int v).0 }
    else if text_eq k (lit "avail_kb")
    then record f { avail_kb = (parse_int v).0 }
    else if text_eq k (lit "member")
    then record f { member = v }
    else if text_eq k (lit "mountpoint")
    then record f { mount = text_eq v (lit "yes") }
    else if text_eq k (lit "rescue_dir")
    then record f { rescue = v }
    else if text_eq k (lit "etcd_user")
    then record f { etcd_user = not (text_eq v (lit "none")) && not (text_eq v []) }
    else if text_eq k (lit "agent")
    then record f { agent = v }
    else if text_eq k (lit "rancher_config")
    then record f { rancher = text_eq v (lit "yes") }
    else if text_eq k (lit "addrs")
    then record f { addrs = fields v }
    else if text_eq k (lit "manifest")
    then record f { manifest = v }
    else set_more f k v

unfoldable pub fact_line : Facts → Text → Facts
unfolding config_pair set_config set_fact
fact_line f raw =
    let l = trim_right (λ c. c == 13) raw in
    if has_prefix l (lit "ERROR: ")
    then record f { err = trim_prefix l (lit "ERROR: ") }
    else if has_prefix l (lit "config: ")
    then (let c = trim_prefix l (lit "config: ") in
        let (k, v) = config_pair c in set_config (record f { config = f.config ++ (c ∷ []) }) k v)
    else elim (cut l 61) [ none ↦ f | some (k, v) ↦ set_fact f k (trim_space v) ]

unfoldable pub facts_loop : Facts → List Text → Facts
unfolding fact_line
facts_loop f [] = f
facts_loop f (l ∷ ls) = facts_loop (fact_line f l) ls

unfoldable pub parse_facts : Text → Facts
unfolding facts_loop
parse_facts out = facts_loop no_facts (split out 10)
