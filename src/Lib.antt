-- ===== src/Lib.antt =====
-- khealth-tui: a terminal dashboard of health checks for Kubernetes clusters (kubeadm, RKE2, k3s).
--
-- The program gathers data over the Kubernetes API and over SSH, turns it into findings, and can repair
-- the etcd of a control plane. The modules here model the parts below.
--
-- Rescue (internal/rescue/rescue.go): restoring an etcd snapshot or rejoining one server.
--   Types, Env, Monad: the data; what the rescue meets and does not implement (the SSH runner, clock,
--   context, Abort, the JSON reader behind etcd.ParseCtl, net and net/url), as the record Env; the state
--   of a step and computations that may fail. The closures that the source hands to `add` are the
--   constructors of Action, and Perform says what each does.
--   Status: ParseStatus and Status.Ready. Output: the readers of script output. Exec: exec and poll.
--   Wait, Reset: waitStatus, waitTargetAlone, clusterReset, restoreVerified, targetUp.
--   Plans: Supported, New, NewRejoin. Run: Run and finishNotes. Build: build, rejoinSteps, buildRKE2,
--   buildKubeadm.
--   A request to the runner is a script's name with the values that `render` substitutes; the text of
--   the scripts is shell and is not modelled. `poll` runs on rounds, timeout / interval + 3 of them;
--   each round that goes on has paused for the interval, so the deadline passes before they run out.
--   Facts reads what the preflight script printed, Assess holds the warnings, Preflight the checks before a
--   rescue; the answers of its goroutines are a list in the order of their arrival.
-- Etcd (internal/etcd/probe.go): members, endpoint statuses, Leader and Status.
--   Merge: Probe.Merge on the fields it reads, over a chain of cycles; LastLeader, LatestSnapshot,
--   SnapshotCount. Times are numbers.
-- Strutil (internal/strutil/strutil.go): the text helpers that the others call.
-- Text: Go's byte strings and the functions of strings, strconv and fmt that the code uses; white space
-- and case are those of ASCII.
-- Defrag (internal/etcd/defrag.go): Defrag over the members, its calls threaded through a world.
-- Logs (internal/logs): the knowledge base that journal lines are matched against.
--   Prefilter (prefilter.go): literals over the trees of regexp/syntax, and in Syntax what a tree matches.
--   Knowledge (patterns.go, prefilter.go): init, matches, match, ownLevel, Lookup, MayMatch and
--   MayMatchBytes. Klog, Streamed, Level: the proofs about them.
--   Summary, Classify (patterns.go): startup windows, classify, escalate, demoteStartupNoise, Signature,
--   the timestamps and ClassifySources. Times are nanoseconds, 0 the zero time; a time of less than ten
--   minutes has no ten minutes before it. What the file's expressions find, package time and the stable
--   sort are parameters. The table of patterns, the parser and MatchString are parameters; lines are ASCII.
-- Quorum (internal/checks/etcd_triage.go): etcdQuorumOf. The map of statuses is a list with one entry per
--   id; sorted_keys gives its ids in the order of strutil.SortedKeys.
-- Version (internal/helmcheck/helmcheck.go): CompareVersions and what it calls.
-- Find (internal/ui/find.go): run, extend, current and step of the search in a page. step is called with 1
--   and -1 only, which are two functions. ansi.Strip is a parameter.
-- Table (internal/ui/table.go): the column widths of renderTable. The loop that shrinks runs on rounds, as
--   many as the sum of the widths: each round takes one off. ansi.StringWidth is a parameter.
--   Wrap: wrap and flow.
-- Ssh (internal/sshrun/runner.go, become.go): the cache of connections. Moves: any number of callers of
--   client, with dropDead, drop and Close between their steps: a section under mu is one step, and the
--   close of dropDead, which comes after the unlock, is another. A connection is named by the number of
--   its dial. Become: how a script becomes root. Run: client as one caller sees it, runOnce, Run, Stream.
--   What x/crypto/ssh does (dial, sessions, how a command ends) and the clock are parameters, in Env. Left
--   out: the keys, known_hosts, the bastion and the fingerprint in a result.
-- Stig (internal/stig/stig.go, score.go, checklist.go): the references of rules; Score: the scorecards, where
--   the calls of add are one list of outcomes; Checklist: the open results regrouped by target. A map from
--   nodes to statuses is a list with one entry per node; sort.Slice and sort.SliceStable are stable sorts.
--   The two regular expressions that find a path in a text are parameters.
pub mod Base
pub mod Text
pub mod Etcd
pub mod Ssh
pub mod Stig
pub mod Strutil
pub mod Defrag
pub mod Rescue
pub mod Logs
pub mod Table
pub mod Find
pub mod Version
pub mod Quorum
