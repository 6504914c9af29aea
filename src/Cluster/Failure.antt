-- ===== src/Cluster/Failure.antt =====
-- src/cluster.cpp: which nodes are suspected and which have failed.
use epochkv.Prelude.{
  ℕ, ◌+◌, ◌-◌, ◌*◌, List, [], ◌∷◌, none, some, Bool, true, false, not, ◌&&◌, ◌||◌, Bytes, ◌==◌, ltb,
  if◌then◌else◌, length,
}
use epochkv.ClusterMsg.{fail}
use epochkv.Cluster.{Node, Cluster, Env, Replication}
use epochkv.Cluster.Nodes.{has_slots, update, save, needed_quorum, node_at}
use epochkv.Cluster.Bus.{self, header, broadcast}
use epochkv.Cluster.State.{fail_report_validity}

abbrev pub fail_undo_time : ℕ
fail_undo_time = 2

-- The reports that are not out of date.
unfoldable pub valid_reports : ℕ → ℕ → List (Bytes × ℕ) → List (Bytes × ℕ)
valid_reports now validity [] = []
valid_reports now validity (r ∷ rs) =
    let rest = valid_reports now validity rs in if ltb validity (now - r.1) then rest else r ∷ rest

abbrev pub report_validity : ℕ → ℕ
report_validity node_timeout = node_timeout * fail_report_validity

-- A node that did not answer in time.
unfoldable pub is_late : ℕ → ℕ → ℕ → Node → Bool
is_late me node_timeout now n =
    not (n.ref == me || (n.in_handshake || n.no_addr || n.is_pfail || n.is_fail))
    && not (n.ping_sent == 0)
    && ltb node_timeout (now - n.ping_sent)

-- A FAIL node that is back: at once without slots to serve, else after some time.
unfoldable pub is_back : ℕ → ℕ → Node → Bool
is_back node_timeout now n =
    n.is_fail
    && (n.is_replica
        || not (has_slots n)
        || ltb (node_timeout * fail_undo_time) (now - n.fail_time))

module _ {R : Type 0} where
  unfoldable pub count_fail_reports : ℕ → Env → Cluster R → Cluster R × ℕ
  unfolding valid_reports update node_at
  count_fail_reports r env c =
      let prune = valid_reports env.now (report_validity c.options.node_timeout) in
      let count : ℕ = elim (node_at c r) [ none ↦ 0 | some n ↦ length (prune n.fail_reports) ] in
      (update c r (λ n. record n { fail_reports = prune n.fail_reports }), count)

  unfoldable pub clear_node_failure_if_needed : Node → Env → Cluster R → Cluster R
  unfolding is_back update save
  clear_node_failure_if_needed n env c =
      if is_back c.options.node_timeout env.now n
      then record (save (update c n.ref (λ n'. record n' { is_fail = false }))) {
        todo_update_state = true;
      }
      else c

  module _ (rep : Replication R) where
    unfoldable pub mark_failing : Node → Env → Cluster R → Cluster R
    unfolding update broadcast save
    mark_failing n env c =
        let c' =
          update c n.ref
            (λ n'. record n' { is_pfail = false; is_fail = true; fail_time = env.now }) in
        let c'' = broadcast rep (record (header rep fail c') { fail_id = n.id }) c' in
        save (record c'' { todo_update_state = true; todo_handle_failover = true })

    -- How many masters hold that the node failed, this one included.
    unfoldable pub count_failures : Node → Env → Cluster R → Cluster R × ℕ
    unfolding count_fail_reports
    count_failures n env c =
        let (c', reports) = count_fail_reports n.ref env c in
        (c', reports + (if (self c).is_master then 1 else 0))

    unfoldable pub mark_node_as_failing_if_needed : Node → Env → Cluster R → Cluster R
    unfolding count_failures mark_failing
    mark_node_as_failing_if_needed n env c =
        let (c', failures) = count_failures n env c in
        if not n.is_pfail || n.is_fail
        then c
        else if ltb failures (needed_quorum c')
        then c'
        else mark_failing n env c'

    unfoldable pub suspect : Node → Env → Cluster R → Cluster R
    unfolding update mark_node_as_failing_if_needed
    suspect n env c =
        let c' = update c n.ref (λ n'. record n' { is_pfail = true }) in
        mark_node_as_failing_if_needed (record n { is_pfail = true }) env
          (record c' { todo_update_state = true })

    unfoldable pub detect_loop : List Node → Env → Cluster R → Cluster R
    unfolding is_late suspect
    detect_loop [] env c = c
    detect_loop (n ∷ ns) env c =
        detect_loop ns env
          (if is_late c.myself c.options.node_timeout env.now n then suspect n env c else c)

    unfoldable pub detect_failures : Env → Cluster R → Cluster R
    unfolding detect_loop
    detect_failures env c = detect_loop c.nodes env c
