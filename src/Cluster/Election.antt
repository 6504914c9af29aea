-- ===== src/Cluster/Election.antt =====
-- src/cluster.cpp: the election of a replica, and the failover by hand.
use epochkv.Prelude.{
  ℕ, ◌+◌, ◌-◌, ◌*◌, ◌%◌, bit_or, max, List, [], ◌∷◌, Option, none, some, Bool, true, false, not,
  ◌&&◌, ◌||◌, Bytes, ◌==◌, ltb, leb, bytes_eq, if◌then◌else◌,
}
use epochkv.ClusterMsg.{Message, slot_count, failover_auth_request}
use epochkv.Cluster.{Node, Cluster, Env, Replication, points_to, is_null}
use epochkv.Cluster.Nodes.{
  for_slots, has_slots, update, save, set_slot, set_node_as_master, needed_quorum, lookup,
  next_epoch,
}
use epochkv.Cluster.Bus.{self, header, broadcast, broadcast_pong}
use epochkv.Cluster.State.{update_state, save_config, reset_manual_failover}
use epochkv.Cluster.Vote.{force_ack}

unfoldable pub count_ahead : ℕ → Bytes → ℕ → List Node → ℕ
count_ahead me master_id mine [] = 0
count_ahead me master_id mine (n ∷ ns) =
    let ahead =
      not (n.ref == me)
      && n.is_replica
      && bytes_eq n.master_id master_id
      && not n.is_fail
      && ltb mine n.repl_offset in
    (if ahead then 1 else 0) + count_ahead me master_id mine ns

-- A request that is granted although the master is not failing.
unfoldable pub ask_anyway : Bool → Message → Message
ask_anyway false m = m
ask_anyway true m = record m { mflags = bit_or m.mflags force_ack }

abbrev pub auth_timeout : ℕ → ℕ
auth_timeout node_timeout = max (node_timeout * 2) 2000

-- The age of the copy; the time in which the failure was found does not count.
unfoldable pub data_age : ℕ → ℕ → ℕ → ℕ
data_age node_timeout now last_contact =
    let age = now - last_contact in if ltb node_timeout age then age - node_timeout else age

-- An election is due when there was none, or the last is long over.
unfoldable pub election_over : ℕ → ℕ → Option ℕ → Bool
election_over now retry none = true
election_over now retry (some t) = ltb retry (now - t)

module _ {R : Type 0} where
  -- The rules that stop a failover before it is scheduled.
  unfoldable pub may_fail_over : Cluster R → Bool → Node → Bool
  may_fail_over c manual master =
      has_slots master
      && (master.is_fail || manual)
      && (not c.options.replica_no_failover || manual)

  unfoldable pub handle_manual_failover : (rep : Replication R) → Cluster R → Cluster R
  handle_manual_failover rep c =
      let c' = record c { todo_handle_manual_failover = false } in
      if is_null c.mf_end || c.mf_can_start || is_null c.mf_master_offset
      then c'
      else if points_to c.mf_master_offset (rep.offset c.replication)
      then record c' { mf_can_start = true; todo_handle_failover = true }
      else c'

  module _ (rep : Replication R) where
    unfoldable pub replica_rank : Cluster R → ℕ
    unfolding count_ahead
    replica_rank c = elim (lookup c (self c).master_id) [
      | none ↦ 0
      | some master ↦ count_ahead c.myself master.id (rep.offset c.replication) c.nodes
    ]

    unfoldable pub request_failover_auth : Cluster R → Cluster R
    unfolding broadcast header ask_anyway
    request_failover_auth c =
        broadcast rep (ask_anyway (not (is_null c.mf_end)) (header rep failover_auth_request c)) c

    -- One round of the loop over the slots.
    unfoldable pub take_over : Node → ℕ → Cluster R → Cluster R
    take_over old_master slot c =
        if points_to (c.owner slot) old_master.ref then set_slot slot (some c.myself) c else c

    unfoldable pub replace_master : Node → Env → Cluster R → Cluster R
    unfolding take_over save_config
    replace_master old_master env c =
        let c' = set_node_as_master c.myself c in
        let (s, r) = rep.replicaof_no_one c'.store c'.replication in
        let c'' =
          for_slots slot_count (take_over old_master) (record c' { store = s; replication = r }) in
        reset_manual_failover rep
          (broadcast_pong rep env (save_config env (update_state env c'')).0)

    unfoldable pub failover_replace_master : Env → Cluster R → Cluster R
    unfolding replace_master
    failover_replace_master env c =
        if (self c).is_master
        then c
        else elim (lookup c (self c).master_id) [ none ↦ c | some m ↦ replace_master m env c ]

    -- A new election: when the votes are asked for.
    unfoldable pub schedule_election : Env → Cluster R → Cluster R
    unfolding replica_rank
    schedule_election env c =
        let rank = replica_rank c in
        let manual = not (is_null c.mf_end) in
        let delay = 500 + env.jitter % 500 + rank * 1000 in
        broadcast_pong rep env (record c {
          failover_auth_rank = if manual then 0 else rank;
          failover_auth_time = some (if manual then env.now else env.now + delay);
          failover_auth_count = 0;
          failover_auth_sent = false;
          todo_handle_failover = manual || c.todo_handle_failover;
        })

    -- A sibling that got ahead goes first.
    unfoldable pub step_back : ℕ → Cluster R → Cluster R
    unfolding replica_rank
    step_back t c =
        let rank = replica_rank c in
        if not c.failover_auth_sent && is_null c.mf_end && ltb c.failover_auth_rank rank
        then record c {
          failover_auth_time = some (t + (rank - c.failover_auth_rank) * 1000);
          failover_auth_rank = rank;
        }
        else c

    unfoldable pub start_election : Cluster R → Cluster R
    unfolding request_failover_auth save
    start_election c =
        let epoch = next_epoch c.current_epoch in
        let c' =
          request_failover_auth (record c { current_epoch = epoch; failover_auth_epoch = epoch }) in
        save (record c' { failover_auth_sent = true; todo_update_state = true })

    unfoldable pub win_election : Env → Cluster R → Cluster R
    unfolding update failover_replace_master
    win_election env c = failover_replace_master env (
        if ltb (self c).config_epoch c.failover_auth_epoch
        then update c c.myself (λ n. record n { config_epoch = c.failover_auth_epoch })
        else c)

    -- The election that is scheduled.
    unfoldable pub run_election : ℕ → Env → Cluster R → Cluster R
    unfolding start_election win_election
    run_election t env c =
        if ltb env.now t || ltb (auth_timeout c.options.node_timeout) (env.now - t)
        then c
        else if not c.failover_auth_sent
        then start_election c
        else if leb (needed_quorum c) c.failover_auth_count
        then win_election env c
        else c

    unfoldable pub run_scheduled : Option ℕ → Env → Cluster R → Cluster R
    unfolding run_election
    run_scheduled none env c = c
    run_scheduled (some t) env c = run_election t env c

    unfoldable pub elect : Option ℕ → Env → Cluster R → Cluster R
    unfolding schedule_election step_back run_scheduled election_over
    elect due env c =
        if election_over env.now (auth_timeout c.options.node_timeout * 2) due
        then schedule_election env c
        else (let c' : Cluster R = elim due [ none ↦ c | some t ↦ step_back t c ] in
            run_scheduled c'.failover_auth_time env c')

    unfoldable pub is_too_old : Env → Cluster R → Bool
    unfolding data_age
    is_too_old env c =
        let age = data_age c.options.node_timeout env.now (rep.master_last_contact c.replication) in
        ltb 0 c.options.replica_validity_factor
        && ltb (rep.ping_period + c.options.node_timeout * c.options.replica_validity_factor) age

    unfoldable pub handle_replica_failover : Env → Cluster R → Cluster R
    unfolding elect may_fail_over is_too_old
    handle_replica_failover env c =
        let c' = record c { todo_handle_failover = false } in
        let manual = not (is_null c.mf_end) && c.mf_can_start in
        let allowed : Bool = elim (lookup c (self c).master_id) [
          | none ↦ false
          | some master ↦ may_fail_over c manual master
        ] in
        if not c.has_host
          || not (self c).is_replica
          || not allowed
          || is_too_old env c && not manual
        then c'
        else elect c'.failover_auth_time env c'

    unfoldable pub manual_failover_check_timeout : Env → Cluster R → Cluster R
    manual_failover_check_timeout env c = elim c.mf_end [
      | none ↦ c
      | some t ↦ if ltb t env.now then reset_manual_failover rep c else c
    ]
