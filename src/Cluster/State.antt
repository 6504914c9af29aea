-- ===== src/Cluster/State.antt =====
-- src/cluster.cpp: nodes.conf, the state of the cluster, and the pause of writes. The times of the clock are
-- in order, so that no difference of two stops at 0.
use epochkv.Prelude.{
  ℕ, zero, suc, ◌+◌, ◌-◌, ◌/◌, min, max, List, [], ◌∷◌, Option, none, some, Bool, true, false, not,
  ◌&&◌, ◌||◌, ltb, if◌then◌else◌,
}
use epochkv.ClusterMsg.{slot_count}
use epochkv.Cluster.{Node, Cluster, Env, Replication, Saving, saved, not_saved, saved_with_error}
use epochkv.Cluster.Nodes.{find_ref, serves, cluster_size}
use epochkv.Cluster.Bus.{self}

abbrev pub fail_report_validity : ℕ
fail_report_validity = 2

abbrev pub manual_failover_timeout : ℕ
manual_failover_timeout = 5000

abbrev pub writable_delay : ℕ
writable_delay = 2000

-- The delay before a master that was cut off accepts writes again: the node timeout, clamped.
unfoldable pub rejoin_delay : ℕ → ℕ
rejoin_delay node_timeout = max 500 (min node_timeout 5000)

-- The owner of a slot is there and is not failing.
abbrev pub is_served : Option Node → Bool
is_served none = false
is_served (some n) = not n.is_fail

unfoldable pub count_reachable : List Node → ℕ
count_reachable [] = 0
count_reachable (n ∷ ns) =
    (if serves n && not (n.is_pfail || n.is_fail) then 1 else 0) + count_reachable ns

module _ {R : Type 0} where
  abbrev pub write_config : Cluster R → Cluster R
  write_config c = record c { disk = record { epoch = c.current_epoch; vote = c.last_vote_epoch } }

  unfoldable pub save_as : Saving → Cluster R → Cluster R × Bool
  save_as saved c = (write_config c, true)
  save_as not_saved c = (c, false)
  save_as saved_with_error c = (write_config c, false)

  unfoldable pub save_config : Env → Cluster R → Cluster R × Bool
  unfolding save_as
  save_config env c = save_as env.saving c

  unfoldable pub owner_node : Cluster R → ℕ → Option Node
  owner_node c slot = elim (c.owner slot) [ none ↦ none | some r ↦ find_ref r c.nodes ]

  unfoldable pub served : Cluster R → ℕ → Bool
  unfolding owner_node
  served c slot = is_served (owner_node c slot)

  -- `std::all_of` over the owners.
  unfoldable pub all_served : ℕ → Cluster R → Bool
  unfolding served
  all_served zero c = true
  all_served (suc n) c = all_served n c && served c n

  unfoldable pub update_state : Env → Cluster R → Cluster R
  unfolding all_served count_reachable rejoin_delay
  update_state env c =
      let size = cluster_size c in
      let minority = ltb 0 size && ltb (count_reachable c.nodes) (size / 2 + 1) in
      let ok = (not c.options.require_full_coverage || all_served slot_count c) && not minority in
      let c' = record c {
        todo_update_state = false;
        among_minority_time = if minority then env.now else c.among_minority_time;
      } in
      let waits =
        ok
        && (self c).is_master
        && c.has_host
        && (ltb env.now c.writable_after
            || ltb (env.now - c'.among_minority_time) (rejoin_delay c.options.node_timeout)) in
      let same = if c.state_ok then ok else not ok in
      if same || waits then c' else record c' { state_ok = ok }

  unfoldable pub after_stall : Env → Cluster R → Cluster R
  after_stall env c = record c { among_minority_time = env.now; state_ok = false }

  module _ (rep : Replication R) where
    unfoldable pub pause_writes : Bool → Cluster R → Cluster R
    pause_writes paused c = record c {
      writes_paused = paused;
      writes_held = if c.has_host then paused else c.writes_held;
      store = record c.store { passive_expiry = paused || rep.is_replica c.replication };
      replication = rep.set_stream_paused paused c.replication;
    }

    unfoldable pub reset_manual_failover : Cluster R → Cluster R
    unfolding pause_writes
    reset_manual_failover c =
        let c' = if c.writes_paused then pause_writes false c else c in
        record c' {
          mf_end = none;
          mf_replica = none;
          mf_master_offset = none;
          mf_can_start = false;
        }
