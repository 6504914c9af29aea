-- ===== src/Cluster/Membership.antt =====
-- src/cluster.cpp: nodes that are dropped and renamed, and what others say about nodes.
use epochkv.Prelude.{
  ℕ, List, [], ◌∷◌, Option, none, some, Bool, true, false, not, ◌||◌, Bytes, ltb, bytes_eq,
  if◌then◌else◌,
}
use epochkv.ClusterMsg.{GossipEntry, slot_count}
use epochkv.Cluster.{Node, Cluster, Env, Replication, no_link, points_to}
use epochkv.Cluster.Nodes.{
  for_slots, put, erase_ref, lookup, update, save, set_slot, start_handshake,
}
use epochkv.Cluster.Bus.{self}
use epochkv.Cluster.State.{reset_manual_failover}
use epochkv.Cluster.Failure.{mark_node_as_failing_if_needed}

unfoldable pub erase_report : Bytes → List (Bytes × ℕ) → List (Bytes × ℕ)
erase_report id [] = []
erase_report id (r ∷ rs) = if bytes_eq r.0 id then rs else r ∷ erase_report id rs

abbrev pub put_report : Bytes → ℕ → List (Bytes × ℕ) → List (Bytes × ℕ)
put_report id t rs = (id, t) ∷ erase_report id rs

unfoldable pub find_ban : Bytes → List (Bytes × ℕ) → Option ℕ
find_ban id [] = none
find_ban id (r ∷ rs) = if bytes_eq r.0 id then some (r.1) else find_ban id rs

unfoldable pub is_banned : ℕ → Option ℕ → Bool
is_banned now none = false
is_banned now (some t) = ltb now t

-- No node has a report of the node any more.
unfoldable pub drop_reports : Bytes → List Node → List Node
unfolding erase_report
drop_reports id [] = []
drop_reports id (n ∷ ns) =
    record n { fail_reports = erase_report id n.fail_reports } ∷ drop_reports id ns

abbrev pub unpoint : ℕ → Option ℕ → Option ℕ
unpoint r p = if points_to p r then none else p

module _ {R : Type 0} where
  -- One round of the loop over the slots.
  unfoldable pub forget_slot : ℕ → ℕ → Cluster R → Cluster R
  forget_slot r slot c =
      let c' = if points_to (c.owner slot) r then set_slot slot none c else c in
      record c' {
        migrating_to = put c'.migrating_to slot (unpoint r (c'.migrating_to slot));
        importing_from = put c'.importing_from slot (unpoint r (c'.importing_from slot));
      }

  unfoldable pub free_link : ℕ → Cluster R → Cluster R
  unfolding update
  free_link r c = update c r (λ n. record n { link = no_link })

  unfoldable pub del_node : (rep : Replication R) → Node → Cluster R → Cluster R
  unfolding forget_slot free_link drop_reports save
  del_node rep n c =
      let c' = free_link n.ref (for_slots slot_count (forget_slot n.ref) c) in
      let c'' = record c' { nodes = drop_reports n.id c'.nodes } in
      let c''' = if points_to c''.mf_replica n.ref then reset_manual_failover rep c'' else c'' in
      record (save (record c''' { nodes = erase_ref n.ref c'''.nodes })) {
        todo_update_state = true;
      }

  unfoldable pub rename_node : ℕ → Bytes → Cluster R → Cluster R
  unfolding update
  rename_node r id c = update c r (λ n. record n { id = id })

  -- What `sender` says of a node that is known here.
  unfoldable pub hear_report :
      (rep : Replication R) → Node → GossipEntry → Node → Env → Cluster R → Cluster R
  unfolding update
  hear_report rep sender g n env c =
      let reported = put_report sender.id env.now n.fail_reports in
      let bad = record n { fail_reports = reported } in
      if not sender.is_master || n.in_handshake
      then c
      else if g.is_pfail || g.is_fail
      then mark_node_as_failing_if_needed rep bad env
          (update c n.ref (λ n'. record n' { fail_reports = reported }))
      else update c n.ref (λ n'. record n' { fail_reports = erase_report sender.id n.fail_reports })

  unfoldable pub hear_of_stranger : GossipEntry → Env → Cluster R → Cluster R
  unfolding find_ban is_banned
  hear_of_stranger g env c =
      if is_banned env.now (find_ban g.id c.blacklist)
      then c
      else start_handshake g.ip g.port g.cport env c

  unfoldable pub hear_gossip :
      (rep : Replication R) → Node → GossipEntry → Env → Cluster R → Cluster R
  unfolding hear_report hear_of_stranger
  hear_gossip rep sender g env c =
      let known : Option Node = lookup c g.id in
      if bytes_eq g.id (self c).id then c else elim known [
        | none ↦ hear_of_stranger g env c
        | some n ↦ hear_report rep sender g n env c
      ]

  -- The loop of `process_gossip`.
  unfoldable pub process_gossip :
      (rep : Replication R) → Node → List GossipEntry → Env → Cluster R → Cluster R
  unfolding hear_gossip
  process_gossip rep sender [] env c = c
  process_gossip rep sender (g ∷ gs) env c =
      process_gossip rep sender gs env (hear_gossip rep sender g env c)
