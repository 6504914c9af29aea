-- ===== src/Tests/Failover.antt =====
-- src/cluster.cpp at a cluster of three nodes: this one (0), another master (1) and its replica (2).
use epochkv.Prelude.{
  ℕ, All, Bytes, bytes_eq, ◌||◌, ◌≤◌, ◌≡◌, refl, List, [], ◌∷◌, Option, none, some, true, false,
  str, arith, ◌==◌, if◌then◌else◌,
}
use epochkv.Prelude.Int.{pos}
use epochkv.ClusterMsg.{Message, failover_auth_request, slot_count}
use epochkv.HashTable
use epochkv.Store
use epochkv.Store.{Store, new, set, no_eviction}
use epochkv.Store.Visible.{IsValid}
use epochkv.Store.Laws.{new-IsValid, visible-set}
use epochkv.Slots.{key_hash_slot}
use epochkv.Cluster.{Node, Cluster, Env, Replication, saved, connected, points_to}
use epochkv.Cluster.Nodes.{new_node, needed_quorum, find_ref, count_serving, update_ref, serves}
use epochkv.Cluster.Bus.{self}
use epochkv.Cluster.Vote.{send_failover_auth_if_needed}
use epochkv.Cluster.Votes.{count_votes}
use epochkv.Cluster.OneVote.{ask, start, later, Reach-one_vote}
use epochkv.Cluster.Routing.{route, same_slot}
use epochkv.Cluster.Routes.{is_run, Serves, route-Serves}
use epochkv.Cluster.Config.{update_slots_config_with}
use epochkv.Cluster.SlotMap.{NodeAgrees, AllAgree, Agrees}
use epochkv.Cluster.Takeover.{update_slots_config_with-Agrees}
use epochkv.Cluster.Demotion.{Knows}
use epochkv.Cluster.Claimed.{wins, Left, update_slots_config_with-owner}
use epochkv.Cluster.Failure.{mark_node_as_failing_if_needed}
use epochkv.Cluster.Flags.{is_failing}
use epochkv.Cluster.Report.{for_each_range}
use epochkv.Cluster.Ranges.{in_ranges, for_each_range-in_ranges}

-- A replication component whose state is its offset.
abbrev offsets : Replication ℕ
offsets = record {
  offset = λ r. r;
  is_replica = λ r. false;
  master_host = λ r. [];
  master_port = λ r. 0;
  master_last_contact = λ r. 0;
  ping_period = 10000;
  replicaof = λ host port s r. (s, r);
  replicaof_no_one = λ s r. (s, r);
  set_stream_paused = λ paused r. r;
}

-- Slot 5 is the other master's.
abbrev owners : ℕ → Option ℕ
owners i = if i == 5 then some 1 else some 0

abbrev this_node : Node
this_node = record (new_node 0 (str "a") 0) {
  is_master = true;
  config_epoch = 1;
  slots = λ i. points_to (owners i) 0;
}

abbrev other_master : Node
other_master = record (new_node 1 (str "b") 0) {
  is_master = true;
  is_fail = true;
  config_epoch = 2;
  slots = λ i. points_to (owners i) 1;
}

abbrev its_replica : Node
its_replica = record (new_node 2 (str "c") 0) {
  is_replica = true;
  is_pfail = true;
  master_id = str "b";
  fail_reports = (str "b", 90) ∷ [];
  slots = λ i. points_to (owners i) 2;
  link = connected;
}

abbrev three_nodes : Cluster ℕ
three_nodes = record {
  options = record {
    port = 7000;
    cport = 17000;
    node_timeout = 15000;
    require_full_coverage = true;
    replica_validity_factor = 10;
    replica_no_failover = false;
  };
  has_host = true;
  store = new 0 no_eviction (pos 0);
  replication = 0;
  nodes = this_node ∷ other_master ∷ its_replica ∷ [];
  next_ref = 3;
  myself = 0;
  current_epoch = 7;
  last_vote_epoch = 0;
  owner = owners;
  migrating_to = λ i. none;
  importing_from = λ i. none;
  blacklist = [];
  state_ok = true;
  todo_save = false;
  todo_update_state = false;
  todo_broadcast = false;
  todo_handle_failover = false;
  todo_handle_manual_failover = false;
  writable_after = 0;
  among_minority_time = 0;
  failover_auth_time = none;
  failover_auth_rank = 0;
  failover_auth_sent = false;
  failover_auth_count = 0;
  failover_auth_epoch = 0;
  cron_iterations = 0;
  mf_end = none;
  mf_replica = none;
  mf_master_offset = none;
  mf_can_start = false;
  writes_paused = false;
  writes_held = false;
  sent = [];
  messages_received = 0;
  disk = record { epoch = 7; vote = 0 };
}

abbrev calm : Env
calm = record {
  now = 100;
  saving = saved;
  jitter = 0;
  new_id = λ r. [];
  shuffle = λ ns. ns;
  valid_ipv4 = λ ip. true;
  local_ip = none;
  connects = λ r. true;
}

abbrev request : Message
request = record {
  type = failover_auth_request;
  sender = str "c";
  port = 7002;
  cport = 17002;
  is_replica = true;
  master_id = str "b";
  current_epoch = 7;
  config_epoch = 2;
  repl_offset = 0;
  mflags = 0;
  slots = λ i. i == 5;
  gossip = [];
  update_id = [];
  update_epoch = 0;
  update_slots = λ i. false;
  fail_id = [];
}

-- The node is asked for its vote twice.
abbrev asked : Cluster ℕ
asked = send_failover_auth_if_needed offsets its_replica request calm three_nodes

Reach-one_vote_example :
    count_votes 7 (send_failover_auth_if_needed offsets its_replica request calm asked).sent ≤ 1
Reach-one_vote_example =
    Reach-one_vote offsets (send_failover_auth_if_needed offsets its_replica request calm asked)
      (later (later (start refl) (ask its_replica request calm)) (ask its_replica request calm)) 7

-- A store with two keys of one slot, which is on its way to the other master.
abbrev two_keys : Store
two_keys =
    set (set (new 0 no_eviction (pos 0)) (str "{u}a") (str "1") false) (str "{u}b") (str "2") false

two_keys-IsValid : IsValid two_keys
two_keys-IsValid =
    (visible-set _
      (visible-set _ (new-IsValid 0 no_eviction (pos 0)) (str "{u}a") (str "1") false).0
      (str "{u}b") (str "2") false).0

abbrev moving : Cluster ℕ
moving = record three_nodes { store = two_keys; migrating_to = λ i. some 1 }

runs_here : is_run (route moving (str "{u}a" ∷ str "{u}b" ∷ []) true false false).1 ≡ true
unfolding route str same_slot key_hash_slot Store.contains Store.lookup Store.expire_if_needed set
    Store.set_found new HashTable.empty HashTable.find HashTable.bucket_index HashTable.hash_key
    HashTable.insert HashTable.put HashTable.put_found HashTable.rehash_step HashTable.put_chain
    bytes_eq
runs_here = refl

three_nodes-Agrees : Agrees three_nodes
unfolding Agrees AllAgree NodeAgrees
three_nodes-Agrees = (λ i. refl, (λ i. refl, (λ i. refl, tt)))

route-Serves_example :
    All (λ q. key_hash_slot q ≡ key_hash_slot (str "{u}a")) (str "{u}b" ∷ [])
    × (moving.state_ok ≡ true)
    × Serves moving (key_hash_slot (str "{u}a")) (str "{u}a" ∷ str "{u}b" ∷ []) true false false
route-Serves_example =
    route-Serves moving (str "{u}a") (str "{u}b" ∷ []) true false false two_keys-IsValid runs_here

update_slots_config_with-Agrees_example :
    Agrees (update_slots_config_with offsets other_master 3 (λ i. i == 6) three_nodes)
update_slots_config_with-Agrees_example =
    update_slots_config_with-Agrees offsets other_master 3 (λ i. i == 6) three_nodes
      three_nodes-Agrees

three_nodes-Knows : Knows three_nodes
unfolding Knows find_ref
three_nodes-Knows = refl

update_slots_config_with-owner_example :
    ((wins offsets three_nodes 1 3 (λ i. i == 6) 6 ≡ true)
      → (update_slots_config_with offsets other_master 3 (λ i. i == 6) three_nodes).owner 6
        ≡ some 1)
    × ((wins offsets three_nodes 1 3 (λ i. i == 6) 6 ≡ false)
        → Left
            (str "b")
            0
            (some 0)
            (update_slots_config_with offsets other_master 3 (λ i. i == 6) three_nodes)
            6)
update_slots_config_with-owner_example =
    update_slots_config_with-owner offsets other_master 3 (λ i. i == 6) three_nodes 6
      three_nodes-Knows refl (omega arith)

-- Slots 6 and 7 are free, and the arguments are "6 7".
abbrev with_free : Cluster ℕ
with_free = record three_nodes { owner = λ i. if i == 6 || i == 7 then none else owners i }

abbrev six_to_seven : List Bytes
six_to_seven = str "6" ∷ str "7" ∷ []

-- Without masters that have slots, one report is a majority.
abbrev no_masters : Cluster ℕ
no_masters = record three_nodes { nodes = its_replica ∷ []; myself = 2 }

-- The suspected node is marked.
now_failing :
    is_failing 2 (mark_node_as_failing_if_needed offsets its_replica calm no_masters).nodes ≡ true
unfolding mark_node_as_failing_if_needed is_failing find_ref self needed_quorum count_serving
    update_ref serves
now_failing = refl

for_each_range-in_ranges_example : in_ranges 6 (for_each_range slot_count 0 (λ i. i == 6)) ≡ true
for_each_range-in_ranges_example = for_each_range-in_ranges (λ i. i == 6) 6 (omega arith)
