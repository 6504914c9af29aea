-- ===== src/Cluster/Report.antt =====
-- src/cluster.cpp: what CLUSTER INFO, NODES and SLOTS tell.
use epochkv.Prelude.{
  ℕ, zero, suc, ◌+◌, ◌-◌, ◌%◌, ◌^◌, List, [], ◌∷◌, ◌++◌, Option, none, some, Bool, not, ◌&&◌, ◌||◌,
  Bytes, ◌==◌, ltb, str, bytes_eq, if◌then◌else◌, length,
}
use epochkv.Prelude.Int.{pos}
use epochkv.Prelude.Decimal.{to_string_ℕ}
use epochkv.ClusterMsg.{SlotBitmap, slot_count}
use epochkv.Reply
use epochkv.Cluster.{Node, Cluster}
use epochkv.Cluster.Nodes.{cluster_size, master_of, node_at}
use epochkv.Cluster.Bus.{self, is_connected, shard_epoch}
use epochkv.Cluster.State.{owner_node}
use epochkv.Cluster.Config.{bytes_lt}

-- The last slot of a run of set bits, `n` slots ahead at most.
unfoldable pub range_end : ℕ → ℕ → SlotBitmap → ℕ
range_end zero end slots = end
range_end (suc n) end slots =
    let rest = range_end n (end + 1) slots in
    if ltb (end + 1) slot_count && slots (end + 1) then rest else end

-- `for_each_range` from `start`, with `n` slots ahead at most: the runs of set bits.
unfoldable pub for_each_range : ℕ → ℕ → SlotBitmap → List (ℕ × ℕ)
unfolding range_end
for_each_range zero start slots = []
for_each_range (suc n) start slots =
    let end = if slots start then range_end n start slots else start in
    let rest = for_each_range n (end + 1) slots in
    if not (ltb start slot_count) then [] else if slots start then (start, end) ∷ rest else rest

unfoldable pub insert_sorted : Node → List Node → List Node
insert_sorted n [] = n ∷ []
insert_sorted n (m ∷ ms) =
    let rest = insert_sorted n ms in if bytes_lt m.id n.id then m ∷ rest else n ∷ m ∷ ms

-- `std::sort` by the IDs, which are all different.
unfoldable pub sort_nodes : List Node → List Node
unfolding insert_sorted
sort_nodes [] = []
sort_nodes (n ∷ ns) = insert_sorted n (sort_nodes ns)

-- The nodes that are written to nodes.conf, or are told of.
unfoldable pub listed : Bool → List Node → List Node
listed for_config [] = []
listed for_config (n ∷ ns) =
    let rest = listed for_config ns in if for_config && n.in_handshake then rest else n ∷ rest

unfoldable pub add_flag : Bool → Bytes → Bytes → Bytes
add_flag is_set name flags =
    if not is_set then flags else if length flags == 0 then name else flags ++ str "," ++ name

unfoldable pub flag_str : Bool → Node → Bytes
unfolding add_flag
flag_str is_myself n = add_flag n.no_addr (str "noaddr") (
    add_flag n.in_handshake (str "handshake") (
      add_flag n.is_fail (str "fail") (
        add_flag n.is_pfail (str "fail?") (
          add_flag n.is_replica (str "slave")
            (add_flag n.is_master (str "master") (add_flag is_myself (str "myself") []))))))

unfoldable pub print_ranges : List (ℕ × ℕ) → Bytes
print_ranges [] = []
print_ranges (r ∷ rs) =
    str " "
    ++ to_string_ℕ (r.0)
    ++ (if r.1 == r.0 then [] else str "-" ++ to_string_ℕ (r.1))
    ++ print_ranges rs

abbrev pub or_else : Bytes → Bytes → Bytes
or_else s t = if length s == 0 then t else s

-- A run of slots with one owner.
pub record Range : Type 0 where
  pub start : ℕ
  pub end : ℕ
  pub owner : Node

-- The runs, the latest first, with one more slot of `owner`.
unfoldable pub extend_ranges : ℕ → Node → List Range → List Range
extend_ranges slot owner [] = record { start = slot; end = slot; owner = owner } ∷ []
extend_ranges slot owner (r ∷ rs) =
    if r.owner.ref == owner.ref && r.end + 1 == slot
    then record r { end = slot } ∷ rs
    else record { start = slot; end = slot; owner = owner } ∷ r ∷ rs

unfoldable pub replicas_of : Bytes → List Node → List Node
replicas_of id [] = []
replicas_of id (n ∷ ns) =
    let rest = replicas_of id ns in
    if n.is_replica && bytes_eq n.master_id id && not (n.in_handshake || n.no_addr)
    then n ∷ rest
    else rest

unfoldable pub node_entry : Bytes → Node → Bytes
node_entry out n =
    Reply.bulk_string
      (Reply.integer (Reply.bulk_string (Reply.array_header out 3) n.ip) (pos n.port)) n.id

unfoldable pub node_entries : Bytes → List Node → Bytes
unfolding node_entry
node_entries out [] = out
node_entries out (n ∷ ns) = node_entries (node_entry out n) ns

-- From the latest to the first.
unfoldable pub print_slot_ranges : List Node → Bytes → List Range → Bytes
unfolding node_entries replicas_of
print_slot_ranges nodes out [] = out
print_slot_ranges nodes out (r ∷ rs) =
    let replicas = replicas_of r.owner.id nodes in
    let before = print_slot_ranges nodes out rs in
    node_entries
      (Reply.integer (Reply.integer (Reply.array_header before (3 + length replicas)) (pos r.start))
        (pos r.end))
      (r.owner ∷ replicas)

-- The slots with an owner, the owners that are suspected and those that failed.
pub record Owners : Type 0 where
  pub assigned : ℕ
  pub pfail : ℕ
  pub fail : ℕ

unfoldable pub count_owner : Option Node → Owners → Owners
count_owner none counts = counts
count_owner (some n) counts = record {
  assigned = counts.assigned + 1;
  pfail = counts.pfail + (if n.is_pfail then 1 else 0);
  fail = counts.fail + (if n.is_fail then 1 else 0);
}

unfoldable pub line : Bytes → ℕ → Bytes
line name n = name ++ str ":" ++ to_string_ℕ n ++ str "\r\n"

unfoldable pub print_move : Bytes → ℕ → Option Node → Bytes
print_move arrow slot none = []
print_move arrow slot (some n) = str " [" ++ to_string_ℕ slot ++ arrow ++ n.id ++ str "]"

module _ {R : Type 0} where
  unfoldable pub count_owners : ℕ → Cluster R → Owners
  unfolding count_owner
  count_owners zero c = record { assigned = 0; pfail = 0; fail = 0 }
  count_owners (suc slot) c = count_owner (owner_node c slot) (count_owners slot c)

  unfoldable pub info : Cluster R → Bytes
  unfolding count_owners line
  info c =
      let counts = count_owners slot_count c in
      str "cluster_state:"
      ++ (if c.state_ok then str "ok\r\n" else str "fail\r\n")
      ++ line (str "cluster_slots_assigned") counts.assigned
      ++ line (str "cluster_slots_ok")
          ((counts.assigned + 2 ^ 65 - counts.pfail - counts.fail) % 2 ^ 64)
      ++ line (str "cluster_slots_pfail") counts.pfail
      ++ line (str "cluster_slots_fail") counts.fail
      ++ line (str "cluster_known_nodes") (length c.nodes)
      ++ line (str "cluster_size") (cluster_size c)
      ++ line (str "cluster_current_epoch") c.current_epoch
      ++ line (str "cluster_my_epoch") (shard_epoch (master_of c (self c)))
      ++ line (str "cluster_stats_messages_sent") (length c.sent)
      ++ line (str "cluster_stats_messages_received") c.messages_received

  unfoldable pub node_to : Cluster R → Option ℕ → Option Node
  node_to c none = none
  node_to c (some r) = node_at c r

  -- The slots that are on the move.
  unfoldable pub print_moves : ℕ → Cluster R → Bytes
  unfolding print_move
  print_moves zero c = []
  print_moves (suc slot) c =
      print_moves slot c
      ++ print_move (str "->-") slot (node_to c (c.migrating_to slot))
      ++ print_move (str "-<-") slot (node_to c (c.importing_from slot))

  -- `unix_ms` turns a time of the steady clock to one of the calendar.
  unfoldable pub describe_node : (ℕ → ℕ) → Node → Cluster R → Bytes
  unfolding flag_str print_ranges for_each_range print_moves
  describe_node unix_ms n c =
      let mine = n.ref == c.myself in
      n.id
      ++ str " "
      ++ n.ip
      ++ str ":"
      ++ to_string_ℕ n.port
      ++ str "@"
      ++ to_string_ℕ n.cport
      ++ str " "
      ++ or_else (flag_str mine n) (str "noflags")
      ++ str " "
      ++ or_else n.master_id (str "-")
      ++ str " "
      ++ to_string_ℕ (unix_ms n.ping_sent)
      ++ str " "
      ++ to_string_ℕ (unix_ms n.pong_received)
      ++ str " "
      ++ to_string_ℕ n.config_epoch
      ++ str " "
      ++ (if mine || is_connected n.link then str "connected" else str "disconnected")
      ++ print_ranges (for_each_range slot_count 0 n.slots)
      ++ (if mine then print_moves slot_count c else [])
      ++ str "\n"

  unfoldable pub describe_all : (ℕ → ℕ) → List Node → Cluster R → Bytes
  unfolding describe_node
  describe_all unix_ms [] c = []
  describe_all unix_ms (n ∷ ns) c = describe_node unix_ms n c ++ describe_all unix_ms ns c

  unfoldable pub describe_nodes : (ℕ → ℕ) → Bool → Cluster R → Bytes
  unfolding describe_all sort_nodes listed
  describe_nodes unix_ms for_config c =
      describe_all unix_ms (sort_nodes (listed for_config c.nodes)) c
      ++ (if for_config
          then str "vars currentEpoch "
            ++ to_string_ℕ c.current_epoch
            ++ str " lastVoteEpoch "
            ++ to_string_ℕ c.last_vote_epoch
            ++ str "\n"
          else [])

  -- The runs of the first `n` slots.
  unfoldable pub slot_ranges : ℕ → Cluster R → List Range
  unfolding extend_ranges
  slot_ranges zero c = []
  slot_ranges (suc slot) c =
      let before = slot_ranges slot c in
      elim (owner_node c slot) [ none ↦ before | some owner ↦ extend_ranges slot owner before ]

  unfoldable pub cmd_slots : Bytes → Cluster R → Bytes
  unfolding print_slot_ranges slot_ranges
  cmd_slots out c =
      let ranges = slot_ranges slot_count c in
      print_slot_ranges c.nodes (Reply.array_header out (length ranges)) ranges
