-- ===== src/Cluster/Nodes.antt =====
-- src/cluster.cpp: the nodes and who owns which slot.
use epochkv.Prelude.{
  ℕ, zero, suc, ◌+◌, ◌/◌, ◌%◌, ◌^◌, max, List, [], ◌∷◌, ◌++◌, Option, none, some, Bool, true, false,
  not, ◌&&◌, ◌||◌, Bytes, ◌==◌, bytes_eq, if◌then◌else◌,
}
use epochkv.ClusterMsg.{SlotBitmap, slot_count}
use epochkv.Cluster.{Node, Cluster, Env, no_link}

-- The loop `for (int slot = 0; slot < n; ++slot)`.
unfoldable pub for_slots : {S : Type 0} → ℕ → (ℕ → S → S) → S → S
for_slots zero body s = s
for_slots (suc n) body s = body n (for_slots n body s)

unfoldable pub any_slot : ℕ → SlotBitmap → Bool
any_slot zero slots = false
any_slot (suc n) slots = any_slot n slots || slots n

-- `slots.any()`
unfoldable pub has_slots : Node → Bool
unfolding any_slot
has_slots n = any_slot slot_count n.slots

-- `lookup` in the table of nodes.
unfoldable pub find_id : Bytes → List Node → Option Node
find_id id [] = none
find_id id (n ∷ ns) = if bytes_eq n.id id then some n else find_id id ns

-- The node that a pointer points to.
unfoldable pub find_ref : ℕ → List Node → Option Node
find_ref r [] = none
find_ref r (n ∷ ns) = if n.ref == r then some n else find_ref r ns

-- A write through a pointer to a node.
unfoldable pub update_ref : ℕ → (Node → Node) → List Node → List Node
update_ref r f [] = []
update_ref r f (n ∷ ns) = (if n.ref == r then f n else n) ∷ update_ref r f ns

unfoldable pub erase_ref : ℕ → List Node → List Node
erase_ref r [] = []
erase_ref r (n ∷ ns) = if n.ref == r then ns else n ∷ erase_ref r ns

abbrev pub set_bit : Bool → ℕ → Node → Node
set_bit value slot n = record n { slots = λ i. if i == slot then value else n.slots i }

-- A null pointer is not written through.
unfoldable pub write_bit : Bool → ℕ → Option ℕ → List Node → List Node
unfolding update_ref
write_bit value slot none nodes = nodes
write_bit value slot (some r) nodes = update_ref r (set_bit value slot) nodes

abbrev pub put : (ℕ → Option ℕ) → ℕ → Option ℕ → ℕ → Option ℕ
put slots slot value i = if i == slot then value else slots i

-- Whether a node serves slots as a master.
unfoldable pub serves : Node → Bool
serves n = n.is_master && has_slots n

unfoldable pub count_serving : List Node → ℕ
count_serving [] = 0
count_serving (n ∷ ns) = (if serves n then 1 else 0) + count_serving ns

unfoldable pub max_config_epoch : ℕ → List Node → ℕ
max_config_epoch m [] = m
max_config_epoch m (n ∷ ns) = max_config_epoch (max m n.config_epoch) ns

-- A handshake with the address that is under way.
unfoldable pub handshaking : Bytes → ℕ → ℕ → List Node → Bool
handshaking ip port cport [] = false
handshaking ip port cport (n ∷ ns) =
    n.in_handshake && bytes_eq n.ip ip && n.port == port && n.cport == cport
    || handshaking ip port cport ns

-- A node as `create_node` makes one for a handshake.
abbrev pub new_node : ℕ → Bytes → ℕ → Node
new_node ref id ctime = record {
  ref = ref;
  id = id;
  ip = [];
  port = 0;
  cport = 0;
  is_master = false;
  is_replica = false;
  in_handshake = false;
  to_meet = false;
  no_addr = false;
  is_pfail = false;
  is_fail = false;
  master_id = [];
  config_epoch = 0;
  slots = λ i. false;
  ctime = ctime;
  ping_sent = 0;
  pong_received = 0;
  fail_time = 0;
  voted_time = 0;
  repl_offset = 0;
  fail_reports = [];
  link = no_link;
  link_ctime = 0;
}

-- `++` of a `uint64_t`.
abbrev pub next_epoch : ℕ → ℕ
next_epoch e = (e + 1) % 2 ^ 64

-- The node's own epoch is the highest, and is not 0.
abbrev pub is_highest : ℕ → ℕ → Bool
is_highest epoch top = not (epoch == 0) && epoch == top

module _ {R : Type 0} where
  unfoldable pub lookup : Cluster R → Bytes → Option Node
  lookup c id = find_id id c.nodes

  unfoldable pub node_at : Cluster R → ℕ → Option Node
  node_at c r = find_ref r c.nodes

  unfoldable pub update : Cluster R → ℕ → (Node → Node) → Cluster R
  update c r f = record c { nodes = update_ref r f c.nodes }

  unfoldable pub save : Cluster R → Cluster R
  save c = record c { todo_save = true }

  unfoldable pub set_slot : ℕ → Option ℕ → Cluster R → Cluster R
  set_slot slot owner c = record c {
    nodes = write_bit true slot owner (write_bit false slot (c.owner slot) c.nodes);
    owner = put c.owner slot owner;
    todo_update_state = true;
  }

  unfoldable pub create_node : Bytes → (Node → Node) → Env → Cluster R → Cluster R
  create_node id f env c = record c {
    nodes = c.nodes ++ f (new_node c.next_ref id env.now) ∷ [];
    next_ref = c.next_ref + 1;
  }

  -- An address that is no address of a node, or one with a handshake under way, is left alone.
  unfoldable pub start_handshake : Bytes → ℕ → ℕ → Env → Cluster R → Cluster R
  unfolding create_node
  start_handshake ip port cport env c =
      if not (env.valid_ipv4 ip) || port == 0 || cport == 0 || handshaking ip port cport c.nodes
      then c
      else create_node (env.new_id c.next_ref)
          (λ n. record n {
            ip = ip;
            port = port;
            cport = cport;
            in_handshake = true;
            to_meet = true;
          })
          env c

  unfoldable pub master_of : Cluster R → Node → Option Node
  unfolding lookup
  master_of c n = if n.is_master then some n else lookup c n.master_id

  unfoldable pub set_node_as_master : ℕ → Cluster R → Cluster R
  unfolding update save
  set_node_as_master r c =
      save (update c r (λ n. record n { is_replica = false; is_master = true; master_id = [] }))

  unfoldable pub max_epoch : Cluster R → ℕ
  unfolding max_config_epoch
  max_epoch c = max_config_epoch c.current_epoch c.nodes

  unfoldable pub config_epoch_of : Cluster R → ℕ → ℕ
  config_epoch_of c r = elim (find_ref r c.nodes) [ none ↦ 0 | some n ↦ n.config_epoch ]

  unfoldable pub bump_epoch_without_consensus : Cluster R → Cluster R × Bool
  unfolding max_epoch update save config_epoch_of
  bump_epoch_without_consensus c =
      let top = max_epoch c in
      let c' = record c { current_epoch = next_epoch top } in
      let c'' = update c' c.myself (λ n. record n { config_epoch = next_epoch top }) in
      if is_highest (config_epoch_of c c.myself) top
      then (c, false)
      else (record (save c'') { todo_broadcast = true }, true)

  unfoldable pub cluster_size : Cluster R → ℕ
  cluster_size c = count_serving c.nodes

  unfoldable pub needed_quorum : Cluster R → ℕ
  unfolding cluster_size
  needed_quorum c = cluster_size c / 2 + 1
