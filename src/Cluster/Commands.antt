-- ===== src/Cluster/Commands.antt =====
-- src/cluster.cpp: the CLUSTER command.
use epochkv.Prelude.{
  ℕ, ◌+◌, ◌^◌, ◌-◌, max, List, [], ◌∷◌, ◌++◌, Option, none, some, Bool, true, false, not, ◌&&◌,
  ◌||◌, Bytes, ◌==◌, ltb, leb, str, bytes_eq, if◌then◌else◌, length,
}
use epochkv.Prelude.Int.{pos, negsuc}
use epochkv.Prelude.Decimal.{to_string_ℕ}
use epochkv.HashTable
use epochkv.ClusterMsg.{mf_start}
use epochkv.Dispatcher.{unsigned_value, parse_int64, to_upper}
use epochkv.Reply
use epochkv.Store.Reclaim.{count_keys_in_slot, keys_in_slot}
use epochkv.Cluster.{Node, Cluster, Env, Replication, to_node}
use epochkv.Cluster.Nodes.{
  has_slots, lookup, update, start_handshake, config_epoch_of, bump_epoch_without_consensus,
}
use epochkv.Cluster.Bus.{self, header, send, is_connected}
use epochkv.Cluster.State.{save_config, reset_manual_failover, manual_failover_timeout}
use epochkv.Cluster.Config.{set_as_replica_of}
use epochkv.Cluster.Failure.{count_fail_reports}
use epochkv.Cluster.Membership.{put_report, del_node}
use epochkv.Cluster.Election.{failover_replace_master}
use epochkv.Cluster.SlotCommands.{parse_slot, saved_ok}

abbrev pub blacklist_ttl : ℕ
blacklist_ttl = 60000

-- A port of 1 to 65535.
unfoldable pub parse_port : Bytes → Option ℕ
parse_port s = elim (parse_int64 s) [
  | none ↦ none
  | some z ↦ elim z [ pos n ↦ if ltb 0 n && leb n 65535 then some n else none | negsuc n ↦ none ]
]

-- The bus port: the argument, or 10000 above the port.
unfoldable pub bus_port : ℕ → List Bytes → Option ℕ
unfolding parse_port
bus_port port [] = if leb (port + 10000) 65535 then some (port + 10000) else none
bus_port port (arg ∷ args) = parse_port arg

unfoldable pub parse_count : Bytes → Option ℕ
parse_count s = elim (parse_int64 s) [
  | none ↦ none
  | some z ↦ elim z [ pos n ↦ some n | negsuc n ↦ none ]
]

module _ {R : Type 0} where
  abbrev pub fails : Bytes → Bytes → Cluster R → Cluster R × Bytes
  fails out err c = (c, Reply.error out err)

  abbrev pub succeeds : Bytes → Cluster R → Cluster R × Bytes
  succeeds out c = (c, Reply.simple_string out (str "OK"))

  unfoldable pub cmd_meet : Bytes → Bytes → List Bytes → Bytes → Env → Cluster R → Cluster R × Bytes
  unfolding parse_port bus_port
  cmd_meet ip port args out env c = elim (parse_port port) [
    | none ↦ fails out (str "ERR Invalid base port specified: " ++ port) c
    | some p ↦ elim (bus_port p args) [
      | none ↦ fails out (str "ERR Invalid base port specified: " ++ port) c
      | some cport ↦
          if not (env.valid_ipv4 ip)
          then fails out (str "ERR Invalid node address specified: " ++ ip ++ str ":" ++ port) c
          else succeeds out (start_handshake ip p cport env c)
    ]
  ]

  unfoldable pub count_failure_reports : Bytes → Bytes → Env → Cluster R → Cluster R × Bytes
  count_failure_reports id out env c = elim (lookup c id) [
    | none ↦ fails out (str "ERR Unknown node " ++ id) c
    | some n ↦
        let (c', count) = count_fail_reports n.ref env c in (c', Reply.integer out (pos count))
  ]

  -- `nodes_.size() > 1`
  abbrev pub knows_others : Cluster R → Bool
  knows_others c = ltb 1 (length c.nodes)

  unfoldable pub set_config_epoch : Bytes → Bytes → Cluster R → Cluster R × Bytes
  set_config_epoch arg out c = elim (unsigned_value (2 ^ 64 - 1) arg) [
    | none ↦ fails out (str "ERR Invalid config epoch specified: " ++ arg) c
    | some epoch ↦
        if knows_others c
        then fails out
            (str
              "ERR The user can assign a config epoch only when the node does not know any other node.")
            c
        else if not ((self c).config_epoch == 0)
        then fails out (str "ERR Node config epoch is already non-zero") c
        else saved_ok out (record (update c c.myself (λ n. record n { config_epoch = epoch })) {
          current_epoch = max c.current_epoch epoch;
        })
  ]

  unfoldable pub bump_epoch : Bytes → Cluster R → Cluster R × Bytes
  bump_epoch out c =
      let (c', bumped) = bump_epoch_without_consensus c in
      (
        c',
        Reply.simple_string out (
            (if bumped then str "BUMPED " else str "STILL ")
            ++ to_string_ℕ (config_epoch_of c' c'.myself)),
      )

  -- `why` is what the system says of the error.
  unfoldable pub cmd_saveconfig : Bytes → Bytes → Env → Cluster R → Cluster R × Bytes
  cmd_saveconfig why out env c =
      let (c', saved) = save_config env c in
      if saved
      then succeeds out c'
      else fails out (str "ERR error saving the cluster node config: " ++ why) c'

  unfoldable pub get_keys_in_slot : Bytes → Bytes → Bytes → Cluster R → Bytes
  get_keys_in_slot slot count out c = elim (parse_slot slot) [
    | none ↦ Reply.error out (str "ERR Invalid slot or number of keys")
    | some s ↦ elim (parse_count count) [
      | none ↦ Reply.error out (str "ERR Invalid slot or number of keys")
      | some n ↦ Reply.command out (keys_in_slot c.store s n)
    ]
  ]

  unfoldable pub count_keys : Bytes → Bytes → Cluster R → Bytes
  count_keys slot out c = elim (parse_slot slot) [
    | none ↦ Reply.error out (str "ERR Invalid slot")
    | some s ↦ Reply.integer out (pos (count_keys_in_slot c.store s))
  ]

-- The arguments of CLUSTER FAILOVER.
pub data Way : Type 0 where
  normal forced takeover : Way

unfoldable pub parse_way : List Bytes → Option Way
parse_way [] = some normal
parse_way (opt ∷ opts) =
    if bytes_eq (to_upper opt) (str "FORCE")
    then some forced
    else if bytes_eq (to_upper opt) (str "TAKEOVER")
    then some takeover
    else none

abbrev pub is_down : Way → Node → Bool
is_down normal master = master.is_fail || not (is_connected master.link)
is_down _ master = false

module _ {R : Type 0} (rep : Replication R) where
  unfoldable pub cmd_replicate : Bytes → Bytes → Cluster R → Cluster R × Bytes
  cmd_replicate id out c =
      let me = self c in
      elim (lookup c id) [
        | none ↦ fails out (str "ERR Unknown node " ++ id) c
        | some n ↦
            if n.in_handshake
            then fails out (str "ERR Unknown node " ++ id) c
            else if n.ref == c.myself
            then fails out (str "ERR Can't replicate myself") c
            else if n.is_replica
            then fails out (str "ERR I can only replicate a master, not a replica.") c
            else if me.is_master && (has_slots me || not (HashTable.size c.store.dict == 0))
            then fails out
                (str "ERR To set a master the node must be empty and without assigned slots.") c
            else succeeds out (set_as_replica_of rep n.id c)
      ]

  unfoldable pub cmd_forget : Bytes → Bytes → Env → Cluster R → Cluster R × Bytes
  cmd_forget id out env c =
      let me = self c in
      elim (lookup c id) [
        | none ↦ fails out (str "ERR Unknown node " ++ id) c
        | some n ↦
            if n.ref == c.myself
            then fails out (str "ERR I tried hard but I can't forget myself...") c
            else if me.is_replica && bytes_eq me.master_id n.id
            then fails out (str "ERR Can't forget my master!") c
            else succeeds out (
                del_node rep n
                  (record c { blacklist = put_report n.id (env.now + blacklist_ttl) c.blacklist }))
      ]

  unfoldable pub start_failover : Way → Node → Env → Cluster R → Cluster R
  start_failover normal master env c =
      send (to_node master.ref) (header rep mf_start c) (record c { failover_auth_time = none })
  start_failover forced master env c = record c {
    mf_can_start = true;
    failover_auth_time = none;
    todo_handle_failover = true;
  }
  start_failover takeover master env c =
      failover_replace_master rep env (bump_epoch_without_consensus c).0

  unfoldable pub cmd_failover : List Bytes → Bytes → Env → Cluster R → Cluster R × Bytes
  unfolding start_failover parse_way
  cmd_failover args out env c =
      let c' = record (reset_manual_failover rep c) {
        mf_end = some (env.now + manual_failover_timeout);
      } in
      elim (parse_way args) [
        | none ↦ fails out (str "ERR syntax error") c
        | some way ↦
            if (self c).is_master
            then fails out (str "ERR You should send CLUSTER FAILOVER to a replica") c
            else elim (lookup c (self c).master_id) [
              | none ↦ fails out (str "ERR I'm a replica but my master is unknown to me") c
              | some master ↦
                  if is_down way master
                  then fails out
                      (str "ERR Master is down or failed, please use CLUSTER FAILOVER FORCE") c
                  else succeeds out (start_failover way master env c')
            ]
      ]
