-- ===== src/Cluster/Cron.antt =====
-- src/cluster.cpp: what a node does by itself, on a timer and before it waits for events.
use epochkv.Prelude.{
  ℕ, ◌-◌, ◌/◌, ◌%◌, max, List, [], ◌∷◌, Option, none, some, Bool, false, not, ◌&&◌, ◌||◌, Bytes,
  ◌==◌, ltb, leb, if◌then◌else◌, take,
}
use epochkv.ClusterMsg.{ping}
use epochkv.Cluster.{
  Node, Cluster, Env, Replication, no_link, connecting, connected, to_node, is_null,
}
use epochkv.Cluster.Nodes
use epochkv.Cluster.Nodes.{node_at, find_ref, next_epoch}
use epochkv.Cluster.Bus.{self, usable, send_ping, broadcast_pong}
use epochkv.Cluster.State.{update_state, save_config}
use epochkv.Cluster.Config.{follow_master}
use epochkv.Cluster.Failure.{detect_failures}
use epochkv.Cluster.Membership.{free_link, del_node}
use epochkv.Cluster.Election.{
  handle_replica_failover, handle_manual_failover, manual_failover_check_timeout,
}

abbrev pub handshake_timeout : ℕ → ℕ
handshake_timeout node_timeout = max node_timeout 1000

abbrev pub random_ping_every : ℕ
random_ping_every = 10

abbrev pub random_ping_sample : ℕ
random_ping_sample = 5

-- A handshake that took too long.
unfoldable pub is_expired : ℕ → ℕ → ℕ → Node → Bool
is_expired me timeout now n =
    not (n.ref == me || n.no_addr) && n.in_handshake && ltb timeout (now - n.ctime)

unfoldable pub expired_nodes : ℕ → ℕ → ℕ → List Node → List Node
unfolding is_expired
expired_nodes me timeout now [] = []
expired_nodes me timeout now (n ∷ ns) =
    let rest = expired_nodes me timeout now ns in
    if is_expired me timeout now n then n ∷ rest else rest

unfoldable pub drop_bans : ℕ → List (Bytes × ℕ) → List (Bytes × ℕ)
drop_bans now [] = []
drop_bans now (b ∷ bs) = let rest = drop_bans now bs in if leb (b.1) now then rest else b ∷ rest

-- The nodes that may get a PING.
unfoldable pub ping_pool : ℕ → List Node → List Node
unfolding usable
ping_pool me [] = []
ping_pool me (n ∷ ns) =
    let rest = ping_pool me ns in
    if not (n.ref == me) && usable n && n.ping_sent == 0 then n ∷ rest else rest

-- `std::min_element` by the time of the last PONG, in front of which `best` was the least.
unfoldable pub oldest_of : Node → List Node → Node
oldest_of best [] = best
oldest_of best (n ∷ ns) = oldest_of (if ltb n.pong_received best.pong_received then n else best) ns

module _ {R : Type 0} where
  -- A connection counts the wait for a PONG from now.
  unfoldable pub connect_link : Node → Env → Cluster R → Cluster R
  connect_link n env c =
      let waits = n.ping_sent == 0 && not n.in_handshake in
      let begins = env.connects n.ref in
      if not (env.valid_ipv4 n.ip)
      then c
      else Nodes.update c n.ref (λ n'. record n' {
        ping_sent = if waits then env.now else n'.ping_sent;
        link = if begins then connecting else n'.link;
        link_ctime = if begins then env.now else n'.link_ctime;
      })

  unfoldable pub tend_link : Node → Env → Cluster R → Cluster R
  unfolding connect_link is_expired
  tend_link n env c =
      let expired = is_expired c.myself (handshake_timeout c.options.node_timeout) env.now n in
      if n.ref == c.myself || n.no_addr || expired then c else elim n.link [
        | no_link ↦ connect_link n env c
        | connecting ↦
            if ltb c.options.node_timeout (env.now - n.link_ctime) then free_link n.ref c else c
        | connected ↦ c
      ]

  unfoldable pub tend_links : List Node → Env → Cluster R → Cluster R
  unfolding tend_link
  tend_links [] env c = c
  tend_links (n ∷ ns) env c = tend_links ns env (tend_link n env c)

module _ {R : Type 0} (rep : Replication R) where
  unfoldable pub del_nodes : List Node → Cluster R → Cluster R
  del_nodes [] c = c
  del_nodes (n ∷ ns) c = del_nodes ns (del_node rep n c)

  unfoldable pub ping_node : Node → Env → Cluster R → Cluster R
  ping_node n env c = send_ping rep (to_node n.ref) (some n.ref) ping env c

  unfoldable pub ping_oldest : List Node → Env → Cluster R → Cluster R
  unfolding ping_node oldest_of
  ping_oldest [] env c = c
  ping_oldest (n ∷ ns) env c = ping_node (oldest_of n ns) env c

  -- Every tenth time, some node gets a PING.
  unfoldable pub ping_random : Env → Cluster R → Cluster R
  unfolding ping_pool ping_oldest
  ping_random env c =
      if c.cron_iterations % random_ping_every == 0
      then ping_oldest (take random_ping_sample (env.shuffle (ping_pool c.myself c.nodes))) env c
      else c

  -- A link that may be stuck is closed, and a node that was not heard of for long gets a PING.
  unfoldable pub ping_stale : Node → Env → Cluster R → Cluster R
  unfolding ping_node
  ping_stale n env c =
      let half = c.options.node_timeout / 2 in
      if n.ref == c.myself || not (usable n)
      then c
      else if not (n.ping_sent == 0)
      then (if ltb half (env.now - n.ping_sent)
            && ltb c.options.node_timeout (env.now - n.link_ctime)
          then free_link n.ref c
          else c)
      else if ltb half (env.now - n.pong_received)
      then ping_node n env c
      else c

  unfoldable pub ping_all_stale : List Node → Env → Cluster R → Cluster R
  unfolding ping_stale
  ping_all_stale [] env c = c
  ping_all_stale (n ∷ ns) env c = ping_all_stale ns env (ping_stale n env c)

  -- The replica of a failover by hand is told the final offset again.
  unfoldable pub tell_mf_replica : Env → Cluster R → Cluster R
  unfolding ping_node
  tell_mf_replica env c =
      let replica : Option Node = elim c.mf_replica [ none ↦ none | some r ↦ node_at c r ] in
      if (self c).is_master && not (is_null c.mf_end)
      then elim replica [ none ↦ c | some n ↦ if usable n then ping_node n env c else c ]
      else c

  unfoldable pub run_failovers : Env → Cluster R → Cluster R
  run_failovers env c =
      if (self c).is_replica
      then handle_replica_failover rep env (handle_manual_failover rep c)
      else c

  unfoldable pub cron : Env → Cluster R → Cluster R
  unfolding tend_links expired_nodes del_nodes drop_bans ping_random ping_all_stale tell_mf_replica
      run_failovers
  cron env c =
      let c1 = record c { cron_iterations = next_epoch c.cron_iterations } in
      let timeout = handshake_timeout c.options.node_timeout in
      let c2 =
        del_nodes (expired_nodes c.myself timeout env.now c.nodes) (tend_links c.nodes env c1) in
      let c3 = ping_random env (record c2 { blacklist = drop_bans env.now c2.blacklist }) in
      let c4 = detect_failures rep env (ping_all_stale c3.nodes env c3) in
      let c5 = manual_failover_check_timeout rep env (tell_mf_replica env c4) in
      if not c.has_host then c else update_state env (follow_master rep (run_failovers env c5))

  -- What was put off during the round of the event loop.
  unfoldable pub before_sleep : Env → Cluster R → Cluster R
  before_sleep env c =
      let c1 =
        if c.todo_handle_manual_failover && c.has_host then handle_manual_failover rep c else c in
      let c2 =
        if c1.todo_handle_failover && c1.has_host then handle_replica_failover rep env c1 else c1 in
      let c3 = if c2.todo_update_state then update_state env c2 else c2 in
      let c4 =
        if c3.todo_broadcast && c3.has_host
        then broadcast_pong rep env (record c3 { todo_broadcast = false })
        else c3 in
      if c4.todo_save then (save_config env (record c4 { todo_save = false })).0 else c4
