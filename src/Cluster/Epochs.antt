-- ===== src/Cluster/Epochs.antt =====
-- src/cluster.cpp: the operations that write the epochs, the last vote or nodes.conf, or send a vote, in
-- any order.
use epochkv.Prelude.{
  ℕ, ◌+◌, ◌^◌, ◌≤◌, ◌<◌, ◌≡◌, refl, max, List, [], ◌∷◌, Bool, true, false, not, ◌&&◌, ◌||◌, ◌==◌,
  ltb, Bool-cases, inl, inr, arith,
}
use epochkv.ClusterMsg.{failover_auth_request, Message}
use epochkv.Cluster.{Node, Cluster, Replication, Dest, to_node, is_null}
use epochkv.Cluster.Nodes.{
  is_highest, config_epoch_of, update, save, next_epoch, max_epoch, max_config_epoch,
  bump_epoch_without_consensus,
}
use epochkv.Cluster.Bus.{send, header, broadcast, broadcast_loop, usable, self}
use epochkv.Cluster.Config.{bytes_lt, handle_epoch_collision}
use epochkv.Cluster.Handlers.{raise_epoch}
use epochkv.Cluster.Election.{ask_anyway, start_election, request_failover_auth}
use epochkv.Cluster.Votes.{is_ack, count_votes, count_votes-append, SafeAt-raise, SafeVotes}

-- A counter that does not wrap around.
next_epoch-grows : (e : ℕ) → e + 1 < 2 ^ 64 → e ≤ next_epoch e
next_epoch-grows e h = omega (arith, h)

max_config_epoch-grows : (m : ℕ) → (ns : List Node) → m ≤ max_config_epoch m ns
unfolding max_config_epoch
max_config_epoch-grows m [] = omega arith
max_config_epoch-grows m (n ∷ ns) = omega (arith, max_config_epoch-grows (max m n.config_epoch) ns)

is_ack-ask_anyway :
    (b : Bool) → (m : Message) → (is_ack m.type ≡ false) → is_ack (ask_anyway b m).type ≡ false
unfolding ask_anyway
is_ack-ask_anyway false m h = h
is_ack-ask_anyway true m h = h

module _ {R : Type 0} where
  -- The node knows what it knew, may be in a later epoch, and sent no vote.
  pub record Quiet (c c' : Cluster R) : Type 0 where
    pub epoch_grows : c.current_epoch ≤ c'.current_epoch
    pub same_vote : c'.last_vote_epoch ≡ c.last_vote_epoch
    pub same_disk : c'.disk ≡ c.disk
    pub same_sent : (e : ℕ) → count_votes e c'.sent ≡ count_votes e c.sent

  pub Quiet-SafeVotes : (c c' : Cluster R) → Quiet c c' → SafeVotes c → SafeVotes c'
  unfolding SafeVotes
  Quiet-SafeVotes c c' q safe = λ e.
      rw (q.same_sent e, q.same_vote, q.same_disk)
        (SafeAt-raise e (count_votes e c.sent) c.current_epoch c'.current_epoch c.last_vote_epoch
          c.disk q.epoch_grows (safe e))

  Quiet-trans : {c c' c'' : Cluster R} → Quiet c c' → Quiet c' c'' → Quiet c c''
  Quiet-trans q q' = record {
    epoch_grows = omega (arith, q.epoch_grows, q'.epoch_grows);
    same_vote = rw (q'.same_vote) q.same_vote;
    same_disk = rw (q'.same_disk) q.same_disk;
    same_sent = λ e. rw (q'.same_sent e) (q.same_sent e);
  }

  send-Quiet :
      (d : Dest) → (m : Message) → (is_ack m.type ≡ false) → (c : Cluster R) → Quiet c (send d m c)
  unfolding send count_votes
  send-Quiet d m h c = record {
    epoch_grows = omega arith;
    same_vote = refl;
    same_disk = refl;
    same_sent = λ e. ground (arith, count_votes-append e c.sent ((d, m) ∷ []), h);
  }

  Quiet-refl : (c : Cluster R) → Quiet c c
  Quiet-refl c = record {
    epoch_grows = omega arith;
    same_vote = refl;
    same_disk = refl;
    same_sent = λ e. refl;
  }

  broadcast_loop-Quiet :
      (rep : Replication R)
      → (ns : List Node) → (m : Message) → (is_ack m.type ≡ false)
      → (c : Cluster R) → Quiet c (broadcast_loop rep ns m c)
  unfolding broadcast_loop
  broadcast_loop-Quiet rep [] m h c = Quiet-refl c
  broadcast_loop-Quiet rep (n ∷ ns) m h c =
      elim (Bool-cases (not (n.ref == c.myself) && usable n)) [
        | inl e ↦ rw e (
            Quiet-trans (send-Quiet (to_node n.ref) m h c)
              (broadcast_loop-Quiet rep ns m h (send (to_node n.ref) m c)))
        | inr e ↦ rw e (broadcast_loop-Quiet rep ns m h c)
      ]

  pub raise_epoch-Quiet : (epoch : ℕ) → (c : Cluster R) → Quiet c (raise_epoch epoch c)
  unfolding raise_epoch save
  raise_epoch-Quiet epoch c = elim (Bool-cases (ltb c.current_epoch epoch)) [
    | inl e ↦ rw e (record {
      epoch_grows = ground (arith, e);
      same_vote = refl;
      same_disk = refl;
      same_sent = λ i. refl;
    })
    | inr e ↦ rw e (Quiet-refl c)
  ]

  abbrev pub campaign : Cluster R → Cluster R
  campaign c = record c {
    current_epoch = next_epoch c.current_epoch;
    failover_auth_epoch = next_epoch c.current_epoch;
  }

  campaigned-Quiet :
      (rep : Replication R)
      → (m : Message) → (is_ack m.type ≡ false)
      → (c : Cluster R) → c.current_epoch + 1 < 2 ^ 64
      → Quiet c (record (broadcast_loop rep c.nodes m (campaign c)) {
        failover_auth_sent = true;
        todo_update_state = true;
        todo_save = true;
      })
  campaigned-Quiet rep m t c h =
      let q = broadcast_loop-Quiet rep c.nodes m t (campaign c) in
      record {
        epoch_grows = omega (arith, q.epoch_grows, next_epoch-grows c.current_epoch h);
        same_vote = q.same_vote;
        same_disk = q.same_disk;
        same_sent = q.same_sent;
      }

  pub start_election-Quiet :
      (rep : Replication R)
      → (c : Cluster R) → c.current_epoch + 1 < 2 ^ 64
      → Quiet c (start_election rep c)
  unfolding start_election request_failover_auth broadcast save header
  start_election-Quiet rep c h =
      let m = ask_anyway (not (is_null c.mf_end)) (header rep failover_auth_request (campaign c)) in
      campaigned-Quiet rep m
        (is_ack-ask_anyway (not (is_null c.mf_end)) (header rep failover_auth_request (campaign c))
          refl)
        c h

  pub handle_epoch_collision-Quiet :
      (sender : Node)
      → (c : Cluster R) → c.current_epoch + 1 < 2 ^ 64
      → Quiet c (handle_epoch_collision sender c)
  unfolding handle_epoch_collision update save
  handle_epoch_collision-Quiet sender c h =
      elim (Bool-cases (
        not sender.is_master
        || not (self c).is_master
        || not (sender.config_epoch == (self c).config_epoch))) [
          | inl e ↦ rw e (Quiet-refl c)
          | inr e ↦ rw e (elim (Bool-cases (bytes_lt (self c).id sender.id)) [
            | inl l ↦ rw l (record {
              epoch_grows = next_epoch-grows c.current_epoch h;
              same_vote = refl;
              same_disk = refl;
              same_sent = λ i. refl;
            })
            | inr l ↦ rw l (Quiet-refl c)
          ])
        ]

  max_epoch-grows : (c : Cluster R) → c.current_epoch ≤ max_epoch c
  unfolding max_epoch
  max_epoch-grows c = max_config_epoch-grows c.current_epoch c.nodes

  pub bump_epoch_without_consensus-Quiet :
      (c : Cluster R) → max_epoch c + 1 < 2 ^ 64 → Quiet c (bump_epoch_without_consensus c).0
  unfolding bump_epoch_without_consensus update save
  bump_epoch_without_consensus-Quiet c h =
      elim (Bool-cases (is_highest (config_epoch_of c c.myself) (max_epoch c))) [
        | inl e ↦ rw e (Quiet-refl c)
        | inr e ↦ rw e (record {
          epoch_grows = top;
          same_vote = refl;
          same_disk = refl;
          same_sent = λ i. refl;
        })
      ]
    where
      top : c.current_epoch ≤ next_epoch (max_epoch c)
      top = omega (arith, next_epoch-grows (max_epoch c) h, max_epoch-grows c)
