-- ===== src/Cluster/OneVote.antt =====
-- src/cluster.cpp: all orders of the operations that write the epochs, the last vote or nodes.conf, or
-- send a vote, with restarts between them.
use epochkv.Prelude.{ℕ, ◌+◌, ◌^◌, ◌≤◌, ◌<◌, ◌≡◌, refl, inl, inr, [], arith}
use epochkv.ClusterMsg.{Message}
use epochkv.Cluster.{Node, Cluster, Env, Replication}
use epochkv.Cluster.Nodes.{max_epoch, bump_epoch_without_consensus}
use epochkv.Cluster.State.{save_config}
use epochkv.Cluster.Config.{handle_epoch_collision}
use epochkv.Cluster.Handlers.{raise_epoch}
use epochkv.Cluster.Election.{start_election}
use epochkv.Cluster.Vote.{send_failover_auth_if_needed}
use epochkv.Cluster.Votes.{
  count_votes, SafeAt, SafeVotes, save_as-SafeVotes, send_failover_auth_if_needed-SafeVotes,
}
use epochkv.Cluster.Epochs.{
  Quiet, Quiet-SafeVotes, raise_epoch-Quiet, start_election-Quiet, handle_epoch_collision-Quiet,
  bump_epoch_without_consensus-Quiet,
}

module _ {R : Type 0} where
  -- `ask` is a request for a vote, and `restart` a start from nodes.conf. What `other` does keeps the last
  -- vote and nodes.conf, lowers no epoch and sends no vote. The epoch counter does not wrap around.
  pub data Step (rep : Replication R) (c : Cluster R) : Cluster R → Type 0 where
    ask :
        (requester : Node) (request : Message) (env : Env)
        → Step rep c (send_failover_auth_if_needed rep requester request env c)
    write : (env : Env) → Step rep c (save_config env c).0
    learn : (epoch : ℕ) → Step rep c (raise_epoch epoch c)
    campaign : c.current_epoch + 1 < 2 ^ 64 → Step rep c (start_election rep c)
    collide :
        (sender : Node)
        → c.current_epoch + 1 < 2 ^ 64
        → Step rep c (handle_epoch_collision sender c)
    bump : max_epoch c + 1 < 2 ^ 64 → Step rep c (bump_epoch_without_consensus c).0
    other : {c' : Cluster R} → Quiet c c' → Step rep c c'
    restart :
        {c' : Cluster R}
        → c'.current_epoch ≡ c.disk.epoch
        → c'.last_vote_epoch ≡ c.disk.vote
        → c'.disk ≡ c.disk
        → c'.sent ≡ c.sent
        → Step rep c c'

  -- From a node that sent nothing.
  pub data Reach (rep : Replication R) : Cluster R → Type 0 where
    start : {c : Cluster R} → c.sent ≡ [] → Reach rep c
    later : {c c' : Cluster R} → Reach rep c → Step rep c c' → Reach rep c'

  start-SafeVotes : (c : Cluster R) → c.sent ≡ [] → SafeVotes c
  unfolding SafeVotes SafeAt count_votes
  start-SafeVotes c h = λ e. rw h (omega arith, inl refl)

  restart-SafeVotes :
      (c c' : Cluster R)
      → c'.current_epoch ≡ c.disk.epoch
      → c'.last_vote_epoch ≡ c.disk.vote
      → c'.disk ≡ c.disk
      → c'.sent ≡ c.sent
      → SafeVotes c
      → SafeVotes c'
  unfolding SafeVotes SafeAt
  restart-SafeVotes c c' epoch vote disk sent safe =
      λ e. rw (epoch, vote, disk, sent) (restarted e (safe e))
    where
      restarted :
          (e : ℕ)
          → SafeAt e (count_votes e c.sent) c.current_epoch c.last_vote_epoch c.disk
          → SafeAt e (count_votes e c.sent) c.disk.epoch c.disk.vote c.disk
      restarted e (one, inl h) = (one, inl h)
      restarted e (one, inr (m, d)) = (one, inr (d, d))

  Step-SafeVotes :
      {rep : Replication R} {c c' : Cluster R} → Step rep c c' → SafeVotes c → SafeVotes c'
  unfolding save_config
  Step-SafeVotes {rep} {c} (ask requester request env) safe =
      send_failover_auth_if_needed-SafeVotes rep requester request env c safe
  Step-SafeVotes {c} (write env) safe = save_as-SafeVotes env.saving c safe
  Step-SafeVotes {c} (learn epoch) safe =
      Quiet-SafeVotes c (raise_epoch epoch c) (raise_epoch-Quiet epoch c) safe
  Step-SafeVotes {rep} {c} (campaign h) safe =
      Quiet-SafeVotes c (start_election rep c) (start_election-Quiet rep c h) safe
  Step-SafeVotes {c} (collide sender h) safe =
      Quiet-SafeVotes c (handle_epoch_collision sender c) (handle_epoch_collision-Quiet sender c h)
        safe
  Step-SafeVotes {c} (bump h) safe =
      Quiet-SafeVotes c (bump_epoch_without_consensus c).0 (bump_epoch_without_consensus-Quiet c h)
        safe
  Step-SafeVotes {c} {c'} (other quiet) safe = Quiet-SafeVotes c c' quiet safe
  Step-SafeVotes {c} {c'} (restart epoch vote disk sent) safe =
      restart-SafeVotes c c' epoch vote disk sent safe

  Reach-SafeVotes : {rep : Replication R} {c : Cluster R} → Reach rep c → SafeVotes c
  Reach-SafeVotes {c} (start h) = start-SafeVotes c h
  Reach-SafeVotes (later r step) = Step-SafeVotes step (Reach-SafeVotes r)

  -- However requests for votes, saves that work or fail, learned epochs, elections, collisions, bumps and
  -- restarts follow each other, with steps between them that keep the last vote and nodes.conf, lower no
  -- epoch and send no vote, a node that had sent nothing has sent at most one vote in every epoch. An
  -- election, collision or bump is a step only while the epoch counter does not wrap around.
  pub Reach-one_vote :
      (rep : Replication R)
      → (c : Cluster R) → Reach rep c
      → (epoch : ℕ) → count_votes epoch c.sent ≤ 1
  unfolding SafeVotes SafeAt
  Reach-one_vote rep c r epoch = (Reach-SafeVotes r epoch).0
