-- ===== src/Cluster/Votes.antt =====
-- src/cluster.cpp: a master votes at most once in an epoch, over failed saves and restarts.
use epochkv.Prelude.{
  ℕ, ◌+◌, ◌≤◌, ◌<◌, ◌≡◌, refl, ◌⊎◌, inl, inr, List, [], ◌∷◌, ◌++◌, Bool, true, false, ◌&&◌, ◌==◌,
  Bool-cases, if◌then◌else◌, arith, Option, none, some,
}
use epochkv.ClusterMsg.{MsgType, failover_auth_ack, Message}
use epochkv.Cluster.{
  Node, Cluster, Env, Replication, Saved, Saving, saved, not_saved, saved_with_error, Dest, to_node,
}
use epochkv.Cluster.Bus.{send, header, is_connected}
use epochkv.Cluster.State.{write_config, save_as, save_config}
use epochkv.Cluster.Nodes.{update}
use epochkv.Cluster.Vote.{
  may_vote_for, grant, note_vote, may_vote, requested_master, send_failover_auth_if_needed,
}

abbrev pub is_ack : MsgType → Bool
is_ack failover_auth_ack = true
is_ack _ = false

-- Whether a message is a vote in the epoch.
abbrev pub is_vote : ℕ → Message → Bool
is_vote e m = is_ack m.type && m.current_epoch == e

-- The votes in the epoch that were sent.
unfoldable pub count_votes : ℕ → List (Dest × Message) → ℕ
count_votes e [] = 0
count_votes e (s ∷ ss) = (if is_vote e (s.1) then 1 else 0) + count_votes e ss

-- A node at `epoch`, with `last` for the last epoch that it voted in, knows of a vote in the epoch `e`:
-- that epoch is over, or is the current one and is marked.
unfoldable pub Remembers : ℕ → ℕ → ℕ → Type 0
Remembers e epoch last = (e < epoch) ⊎ ((e ≡ epoch) × (last ≡ epoch))

-- Of `n` votes in the epoch `e`, with what is in memory and what is on disk.
unfoldable pub SafeAt : ℕ → ℕ → ℕ → ℕ → Saved → Type 0
SafeAt e n epoch last disk =
    (n ≤ 1) × ((n ≡ 0) ⊎ (Remembers e epoch last × Remembers e disk.epoch disk.vote))

pub count_votes-append :
    (e : ℕ)
    → (ss ts : List (Dest × Message))
    → count_votes e (ss ++ ts) ≡ count_votes e ss + count_votes e ts
unfolding count_votes
count_votes-append e [] ts = omega arith
count_votes-append e (s ∷ ss) ts = omega (arith, count_votes-append e ss ts)

-- A vote in the current epoch, saved first.
SafeAt-vote :
    (e n epoch last : ℕ)
    → (disk : Saved) → ((last == epoch) ≡ false)
    → SafeAt e n epoch last disk
    → SafeAt e
        (n + (if epoch == e then 1 else 0))
        epoch
        epoch
        (record { epoch = epoch; vote = epoch })
unfolding SafeAt Remembers
SafeAt-vote e n epoch last disk h s = ground (arith, h, s)

SafeAt-fail :
    (e n epoch last : ℕ)
    → (disk : Saved) → ((last == epoch) ≡ false)
    → SafeAt e n epoch last disk
    → SafeAt e n epoch 0 disk
unfolding SafeAt Remembers
SafeAt-fail e n epoch last disk h s = ground (arith, h, s)

-- Nothing was sent, and the vote may be on disk or not.
SafeAt-marked :
    (e n epoch last : ℕ)
    → (disk : Saved) → ((last == epoch) ≡ false)
    → SafeAt e n epoch last disk
    → SafeAt e n epoch epoch (record { epoch = epoch; vote = epoch })
unfolding SafeAt Remembers
SafeAt-marked e n epoch last disk h s = ground (arith, h, s)

SafeAt-unmarked :
    (e n epoch last : ℕ)
    → (disk : Saved) → ((last == epoch) ≡ false)
    → SafeAt e n epoch last disk
    → SafeAt e n epoch 0 (record { epoch = epoch; vote = epoch })
unfolding SafeAt Remembers
SafeAt-unmarked e n epoch last disk h s = ground (arith, h, s)

SafeAt-save :
    (e n epoch last : ℕ)
    → (disk : Saved) → SafeAt e n epoch last disk
    → SafeAt e n epoch last (record { epoch = epoch; vote = last })
unfolding SafeAt Remembers
SafeAt-save e n epoch last disk s = ground (arith, s)

pub SafeAt-raise :
    (e n epoch epoch' last : ℕ)
    → (disk : Saved) → epoch ≤ epoch'
    → SafeAt e n epoch last disk
    → SafeAt e n epoch' last disk
unfolding SafeAt Remembers
SafeAt-raise e n epoch epoch' last disk h s = ground (arith, h, s)

count_votes-ack :
    (e : ℕ)
    → (ss : List (Dest × Message)) → (d : Dest) → (m : Message) → (is_ack m.type ≡ true)
    → count_votes e (ss ++ (d, m) ∷ []) ≡ count_votes e ss + (if m.current_epoch == e then 1 else 0)
unfolding count_votes
count_votes-ack e ss d m h = ground (arith, count_votes-append e ss ((d, m) ∷ []), h)

module _ {R : Type 0} where
  -- In no epoch were two votes sent, and every vote that was sent is known in memory and on disk.
  unfoldable pub SafeVotes : Cluster R → Type 0
  SafeVotes c = (e : ℕ) → SafeAt e (count_votes e c.sent) c.current_epoch c.last_vote_epoch c.disk

  unfoldable pub noted : Cluster R → ℕ → (Node → Node) → Cluster R
  noted c r f = update (record c { last_vote_epoch = c.current_epoch }) r f

  may_vote-is_fresh :
      (c : Cluster R)
      → (env : Env) → (requester : Node) → (request : Message)
      → (may_vote c env requester request ≡ true)
      → (c.last_vote_epoch == c.current_epoch) ≡ false
  unfolding may_vote
  may_vote-is_fresh c env requester request h = ground (arith, h)

  may_vote-may_vote_for :
      (c : Cluster R)
      → (env : Env) → (requester : Node) → (request : Message)
      → (may_vote c env requester request ≡ true)
      → may_vote_for c env request (requested_master c requester) ≡ true
  unfolding may_vote
  may_vote-may_vote_for c env requester request h = ground (arith, h)

  grant-SafeVotes :
      (rep : Replication R)
      → (requester : Node) → (s : Saving) → (c : Cluster R) → (r : ℕ) → (f : Node → Node)
      → ((c.last_vote_epoch == c.current_epoch) ≡ false)
      → SafeVotes c
      → SafeVotes (grant rep requester (save_as s (noted c r f)))
  unfolding grant save_as noted update send header SafeVotes
  grant-SafeVotes rep requester saved c r f h safe =
      elim (Bool-cases (is_connected requester.link)) [
        | inl e ↦ rw e (λ i.
            rw
              (count_votes-ack i c.sent (to_node requester.ref)
                (header rep failover_auth_ack (write_config (noted c r f))) refl)
              (SafeAt-vote i (count_votes i c.sent) c.current_epoch c.last_vote_epoch c.disk h
                (safe i)))
        | inr e ↦ rw e (λ i.
            SafeAt-marked i (count_votes i c.sent) c.current_epoch c.last_vote_epoch c.disk h
              (safe i))
      ]
  grant-SafeVotes rep requester not_saved c r f h safe =
      λ i. SafeAt-fail i (count_votes i c.sent) c.current_epoch c.last_vote_epoch c.disk h (safe i)
  grant-SafeVotes rep requester saved_with_error c r f h safe = λ i.
      SafeAt-unmarked i (count_votes i c.sent) c.current_epoch c.last_vote_epoch c.disk h (safe i)

  granted-SafeVotes :
      (rep : Replication R)
      → (requester : Node) → (request : Message) → (env : Env) → (c : Cluster R)
      → (master : Option Node) → (may_vote_for c env request master ≡ true)
      → ((c.last_vote_epoch == c.current_epoch) ≡ false)
      → SafeVotes c
      → SafeVotes (grant rep requester (save_config env (note_vote c env master)))
  unfolding may_vote_for note_vote save_config noted
  granted-SafeVotes rep requester request env c none h fresh safe = absurd (ground (arith, h))
  granted-SafeVotes rep requester request env c (some master) h fresh safe =
      grant-SafeVotes rep requester env.saving c master.ref (λ n. record n { voted_time = env.now })
        fresh safe

  pub send_failover_auth_if_needed-SafeVotes :
      (rep : Replication R)
      → (requester : Node) → (request : Message) → (env : Env) → (c : Cluster R) → SafeVotes c
      → SafeVotes (send_failover_auth_if_needed rep requester request env c)
  unfolding send_failover_auth_if_needed
  send_failover_auth_if_needed-SafeVotes rep requester request env c safe =
      elim (Bool-cases (may_vote c env requester request)) [
        | inl e ↦ rw e (
            granted-SafeVotes rep requester request env c (requested_master c requester)
              (may_vote-may_vote_for c env requester request e)
              (may_vote-is_fresh c env requester request e) safe)
        | inr e ↦ rw e safe
      ]

  pub save_as-SafeVotes : (s : Saving) → (c : Cluster R) → SafeVotes c → SafeVotes (save_as s c).0
  unfolding save_as SafeVotes
  save_as-SafeVotes saved c safe =
      λ e. SafeAt-save e (count_votes e c.sent) c.current_epoch c.last_vote_epoch c.disk (safe e)
  save_as-SafeVotes not_saved c safe = safe
  save_as-SafeVotes saved_with_error c safe =
      λ e. SafeAt-save e (count_votes e c.sent) c.current_epoch c.last_vote_epoch c.disk (safe e)
