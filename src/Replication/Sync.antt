-- ===== src/Replication/Sync.antt =====
-- src/replication.cpp, `try_partial_resync`: what a replica that comes back gets.
use epochkv.Prelude.{
  ℕ, zero, suc, subst, ◌-◌, ◌≡◌, ◌⊎◌, refl, ◌∙◌, sym, ap, ltb, bytes_eq, bytes_eq_refl, length, ◌+◌,
  append-nil, append_assoc, List, [], ◌∷◌, ◌++◌, none, some, Bool, true, false, not, ◌||◌, Bytes,
  str, ◌≤◌, bytes_eq→eq, Option-cases, take, drop, Bool-cases, inl, inr, if◌then◌else◌, arith,
}
use epochkv.Prelude.Int.{pos}
use epochkv.Prelude.Slices.{drop-drop}
use epochkv.Backlog
use epochkv.Backlog.{ReplBacklog, copy_from, start_offset}
use epochkv.Backlog.Window.{IsValid, window}
use epochkv.Backlog.Copy.{copy_from-window}
use epochkv.Reply
use epochkv.Replication.{
  Replica, Replication, ReplState, no_repl, wait_bgsave_start, wait_bgsave_end, send_bulk, online,
  is_online, up_to,
}
use epochkv.Replication.Stream.{
  shift_replid, max_replica_buffer_bytes, gets_stream, feed_replica, deliver, drop_slow,
  same_history, continue_from, try_partial_resync,
}

-- The writes that follow, one after the other.
unfoldable pub feed_writes : List Bytes → Replica → Replica
feed_writes [] r = r
feed_writes (bytes ∷ rest) r = feed_writes rest (feed_replica bytes r)

unfoldable pub joined : List Bytes → Bytes
joined [] = []
joined (bytes ∷ rest) = bytes ++ joined rest

feed_if : (closed : Bool) → (s : ReplState) → (bytes : Bytes) → (r : Replica) → Replica
feed_if closed s bytes r =
    if closed || not (gets_stream s) then r else drop_slow (deliver bytes s r)

-- A replica stays closed, or stays online with the bytes of the write, or is closed for its long buffer.
feed_if-out :
    (closed : Bool)
    → (s : ReplState) → (bytes : Bytes) → (r : Replica) → (r.closing ≡ closed)
    → (is_online s ≡ true)
    → (is_online r.state ≡ true)
    → ((feed_if closed s bytes r).closing ≡ true)
      ⊎ (((feed_if closed s bytes r).out ≡ r.out ++ bytes)
          × (is_online (feed_if closed s bytes r).state ≡ true))
unfolding feed_if deliver drop_slow
feed_if-out true s bytes r e h k = inl e
feed_if-out false online bytes r e h k =
    elim (Bool-cases (ltb max_replica_buffer_bytes (length (r.out ++ bytes) + length r.held))) [
      | inl t ↦ rw t (inl refl)
      | inr t ↦ rw t (inr (refl, k))
    ]
feed_if-out false no_repl bytes r e h k = absurd (ground (arith, h))
feed_if-out false wait_bgsave_start bytes r e h k = absurd (ground (arith, h))
feed_if-out false wait_bgsave_end bytes r e h k = absurd (ground (arith, h))
feed_if-out false send_bulk bytes r e h k = absurd (ground (arith, h))

feed_if-closing :
    (closed : Bool)
    → (s : ReplState) → (bytes : Bytes) → (r : Replica) → (closed ≡ true)
    → (r.closing ≡ true)
    → (feed_if closed s bytes r).closing ≡ true
unfolding feed_if
feed_if-closing true s bytes r c e = e
feed_if-closing false s bytes r c e = absurd (ground (arith, c))

feed_writes-closing :
    (writes : List Bytes)
    → (r : Replica) → (r.closing ≡ true)
    → (feed_writes writes r).closing ≡ true
unfolding feed_writes feed_replica feed_if
feed_writes-closing [] r h = h
feed_writes-closing (bytes ∷ rest) r h =
    feed_writes-closing rest (feed_replica bytes r) (feed_if-closing r.closing r.state bytes r h h)

-- A replica that is online gets the bytes of all writes in their order, unless it is closed.
pub feed_writes-out :
    (writes : List Bytes)
    → (r : Replica) → (is_online r.state ≡ true)
    → ((feed_writes writes r).closing ≡ true)
      ⊎ ((feed_writes writes r).out ≡ r.out ++ joined writes)
unfolding feed_writes joined feed_replica feed_if
feed_writes-out [] r h = inr (sym (append-nil r.out))
feed_writes-out (bytes ∷ rest) r h = elim (feed_if-out r.closing r.state bytes r refl h h) [
  | inl closed ↦ inl (feed_writes-closing rest (feed_replica bytes r) closed)
  | inr (out, stays) ↦ elim (feed_writes-out rest (feed_replica bytes r) stays) [
    | inl closed ↦ inl closed
    | inr rest_out ↦
        inr (rest_out ∙ (ap (λ o. o ++ joined rest) out ∙ append_assoc r.out bytes (joined rest)))
  ]
]

-- A request that this node can continue: it names its history, or the one that it followed before up
-- to where that ended, and an offset from which on the backlog holds all bytes.
pub record Continuable (replid : Bytes) (from : ℕ) (m : Replication) : Type 0 where
  pub ours :
      (replid ≡ m.replid)
      ⊎ ((replid ≡ m.replid2) × (end : ℕ) × (m.second_replid_offset ≡ some end) × (from ≤ end))
  pub held : m.backlog.offset - m.backlog.histlen ≤ from
  pub reached : from ≤ m.backlog.offset

-- A replica that has the stream `total` up to `from`, and goes on from there: after any writes it was
-- sent the reply and all of the stream that it did not have, unless it is closed.
pub record Follows (c : Replica) (from : ℕ) (m : Replication) (total : Bytes)
    (r : Replication × Replica) : Type 0 where
  pub catches_up :
      (writes : List Bytes)
      → ((feed_writes writes r.1).closing ≡ true)
        ⊎ ((sent : Bytes) × ((feed_writes writes r.1).out
              ≡ Reply.simple_string c.out (str "CONTINUE " ++ m.replid) ++ sent)
            × (take from total ++ sent ≡ total ++ joined writes))
  pub acked : r.1.ack_offset ≡ from
  pub added : (r.0).replicas ≡ m.replicas ++ r.1 ∷ []
  pub same_backlog : (r.0).backlog ≡ m.backlog

same_history-ours :
    (replid : Bytes)
    → (from : ℕ) → (m : Replication) → (same_history replid from m ≡ true)
    → (replid ≡ m.replid)
      ⊎ ((replid ≡ m.replid2) × (end : ℕ) × (m.second_replid_offset ≡ some end) × (from ≤ end))
unfolding same_history
same_history-ours replid from m h = elim (Bool-cases (bytes_eq replid m.replid)) [
  | inl e ↦ inl (bytes_eq→eq replid m.replid e)
  | inr n ↦ elim (Option-cases m.second_replid_offset) [
    | inl none_left ↦ absurd (ground (arith, h, n, none_left))
    | inr (end, e) ↦
        inr (bytes_eq→eq replid m.replid2 (ground (arith, h, n)), end, e, ground (arith, h, n, e))
  ]
]

ours-same_history :
    (replid : Bytes)
    → (from : ℕ) → (m : Replication)
    → (replid ≡ m.replid)
      ⊎ ((replid ≡ m.replid2) × (end : ℕ) × (m.second_replid_offset ≡ some end) × (from ≤ end))
    → same_history replid from m ≡ true
unfolding same_history
ours-same_history replid from m (inl e) =
    let t : bytes_eq replid m.replid ≡ true = rw e (bytes_eq_refl m.replid) in ground (arith, t)
ours-same_history replid from m (inr (e, end, at, h)) =
    let t : bytes_eq replid m.replid2 ≡ true = rw e (bytes_eq_refl m.replid2) in
    let fits : up_to m.second_replid_offset from ≡ true = rw at (ground (arith, h)) in
    ground (arith, t, fits, Bool-cases (bytes_eq replid m.replid))

take-drop : (n : ℕ) → (xs : Bytes) → take n xs ++ drop n xs ≡ xs
take-drop zero xs = refl
take-drop (suc n) [] = refl
take-drop (suc n) (x ∷ xs) = ap (λ l. x ∷ l) (take-drop n xs)

same_stream :
    (b : ReplBacklog)
    → (from : ℕ) → (total more : Bytes) → (window b ≡ drop (start_offset b) total)
    → (b.offset - b.histlen ≤ from)
    → take from total ++ (drop (from - start_offset b) (window b) ++ more) ≡ total ++ more
same_stream b from total more w h =
    let place : start_offset b + (from - start_offset b) ≡ from = omega arith in
    rw (w, drop-drop, place, ← append_assoc (take from total) (drop from total) more, take-drop)
      refl

module _ (c : Replica) (replid : Bytes) (from : ℕ) (m : Replication) where
  abbrev granted : Replication × Replica
  granted = (
    record m { replicas = m.replicas ++ continue_from c from m ∷ []; replid_shared = true },
    continue_from c from m,
  )

  try_partial_resync-grants :
      (r : Replication × Replica)
      → (try_partial_resync c replid (pos from) m ≡ some r)
      → (same_history replid from m ≡ true)
        × (Backlog.contains m.backlog from ≡ true)
        × (granted ≡ r)
  unfolding try_partial_resync
  try_partial_resync-grants r h = elim (Bool-cases (same_history replid from m)) [
    | inl a ↦ elim (Bool-cases (Backlog.contains m.backlog from)) [
      | inl b ↦ let h' : some granted ≡ some r = rw (a, b) at h in (a, b, ground (arith, h'))
      | inr b ↦ absurd (let h' : none ≡ some r = rw (a, b) at h in ground (arith, h'))
    ]
    | inr a ↦ absurd (let h' : none ≡ some r = rw a at h in ground (arith, h'))
  ]

  granted-Follows :
      (total : Bytes)
      → IsValid m.backlog
      → (window m.backlog ≡ drop (start_offset m.backlog) total)
      → (Backlog.contains m.backlog from ≡ true)
      → Follows c from m total granted
  unfolding continue_from Backlog.contains
  granted-Follows total v w b = record {
    catches_up = λ writes. elim (feed_writes-out writes (continue_from c from m) refl) [
      | inl closed ↦ inl closed
      | inr out ↦
          let reply = Reply.simple_string c.out (str "CONTINUE " ++ m.replid) in
          inr (
            drop (from - start_offset m.backlog) (window m.backlog) ++ joined writes,
            out
                ∙ (ap (λ o. o ++ joined writes) (copy_from-window m.backlog from reply v b)
                    ∙ append_assoc reply (drop (from - start_offset m.backlog) (window m.backlog))
                        (joined writes)),
            same_stream m.backlog from total (joined writes) w (ground (arith, b)),
          )
    ];
    acked = refl;
    added = refl;
    same_backlog = refl;
  }

  -- At a well-formed backlog that holds the bytes of the stream `total` from its start offset on, a
  -- request with an offset that is not negative is granted exactly when it names our history, or the one that we followed up to where that ended, and an offset from which
  -- on the backlog holds all bytes. The replica is then added with that offset, the backlog is kept,
  -- and after any further writes what it was sent behind the reply is exactly what it lacked of the
  -- stream and these writes, unless it is closed.
  pub try_partial_resync-Follows :
      (total : Bytes)
      → IsValid m.backlog
      → (window m.backlog ≡ drop (start_offset m.backlog) total)
      → ((r : Replication × Replica)
          → (try_partial_resync c replid (pos from) m ≡ some r)
          → Continuable replid from m × Follows c from m total r)
        × (Continuable replid from m
            → (r : Replication × Replica) × (try_partial_resync c replid (pos from) m ≡ some r))
  unfolding try_partial_resync Backlog.contains
  try_partial_resync-Follows total v w = (
    λ r h.
        let (a, b, e) = try_partial_resync-grants r h in
        (
          record {
            ours = same_history-ours replid from m a;
            held = ground (arith, b);
            reached = ground (arith, b);
          },
          subst (Follows c from m total) e (granted-Follows total v w b),
        ),
    λ k.
        let b : Backlog.contains m.backlog from ≡ true = ground (arith, k.held, k.reached) in
        (granted, rw (ours-same_history replid from m k.ours, b) refl),
  )

-- A replica of the master that we followed may go on from us after the promotion, at any offset that the
-- backlog still has.
pub shift_replid-same_history :
    (random_replid : Bytes)
    → (m : Replication) → (from : ℕ) → (Backlog.contains m.backlog from ≡ true)
    → same_history m.replid from (shift_replid random_replid m) ≡ true
unfolding shift_replid same_history Backlog.contains
shift_replid-same_history random_replid m from h =
    ground (arith, h, bytes_eq_refl m.replid, Bool-cases (bytes_eq m.replid random_replid))
