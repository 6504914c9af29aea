-- ===== src/HashTable/Map.antt =====
-- The table refines a finite map from keys to values: what each public operation does to it.
use epochkv.Prelude.{
  [], ℕ, ◌+◌, ◌-◌, ◌≤◌, ◌<◌, ◌≡◌, refl, sym, ◌∙◌, inl, inr, ◌∷◌, Option, none, some, Bool, true,
  false, not, Bytes, arith, ◌==◌, ltb, bytes_eq, bytes_eq_iff, bytes_eq_refl, if◌then◌else◌,
  Bool-cases, Option-cases, length,
}
use epochkv.HashTable.Bucket.{
  Chain, chain_find, chain_assign, chain_unlink, count, count-zero, chain_find-assign, count-assign,
  chain_find-unlink, count-unlink, count-unlink-le, length-assign, length-unlink,
}
use epochkv.HashTable.Buckets.{home, length-get_or-le}
use epochkv.HashTable.{
  find, HashTable, put_found, unlink_found, hash_key, bucket_index, old_bucket, bucket_for,
  chain_at, put_chain, put, unlink,
}
use epochkv.HashTable.Valid.{IsValid, chain_of, view, find-view}
use epochkv.HashTable.Writes.{Rewrites, Writes, old_Writes, new_Writes}
use epochkv.HashTable.Steps.{maybe_resize-SameTable}

abbrev pub is_some : {V : Type 0} → Option V → Bool
is_some none = false
is_some (some v) = true

module _ {V : Type 0} where
  -- The chain that a lookup of the key walks, where it stands, and what writing another one does.
  module _ (t : HashTable V) (valid : IsValid t) (key : Bytes) where
    chain_at-bucket_for : chain_at t (bucket_for t key) ≡ chain_of t key
    unfolding bucket_for chain_at chain_of home
    chain_at-bucket_for = elim (Bool-cases (length t.table1 == 0)) [
      | inl none_new ↦
          let start : t.rehash_idx ≡ 0 = valid.idle (ground arith) in
          let below : ltb (bucket_index (hash_key key) (length t.table0)) t.rehash_idx ≡ false =
            rw start (ground arith) in
          rw (none_new, below)
      | inr some_new ↦ rw (some_new) (ground arith)
    ]

    count-chain_of : (q : Bytes) → count q (chain_of t key) ≤ 1
    unfolding chain_of
    count-chain_of q = ground (
      arith,
      valid.split.old_placed.once q (home key (length t.table0)),
      valid.split.new_placed.once q (home key (length t.table1)),
    )

    num_entries-put_chain :
        (c' : Chain V) → (put_chain t (bucket_for t key) c').num_entries ≡ t.num_entries
    unfolding put_chain
    num_entries-put_chain c' = ground arith

    write-Writes :
        (c' : Chain V) (n : ℕ) {v : Option V}
        → Rewrites key (chain_of t key) c' v
        → n + length (chain_of t key) ≡ t.num_entries + length c'
        → Writes t key v (record (put_chain t (bucket_for t key) c') { num_entries = n })
    unfolding chain_of bucket_for put_chain home
    write-Writes c' n r sized = elim (Bool-cases (ltb (home key (length t.table0)) t.rehash_idx)) [
      | inl down ↦
          let some_new : 0 < length t.table1 = elim (Bool-cases (length t.table1 == 0)) [
            | inl gone ↦
                let start : t.rehash_idx ≡ 0 = valid.idle (ground arith) in absurd (ground arith)
            | inr there ↦ ground arith
          ] in
          let busy : (length t.table1 == 0) ≡ false = ground arith in
          rw (busy, down, bucket_for, put_chain)
            (new_Writes t key c' n valid.split (rw (down, chain_of) at r)
              (rw (down, chain_of) at sized) some_new (ground arith))
      | inr up ↦
          let place : bucket_for t key ≡ old_bucket (home key (length t.table0)) =
            ground (arith, up) in
          rw (place, put_chain)
            (old_Writes t key c' n valid.split (rw (up, chain_of) at r) (rw (up, chain_of) at sized)
              (ground arith))
    ]

    -- A write leaves a table that is well formed as soon as the old one is.
    write-IsValid : {v : Option V} {t' : HashTable V} → Writes t key v t' → IsValid t'
    write-IsValid w = record {
      split = w.split;
      idle = λ e. w.idx ∙ valid.idle (sym w.width1 ∙ e);
      busy = λ h. omega (arith, w.idx, w.width0, w.width1, valid.busy (omega (arith, w.width1)));
    }

  -- The effect of an operation on the finite map: the key is bound to `v`, or unbound.
  pub record Updates (t : HashTable V) (key : Bytes) (v : Option V) (t' : HashTable V)
      : Type 0 where
    pub valid : IsValid t'
    pub reads : (q : Bytes) → view t' q ≡ (if bytes_eq key q then v else view t q)

  assign-Rewrites :
      (key : Bytes) (value old : V) (c : Chain V)
      → count key c ≤ 1
      → chain_find key c ≡ some old
      → Rewrites key c (chain_assign key value c) (some value)
  assign-Rewrites key value old c single found = record {
    same = λ q ne. count-assign key q value c;
    single = rw (count-assign key key value c) single;
    reads = λ q. chain_find-assign key q value c old found;
  }

  cons-Rewrites :
      (key : Bytes) (value : V) (c : Chain V)
      → chain_find key c ≡ none
      → Rewrites key c ((key, value) ∷ c) (some value)
  unfolding chain_find count
  cons-Rewrites key value c absent = record {
    same = λ q ne. ground (arith, ne, bytes_eq_iff key q);
    single = ground (arith, count-zero key c, bytes_eq_refl key);
    reads = λ q. refl;
  }

  unlink-Rewrites :
      (key : Bytes) (c : Chain V)
      → ((q : Bytes) → count q c ≤ 1)
      → Rewrites key c (chain_unlink key c) none
  unlink-Rewrites key c single = record {
    same = λ q ne. count-unlink key q c ne;
    single = omega (arith, count-unlink-le key key c, single key);
    reads = λ q. chain_find-unlink key q c (single q);
  }

  -- What one write returns beside the table, and the number of entries after it.
  pub record Inserts (t : HashTable V) (key : Bytes) (value : V) (r : HashTable V × Bool)
      : Type 0 where
    pub updates : Updates t key (some value) r.0
    pub is_new : r.1 ≡ not (is_some (view t key))
    pub counted :
        r.0.num_entries ≡ (if is_some (view t key) then t.num_entries else t.num_entries + 1)

  pub record Deletes (t : HashTable V) (key : Bytes) (r : HashTable V × Bool) : Type 0 where
    pub updates : Updates t key none r.0
    pub was_there : r.1 ≡ is_some (view t key)
    pub counted :
        r.0.num_entries ≡ (if is_some (view t key) then t.num_entries - 1 else t.num_entries)

  empty_find : (key : Bytes) (c : Chain V) → length c ≡ 0 → chain_find key c ≡ none
  unfolding chain_find
  empty_find key [] e = refl
  empty_find key (node ∷ c) e = absurd (omega arith)

  module _ (t : HashTable V) (valid : IsValid t) (key : Bytes) where
    seen : view t key ≡ chain_find key (chain_of t key)
    unfolding view
    seen = refl

    at : chain_at t (bucket_for t key) ≡ chain_of t key
    at = chain_at-bucket_for t valid key

    pub put-Inserts : (value : V) → Inserts t key value (put t key value)
    unfolding put put_found
    put-Inserts value =
        let c = chain_of t key in
        elim (Option-cases (chain_find key c)) [
          | inr (old, found) ↦
              let c' = chain_assign key value c in
              let num = num_entries-put_chain t valid key c' in
              let w =
                write-Writes t valid key c' (put_chain t (bucket_for t key) c').num_entries
                  (assign-Rewrites key value old c (count-chain_of t valid key key) found)
                  (omega (arith, num, length-assign key value c)) in
              rw (at, found)
                (record {
                  updates = record { valid = write-IsValid t valid key w; reads = w.reads };
                  is_new = rw (seen, found);
                  counted = rw (seen, found) num;
                })
          | inl absent ↦
              let c' = (key, value) ∷ c in
              let w =
                write-Writes t valid key c' (t.num_entries + 1) (cons-Rewrites key value c absent)
                  (omega arith) in
              let m = maybe_resize-SameTable _ (write-IsValid t valid key w) in
              rw (at, absent)
                (record {
                  updates = record { valid = m.valid; reads = λ q. m.reads q ∙ w.reads q };
                  is_new = rw (seen, absent);
                  counted = rw (seen, absent) m.same_size;
                })
        ]

    -- The nodes of one chain are counted.
    entry_counted : length (chain_of t key) ≤ t.num_entries
    unfolding chain_of
    entry_counted = ground (
      arith,
      valid.split.counted,
      length-get_or-le t.table0 (home key (length t.table0)),
      length-get_or-le t.table1 (home key (length t.table1)),
    )

    pub size_zero : t.num_entries ≡ 0 → find t key ≡ none
    unfolding chain_find
    size_zero e =
        let short = entry_counted in
        rw (find-view t key valid, seen) (empty_find key (chain_of t key) (omega arith))

    absent_unbound :
        chain_find key (chain_of t key) ≡ none
        → (q : Bytes) → view t q ≡ (if bytes_eq key q then none else view t q)
    absent_unbound absent q = ground (arith, absent, seen, bytes_eq_iff key q)

    pub unlink-Deletes : Deletes t key (unlink t key)
    unfolding unlink unlink_found
    unlink-Deletes =
        let c = chain_of t key in
        elim (Option-cases (chain_find key c)) [
          | inl absent ↦
              rw (at, absent)
                (record {
                  updates = record { valid = valid; reads = absent_unbound absent };
                  was_there = rw (seen, absent);
                  counted = rw (seen, absent);
                })
          | inr (old, found) ↦
              let c' = chain_unlink key c in
              let shorter = length-unlink key c old found in
              let some_entry = entry_counted in
              let w =
                write-Writes t valid key c' (t.num_entries - 1)
                  (unlink-Rewrites key c (count-chain_of t valid key)) (omega arith) in
              let m = maybe_resize-SameTable _ (write-IsValid t valid key w) in
              rw (at, found)
                (record {
                  updates = record { valid = m.valid; reads = λ q. m.reads q ∙ w.reads q };
                  was_there = rw (seen, found);
                  counted = rw (seen, found) m.same_size;
                })
        ]
