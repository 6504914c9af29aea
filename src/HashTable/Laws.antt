-- ===== src/HashTable/Laws.antt =====
-- The public operations of the table as a finite map.
use epochkv.Prelude.{
  ℕ, ◌+◌, ◌-◌, ◌≡◌, refl, ◌∙◌, ap, [], none, some, false, not, Bytes, arith, bytes_eq,
  if◌then◌else◌, ltb,
}
use epochkv.HashTable.{
  HashTable, empty, make_table, initial_bucket_count, find, insert, del, rehash_step,
}
use epochkv.HashTable.Valid.{IsValid, view, chain_of, find-view}
use epochkv.HashTable.Steps.{rehash_step-SameTable}
use epochkv.HashTable.Rehash.{empty-IsPlaced}
use epochkv.HashTable.Bucket.{Chain, count, chain_find}
use epochkv.HashTable.Buckets.{total, home, get_or-replicate}
use epochkv.HashTable.Map.{is_some, put-Inserts, unlink-Deletes}

module _ {V : Type 0} (t : HashTable V) (valid : IsValid t) where
  -- Advancing a resize by any number of buckets leaves a well-formed table with the same size, and
  -- every lookup as it was.
  pub find-rehash_step :
      (n : ℕ)
      → IsValid (rehash_step t n).0
        × ((q : Bytes) → find (rehash_step t n).0 q ≡ find t q)
        × ((rehash_step t n).0.num_entries ≡ t.num_entries)
  find-rehash_step n =
      let same = rehash_step-SameTable t n valid in
      (
        same.valid,
        λ q. rw (find-view _ q same.valid, find-view t q valid) (same.reads q),
        same.same_size,
      )

  -- `set` on a well-formed table leaves a well-formed one, in which the key is bound to the value and
  -- every other key to what it was, also while a resize is under way; it returns whether the key is
  -- new, and counts the entries.
  pub find-insert :
      (key : Bytes) (value : V)
      → IsValid (insert t key value).0
        × ((q : Bytes)
            → find (insert t key value).0 q ≡ (if bytes_eq key q then some value else find t q))
        × ((insert t key value).1 ≡ not (is_some (find t key)))
        × ((insert t key value).0.num_entries
            ≡ (if is_some (find t key) then t.num_entries else t.num_entries + 1))
  unfolding insert
  find-insert key value =
      let same = rehash_step-SameTable t 1 valid in
      let i = put-Inserts (rehash_step t 1).0 same.valid key value in
      let before : view (rehash_step t 1).0 key ≡ find t key =
        same.reads key ∙ rw (find-view t key valid) in
      (
        i.updates.valid,
        λ q.
            rw
              (find-view _ q i.updates.valid, find-view t q valid, i.updates.reads q, same.reads q),
        i.is_new ∙ ap (λ o. not (is_some o)) before,
        i.counted ∙ rw (before, same.same_size),
      )

  -- `del` on a well-formed table leaves a well-formed one, in which the key is unbound and every
  -- other key is bound to what it was; it returns whether the key was bound, and counts the entries.
  pub find-del :
      (key : Bytes)
      → IsValid (del t key).0
        × ((q : Bytes) → find (del t key).0 q ≡ (if bytes_eq key q then none else find t q))
        × ((del t key).1 ≡ is_some (find t key))
        × ((del t key).0.num_entries
            ≡ (if is_some (find t key) then t.num_entries - 1 else t.num_entries))
  unfolding del
  find-del key =
      let same = rehash_step-SameTable t 1 valid in
      let d = unlink-Deletes (rehash_step t 1).0 same.valid key in
      let before : view (rehash_step t 1).0 key ≡ find t key =
        same.reads key ∙ rw (find-view t key valid) in
      (
        d.updates.valid,
        λ q.
            rw
              (find-view _ q d.updates.valid, find-view t q valid, d.updates.reads q, same.reads q),
        d.was_there ∙ ap is_some before,
        d.counted ∙ rw (before, same.same_size),
      )

-- The new table is well formed.
pub empty-IsValid : (V : Type 0) → IsValid (empty {V = V})
unfolding empty make_table count total
empty-IsValid V = record {
  split = record {
    some_old = omega arith;
    bounded = omega arith;
    old_placed = empty-IsPlaced initial_bucket_count;
    new_placed = record { once = λ q i. omega arith; at_home = λ q i ne. refl };
    moved = λ i below. absurd (omega arith);
    unmoved = λ q i above. refl;
    counted = refl;
  };
  idle = λ e. refl;
  busy = λ h. absurd (omega arith);
}

-- The new table binds no key.
pub find-empty : (V : Type 0) (q : Bytes) → find (empty {V = V}) q ≡ none
unfolding view chain_of chain_find empty make_table
find-empty V q =
    let low : ltb (home q initial_bucket_count) 0 ≡ false = ground arith in
    let none_there =
      get_or-replicate {A = Chain V} initial_bucket_count (home q initial_bucket_count) [] in
    rw (find-view empty q (empty-IsValid V), low) (ap (chain_find q) none_there)
