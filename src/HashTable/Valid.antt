-- ===== src/HashTable/Valid.antt =====
-- When a table is well formed: every node stands in the bucket where a lookup of its key goes, once.
use epochkv.Prelude.{
  ℕ, ◌+◌, ◌≤◌, ◌<◌, ◌≡◌, ◌≢◌, inl, inr, List, [], Option, false, Bytes, arith, ◌==◌, ltb,
  if◌then◌else◌, Bool-cases, get_or, length,
}
use epochkv.HashTable.Bucket.{Chain, chain_find, count}
use epochkv.HashTable.Buckets.{home, total}
use epochkv.HashTable.{HashTable, hash_key, bucket_index, bucket_for, chain_at, find}

module _ {V : Type 0} where
  -- A bucket array that has no key twice, and each only in its home bucket.
  pub record IsPlaced (bs : List (Chain V)) : Type 0 where
    pub once : (q : Bytes) (i : ℕ) → count q (get_or bs i []) ≤ 1
    pub at_home : (q : Bytes) (i : ℕ) → home q (length bs) ≢ i → count q (get_or bs i []) ≡ 0

  -- During a resize the old buckets below `rehash_idx` are empty, and the new array holds only keys
  -- of those. `idx` is at most the number of old buckets.
  pub record IsSplit (t : HashTable V) : Type 0 where
    pub some_old : 0 < length t.table0
    pub bounded : t.rehash_idx ≤ length t.table0
    pub old_placed : IsPlaced t.table0
    pub new_placed : IsPlaced t.table1
    pub moved : (i : ℕ) → i < t.rehash_idx → get_or t.table0 i [] ≡ []
    pub unmoved :
        (q : Bytes) (i : ℕ)
        → t.rehash_idx ≤ home q (length t.table0)
        → count q (get_or t.table1 i []) ≡ 0
    pub counted : t.num_entries ≡ total t.table0 + total t.table1

  -- Between operations a resize is unfinished, or none is in progress.
  pub record IsValid (t : HashTable V) : Type 0 where
    pub split : IsSplit t
    pub idle : length t.table1 ≡ 0 → t.rehash_idx ≡ 0
    pub busy : 0 < length t.table1 → t.rehash_idx < length t.table0

  -- The chain in which a lookup of a key walks.
  unfoldable pub chain_of : HashTable V → Bytes → Chain V
  chain_of t q =
      if ltb (home q (length t.table0)) t.rehash_idx
      then get_or t.table1 (home q (length t.table1)) []
      else get_or t.table0 (home q (length t.table0)) []

  -- What a table stands for, also while a bucket is on its way.
  unfoldable pub view : HashTable V → Bytes → Option V
  unfolding chain_of
  view t q = chain_find q (chain_of t q)

  pub find-view : (t : HashTable V) (q : Bytes) → IsValid t → find t q ≡ view t q
  unfolding find view chain_of home
  find-view t q v = elim (Bool-cases (length t.table1 == 0)) [
    | inl none_new ↦
        let start : t.rehash_idx ≡ 0 = v.idle (ground arith) in
        let below : ltb (bucket_index (hash_key q) (length t.table0)) t.rehash_idx ≡ false =
          rw start (ground arith) in
        rw (none_new, below, bucket_for, chain_at)
    | inr some_new ↦ rw (some_new, bucket_for) (ground arith)
  ]
