-- ===== src/HashTable.antt =====
-- include/hash_table.hpp: the chained hash table with incremental rehashing.
-- `table0` and `table1` are `tables_[0]` and `tables_[1]`, an empty `table1` being the one of size
-- 0. A reference to a bucket is its place, and a write through it puts the chain back at the place.
pub mod Bucket
pub mod Buckets
pub mod Valid
pub mod Writes
pub mod Move
pub mod Rehash
pub mod Steps
pub mod Map
pub mod Laws
pub mod Binding
use epochkv.Prelude.{
  ℕ, zero, suc, ◌+◌, ◌-◌, ◌*◌, ◌/◌, ◌%◌, ◌^◌, bit_and, bit_xor, List, [], ◌∷◌, ◌++◌, Option, none,
  some, Bool, true, false, not, ◌&&◌, ◌||◌, Bytes, ◌==◌, ltb, leb, bytes_eq, if◌then◌else◌, get_or,
  set, replicate, length,
}
use epochkv.HashTable.Bucket.{Chain, chain_find, chain_assign, chain_unlink}

pub record HashTable (V : Type 0) : Type 0 where
  pub table0 : List (Chain V)
  pub table1 : List (Chain V)
  pub rehash_idx : ℕ
  pub num_entries : ℕ

abbrev pub initial_bucket_count : ℕ
initial_bucket_count = 16

-- FNV-1a over the bytes, modulo 2 ^ 64.
unfoldable pub fnv_loop : ℕ → Bytes → ℕ
fnv_loop hash [] = hash
fnv_loop hash (c ∷ cs) = fnv_loop (bit_xor hash c * 1099511628211 % 2 ^ 64) cs

unfoldable pub hash_key : Bytes → ℕ
unfolding fnv_loop
hash_key key = fnv_loop 14695981039346656037 key

unfoldable pub bucket_index : ℕ → ℕ → ℕ
bucket_index hash size = bit_and hash (size - 1)

-- `Node*&`: the array and the index of a bucket.
pub data Place : Type 0 where
  old_bucket new_bucket : ℕ → Place

-- `--n` of a `size_t`.
unfoldable pub before : ℕ → ℕ
before n = (n + 2 ^ 64 - 1) % 2 ^ 64

module _ {V : Type 0} where
  unfoldable pub make_table : ℕ → List (Chain V)
  make_table size = replicate size []

  unfoldable pub empty : HashTable V
  unfolding make_table
  empty = record {
    table0 = make_table initial_bucket_count;
    table1 = [];
    rehash_idx = 0;
    num_entries = 0;
  }

  abbrev pub rehashing : HashTable V → Bool
  rehashing t = not (length t.table1 == 0)

  abbrev pub size : HashTable V → ℕ
  size t = t.num_entries

  unfoldable pub bucket_count : HashTable V → ℕ
  bucket_count t = if rehashing t then length t.table1 else length t.table0

  unfoldable pub bucket_for : HashTable V → Bytes → Place
  bucket_for t key =
      let i = bucket_index (hash_key key) (length t.table0) in
      if rehashing t && ltb i t.rehash_idx
      then new_bucket (bucket_index (hash_key key) (length t.table1))
      else old_bucket i

  unfoldable pub chain_at : HashTable V → Place → Chain V
  chain_at t (old_bucket i) = get_or t.table0 i []
  chain_at t (new_bucket i) = get_or t.table1 i []

  unfoldable pub put_chain : HashTable V → Place → Chain V → HashTable V
  put_chain t (old_bucket i) c = record t { table0 = set t.table0 i c }
  put_chain t (new_bucket i) c = record t { table1 = set t.table1 i c }

  unfoldable pub find : HashTable V → Bytes → Option V
  unfolding bucket_for chain_at chain_find
  find t key = chain_find key (chain_at t (bucket_for t key))

  unfoldable pub contains : HashTable V → Bytes → Bool
  unfolding find
  contains t key = elim (find t key) [ none ↦ false | some v ↦ true ]

  -- The load is a quotient of doubles. The bucket count is a power of two, so the quotient is exact;
  -- it is over 0.75 exactly if 3 * buckets < 4 * entries. The double nearest to 0.1 is above it by
  -- less than a quotient other than 0.1 can be, so it is under 0.1 exactly if 10 * entries < buckets.
  unfoldable pub maybe_resize : HashTable V → HashTable V
  unfolding make_table
  maybe_resize t =
      let buckets = length t.table0 in
      if rehashing t
      then t
      else if ltb (buckets * 3) (t.num_entries * 4)
      then record t { table1 = make_table (buckets * 2) }
      else if ltb initial_bucket_count buckets && ltb (t.num_entries * 10) buckets
      then record t { table1 = make_table (buckets / 2) }
      else t

  -- Each node is relinked to the head of its new bucket.
  unfoldable pub move_nodes : Chain V → List (Chain V) → List (Chain V)
  move_nodes [] to = to
  move_nodes ((k, v) ∷ nodes) to =
      let i = bucket_index (hash_key k) (length to) in
      move_nodes nodes (set to i ((k, v) ∷ get_or to i []))

  unfoldable pub move_bucket : HashTable V → HashTable V
  unfolding move_nodes
  move_bucket t = record t {
    table0 = set t.table0 t.rehash_idx [];
    table1 = move_nodes (get_or t.table0 t.rehash_idx []) t.table1;
    rehash_idx = t.rehash_idx + 1;
  }

  unfoldable pub skip_bucket : HashTable V → HashTable V
  skip_bucket t = record t { rehash_idx = t.rehash_idx + 1 }

  -- The loop of `rehash_step`. Every round takes one old bucket, so the buckets left are fuel enough.
  unfoldable pub rehash_loop : ℕ → ℕ → ℕ → HashTable V → HashTable V
  unfolding move_bucket skip_bucket
  rehash_loop zero n empty_visits t = t
  rehash_loop (suc fuel) n empty_visits t =
      let skipped = rehash_loop fuel n (before empty_visits) (skip_bucket t) in
      let moved = rehash_loop fuel (n - 1) empty_visits (move_bucket t) in
      if n == 0 || leb (length t.table0) t.rehash_idx
      then t
      else elim (get_or t.table0 t.rehash_idx []) [
        | [] ↦ if before empty_visits == 0 then skip_bucket t else skipped
        | node ∷ nodes ↦ moved
      ]

  -- `from = std::move(to)` once every old bucket has been moved.
  unfoldable pub finish_rehash : HashTable V → HashTable V
  unfolding maybe_resize
  finish_rehash t =
      if t.rehash_idx == length t.table0
      then maybe_resize (record t { table0 = t.table1; table1 = []; rehash_idx = 0 })
      else t

  unfoldable pub rehash_step : HashTable V → ℕ → HashTable V × Bool
  unfolding rehash_loop finish_rehash
  rehash_step t n =
      if not (rehashing t)
      then (t, false)
      else let t' =
          finish_rehash (rehash_loop (length t.table0 - t.rehash_idx) n (n * 10 % 2 ^ 64) t) in
        (t', rehashing t')

  -- The part of `set` behind the rehashing: a node with the key is overwritten, or a new one is put
  -- at the head of the chain.
  unfoldable pub put_found :
      HashTable V → Place → Chain V → Bytes → V → Option V → HashTable V × Bool
  put_found t place chain key value (some old) =
      (put_chain t place (chain_assign key value chain), false)
  put_found t place chain key value none =
      let t' = put_chain t place ((key, value) ∷ chain) in
      (maybe_resize (record t' { num_entries = t.num_entries + 1 }), true)

  unfoldable pub put : HashTable V → Bytes → V → HashTable V × Bool
  put t key value =
      let place = bucket_for t key in
      let chain = chain_at t place in put_found t place chain key value (chain_find key chain)

  unfoldable pub insert : HashTable V → Bytes → V → HashTable V × Bool
  insert t key value = put (rehash_step t 1).0 key value

  -- The part of `del` behind the rehashing.
  unfoldable pub unlink_found :
      HashTable V → Place → Chain V → Bytes → Option V → HashTable V × Bool
  unlink_found t place chain key (some old) =
      let t' = put_chain t place (chain_unlink key chain) in
      (maybe_resize (record t' { num_entries = t.num_entries - 1 }), true)
  unlink_found t place chain key none = (t, false)

  unfoldable pub unlink : HashTable V → Bytes → HashTable V × Bool
  unlink t key =
      let place = bucket_for t key in
      let chain = chain_at t place in unlink_found t place chain key (chain_find key chain)

  unfoldable pub del : HashTable V → Bytes → HashTable V × Bool
  del t key = unlink (rehash_step t 1).0 key

  -- `for_each`: the entries in bucket order.
  unfoldable pub entries_of : List (Chain V) → Chain V
  entries_of [] = []
  entries_of (c ∷ cs) = c ++ entries_of cs

  unfoldable pub entries : HashTable V → Chain V
  unfolding entries_of
  entries t = entries_of t.table0 ++ entries_of t.table1
