-- ===== src/Store/Reclaim.antt =====
-- src/store.cpp and include/store.hpp: eviction, background rehashing and the operations on slots.
use epochkv.Prelude.{
  ℕ, zero, suc, ◌+◌, List, [], ◌∷◌, none, some, Bool, true, false, not, ◌||◌, Bytes, ◌==◌, leb,
  if◌then◌else◌, take, length, map,
}
use epochkv.Prelude.Int.{ℤ, negsuc}
use epochkv.HashTable
use epochkv.HashTable.{HashTable}
use epochkv.Store.{Store, EvictionPolicy, no_eviction, all_keys_lru, remove, notify_deleted}

-- `back()` of a list of keys, the one that is being looked at being the argument.
unfoldable pub last_key : Bytes → List Bytes → Bytes
last_key key [] = key
last_key key (next ∷ keys) = last_key next keys

unfoldable pub evict_key : Store → Bytes → Store
unfolding remove notify_deleted
evict_key s victim =
    let s' = (remove s victim).0 in
    notify_deleted (record s' { evicted_keys = s'.evicted_keys + 1 }) victim

abbrev pub evicts : EvictionPolicy → Bool
evicts no_eviction = false
evicts all_keys_lru = true

-- The loop of `evict_if_needed`. A round takes a key off the list, so its length is fuel enough; at
-- the end of the fuel the list is empty.
unfoldable pub evict_loop : ℕ → Store → Store × Bool
unfolding last_key evict_key
evict_loop zero s = (s, leb s.used_memory s.maxmemory)
evict_loop (suc fuel) s = elim s.lru [
  | [] ↦ (s, leb s.used_memory s.maxmemory)
  | key ∷ keys ↦
      let rest = evict_loop fuel (evict_key s (last_key key keys)) in
      if leb s.used_memory s.maxmemory
      then (s, true)
      else if evicts s.policy
      then rest
      else (s, false)
]

unfoldable pub evict_if_needed : Store → Store × Bool
unfolding evict_loop
evict_if_needed s = if s.maxmemory == 0 then (s, true) else evict_loop (length s.lru) s

abbrev pub rehashing : Store → Bool
rehashing s = HashTable.rehashing s.dict || HashTable.rehashing s.expires

-- One element for each reading of the clock: whether the deadline has passed.
unfoldable pub rehash_loop : List Bool → Store → Store
rehash_loop [] s = s
rehash_loop (late ∷ readings) s =
    let s' = record s {
      dict = (HashTable.rehash_step s.dict 100).0;
      expires = (HashTable.rehash_step s.expires 100).0;
    } in
    let rest = rehash_loop readings s' in if not (rehashing s) then s else if late then s' else rest

unfoldable pub active_rehash : List Bool → Store → Store × Bool
unfolding rehash_loop
active_rehash readings s = let s' = rehash_loop readings s in (s', rehashing s')

unfoldable pub clear : Store → Store
clear s = record s {
  dict = HashTable.empty;
  expires = HashTable.empty;
  lru = [];
  slots = λ i. [];
  used_memory = 0;
}

unfoldable pub keys_in_slot : Store → ℕ → ℕ → List Bytes
keys_in_slot s slot max = take max (s.slots slot)

unfoldable pub count_keys_in_slot : Store → ℕ → ℕ
count_keys_in_slot s slot = length (s.slots slot)

-- The loop of `delete_slot`. A round takes a key off the slot's list, so its length is fuel enough.
unfoldable pub delete_loop : ℕ → ℕ → Store → ℕ → Store × ℕ
unfolding remove notify_deleted
delete_loop zero slot s deleted = (s, deleted)
delete_loop (suc fuel) slot s deleted = elim (s.slots slot) [
  | [] ↦ (s, deleted)
  | victim ∷ keys ↦ delete_loop fuel slot (notify_deleted (remove s victim).0 victim) (deleted + 1)
]

unfoldable pub delete_slot : Store → ℕ → Store × ℕ
unfolding delete_loop
delete_slot s slot = delete_loop (length (s.slots slot)) slot s 0

-- What `for_each` calls its function with, in order.
unfoldable pub deadline_of : Store → Bytes → ℤ
deadline_of s key = elim (HashTable.find s.expires key) [ none ↦ negsuc 0 | some when ↦ when ]

unfoldable pub for_each : Store → List (Bytes × Bytes × ℤ)
unfolding deadline_of
for_each s = map (λ e. (e.0, e.1, deadline_of s e.0)) (HashTable.entries s.dict)
