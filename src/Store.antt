-- ===== src/Store.antt =====
-- include/store.hpp and src/store.cpp: the keyspace.
-- An iterator into a list of keys is given by its key, of which each list has one node. A pointer
-- to an entry is given by its key too. `now` is what the clock returns while an operation runs.
-- The calls of the deletion listener are recorded in `notified`, the latest last.
pub mod Reclaim
pub mod Visible
pub mod Expiry
pub mod Writes
pub mod Dating
pub mod Laws
use epochkv.Prelude.{
  ℕ, zero, suc, ◌+◌, ◌-◌, ◌*◌, ◌%◌, ◌^◌, min, List, [], ◌∷◌, ◌++◌, Option, none, some, Bool, true,
  false, not, ◌&&◌, ◌||◌, Bytes, ◌==◌, ltb, leb, bytes_eq, if◌then◌else◌, take, length,
}
use epochkv.Prelude.Int.{ℤ, pos, negsuc, ltb_ℤ, ◌-ℤ◌}
use epochkv.Slots.{key_hash_slot}
use epochkv.HashTable
use epochkv.HashTable.{HashTable}

pub data EvictionPolicy : Type 0 where
  no_eviction all_keys_lru : EvictionPolicy

pub record Store : Type 0 where
  pub maxmemory : ℕ
  pub policy : EvictionPolicy
  pub now : ℤ
  pub dict : HashTable Bytes
  pub expires : HashTable ℤ
  pub lru : List Bytes
  pub slots : ℕ → List Bytes
  pub passive_expiry : Bool
  pub used_memory : ℕ
  pub expired_keys : ℕ
  pub evicted_keys : ℕ
  pub notified : List Bytes

-- `size_t` arithmetic.
unfoldable pub add_size : ℕ → ℕ → ℕ
add_size a b = (a + b) % 2 ^ 64

unfoldable pub sub_size : ℕ → ℕ → ℕ
sub_size a b = (a + 2 ^ 64 - b) % 2 ^ 64

abbrev pub entry_overhead : ℕ
entry_overhead = 128

abbrev pub expire_overhead : ℕ
expire_overhead = 64

abbrev pub expire_samples_per_loop : ℕ
expire_samples_per_loop = 20

unfoldable pub entry_cost : Bytes → ℕ → ℕ
entry_cost key value_size = entry_overhead + 2 * length key + value_size

unfoldable pub expire_cost : Bytes → ℕ
expire_cost key = expire_overhead + length key

-- `erase(it)` of a list of keys.
unfoldable pub erase_key : Bytes → List Bytes → List Bytes
erase_key key [] = []
erase_key key (k ∷ ks) = if bytes_eq k key then ks else k ∷ erase_key key ks

unfoldable pub set_slot : (ℕ → List Bytes) → ℕ → List Bytes → ℕ → List Bytes
set_slot slots i ks j = if i == j then ks else slots j

unfoldable pub new : ℕ → EvictionPolicy → ℤ → Store
new maxmemory policy now = record {
  maxmemory = maxmemory;
  policy = policy;
  now = now;
  dict = HashTable.empty;
  expires = HashTable.empty;
  lru = [];
  slots = λ i. [];
  passive_expiry = false;
  used_memory = 0;
  expired_keys = 0;
  evicted_keys = 0;
  notified = [];
}

unfoldable pub notify_deleted : Store → Bytes → Store
notify_deleted s key = record s { notified = s.notified ++ key ∷ [] }

unfoldable pub clear_expire : Store → Bytes → Store × Bool
unfolding sub_size expire_cost
clear_expire s key =
    let (expires, done) = HashTable.del s.expires key in
    if done
    then (
      record s { expires = expires; used_memory = sub_size s.used_memory (expire_cost key) },
      true,
    )
    else (record s { expires = expires }, false)

-- The deletion from every structure, for a key with a value.
unfoldable pub remove_entry : Store → Bytes → Bytes → Store
unfolding erase_key set_slot entry_cost sub_size
remove_entry s key value =
    let slot = key_hash_slot key in
    let s' = record s {
      used_memory = sub_size s.used_memory (entry_cost key (length value));
      slots = set_slot s.slots slot (erase_key key (s.slots slot));
      lru = erase_key key s.lru;
      dict = (HashTable.del s.dict key).0;
    } in
    (clear_expire s' key).0

unfoldable pub remove : Store → Bytes → Store × Bool
remove s key = elim (HashTable.find s.dict key) [
  | none ↦ (s, false)
  | some value ↦ (remove_entry s key value, true)
]

-- What `expire_if_needed` does with a key whose time has passed.
unfoldable pub expire : Store → Bytes → Store
unfolding remove notify_deleted
expire s key =
    let s' = (remove s key).0 in
    notify_deleted (record s' { expired_keys = s'.expired_keys + 1 }) key

unfoldable pub expire_if_needed : Store → Bytes → Store × Bool
expire_if_needed s key =
    if HashTable.size s.expires == 0 then (s, false) else elim (HashTable.find s.expires key) [
      | none ↦ (s, false)
      | some when ↦
          if ltb_ℤ s.now when
          then (s, false)
          else if s.passive_expiry
          then (s, true)
          else (expire s key, true)
    ]

-- `lru_.splice(lru_.begin(), lru_, entry->lru_pos)`
unfoldable pub touch_key : Store → Bytes → Store
unfolding erase_key
touch_key s key = record s { lru = key ∷ erase_key key s.lru }

-- The entry is given by its value.
unfoldable pub lookup : Store → Bytes → Bool → Store × Option Bytes
unfolding touch_key
lookup s key touch =
    let (s', expired) = expire_if_needed s key in
    if expired then (s', none) else elim (HashTable.find s'.dict key) [
      | none ↦ (s', none)
      | some value ↦ (if touch then touch_key s' key else s', some value)
    ]

abbrev pub is_some : {A : Type 0} → Option A → Bool
is_some none = false
is_some (some a) = true

unfoldable pub get : Store → Bytes → Store × Option Bytes
get s key = lookup s key true

unfoldable pub exists : Store → Bytes → Store × Bool
exists s key = let (s', entry) = lookup s key true in (s', is_some entry)

unfoldable pub contains : Store → Bytes → Store × Bool
contains s key = let (s', entry) = lookup s key false in (s', is_some entry)

-- `entry->value = std::move(value)`, through the pointer that `find` gave.
unfoldable pub overwrite : Store → Bytes → Bytes → Bytes → Store
unfolding add_size sub_size
overwrite s key old value = record s {
  used_memory = add_size (sub_size s.used_memory (length old)) (length value);
  dict = (HashTable.put s.dict key value).0;
}

unfoldable pub create : Store → Bytes → Bytes → Store
unfolding add_size entry_cost set_slot
create s key value =
    let slot = key_hash_slot key in
    record s {
      used_memory = add_size s.used_memory (entry_cost key (length value));
      lru = key ∷ s.lru;
      slots = set_slot s.slots slot (key ∷ s.slots slot);
      dict = (HashTable.insert s.dict key value).0;
    }

-- `set` behind its lookup.
unfoldable pub set_found : Store → Bytes → Bytes → Bool → Option Bytes → Store
unfolding overwrite create
set_found s key value keep_ttl (some old) =
    let s' = overwrite s key old value in if keep_ttl then s' else (clear_expire s' key).0
set_found s key value keep_ttl none =
    create (if s.passive_expiry then (remove s key).0 else s) key value

unfoldable pub set : Store → Bytes → Bytes → Bool → Store
set s key value keep_ttl =
    let (s', entry) = lookup s key true in set_found s' key value keep_ttl entry

unfoldable pub del : Store → Bytes → Store × Bool
del s key = let (s', entry) = lookup s key false in ((remove s' key).0, is_some entry)

-- The deadline is written over the old one, or a new one is put in.
unfoldable pub put_deadline : Store → Bytes → ℤ → Store
unfolding add_size expire_cost
put_deadline s key when = elim (HashTable.find s.expires key) [
  | some old ↦ record s { expires = (HashTable.put s.expires key when).0 }
  | none ↦ record s {
    expires = (HashTable.insert s.expires key when).0;
    used_memory = add_size s.used_memory (expire_cost key);
  }
]

-- `set_expire` behind its lookup.
unfoldable pub deadline_found : Store → Bytes → ℤ → Option Bytes → Store × Bool
deadline_found s key when none = (s, false)
deadline_found s key when (some value) =
    if not (ltb_ℤ s.now when) && not s.passive_expiry
    then ((remove s key).0, true)
    else (put_deadline s key when, true)

unfoldable pub set_expire : Store → Bytes → ℤ → Store × Bool
set_expire s key when = let (s', entry) = lookup s key true in deadline_found s' key when entry

unfoldable pub persist : Store → Bytes → Store × Bool
persist s key =
    let (s', entry) = lookup s key true in
    if is_some entry then clear_expire s' key else (s', false)

unfoldable pub pttl : Store → Bytes → Store × ℤ
pttl s key =
    let (s', entry) = lookup s key false in
    if not (is_some entry) then (s', negsuc 1) else elim (HashTable.find s'.expires key) [
      | none ↦ (s', negsuc 0)
      | some when ↦ (s', when -ℤ s'.now)
    ]
