-- ===== src/Tests/Keyspace.antt =====
-- include/hash_table.hpp and src/cluster_slot.cpp at small tables and keys.
use epochkv.Prelude.{
  ℕ, ◌≡◌, none, some, not, Bytes, str, arith, bit_and, bytes_eq, if◌then◌else◌, ◌+◌, ◌-◌,
}
use epochkv.HashTable.{HashTable, empty, find, insert, del, rehash_step}
use epochkv.HashTable.Valid.{IsValid}
use epochkv.HashTable.Map.{is_some}
use epochkv.HashTable.Laws.{find-rehash_step, find-insert, find-del, empty-IsValid}
use epochkv.Slots.{key_hash_slot, crc16}
use epochkv.Slots.Tags.{key_hash_slot-tagged}

abbrev one : HashTable ℕ
one = (insert (empty {V = ℕ}) (str "k") 7).0

one-IsValid : IsValid one
one-IsValid = (find-insert empty (empty-IsValid ℕ) (str "k") 7).0

find-insert_example :
    IsValid (insert one (str "k") 8).0
    × ((q : Bytes)
        → find (insert one (str "k") 8).0 q ≡ (if bytes_eq (str "k") q then some 8 else find one q))
    × ((insert one (str "k") 8).1 ≡ not (is_some (find one (str "k"))))
    × ((insert one (str "k") 8).0.num_entries
        ≡ (if is_some (find one (str "k")) then one.num_entries else one.num_entries + 1))
find-insert_example = find-insert one one-IsValid (str "k") 8

find-del_example :
    IsValid (del one (str "k")).0
    × ((q : Bytes)
        → find (del one (str "k")).0 q ≡ (if bytes_eq (str "k") q then none else find one q))
    × ((del one (str "k")).1 ≡ is_some (find one (str "k")))
    × ((del one (str "k")).0.num_entries
        ≡ (if is_some (find one (str "k")) then one.num_entries - 1 else one.num_entries))
find-del_example = find-del one one-IsValid (str "k")

find-rehash_step_example :
    IsValid (rehash_step one 2).0
    × ((q : Bytes) → find (rehash_step one 2).0 q ≡ find one q)
    × ((rehash_step one 2).0.num_entries ≡ one.num_entries)
find-rehash_step_example = find-rehash_step one one-IsValid 2

key_hash_slot-tagged_example : key_hash_slot (str "a{b}c") ≡ bit_and (crc16 (str "b")) 16383
unfolding str
key_hash_slot-tagged_example =
    key_hash_slot-tagged (str "a") (str "b") (str "c") (ground arith) (ground arith) (ground arith)
