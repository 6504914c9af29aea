-- ===== src/Slots.antt =====
-- include/cluster_slot.hpp and src/cluster_slot.cpp: the hash slot of a key.
-- A `uint16_t` is a number below 2 ^ 16; the casts are written out as `% 2 ^ 16`.
pub mod Tags
use epochkv.Prelude.{
  ℕ, zero, suc, ◌+◌, ◌-◌, ◌*◌, ◌/◌, ◌%◌, ◌^◌, bit_and, bit_xor, List, [], ◌∷◌, Bool, true, false,
  Option, none, some, Bytes, ◌==◌, if◌then◌else◌, take, drop, get_or, length,
}

abbrev pub slots : ℕ
slots = 16384

-- One of the eight steps that fill an entry of the table.
pub crc_bit : ℕ → ℕ
crc_bit crc =
    if bit_and crc 0x8000 == 0 then crc * 2 % 2 ^ 16 else bit_xor (crc * 2) 0x1021 % 2 ^ 16

crc_bits : ℕ → ℕ → ℕ
crc_bits zero crc = crc
crc_bits (suc n) crc = crc_bits n (crc_bit crc)

-- `table[i]`
pub crc_entry : ℕ → ℕ
unfolding crc_bit crc_bits
crc_entry i = crc_bits 8 (i * 256 % 2 ^ 16)

pub crc_step : ℕ → ℕ → ℕ
unfolding crc_entry
crc_step crc b = bit_xor (crc * 256) (crc_entry (bit_and (bit_xor (crc / 256) b) 0xff)) % 2 ^ 16

crc_loop : ℕ → Bytes → ℕ
unfolding crc_step
crc_loop crc [] = crc
crc_loop crc (b ∷ bs) = crc_loop (crc_step crc b) bs

unfoldable pub crc16 : Bytes → ℕ
unfolding crc_loop
crc16 key = crc_loop 0 key

-- `find(c)` of a string view: the first position of the byte.
unfoldable pub index_of : ℕ → Bytes → Option ℕ
index_of c [] = none
index_of c (b ∷ bs) =
    if b == c then some 0 else elim (index_of c bs) [ none ↦ none | some i ↦ some (suc i) ]

-- `find(c, from)`
unfoldable pub find_from : ℕ → Bytes → ℕ → Option ℕ
unfolding index_of
find_from c key from = elim (index_of c (drop from key)) [ none ↦ none | some i ↦ some (from + i) ]

-- The bytes that are hashed: a non-empty "{tag}", or the whole key.
pub hashed_part : Bytes → Bytes
unfolding find_from
hashed_part key = elim (find_from b'{' key 0) [
  | none ↦ key
  | some open_at ↦ elim (find_from b'}' key (open_at + 1)) [
    | none ↦ key
    | some close_at ↦
        if close_at == open_at + 1
        then key
        else take (close_at - open_at - 1) (drop (open_at + 1) key)
  ]
]

unfoldable pub key_hash_slot : Bytes → ℕ
unfolding hashed_part crc16
key_hash_slot key = bit_and (crc16 (hashed_part key)) (slots - 1)
