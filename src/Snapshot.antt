-- ===== src/Snapshot.antt =====
-- src/snapshot.cpp, `dump_value` and `restore_value`: the payload of DUMP and RESTORE, and the CRC-32
-- that protects it. A `uint32_t` is a number below 2 ^ 32.
pub mod File
use epochkv.Prelude.{
  ℕ, zero, suc, ◌+◌, ◌-◌, ◌*◌, ◌/◌, ◌%◌, ◌^◌, bit_and, bit_or, bit_xor, List, [], ◌∷◌, ◌++◌, Option,
  none, some, Bool, true, false, not, ◌&&◌, ◌||◌, Bytes, ◌==◌, ltb, if◌then◌else◌, take, drop,
  get_or, length,
}

abbrev pub version : ℕ
version = 1

abbrev pub op_string : ℕ
op_string = 0

abbrev pub max_varint_bytes : ℕ
max_varint_bytes = 10

-- One of the eight steps that fill an entry of the table.
unfoldable pub crc_bit : ℕ → ℕ
crc_bit c = if bit_and c 1 == 1 then bit_xor 0xEDB88320 (c / 2) else c / 2

unfoldable pub crc_bits : ℕ → ℕ → ℕ
unfolding crc_bit
crc_bits zero c = c
crc_bits (suc n) c = crc_bits n (crc_bit c)

unfoldable pub crc_entry : ℕ → ℕ
unfolding crc_bits
crc_entry i = crc_bits 8 i

unfoldable pub crc_loop : ℕ → Bytes → ℕ
unfolding crc_entry
crc_loop crc [] = crc
crc_loop crc (b ∷ bs) = crc_loop (bit_xor (crc_entry (bit_and (bit_xor crc b) 0xff)) (crc / 256)) bs

-- `~x` of a 32-bit number.
unfoldable pub complement : ℕ → ℕ
complement x = bit_xor x 0xffffffff

unfoldable pub crc32_update : ℕ → Bytes → ℕ
unfolding crc_loop complement
crc32_update crc bytes = complement (crc_loop (complement crc) bytes)

-- The loop that writes a length in groups of seven bits. A 64-bit number has ten groups at most.
unfoldable pub varint_loop : ℕ → ℕ → Bytes
varint_loop zero len = []
varint_loop (suc fuel) len =
    let rest = varint_loop fuel (len / 128) in
    let byte = bit_and len 0x7f in if len / 128 == 0 then byte ∷ [] else bit_or byte 0x80 ∷ rest

unfoldable pub varint : ℕ → Bytes
unfolding varint_loop
varint len = varint_loop max_varint_bytes len

-- The four bytes of a checksum, the lowest first.
unfoldable pub crc_bytes : ℕ → Bytes
crc_bytes crc =
    bit_and crc 0xff
    ∷ bit_and (crc / 2 ^ 8) 0xff
    ∷ bit_and (crc / 2 ^ 16) 0xff
    ∷ bit_and (crc / 2 ^ 24) 0xff
    ∷ []

unfoldable pub dump_value : Bytes → Bytes
unfolding varint crc_bytes crc32_update
dump_value value =
    let payload = op_string ∷ (varint (length value) ++ (value ++ (version ∷ 0 ∷ []))) in
    payload ++ crc_bytes (crc32_update 0 payload)

unfoldable pub stored_crc : Bytes → ℕ → ℕ
stored_crc payload body =
    bit_or
      (bit_or (bit_or (get_or payload body 0) (get_or payload (body + 1) 0 * 2 ^ 8))
        (get_or payload (body + 2) 0 * 2 ^ 16))
      (get_or payload (body + 3) 0 * 2 ^ 24)

-- The loop that reads the length: the rounds left, the position, the shift `7 * i` and the number
-- so far, which wraps as a `uint64_t`. It gives the length and the position behind it.
unfoldable pub read_varint : ℕ → Bytes → ℕ → ℕ → ℕ → ℕ → Option (ℕ × ℕ)
read_varint zero payload body pos shift len = none
read_varint (suc rounds) payload body pos shift len =
    let byte = get_or payload pos 0 in
    let len' = bit_or len (bit_and byte 0x7f * 2 ^ shift % 2 ^ 64) in
    let rest = read_varint rounds payload body (pos + 1) (shift + 7) len' in
    if pos == body - 2 then none else if bit_and byte 0x80 == 0 then some (len', pos + 1) else rest

unfoldable pub restore_value : Bytes → Option Bytes
unfolding stored_crc crc32_update read_varint
restore_value payload =
    let body = length payload - 4 in
    if ltb (length payload) 8
    then none
    else if not (stored_crc payload body == crc32_update 0 (take body payload))
    then none
    else if not (get_or payload (body - 2) 0 == version)
        || not (get_or payload (body - 1) 0 == 0)
        || not (get_or payload 0 0 == op_string)
    then none
    else elim (read_varint max_varint_bytes payload body 1 0 0) [
      | none ↦ none
      | some (len, pos) ↦
          if not (len == body - 2 - pos) then none else some (take len (drop pos payload))
    ]
