-- ===== src/Snapshot/File.antt =====
-- src/snapshot.cpp: `Writer`, `Reader`, `write_file` and `load_from`, over the bytes of the file.
-- A file that is read is the bytes left of it; a failing `read` or `write` is not modelled.
use epochkv.Prelude.{
  ℕ, zero, suc, ◌+◌, ◌*◌, ◌/◌, ◌%◌, ◌^◌, bit_and, bit_or, List, [], ◌∷◌, ◌++◌, Option, none, some,
  Bool, false, not, Bytes, str, ◌==◌, leb, bytes_eq, if◌then◌else◌, take, drop, length,
}
use epochkv.Prelude.Int.{ℤ, pos, negsuc, ltb_ℤ}
use epochkv.Store
use epochkv.Store.{Store}
use epochkv.Store.Reclaim.{for_each}
use epochkv.Snapshot.{version, op_string, max_varint_bytes, crc32_update, varint}

abbrev pub magic : Bytes
magic = str "KVSNAP"

abbrev pub op_expire_ms : ℕ
op_expire_ms = 0xfc

abbrev pub op_eof : ℕ
op_eof = 0xff

-- `put_fixed`: the bytes of a number, the lowest first.
unfoldable pub fixed : ℕ → ℕ → Bytes
fixed v zero = []
fixed v (suc n) = bit_and v 0xff ∷ fixed (v / 256) n

unfoldable pub put_string : Bytes → Bytes
put_string s = varint (length s) ++ s

-- What `write_file` puts for an entry: nothing when its time has passed.
unfoldable pub put_record : Bytes → Bytes → Bytes
unfolding put_string
put_record key value = op_string ∷ (put_string key ++ put_string value)

unfoldable pub put_entry : ℤ → Bytes → Bytes → ℤ → Bytes
unfolding fixed put_record
put_entry now key value (negsuc n) = put_record key value
put_entry now key value (pos when) =
    if ltb_ℤ now (pos when) then op_expire_ms ∷ (fixed when 8 ++ put_record key value) else []

unfoldable pub put_entries : ℤ → List (Bytes × Bytes × ℤ) → Bytes
unfolding put_entry
put_entries now [] = []
put_entries now ((key, value, when) ∷ es) = put_entry now key value when ++ put_entries now es

-- The file that `write_file` writes.
unfoldable pub write_file : Store → Bytes
unfolding put_entries fixed
write_file s =
    let body = magic ++ (version ∷ (put_entries s.now (for_each s) ++ op_eof ∷ [])) in
    body ++ fixed (crc32_update 0 body) 4

-- The bytes that are left, and the checksum of those that were handed out.
pub record Reader : Type 0 where
  pub rest : Bytes
  pub crc : ℕ

infixl 5 ◌>>=◌
abbrev ◌>>=◌ : {A B : Type 0} → Option A → (A → Option B) → Option B
none >>= f = none
some a >>= f = f a

unfoldable pub get : ℕ → Reader → Option (Bytes × Reader)
get len r =
    let bytes = take len r.rest in
    if leb len (length r.rest)
    then some (bytes, record { rest = drop len r.rest; crc = crc32_update r.crc bytes })
    else none

unfoldable pub get_byte : Reader → Option (ℕ × Reader)
unfolding get
get_byte r = elim (get 1 r) [
  | some (b ∷ bs, r') ↦ some (b, r')
  | some ([], r') ↦ none
  | none ↦ none
]

-- The loop of `get_varint`: the rounds left, the shift `7 * i` and the number so far.
unfoldable pub varint_bytes : ℕ → ℕ → ℕ → Reader → Option (ℕ × Reader)
unfolding get_byte
varint_bytes zero shift v r = none
varint_bytes (suc rounds) shift v r = elim (get_byte r) [
  | none ↦ none
  | some (byte, r') ↦
      let v' = bit_or v (bit_and byte 0x7f * 2 ^ shift % 2 ^ 64) in
      let rest = varint_bytes rounds (shift + 7) v' r' in
      if bit_and byte 0x80 == 0 then some (v', r') else rest
]

unfoldable pub get_varint : Reader → Option (ℕ × Reader)
unfolding varint_bytes
get_varint r = varint_bytes max_varint_bytes 0 0 r

unfoldable pub fixed_value : Bytes → ℕ
fixed_value [] = 0
fixed_value (b ∷ bs) = bit_or b (fixed_value bs * 256)

unfoldable pub get_fixed : ℕ → Reader → Option (ℕ × Reader)
unfolding get fixed_value
get_fixed bytes r = elim (get bytes r) [ none ↦ none | some (tmp, r') ↦ some (fixed_value tmp, r') ]

-- The chunks that a string is read in add up to its length.
unfoldable pub get_string : Reader → Option (Bytes × Reader)
unfolding get get_varint
get_string r = elim (get_varint r) [ none ↦ none | some (len, r') ↦ get len r' ]

pub data LoadError : Type 0 where
  bad_magic truncated corrupt_expire unknown_record checksum_mismatch trailing_data : LoadError
  unsupported_version : ℕ → LoadError

-- The type of a record, behind its deadline, which is negative when its highest bit is set.
pub data Opened : Type 0 where
  opened : ℕ → Option ℕ → Reader → Opened
  not_opened : LoadError → Opened

unfoldable pub open_record : Reader → Opened
unfolding get_byte get_fixed
open_record r = elim (get_byte r) [
  | none ↦ not_opened truncated
  | some (op, r1) ↦ if not (op == op_expire_ms) then opened op none r1 else elim (get_fixed 8 r1) [
    | none ↦ not_opened truncated
    | some (raw, r2) ↦ elim (get_byte r2) [
      | none ↦ not_opened truncated
      | some (op', r3) ↦
          if leb (2 ^ 63) raw then not_opened corrupt_expire else opened op' (some raw) r3
    ]
  ]
]

unfoldable pub has_passed : ℤ → Option ℕ → Bool
has_passed now none = false
has_passed now (some when) = not (ltb_ℤ now (pos when))

-- What a record does with the store.
unfoldable pub load_record : ℤ → Store → Bytes → Bytes → Option ℕ → Store
unfolding has_passed
load_record now s key value when =
    let s' = Store.set s key value false in
    if has_passed now when
    then s
    else elim when [ none ↦ s' | some ms ↦ (Store.set_expire s' key (pos ms)).0 ]

unfoldable pub key_and_value : Reader → Option (Bytes × Bytes × Reader)
unfolding get_string
key_and_value r = do (key, r1) ← get_string r; (value, r2) ← get_string r1; some (key, value, r2)

-- The checks behind the last record.
unfoldable pub close_file : Reader → Option LoadError
unfolding get_fixed
close_file r = elim (get_fixed 4 r) [
  | none ↦ some truncated
  | some (stored, r') ↦
      if not (stored == r.crc)
      then some checksum_mismatch
      else if not (length r'.rest == 0)
      then some trailing_data
      else none
]

-- Whether the record is the end: a deadline of -1 is none.
unfoldable pub is_eof : ℕ → Option ℕ → Bool
is_eof op none = op == op_eof
is_eof op (some when) = false

-- The loop over the records, each of which takes a byte at least from the file.
unfoldable pub load_loop : ℕ → ℤ → Reader → Store → Store × Option LoadError
unfolding open_record key_and_value load_record close_file is_eof
load_loop zero now r s = (s, some truncated)
load_loop (suc fuel) now r s = elim (open_record r) [
  | not_opened e ↦ (s, some e)
  | opened op when r1 ↦
      if is_eof op when
      then (s, close_file r1)
      else if not (op == op_string)
      then (s, some unknown_record)
      else elim (key_and_value r1) [
        | none ↦ (s, some truncated)
        | some (key, value, r2) ↦ load_loop fuel now r2 (load_record now s key value when)
      ]
]

unfoldable pub load_from : Bytes → Store → Store × Option LoadError
unfolding get get_byte load_loop
load_from file s = elim (get 6 (record { rest = file; crc = 0 })) [
  | none ↦ (s, some bad_magic)
  | some (found, r) ↦
      if not (bytes_eq found magic) then (s, some bad_magic) else elim (get_byte r) [
        | none ↦ (s, some truncated)
        | some (v, r') ↦
            if not (v == version)
            then (s, some (unsupported_version v))
            else load_loop (length file) s.now r' s
      ]
]
