-- ===== src/ClusterMsg/Bitmap.antt =====
-- src/cluster_msg.cpp: `slots_from_bytes` reads what `slots_to_bytes` wrote.
use epochkv.Prelude.{
  ℕ, zero, suc, ◌+◌, ◌*◌, ◌/◌, ◌%◌, ◌^◌, ◌<◌, ◌≡◌, refl, some, Bool, true, false, Bytes, arith,
  ◌==◌, ltb, ◌&&◌, if◌then◌else◌, get_or, length, Bool-cases, inl, inr,
}
use epochkv.ClusterMsg.{
  SlotBitmap, slot_byte, bytes_loop, slots_to_bytes, bit_set, slots_from_bytes, slot_count,
  slot_bytes,
}

length-bytes_loop : (slots : SlotBitmap) (i n : ℕ) → length (bytes_loop slots i n) ≡ n
unfolding bytes_loop
length-bytes_loop slots i zero = refl
length-bytes_loop slots i (suc n) = omega (arith, length-bytes_loop slots (i + 1) n)

get_or-bytes_loop :
    (slots : SlotBitmap) (i n k : ℕ)
    → k < n
    → get_or (bytes_loop slots i n) k 0 ≡ slot_byte slots (i + k) 8
unfolding bytes_loop
get_or-bytes_loop slots i zero k h = absurd (omega arith)
get_or-bytes_loop slots i (suc n) zero h = let e : i + 0 ≡ i = omega arith in rw e
get_or-bytes_loop slots i (suc n) (suc k) h =
    let e : i + suc k ≡ i + 1 + k = omega arith in
    rw e (get_or-bytes_loop slots (i + 1) n k (omega arith))

-- The value of a bit.
abbrev bit_value : Bool → ℕ
bit_value true = 1
bit_value false = 0

bit_value-eq : (b : Bool) → (bit_value b == 1) ≡ b
bit_value-eq true = refl
bit_value-eq false = refl

bit_weight : (b : Bool) (w : ℕ) → (if b then w else 0) ≡ bit_value b * w
bit_weight true w = omega arith
bit_weight false w = omega arith

bit_value-lt : (b : Bool) → bit_value b < 2
bit_value-lt true = omega arith
bit_value-lt false = omega arith

module _ (slots : SlotBitmap) (i : ℕ) where
  abbrev bit : ℕ → ℕ
  bit b = bit_value (slots (8 * i + b))

  bit-lt : (b : ℕ) → bit b < 2
  bit-lt b = bit_value-lt (slots (8 * i + b))

  slot_byte-sum :
      slot_byte slots i 8
      ≡ bit 7 * 128
        + (bit 6 * 64
            + (bit 5 * 32 + (bit 4 * 16 + (bit 3 * 8 + (bit 2 * 4 + (bit 1 * 2 + bit 0))))))
  unfolding slot_byte
  slot_byte-sum = omega (
    arith,
    bit_weight (slots (8 * i + 7)) 128,
    bit_weight (slots (8 * i + 6)) 64,
    bit_weight (slots (8 * i + 5)) 32,
    bit_weight (slots (8 * i + 4)) 16,
    bit_weight (slots (8 * i + 3)) 8,
    bit_weight (slots (8 * i + 2)) 4,
    bit_weight (slots (8 * i + 1)) 2,
    bit_weight (slots (8 * i + 0)) 1,
  )

  bit_at :
      (d b : ℕ)
      → slot_byte slots i 8 / d % 2 ≡ bit b
      → (slot_byte slots i 8 / d % 2 == 1) ≡ slots (8 * i + b)
  bit_at d b e = rw e (bit_value-eq (slots (8 * i + b)))

  slot_byte-bit : (b : ℕ) → b < 8 → (slot_byte slots i 8 / 2 ^ b % 2 == 1) ≡ slots (8 * i + b)
  slot_byte-bit zero h = bit_at 1 0 (omega (arith, slot_byte-sum, bit-lt 0))
  slot_byte-bit (suc zero) h = bit_at 2 1 (omega (arith, slot_byte-sum, bit-lt 0, bit-lt 1))
  slot_byte-bit (suc (suc zero)) h =
      bit_at 4 2 (omega (arith, slot_byte-sum, bit-lt 0, bit-lt 1, bit-lt 2))
  slot_byte-bit (suc (suc (suc zero))) h =
      bit_at 8 3 (omega (arith, slot_byte-sum, bit-lt 0, bit-lt 1, bit-lt 2, bit-lt 3))
  slot_byte-bit (suc (suc (suc (suc zero)))) h =
      bit_at 16 4 (omega (arith, slot_byte-sum, bit-lt 0, bit-lt 1, bit-lt 2, bit-lt 3, bit-lt 4))
  slot_byte-bit (suc (suc (suc (suc (suc zero))))) h =
      bit_at 32 5
        (omega (arith, slot_byte-sum, bit-lt 0, bit-lt 1, bit-lt 2, bit-lt 3, bit-lt 4, bit-lt 5))
  slot_byte-bit (suc (suc (suc (suc (suc (suc zero)))))) h = bit_at 64 6 (
      omega (
        arith,
        slot_byte-sum,
        bit-lt 0,
        bit-lt 1,
        bit-lt 2,
        bit-lt 3,
        bit-lt 4,
        bit-lt 5,
        bit-lt 6,
      ))
  slot_byte-bit (suc (suc (suc (suc (suc (suc (suc zero))))))) h = bit_at 128 7 (
      omega (
        arith,
        slot_byte-sum,
        bit-lt 0,
        bit-lt 1,
        bit-lt 2,
        bit-lt 3,
        bit-lt 4,
        bit-lt 5,
        bit-lt 6,
        bit-lt 7,
      ))
  slot_byte-bit (suc (suc (suc (suc (suc (suc (suc (suc b)))))))) h = absurd (omega arith)

bit_set-slots_to_bytes :
    (slots : SlotBitmap) (slot : ℕ)
    → slot < slot_count
    → bit_set (slots_to_bytes slots) slot ≡ slots slot
unfolding bit_set slots_to_bytes
bit_set-slots_to_bytes slots slot h =
    let e : 8 * (0 + slot / 8) + slot % 8 ≡ slot = omega arith in
    rw (get_or-bytes_loop slots 0 slot_bytes (slot / 8) (omega arith))
      (rw e at (slot_byte-bit slots (0 + slot / 8) (slot % 8) (omega arith)))

length-slots_to_bytes : (slots : SlotBitmap) → length (slots_to_bytes slots) ≡ slot_bytes
unfolding slots_to_bytes
length-slots_to_bytes slots = length-bytes_loop slots 0 slot_bytes

-- Bytes of the right length that hold the bits are read as the bitmap.
read_bits :
    (bytes : Bytes) (slots : SlotBitmap)
    → length bytes ≡ slot_bytes
    → ((slot : ℕ) → slot < slot_count → bit_set bytes slot ≡ slots slot)
    → (read : SlotBitmap) × (slots_from_bytes bytes ≡ some read)
      × ((slot : ℕ) → read slot ≡ (ltb slot slot_count && slots slot))
unfolding slots_from_bytes
read_bits bytes slots size bits = (
  λ slot. ltb slot slot_count && bit_set bytes slot,
  rw size,
  λ slot. elim (Bool-cases (ltb slot slot_count)) [
    | inl small ↦ rw (small, bits slot (ground arith))
    | inr large ↦ rw large
  ],
)

-- Every bitmap survives the bytes that carry it: each of the 16384 slots is read as it was written,
-- and no other slot is in what is read.
pub slots_from_bytes-slots_to_bytes :
    (slots : SlotBitmap)
    → (read : SlotBitmap) × (slots_from_bytes (slots_to_bytes slots) ≡ some read)
      × ((slot : ℕ) → read slot ≡ (ltb slot slot_count && slots slot))
slots_from_bytes-slots_to_bytes slots =
    read_bits (slots_to_bytes slots) slots (length-slots_to_bytes slots)
      (bit_set-slots_to_bytes slots)
