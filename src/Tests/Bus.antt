-- ===== src/Tests/Bus.antt =====
-- src/cluster_msg.cpp at the bitmap of the even slots.
use epochkv.Prelude.{ℕ, ◌≡◌, ◌%◌, some, ◌==◌, ltb, ◌&&◌}
use epochkv.ClusterMsg.{SlotBitmap, slots_to_bytes, slots_from_bytes, slot_count}
use epochkv.ClusterMsg.Bitmap.{slots_from_bytes-slots_to_bytes}

abbrev even_slots : SlotBitmap
even_slots slot = slot % 2 == 0

slots_from_bytes-slots_to_bytes_example :
    (read : SlotBitmap) × (slots_from_bytes (slots_to_bytes even_slots) ≡ some read)
    × ((slot : ℕ) → read slot ≡ (ltb slot slot_count && even_slots slot))
slots_from_bytes-slots_to_bytes_example = slots_from_bytes-slots_to_bytes even_slots
