-- ===== src/Backlog.antt =====
-- include/repl_backlog.hpp and src/repl_backlog.cpp: the circular buffer of the newest bytes of the
-- replication stream. `offset_` is a `uint64_t` that counts all bytes ever fed; it is not wrapped,
-- as a stream of 2 ^ 64 bytes is out of reach.
pub mod Window
pub mod Append
pub mod Copy
use epochkv.Prelude.{
  ℕ, zero, suc, ◌+◌, ◌-◌, ◌%◌, min, max, List, [], ◌∷◌, ◌++◌, Bool, true, false, ◌&&◌, Bytes, ◌==◌,
  leb, ltb, if◌then◌else◌, take, drop, replicate, length,
}

pub record ReplBacklog : Type 0 where
  pub buf : Bytes
  pub write_pos : ℕ
  pub histlen : ℕ
  pub offset : ℕ

unfoldable pub new : ℕ → ReplBacklog
new capacity = record { buf = replicate (max capacity 1) 0; write_pos = 0; histlen = 0; offset = 0 }

abbrev pub capacity : ReplBacklog → ℕ
capacity b = length b.buf

abbrev pub start_offset : ReplBacklog → ℕ
start_offset b = b.offset - b.histlen

-- `buf.replace(pos, n, data, n)`
unfoldable pub replace_at : Bytes → ℕ → Bytes → Bytes
replace_at buf pos piece = take pos buf ++ (piece ++ drop (pos + length piece) buf)

-- The body of the loop of `append`, for the `n` bytes up to the end of the buffer.
unfoldable pub append_piece : ReplBacklog → ℕ → Bytes → ReplBacklog
unfolding replace_at
append_piece b n bytes = record b {
  buf = replace_at b.buf b.write_pos (take n bytes);
  write_pos = (b.write_pos + n) % length b.buf;
  histlen = min (b.histlen + n) (length b.buf);
}

-- The loop of `append`; every round takes a byte at least, so the length of the data is fuel enough.
pub append_loop : ℕ → ReplBacklog → Bytes → ReplBacklog
append_loop zero b bytes = b
append_loop (suc fuel) b [] = b
append_loop (suc fuel) b (x ∷ bytes) =
    let n = min (length (x ∷ bytes)) (length b.buf - b.write_pos) in
    append_loop fuel (append_piece b n (x ∷ bytes)) (drop n (x ∷ bytes))

-- Only the last bytes that the buffer has places for can survive.
unfoldable pub kept_bytes : ℕ → Bytes → Bytes
kept_bytes cap bytes = if ltb cap (length bytes) then drop (length bytes - cap) bytes else bytes

unfoldable pub append : ReplBacklog → Bytes → ReplBacklog
unfolding append_loop append_piece kept_bytes
append b bytes =
    let counted = record b { offset = b.offset + length bytes } in
    let kept = kept_bytes (length b.buf) bytes in append_loop (length kept) counted kept

unfoldable pub reset : ReplBacklog → ℕ → ReplBacklog
reset b at = record b { write_pos = 0; histlen = 0; offset = at }

unfoldable pub contains : ReplBacklog → ℕ → Bool
contains b from = leb (start_offset b) from && leb from b.offset

-- The loop of `copy_from`; every round copies a byte at least.
pub copy_loop : ℕ → Bytes → ℕ → ℕ → Bytes → Bytes
copy_loop zero buf pos len out = out
copy_loop (suc fuel) buf pos len out =
    let n = min len (length buf - pos) in
    let rest =
      copy_loop fuel buf ((pos + n) % length buf) (len - n) (out ++ take n (drop pos buf)) in
    if len == 0 then out else rest

unfoldable pub copy_from : ReplBacklog → ℕ → Bytes → Bytes
unfolding copy_loop
copy_from b from out =
    let len = b.offset - from in
    copy_loop len b.buf ((b.write_pos + length b.buf - len) % length b.buf) len out
