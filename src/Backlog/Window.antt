-- ===== src/Backlog/Window.antt =====
-- What the circular buffer stands for: the bytes that it still holds, oldest first.
use epochkv.Prelude.{
  ℕ, ◌+◌, ◌-◌, ◌%◌, ◌≤◌, ◌<◌, ◌≡◌, [], ◌++◌, Bytes, arith, length, take, drop, length-append,
  length-take, length-drop, append-nil, ltb, ltb→lt, Bool-cases, inl, inr, sym, append_assoc,
}
use epochkv.Prelude.Slices.{
  drop-append_le, drop-append_exact, take-append_exact, drop-drop, drop_all,
}
use native.Mathlib.Nat.{mod-eq_of_lt, mod_self}
use epochkv.Backlog.{ReplBacklog, replace_at, append_piece}

-- All places of the buffer, from the one that is overwritten next.
abbrev pub linear : ReplBacklog → Bytes
linear b = drop b.write_pos b.buf ++ take b.write_pos b.buf

unfoldable pub window : ReplBacklog → Bytes
window b = drop (length b.buf - b.histlen) (linear b)

pub record IsValid (b : ReplBacklog) : Type 0 where
  pub room : 0 < length b.buf
  pub inside : b.write_pos < length b.buf
  pub held : b.histlen ≤ length b.buf
  pub counted : b.histlen ≤ b.offset

pub length-linear : (b : ReplBacklog) → IsValid b → length (linear b) ≡ length b.buf
length-linear b v = rw length-append (rw (length-take, length-drop) (omega arith))

pub length-window : (b : ReplBacklog) → IsValid b → length (window b) ≡ b.histlen
unfolding window
length-window b v = rw length-drop (rw (length-linear b v) (omega arith))

-- Writing a piece in place, up to the end at most, drops as many of the oldest places and adds the
-- piece behind the newest.
module _ (piece buf : Bytes) (p n : ℕ) (size : length piece ≡ n) where
  abbrev after : Bytes
  after = take p buf ++ (piece ++ drop (p + n) buf)

  module _ (inside : p < length buf) where
    front : length (take p buf ++ piece) ≡ p + n
    front = rw length-append (rw length-take (omega arith))

    back : n ≤ length buf - p → drop n (drop p buf ++ take p buf) ≡ drop (p + n) buf ++ take p buf
    back fits =
        let room : n ≤ length (drop p buf) = rw length-drop fits in
        rw (drop-append_le n (drop p buf) (take p buf) room, drop-drop)

    inner : drop (p + n) after ++ take (p + n) after ≡ drop (p + n) buf ++ (take p buf ++ piece)
    inner =
        let e : after ≡ (take p buf ++ piece) ++ drop (p + n) buf =
          sym (append_assoc (take p buf) piece (drop (p + n) buf)) in
        rw e (rw (drop-append_exact _ _ _ front, take-append_exact _ _ _ front))

    outer : p + n ≡ length buf → after ≡ drop (p + n) buf ++ (take p buf ++ piece)
    outer full =
        let none_left : drop (p + n) buf ≡ [] = drop_all (p + n) buf (omega arith) in
        rw none_left (rw append-nil)

    written :
        n ≤ length buf - p
        → drop ((p + n) % length buf) after ++ take ((p + n) % length buf) after
          ≡ drop n (drop p buf ++ take p buf) ++ piece
    written fits = elim (Bool-cases (ltb (p + n) (length buf))) [
      | inl more ↦
          let e : (p + n) % length buf ≡ p + n = mod-eq_of_lt (ltb→lt _ _ more) in
          rw (e, back fits, append_assoc (drop (p + n) buf)) inner
      | inr end ↦
          let full : p + n ≡ length buf = ground arith in
          let e : (p + n) % length buf ≡ 0 = rw full (mod_self (length buf)) in
          rw (e, back fits, append_assoc (drop (p + n) buf), append-nil) (outer full)
    ]

module _ (b : ReplBacklog) (v : IsValid b) (n : ℕ) (bytes : Bytes) where
  module _ (fits : n ≤ length b.buf - b.write_pos) (given : n ≤ length bytes) where
    pub length-append_piece : length (append_piece b n bytes).buf ≡ length b.buf
    unfolding append_piece replace_at
    length-append_piece = simp (length-append, length-take, length-drop) (omega arith)

    pub append_piece-IsValid : b.histlen + n ≤ b.offset → IsValid (append_piece b n bytes)
    unfolding append_piece
    append_piece-IsValid h = record {
      room = rw length-append_piece v.room;
      inside = rw length-append_piece (ground arith);
      held = rw length-append_piece (omega arith);
      counted = omega arith;
    }

    pub linear-append_piece : linear (append_piece b n bytes) ≡ drop n (linear b) ++ take n bytes
    unfolding append_piece replace_at
    linear-append_piece =
        let size : length (take n bytes) ≡ n = rw length-take (omega arith) in
        rw (size, replace_at) (written (take n bytes) b.buf b.write_pos n size v.inside fits)
