-- ===== src/Backlog/Append.antt =====
-- `append`: which bytes are held after it.
use epochkv.Prelude.{
  ℕ, zero, suc, ◌+◌, ◌-◌, ◌≤◌, ◌<◌, ◌≡◌, refl, sym, ◌∙◌, inl, inr, min, [], ◌∷◌, ◌++◌, append_assoc,
  append-nil, Bytes, arith, ltb, Bool-cases, length, take, drop, length-append, length-drop,
  take-append-drop,
}
use epochkv.Prelude.Slices.{drop-append_le, drop-append_ge, drop-drop, drop_all}
use epochkv.Backlog.{ReplBacklog, append_piece, append_loop, append, kept_bytes}
use epochkv.Backlog.Window.{
  linear, window, IsValid, length-linear, length-append_piece, append_piece-IsValid,
  linear-append_piece,
}

-- `r` is `b` after the bytes, no more than the buffer holds, went through it.
record Fed (b : ReplBacklog) (bytes : Bytes) (r : ReplBacklog) : Type 0 where
  valid : IsValid r
  width : length r.buf ≡ length b.buf
  history : r.histlen ≡ min (b.histlen + length bytes) (length b.buf)
  same_offset : r.offset ≡ b.offset
  places : linear r ≡ drop (length bytes) (linear b) ++ bytes

Fed-nil : (b : ReplBacklog) → IsValid b → Fed b [] b
Fed-nil b v = record {
  valid = v;
  width = refl;
  history = omega arith;
  same_offset = refl;
  places = sym (append-nil _);
}

feed_twice :
    (places bytes : Bytes) (n : ℕ)
    → n ≤ length bytes
    → length bytes ≤ length places
    → drop (length bytes - n) (drop n places ++ take n bytes) ++ drop n bytes
      ≡ drop (length bytes) places ++ bytes
feed_twice places bytes n given small =
    let room : length bytes - n ≤ length (drop n places) = rw length-drop (omega arith) in
    let e : n + (length bytes - n) ≡ length bytes = omega arith in
    rw (drop-append_le _ _ (take n bytes) room, drop-drop, e, append_assoc, take-append-drop)

module _ (b : ReplBacklog) (v : IsValid b) (n : ℕ) (bytes : Bytes) where
  module _ (fits : n ≤ length b.buf - b.write_pos) (given : n ≤ length bytes) where
    piece_then_rest :
        (r : ReplBacklog)
        → length bytes ≤ length b.buf
        → Fed (append_piece b n bytes) (drop n bytes) r
        → Fed b bytes r
    piece_then_rest r small f =
        let left : length (drop n bytes) ≡ length bytes - n = length-drop n bytes in
        let width : length r.buf ≡ length b.buf =
          f.width ∙ length-append_piece b v n bytes fits given in
        record {
          valid = f.valid;
          width = width;
          history =
              unfold append_piece in
              omega (arith, f.history, length-append_piece b v n bytes fits given);
          same_offset = f.same_offset ∙ (unfold append_piece in refl);
          places =
              f.places
              ∙ rw (left, linear-append_piece b v n bytes fits given)
                  (feed_twice (linear b) bytes n given (rw (length-linear b v) small));
        }

append_loop-Fed :
    (fuel : ℕ) (b : ReplBacklog) (bytes : Bytes)
    → IsValid b
    → length bytes ≤ fuel
    → length bytes ≤ length b.buf
    → b.histlen + length bytes ≤ b.offset
    → Fed b bytes (append_loop fuel b bytes)
unfolding append_loop
append_loop-Fed zero b [] v enough small counted = Fed-nil b v
append_loop-Fed zero b (x ∷ bytes) v enough small counted = absurd (omega arith)
append_loop-Fed (suc fuel) b [] v enough small counted = Fed-nil b v
append_loop-Fed (suc fuel) b (x ∷ bytes) v enough small counted =
    let n = min (length (x ∷ bytes)) (length b.buf - b.write_pos) in
    let fits : n ≤ length b.buf - b.write_pos = omega arith in
    let given : n ≤ length (x ∷ bytes) = omega arith in
    let left : length (drop n (x ∷ bytes)) ≡ length (x ∷ bytes) - n = length-drop n (x ∷ bytes) in
    let some_room : 0 < length b.buf - b.write_pos = omega (arith, v.inside) in
    let next = append_piece-IsValid b v n (x ∷ bytes) fits given (omega arith) in
    piece_then_rest b v n (x ∷ bytes) fits given _ small (
      append_loop-Fed fuel (append_piece b n (x ∷ bytes)) (drop n (x ∷ bytes)) next
        (rw left (omega arith))
        (rw (left, length-append_piece b v n (x ∷ bytes) fits given) (omega arith))
        (unfold append_piece in rw left (omega arith)))

-- The newest bytes of a stream that fit the buffer.
abbrev pub newest : ℕ → Bytes → Bytes
newest cap stream = drop (length stream - cap) stream

kept_bytes-newest : (cap : ℕ) (bytes : Bytes) → kept_bytes cap bytes ≡ newest cap bytes
unfolding kept_bytes
kept_bytes-newest cap bytes = elim (Bool-cases (ltb cap (length bytes))) [
  | inl long ↦ rw long
  | inr short ↦ let e : length bytes - cap ≡ 0 = ground arith in rw (short, e)
]

length-newest : (cap : ℕ) (bytes : Bytes) → length (newest cap bytes) ≡ min cap (length bytes)
length-newest cap bytes = rw length-drop (omega arith)

module _ (places bytes : Bytes) (held : ℕ) (fits : held ≤ length places) where
  abbrev cap : ℕ
  cap = length places

  abbrev old : Bytes
  old = drop (cap - held) places

  length-old : length old ≡ held
  length-old = rw length-drop (omega arith)

  all_held :
      held + length bytes ≤ cap
      → drop (cap - (held + length bytes)) (drop (length bytes) places ++ bytes) ≡ old ++ bytes
  all_held h =
      let room : cap - (held + length bytes) ≤ length (drop (length bytes) places) =
        rw length-drop (omega arith) in
      let e : length bytes + (cap - (held + length bytes)) ≡ cap - held = omega arith in
      rw (drop-append_le _ _ bytes room, drop-drop, e)

  some_lost :
      cap ≤ held + length bytes
      → length bytes ≤ cap
      → drop (length bytes) places ++ bytes ≡ drop (held + length bytes - cap) (old ++ bytes)
  some_lost h k =
      let room : held + length bytes - cap ≤ length old = rw length-old (omega arith) in
      let e : cap - held + (held + length bytes - cap) ≡ length bytes = omega arith in
      rw (drop-append_le _ _ bytes room, drop-drop, e)

  old_lost :
      cap ≤ length bytes
      → drop (held + length bytes - cap) (old ++ bytes) ≡ drop (length bytes - cap) bytes
  old_lost k =
      let room : length old ≤ held + length bytes - cap = rw length-old (omega arith) in
      let e : held + length bytes - cap - held ≡ length bytes - cap = omega arith in
      rw (drop-append_ge _ _ bytes room, length-old, e)

  short_case :
      length bytes ≤ cap
      → drop (cap - min (held + length bytes) cap) (drop (length bytes) places ++ bytes)
        ≡ drop (held + length bytes - cap) (old ++ bytes)
  short_case k = elim (Bool-cases (ltb cap (held + length bytes))) [
    | inl over ↦
        let e : cap - min (held + length bytes) cap ≡ 0 = ground arith in
        rw e (some_lost (ground arith) k)
    | inr under ↦
        let e : min (held + length bytes) cap ≡ held + length bytes = ground arith in
        let e' : held + length bytes - cap ≡ 0 = ground arith in
        rw (e, e') (all_held (ground arith))
  ]

  newest_places :
      drop
        (cap - min (held + length (newest cap bytes)) cap)
        (drop (length (newest cap bytes)) places ++ newest cap bytes)
      ≡ newest cap (old ++ bytes)
  newest_places = elim (Bool-cases (ltb cap (length bytes))) [
    | inl long ↦
        let size : length (newest cap bytes) ≡ cap = rw length-newest (ground arith) in
        let e : cap - min (held + cap) cap ≡ 0 = omega arith in
        rw (length-append, length-old, size, e, drop_all cap places (omega arith))
          (sym (old_lost (ground arith)))
    | inr short ↦
        let same : newest cap bytes ≡ bytes =
          (let e : length bytes - cap ≡ 0 = ground arith in rw e) in
        rw (length-append, length-old, same) (short_case (ground arith))
  ]

held_after :
    (b : ReplBacklog)
    → IsValid b
    → (bytes : Bytes) {r : ReplBacklog}
    → Fed (record b { offset = b.offset + length bytes }) (newest (length b.buf) bytes) r
    → window r ≡ newest (length b.buf) (window b ++ bytes)
unfolding window
held_after b v bytes {r = r} fed =
    let width = length-linear b v in
    rw (fed.width, fed.history, fed.places)
      (rw width at (newest_places (linear b) bytes b.histlen (rw width v.held)))

module _ (b : ReplBacklog) (v : IsValid b) where
  -- `append` counts every byte, stays well formed, and holds the newest bytes of what was held
  -- followed by the data, as many as the buffer has places.
  pub window-append :
      (bytes : Bytes)
      → IsValid (append b bytes)
        × ((append b bytes).offset ≡ b.offset + length bytes)
        × (window (append b bytes) ≡ newest (length b.buf) (window b ++ bytes))
  unfolding append
  window-append bytes =
      let kept = newest (length b.buf) bytes in
      let counted = record b { offset = b.offset + length bytes } in
      let size = length-newest (length b.buf) bytes in
      let fed =
        append_loop-Fed (length kept) counted kept
          (record { room = v.room; inside = v.inside; held = v.held; counted = omega arith })
          (omega arith) (rw size (omega arith)) (rw size (omega arith)) in
      rw kept_bytes-newest (fed.valid, fed.same_offset, held_after b v bytes fed)
