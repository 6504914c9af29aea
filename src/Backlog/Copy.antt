-- ===== src/Backlog/Copy.antt =====
-- `copy_from`: which bytes a partial resync sends.
use epochkv.Prelude.{
  ℕ, zero, suc, ◌+◌, ◌-◌, ◌%◌, ◌≤◌, ◌<◌, ◌≡◌, refl, sym, ◌∙◌, subst, inl, inr, min, true, false,
  ◌++◌, append_assoc, append-nil, Bytes, arith, ◌==◌, leb, Bool-cases, length, take, drop,
  length-drop,
}
use native.Mathlib.Nat.{mod-eq_of_lt, add-mod_right, mod_self}
use epochkv.Prelude.Slices.{drop-append_le, drop-append_ge, drop-take, drop-drop, take_all}
use epochkv.Backlog.{ReplBacklog, start_offset, contains, copy_loop, copy_from}
use epochkv.Backlog.Window.{window, IsValid}

copy_loop_done :
    (fuel : ℕ) (buf : Bytes) (pos : ℕ) (out : Bytes) → copy_loop fuel buf pos 0 out ≡ out
unfolding copy_loop
copy_loop_done zero buf pos out = refl
copy_loop_done (suc fuel) buf pos out = refl

-- One round is enough where the bytes do not wrap.
copy_loop_straight :
    (fuel : ℕ) (buf : Bytes) (pos len : ℕ) (out : Bytes)
    → len ≤ fuel
    → len ≤ length buf - pos
    → copy_loop fuel buf pos len out ≡ out ++ take len (drop pos buf)
unfolding copy_loop
copy_loop_straight zero buf pos zero out enough fits = sym (append-nil _)
copy_loop_straight zero buf pos (suc len) out enough fits = absurd (omega arith)
copy_loop_straight (suc fuel) buf pos zero out enough fits = sym (append-nil _)
copy_loop_straight (suc fuel) buf pos (suc len) out enough fits =
    let n : min (suc len) (length buf - pos) ≡ suc len = omega arith in
    let e : suc len - suc len ≡ 0 = omega arith in
    let more : (suc len == 0) ≡ false = ground arith in
    rw (n, e, more) (copy_loop_done fuel buf _ _)

-- Two rounds are enough where they do.
copy_loop_wrapped :
    (fuel : ℕ) (buf : Bytes) (pos len : ℕ) (out : Bytes)
    → len ≤ fuel
    → pos < length buf
    → length buf - pos ≤ len
    → len ≤ length buf
    → copy_loop fuel buf pos len out
      ≡ out ++ (take (length buf - pos) (drop pos buf) ++ take (len - (length buf - pos)) buf)
unfolding copy_loop
copy_loop_wrapped zero buf pos len out enough inside wraps fits = absurd (omega arith)
copy_loop_wrapped (suc fuel) buf pos zero out enough inside wraps fits = absurd (omega arith)
copy_loop_wrapped (suc fuel) buf pos (suc len) out enough inside wraps fits =
    let n : min (suc len) (length buf - pos) ≡ length buf - pos = omega arith in
    let turn : pos + (length buf - pos) ≡ length buf = omega arith in
    let more : (suc len == 0) ≡ false = ground arith in
    rw (n, turn, mod_self, more)
      (copy_loop_straight fuel buf 0 (suc len - (length buf - pos))
          (out ++ take (length buf - pos) (drop pos buf)) (omega arith) (omega arith)
        ∙ append_assoc out _ _)

module _ (buf : Bytes) (p len : ℕ) (inside : p < length buf) (fits : len ≤ length buf) where
  -- The newest `len` bytes, which end before the place that is written next.
  copied :
      (out : Bytes)
      → copy_loop len buf ((p + length buf - len) % length buf) len out
        ≡ out ++ drop (length buf - len) (drop p buf ++ take p buf)
  copied out = elim (Bool-cases (leb len p)) [
    | inl straight ↦
        let le : len ≤ p = ground arith in
        let at : p + length buf - len ≡ p - len + length buf = omega arith in
        let small : p - len < length buf = omega arith in
        let room : length (drop p buf) ≤ length buf - len = rw length-drop (omega arith) in
        let rest : length buf - len - (length buf - p) ≡ p - len = omega arith in
        let split : p ≡ p - len + len = omega arith in
        let cut : drop (p - len) (take p buf) ≡ take len (drop (p - len) buf) =
          subst (λ x. drop (p - len) (take x buf) ≡ take len (drop (p - len) buf)) (sym split)
            (drop-take (p - len) len buf) in
        rw
          (
            at,
            add-mod_right,
            mod-eq_of_lt small,
            drop-append_ge _ _ (take p buf) room,
            length-drop p buf,
            rest,
            cut,
          )
          (copy_loop_straight len buf (p - len) len out (omega arith) (omega arith))
    | inr wraps ↦
        let gt : p < len = ground arith in
        let small : p + length buf - len < length buf = omega arith in
        let room : length buf - len ≤ length (drop p buf) = rw length-drop (omega arith) in
        let at : p + (length buf - len) ≡ p + length buf - len = omega arith in
        let all : take (length buf - (p + length buf - len)) (drop (p + length buf - len) buf)
            ≡ drop (p + length buf - len) buf =
          take_all _ _ (rw length-drop (omega arith)) in
        let rest : len - (length buf - (p + length buf - len)) ≡ p = omega arith in
        rw (mod-eq_of_lt small, drop-append_le _ _ (take p buf) room, drop-drop, at)
          (rw (all, rest) at
            (copy_loop_wrapped len buf (p + length buf - len) len out (omega arith) small
              (omega arith) fits))
  ]

-- From an offset that a well-formed backlog still holds, a replica gets exactly the held bytes of the
-- stream from there on.
pub copy_from-window :
    (b : ReplBacklog) (from : ℕ) (out : Bytes)
    → IsValid b
    → contains b from ≡ true
    → copy_from b from out ≡ out ++ drop (from - start_offset b) (window b)
unfolding copy_from window contains
copy_from-window b from out v h =
    let lo : b.offset - b.histlen ≤ from = ground arith in
    let hi : from ≤ b.offset = ground arith in
    let e : length b.buf - b.histlen + (from - (b.offset - b.histlen))
        ≡ length b.buf - (b.offset - from) =
      omega arith in
    rw (drop-drop, e) (copied b.buf b.write_pos (b.offset - from) v.inside (omega arith) out)
