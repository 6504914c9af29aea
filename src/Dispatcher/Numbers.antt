-- ===== src/Dispatcher/Numbers.antt =====
-- src/command_dispatcher.cpp: the integers that the commands read are those that they write.
use epochkv.Prelude.{
  ℕ, zero, suc, ◌+◌, ◌-◌, ◌*◌, ◌/◌, ◌%◌, ◌^◌, ◌<◌, ◌≤◌, ◌≡◌, [], ◌∷◌, some, true, false, Bytes,
  arith, ◌==◌, ltb, length, bytes_eq_refl,
}
use epochkv.Prelude.Int.{ℤ, pos, negsuc}
use epochkv.Prelude.Decimal.{
  to_string, to_string_ℕ, digits_loop, digits_loop_read, AreDigits, to_string_ℕ-AreDigits,
}
use epochkv.Dispatcher.{
  digits_value, unsigned_value, parse_int64, parse_canonical_int64, in_int64, negate,
}

digits_value_step :
    (limit v d : ℕ) (cs : Bytes)
    → d < 10
    → v * 10 + d < suc limit
    → digits_value limit v ((48 + d) ∷ cs) ≡ digits_value limit (v * 10 + d) cs
unfolding digits_value
digits_value_step limit v d cs h k =
    let low : ltb (48 + d) b'0' ≡ false = ground arith in
    let high : ltb b'9' (48 + d) ≡ false = ground arith in
    let e : v * 10 + (48 + d - b'0') ≡ v * 10 + d = omega arith in
    let small : ltb limit (v * 10 + d) ≡ false = ground arith in
    rw (low, high, e, small, digits_value)

digits_value-to_string : (limit n : ℕ) → n ≤ limit → digits_value limit 0 (to_string_ℕ n) ≡ some n
unfolding to_string_ℕ digits_value
digits_value-to_string limit n h =
    digits_loop_read (digits_value limit) (suc limit) (digits_value_step limit) (suc n) n []
      (omega arith) (omega arith)

-- A number is written with a digit at least.
unsigned_value-digits :
    (limit : ℕ) (s : Bytes) {n : ℕ}
    → 0 < length s
    → digits_value limit 0 s ≡ some n
    → unsigned_value limit s ≡ some n
unfolding unsigned_value
unsigned_value-digits limit [] h e = absurd (omega arith)
unsigned_value-digits limit (c ∷ cs) h e = e

digits_loop-pos :
    (fuel n : ℕ) (acc : Bytes) → 0 < fuel + length acc → 0 < length (digits_loop fuel n acc)
unfolding digits_loop
digits_loop-pos zero n acc h = omega arith
digits_loop-pos (suc fuel) n acc h =
    let rest = digits_loop-pos fuel (n / 10) ((48 + n % 10) ∷ acc) (omega arith) in
    ground (arith, rest)

to_string_ℕ-pos : (n : ℕ) → 0 < length (to_string_ℕ n)
unfolding to_string_ℕ
to_string_ℕ-pos n = digits_loop-pos (suc n) n [] (omega arith)

unsigned_value-to_string : (limit n : ℕ) → n ≤ limit → unsigned_value limit (to_string_ℕ n) ≡ some n
unsigned_value-to_string limit n h =
    unsigned_value-digits limit (to_string_ℕ n) (to_string_ℕ-pos n)
      (digits_value-to_string limit n h)

-- A text of digits is read as one that has no sign.
parse_int64-digits :
    (s : Bytes) {n : ℕ}
    → AreDigits s
    → unsigned_value (2 ^ 63 - 1) s ≡ some n
    → parse_int64 s ≡ some (pos n)
unfolding parse_int64 unsigned_value
parse_int64-digits [] digits e = absurd (ground (arith, e))
parse_int64-digits (c ∷ cs) digits e =
    let no_sign : (c == b'-') ≡ false = ground (arith, digits.1) in rw (no_sign, e, parse_int64)

parse_int64-to_string : (n : ℤ) → in_int64 n ≡ true → parse_int64 (to_string n) ≡ some n
unfolding to_string in_int64 parse_int64
parse_int64-to_string (pos n) h =
    parse_int64-digits (to_string_ℕ n) (to_string_ℕ-AreDigits n)
      (unsigned_value-to_string (2 ^ 63 - 1) n (ground arith))
parse_int64-to_string (negsuc n) h =
    rw (unsigned_value-to_string (2 ^ 63) (suc n) (ground arith), negate)

-- Every int64, written as `std::to_string` writes it, is read back as itself by the parser of INCR.
pub parse_canonical_int64-to_string :
    (n : ℤ) → in_int64 n ≡ true → parse_canonical_int64 (to_string n) ≡ some n
unfolding parse_canonical_int64
parse_canonical_int64-to_string n h =
    rw (parse_int64-to_string n h, bytes_eq_refl (to_string n), parse_canonical_int64)
