-- ===== src/Prelude/Decimal.antt =====
-- `std::to_string` of integers, and the digits that it writes.
use Prim.Native.Nat.{ℕ, zero, suc, ◌+◌, ◌*◌, ◌/◌, ◌%◌, ◌≤◌, ◌<◌}
use mathlib.Core.List.{[], ◌∷◌}
use mathlib.Core.Logic.{inl, inr}
use mathlib.Core.Path.{◌≡◌, ◌∙◌}
use native.Mathlib.Omega.{arith}
use epochkv.Prelude.Tests.{◌==◌, if◌then◌else◌, Bool-cases}
use epochkv.Prelude.Text.{Bytes, All}
use epochkv.Prelude.Int.{ℤ, pos, negsuc}

-- The digits of `n` in front of `acc`. A number has fewer digits than the fuel, its successor.
unfoldable pub digits_loop : ℕ → ℕ → Bytes → Bytes
digits_loop zero n acc = acc
digits_loop (suc fuel) n acc =
    let rest = digits_loop fuel (n / 10) ((48 + n % 10) ∷ acc) in
    if n / 10 == 0 then (48 + n % 10) ∷ acc else rest

unfoldable pub to_string_ℕ : ℕ → Bytes
unfolding digits_loop
to_string_ℕ n = digits_loop (suc n) n []

unfoldable pub to_string : ℤ → Bytes
unfolding to_string_ℕ
to_string (pos n) = to_string_ℕ n
to_string (negsuc n) = b'-' ∷ to_string_ℕ (suc n)

abbrev pub AreDigits : Bytes → Type 0
AreDigits s = All (λ c. (48 ≤ c) × (c ≤ 57)) s

digits_loop-AreDigits :
    (fuel n : ℕ) (acc : Bytes) → AreDigits acc → AreDigits (digits_loop fuel n acc)
unfolding digits_loop
digits_loop-AreDigits zero n acc h = h
digits_loop-AreDigits (suc fuel) n acc h =
    let more : AreDigits ((48 + n % 10) ∷ acc) = ((omega arith, omega arith), h) in
    elim (Bool-cases (n / 10 == 0)) [
      | inl last ↦ rw last more
      | inr next ↦ rw next (digits_loop-AreDigits fuel (n / 10) _ more)
    ]

pub to_string_ℕ-AreDigits : (n : ℕ) → AreDigits (to_string_ℕ n)
unfolding to_string_ℕ
to_string_ℕ-AreDigits n = digits_loop-AreDigits (suc n) n [] tt

-- A reader of digits that steps as `read` says reads back what was written.
pub digits_loop_read {ℓ} :
    {R : Type ℓ} (read : ℕ → Bytes → R) (bound : ℕ)
    → ((v d : ℕ) (cs : Bytes)
        → d < 10
        → v * 10 + d < bound
        → read v ((48 + d) ∷ cs) ≡ read (v * 10 + d) cs)
    → (fuel n : ℕ) (acc : Bytes) → n < fuel
    → n < bound
    → read 0 (digits_loop fuel n acc) ≡ read n acc
unfolding digits_loop
digits_loop_read read bound step zero n acc h k = absurd (omega arith)
digits_loop_read read bound step (suc fuel) n acc h k = elim (Bool-cases (n / 10 == 0)) [
  | inl last ↦
      let e : 0 * 10 + n % 10 ≡ n = ground arith in
      rw last (rw e at (step 0 (n % 10) acc (omega arith) (ground arith)))
  | inr next ↦
      let e : n / 10 * 10 + n % 10 ≡ n = omega arith in
      rw next (
        digits_loop_read read bound step fuel (n / 10) ((48 + n % 10) ∷ acc) (ground arith)
          (omega arith)
        ∙ (rw e at (step (n / 10) (n % 10) acc (omega arith) (omega arith))))
]
