-- ===== src/Cluster/Ranges.antt =====
-- src/cluster.cpp, `for_each_range`: the ranges that are written for a node hold its slots.
use epochkv.Prelude.{
  ℕ, zero, suc, ◌+◌, ◌≤◌, ◌<◌, ◌≡◌, inl, inr, List, [], ◌∷◌, Bool, true, false, ◌&&◌, ◌||◌, ltb,
  leb, Bool-cases, arith,
}
use epochkv.ClusterMsg.{SlotBitmap, slot_count}
use epochkv.Cluster.Report.{range_end, for_each_range}

unfoldable pub in_ranges : ℕ → List (ℕ × ℕ) → Bool
in_ranges i [] = false
in_ranges i (r ∷ rs) = leb (r.0) i && leb i (r.1) || in_ranges i rs

-- All of the slots behind `start`, up to `end`, are set.
pub record IsRun (slots : SlotBitmap) (start end : ℕ) : Type 0 where
  pub in_order : start ≤ end
  pub is_slot : end < slot_count
  pub all_set : (i : ℕ) → start < i → i ≤ end → slots i ≡ true

range_end-IsRun :
    (n start : ℕ)
    → (slots : SlotBitmap) → start < slot_count
    → IsRun slots start (range_end n start slots)
unfolding range_end
range_end-IsRun zero start slots h = record {
  in_order = omega arith;
  is_slot = h;
  all_set = λ i a b. absurd (omega (arith, a, b));
}
range_end-IsRun (suc n) start slots h =
    elim (Bool-cases (ltb (start + 1) slot_count && slots (start + 1))) [
      | inl e ↦ rw e (
          let k = range_end-IsRun n (start + 1) slots (ground (arith, e)) in
          record {
            in_order = omega (arith, k.in_order);
            is_slot = k.is_slot;
            all_set = λ i a b. grind (arith, e, a, b, k.all_set i);
          })
      | inr e ↦ rw e (record {
        in_order = omega arith;
        is_slot = h;
        all_set = λ i a b. absurd (omega (arith, a, b));
      })
    ]

one_range :
    (slots : SlotBitmap)
    → (start end i : ℕ) → (rest : Bool) → IsRun slots start end
    → (slots start ≡ true)
    → (rest ≡ (leb (end + 1) i && ltb i slot_count && slots i))
    → (leb start i && leb i end || rest) ≡ (leb start i && ltb i slot_count && slots i)
one_range slots start end i rest k s r = grind (arith, k.in_order, k.is_slot, k.all_set i, s, r)

no_range :
    (slots : SlotBitmap)
    → (start i : ℕ) → (rest : Bool) → (slots start ≡ false)
    → (rest ≡ (leb (start + 1) i && ltb i slot_count && slots i))
    → rest ≡ (leb start i && ltb i slot_count && slots i)
no_range slots start i rest s r = grind (arith, s, r)

for_each_range-from :
    (n start : ℕ)
    → (slots : SlotBitmap) → (i : ℕ) → slot_count ≤ start + n
    → in_ranges i (for_each_range n start slots) ≡ (leb start i && ltb i slot_count && slots i)
unfolding for_each_range in_ranges
for_each_range-from zero start slots i h = grind (arith, h)
for_each_range-from (suc n) start slots i h = elim (Bool-cases (ltb start slot_count)) [
  | inl e ↦ elim (Bool-cases (slots start)) [
    | inl s ↦
        let end = range_end n start slots in
        let k = range_end-IsRun n start slots (ground (arith, e)) in
        rw (e, s)
          (one_range slots start end i (in_ranges i (for_each_range n (end + 1) slots)) k s
            (for_each_range-from n (end + 1) slots i (omega (arith, h, k.in_order))))
    | inr s ↦
        rw (e, s)
          (no_range slots start i (in_ranges i (for_each_range n (start + 1) slots)) s
            (for_each_range-from n (start + 1) slots i (omega (arith, h))))
  ]
  | inr e ↦ rw e (grind (arith, e))
]

-- A slot is in one of the ranges that are told of a node exactly when its bit is set.
pub for_each_range-in_ranges :
    (slots : SlotBitmap)
    → (i : ℕ) → i < slot_count
    → in_ranges i (for_each_range slot_count 0 slots) ≡ slots i
for_each_range-in_ranges slots i h =
    ground (arith, h, for_each_range-from slot_count 0 slots i (omega arith))
