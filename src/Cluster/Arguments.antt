-- ===== src/Cluster/Arguments.antt =====
-- src/cluster.cpp, `cmd_addslots`: which slots the arguments name.
use epochkv.Prelude.{
  ℕ, zero, suc, ◌+◌, ◌-◌, ◌≡◌, refl, ap, inl, inr, List, [], ◌∷◌, ◌++◌, Option, none, some, Bool,
  true, false, ◌&&◌, ◌||◌, Bytes, ◌==◌, ltb, leb, Bool-cases, arith,
}
use epochkv.Prelude.Int.{ℤ, pos, negsuc}
use epochkv.ClusterMsg.{slot_count}
use epochkv.Dispatcher.{parse_int64}
use epochkv.Cluster.SlotCommands.{
  Parsed, ok, bad, small_slot, parse_slot, slots_from, more_slots, parse_one, parse_range,
  parse_slots,
}

-- The number that an argument is, unless it is below 0.
unfoldable pub number : Bytes → Option ℕ
number a = elim (parse_int64 a) [
  | none ↦ none
  | some z ↦ elim z [ pos n ↦ some n | negsuc n ↦ none ]
]

unfoldable pub is_number : Option ℕ → ℕ → Bool
is_number none i = false
is_number (some n) i = i == n

-- From the first number to the last, both included.
unfoldable pub is_between : Option ℕ → Option ℕ → ℕ → Bool
is_between (some start) (some end) i = leb start i && leb i end
is_between none end i = false
is_between (some start) none i = false

-- Whether the arguments name the slot: each is a slot, or two are the ends of a range.
unfoldable pub is_named : Bool → List Bytes → ℕ → Bool
is_named range [] i = false
is_named false (a ∷ args) i = is_number (number a) i || is_named false args i
is_named true (a ∷ []) i = false
is_named true (a ∷ b ∷ args) i = is_between (number a) (number b) i || is_named true args i

unfoldable pub is_among : ℕ → List ℕ → Bool
is_among i [] = false
is_among i (slot ∷ slots) = i == slot || is_among i slots

is_among-append :
    (i : ℕ) → (xs ys : List ℕ) → is_among i (xs ++ ys) ≡ (is_among i xs || is_among i ys)
unfolding is_among
is_among-append i [] ys = refl
is_among-append i (x ∷ xs) ys = ground (arith, is_among-append i xs ys)

is_among-slots_from :
    (i start n : ℕ) → is_among i (slots_from start n) ≡ (leb start i && ltb i (start + n))
unfolding is_among slots_from
is_among-slots_from i start zero = ground arith
is_among-slots_from i start (suc n) = ground (arith, is_among-slots_from i (start + 1) n)

small_slot_lem : (m n : ℕ) → (small_slot m ≡ some n) → (m ≡ n) × (ltb n slot_count ≡ true)
small_slot_lem m n h = ground (arith, h)

-- An argument is the slot that it is taken for.
slot_of_number :
    (o : Option ℤ) (n : ℕ)
    → (elim o [ none ↦ none | some z ↦ elim z [ pos m ↦ small_slot m | negsuc m ↦ none ] ] ≡ some n)
    → (elim o [ none ↦ none | some z ↦ elim z [ pos m ↦ some m | negsuc m ↦ none ] ] ≡ some n)
      × (ltb n slot_count ≡ true)
slot_of_number none n h = absurd (ground (arith, h))
slot_of_number (some (pos m)) n h =
    let (same, small) = small_slot_lem m n h in (ap some same, small)
slot_of_number (some (negsuc m)) n h = absurd (ground (arith, h))

number-parse_slot :
    (a : Bytes) (n : ℕ) → (parse_slot a ≡ some n) → (number a ≡ some n) × (ltb n slot_count ≡ true)
unfolding parse_slot number
number-parse_slot a n h = slot_of_number (parse_int64 a) n h

-- What is known of the slots that were read from arguments.
unfoldable pub Named : ℕ → List ℕ → Bool → Type 0
Named i slots named = (is_among i slots ≡ named) × ((named ≡ true) → ltb i slot_count ≡ true)

abbrev list_of : Parsed → List ℕ
list_of (ok slots) = slots
list_of (bad err) = []

list_of-ok : (slots slots' : List ℕ) → (ok slots ≡ ok slots') → slots ≡ slots'
list_of-ok slots slots' e = ap list_of e

one-Named :
    (i : ℕ) (v o : Option ℕ) (p : Parsed) (named : Bool) (slots : List ℕ)
    → ((n : ℕ) → (o ≡ some n) → (v ≡ some n) × (ltb n slot_count ≡ true))
    → ((rest : List ℕ) → (p ≡ ok rest) → Named i rest named)
    → (parse_one o p ≡ ok slots)
    → Named i slots (is_number v i || named)
unfolding parse_one more_slots Named is_among is_number
one-Named i v none p named slots h k e = absurd (ground (arith, e))
one-Named i v (some n) (bad err) named slots h k e = absurd (ground (arith, e))
one-Named i v (some n) (ok rest) named slots h k e =
    let (same, small) = h n refl in
    let (among, fits) = k rest refl in
    rw (← list_of-ok (n ∷ rest) slots e, same)
      (ground (arith, among), λ t. grind (arith, t, small, fits))

range-Named :
    (i : ℕ) (v w o q : Option ℕ) (p : Parsed) (named : Bool) (slots : List ℕ)
    → ((n : ℕ) → (o ≡ some n) → (v ≡ some n) × (ltb n slot_count ≡ true))
    → ((n : ℕ) → (q ≡ some n) → (w ≡ some n) × (ltb n slot_count ≡ true))
    → ((rest : List ℕ) → (p ≡ ok rest) → Named i rest named)
    → (parse_range o q p ≡ ok slots)
    → Named i slots (is_between v w i || named)
unfolding parse_range more_slots Named is_between
range-Named i v w none q p named slots h h' k e = absurd (ground (arith, e))
range-Named i v w (some n) none p named slots h h' k e = absurd (ground (arith, e))
range-Named i v w (some n) (some m) (bad err) named slots h h' k e = absurd (ground (arith, e))
range-Named i v w (some n) (some m) (ok rest) named slots h h' k e =
    let (same, small) = h n refl in
    let (same', small') = h' m refl in
    let (among, fits) = k rest refl in
    elim (Bool-cases (ltb m n)) [
      | inl t ↦ absurd (ground (arith, e, t))
      | inr t ↦
          let e' : ok (slots_from n (m + 1 - n) ++ rest) ≡ ok slots = rw t at e in
          rw (← list_of-ok _ slots e', same, same', is_among-append, is_among-slots_from)
            (ground (arith, among, t), λ t. grind (arith, t, small', fits))
    ]

pub parse_slots-Named :
    (range : Bool) (args : List Bytes) (slots : List ℕ) (i : ℕ)
    → (parse_slots range args ≡ ok slots)
    → Named i slots (is_named range args i)
unfolding parse_slots is_named Named is_among
parse_slots-Named range [] slots i e =
    rw (← list_of-ok [] slots e) (refl, λ t. absurd (ground (arith, t)))
parse_slots-Named false (a ∷ args) slots i e =
    one-Named i (number a) (parse_slot a) (parse_slots false args) (is_named false args i) slots
      (number-parse_slot a) (λ rest h. parse_slots-Named false args rest i h) e
parse_slots-Named true (a ∷ []) slots i e = absurd (ground (arith, e))
parse_slots-Named true (a ∷ b ∷ args) slots i e =
    range-Named i (number a) (number b) (parse_slot a) (parse_slot b) (parse_slots true args)
      (is_named true args i) slots (number-parse_slot a) (number-parse_slot b)
      (λ rest h. parse_slots-Named true args rest i h) e
