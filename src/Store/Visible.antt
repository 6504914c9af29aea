-- ===== src/Store/Visible.antt =====
-- src/store.cpp: what clients see of the keyspace, and what the operations do to it.
use epochkv.Prelude.{
  ◌≡◌, refl, sym, inl, inr, Option, none, some, Bool, true, false, not, Bytes, arith, bytes_eq,
  bytes_eq→eq, if◌then◌else◌, Bool-cases, Option-cases,
}
use epochkv.Prelude.Int.{ℤ, ltb_ℤ}
use epochkv.HashTable
use epochkv.HashTable.{HashTable, find}
use epochkv.HashTable.Binding.{Binds, del-Binds}
use epochkv.Store.{Store, clear_expire, remove_entry, remove, expire, notify_deleted}

-- Whether a deadline has passed.
unfoldable pub is_due : ℤ → Option ℤ → Bool
is_due now none = false
is_due now (some when) = not (ltb_ℤ now when)

-- What a client reads at a time.
unfoldable pub seen_at : ℤ → Store → Bytes → Option Bytes
unfolding is_due
seen_at now s q = if is_due now (find s.expires q) then none else find s.dict q

-- The value that a client may read.
unfoldable pub visible : Store → Bytes → Option Bytes
unfolding seen_at
visible s q = seen_at s.now s q

-- A deadline that has passed stays passed.
pub is_due-later :
    (now later : ℤ) (when : Option ℤ)
    → ltb_ℤ later now ≡ false
    → is_due now when ≡ true
    → is_due later when ≡ true
unfolding is_due
is_due-later now later none h due = absurd (ground (arith, due))
is_due-later now later (some when) h due = ground (arith, h, due)

pub later_unseen :
    (s : Store) (key : Bytes) (now : ℤ)
    → ltb_ℤ now s.now ≡ false
    → visible s key ≡ none
    → seen_at now s key ≡ none
unfolding visible
later_unseen s key now h e = elim (Bool-cases (is_due s.now (find s.expires key))) [
  | inl due ↦ rw (is_due-later s.now now (find s.expires key) h due) refl
  | inr not_due ↦ let gone : find s.dict key ≡ none = rw not_due at e in rw gone (ground arith)
]

-- The tables are well formed, and a key without a value has no deadline.
pub record IsValid (s : Store) : Type 0 where
  pub dict_valid : HashTable.Valid.IsValid s.dict
  pub expires_valid : HashTable.Valid.IsValid s.expires
  pub linked : (q : Bytes) → find s.dict q ≡ none → find s.expires q ≡ none

-- A change of one key: its value and its deadline, everything else staying as it was.
pub record Changes (s : Store) (key : Bytes) (v : Option Bytes) (when : Option ℤ) (s' : Store)
    : Type 0 where
  pub dict_binds : Binds s.dict key v s'.dict
  pub expires_binds : Binds s.expires key when s'.expires
  pub same_now : s'.now ≡ s.now
  pub same_passive : s'.passive_expiry ≡ s.passive_expiry

cleared_dict : (s : Store) (key : Bytes) → (clear_expire s key).0.dict ≡ s.dict
unfolding clear_expire
cleared_dict s key = ground arith

cleared_expires :
    (s : Store) (key : Bytes) → (clear_expire s key).0.expires ≡ (HashTable.del s.expires key).0
unfolding clear_expire
cleared_expires s key = ground arith

cleared_now : (s : Store) (key : Bytes) → (clear_expire s key).0.now ≡ s.now
unfolding clear_expire
cleared_now s key = ground arith

cleared_passive :
    (s : Store) (key : Bytes) → (clear_expire s key).0.passive_expiry ≡ s.passive_expiry
unfolding clear_expire
cleared_passive s key = ground arith

-- Clearing the deadline behind a change of the value.
pub clear_expire-Changes :
    (s s' : Store) (key : Bytes) {v : Option Bytes}
    → IsValid s
    → Binds s.dict key v s'.dict
    → s'.expires ≡ s.expires
    → s'.now ≡ s.now
    → s'.passive_expiry ≡ s.passive_expiry
    → Changes s key v none (clear_expire s' key).0
clear_expire-Changes s s' key valid b e n p = record {
  dict_binds = rw cleared_dict b;
  expires_binds = rw (cleared_expires, e) (del-Binds s.expires valid.expires_valid key);
  same_now = rw (cleared_now, n);
  same_passive = rw (cleared_passive, p);
}

remove_entry-Changes :
    (s : Store) (key value : Bytes) → IsValid s → Changes s key none none (remove_entry s key value)
unfolding remove_entry
remove_entry-Changes s key value v =
    clear_expire-Changes s _ key v (del-Binds s.dict v.dict_valid key) refl refl refl

-- Nothing to bind or unbind.
pub same-Binds :
    {V : Type 0} (t : HashTable V) (key : Bytes)
    → HashTable.Valid.IsValid t
    → find t key ≡ none
    → Binds t key none t
same-Binds t key v e = record {
  valid = v;
  reads = λ q. elim (Bool-cases (bytes_eq key q)) [
    | inl same ↦ rw (same, ← bytes_eq→eq key q same) e
    | inr other ↦ rw other
  ];
}

pub remove-Changes :
    (s : Store) (key : Bytes) → IsValid s → Changes s key none none (remove s key).0
unfolding remove
remove-Changes s key v = elim (Option-cases (find s.dict key)) [
  | inl gone ↦
      rw (gone, remove)
        (record {
          dict_binds = same-Binds s.dict key v.dict_valid gone;
          expires_binds = same-Binds s.expires key v.expires_valid (v.linked key gone);
          same_now = refl;
          same_passive = refl;
        })
  | inr (value, found) ↦ rw (found, remove) (remove_entry-Changes s key value v)
]

-- What a change of one key does to the reads.
pub seen_at-Changes :
    (s s' : Store) (key : Bytes) {v : Option Bytes} {when : Option ℤ}
    → Changes s key v when s'
    → (now : ℤ) (q : Bytes)
    → seen_at now s' q
      ≡ (if bytes_eq key q then if is_due now when then none else v else seen_at now s q)
unfolding seen_at
seen_at-Changes s s' key c now q = elim (Bool-cases (bytes_eq key q)) [
  | inl same ↦ rw (c.expires_binds.reads q, c.dict_binds.reads q, same)
  | inr other ↦ rw (c.expires_binds.reads q, c.dict_binds.reads q, other)
]

pub visible-Changes :
    (s s' : Store) (key : Bytes) {v : Option Bytes} {when : Option ℤ}
    → Changes s key v when s'
    → (q : Bytes)
    → visible s' q ≡ (if bytes_eq key q then if is_due s.now when then none else v else visible s q)
unfolding visible
visible-Changes s s' key c q = rw c.same_now (seen_at-Changes s s' key c s.now q)

pub Changes-IsValid :
    (s s' : Store) (key : Bytes) {v : Option Bytes} {when : Option ℤ}
    → IsValid s
    → Changes s key v when s'
    → (v ≡ none → when ≡ none)
    → IsValid s'
Changes-IsValid s s' key valid c h = record {
  dict_valid = c.dict_binds.valid;
  expires_valid = c.expires_binds.valid;
  linked = λ q e. elim (Bool-cases (bytes_eq key q)) [
    | inl same ↦
        let n = rw (c.dict_binds.reads q, same) at e in rw (c.expires_binds.reads q, same) (h n)
    | inr other ↦
        let n = rw (c.dict_binds.reads q, other) at e in
        rw (c.expires_binds.reads q, other) (valid.linked q n)
  ];
}

-- A change that no read sees, now or later.
pub record Quiet (s s' : Store) : Type 0 where
  pub valid : IsValid s'
  pub same_now : s'.now ≡ s.now
  pub same_passive : s'.passive_expiry ≡ s.passive_expiry
  pub sees : (q : Bytes) → visible s' q ≡ visible s q
  pub later : (now : ℤ) → ltb_ℤ now s.now ≡ false → (q : Bytes) → seen_at now s' q ≡ seen_at now s q

-- Removing a key that is not seen.
pub unseen-Quiet :
    (s s' : Store) (key : Bytes)
    → IsValid s
    → Changes s key none none s'
    → visible s key ≡ none
    → Quiet s s'
unfolding is_due
unseen-Quiet s s' key v c e = record {
  valid = Changes-IsValid s s' key v c (λ n. refl);
  same_now = c.same_now;
  same_passive = c.same_passive;
  sees = λ q. elim (Bool-cases (bytes_eq key q)) [
    | inl same ↦ rw (visible-Changes s s' key c q, same, ← bytes_eq→eq key q same) (sym e)
    | inr other ↦ rw (visible-Changes s s' key c q, other)
  ];
  later = λ now h q. elim (Bool-cases (bytes_eq key q)) [
    | inl same ↦
        rw (seen_at-Changes s s' key c now q, same, ← bytes_eq→eq key q same)
          (sym (later_unseen s key now h e))
    | inr other ↦ rw (seen_at-Changes s s' key c now q, other)
  ];
}

pub expire-Changes : (s : Store) (key : Bytes) → IsValid s → Changes s key none none (expire s key)
unfolding expire notify_deleted
expire-Changes s key v =
    let c = remove-Changes s key v in
    record {
      dict_binds = c.dict_binds;
      expires_binds = c.expires_binds;
      same_now = c.same_now;
      same_passive = c.same_passive;
    }

pub same-Quiet : (s : Store) → IsValid s → Quiet s s
same-Quiet s v = record {
  valid = v;
  same_now = refl;
  same_passive = refl;
  sees = λ q. refl;
  later = λ now h q. refl;
}
