-- ===== src/Store/Expiry.antt =====
-- src/store.cpp: `expire_if_needed` and `lookup`, on which every operation rests.
use epochkv.Prelude.{
  ◌≡◌, refl, sym, ◌∙◌, inl, inr, Option, none, some, Bool, true, false, Bytes, arith, ◌==◌,
  bytes_eq_refl, if◌then◌else◌, Bool-cases, Option-cases,
}
use epochkv.Prelude.Int.{ℤ, ltb_ℤ}
use epochkv.HashTable.{find}
use epochkv.HashTable.Map.{size_zero}
use epochkv.Store.{Store, expire, expire_if_needed, touch_key, lookup}
use epochkv.Store.Visible.{
  is_due, seen_at, visible, IsValid, Quiet, same-Quiet, unseen-Quiet, expire-Changes,
}

-- What `expire_if_needed` returns, and the store that it leaves.
pub record Expires (s : Store) (key : Bytes) (r : Store × Bool) : Type 0 where
  pub due : r.1 ≡ is_due s.now (find s.expires key)
  pub kept : r.1 ≡ false → r.0 ≡ s
  pub dropped : r.1 ≡ true → s.passive_expiry ≡ false → find r.0.dict key ≡ none
  pub quiet : Quiet s r.0

due_unseen :
    (s : Store) (key : Bytes) → is_due s.now (find s.expires key) ≡ true → visible s key ≡ none
unfolding visible seen_at
due_unseen s key h = rw h

not_due :
    (s : Store) (key : Bytes)
    → IsValid s
    → is_due s.now (find s.expires key) ≡ false
    → Expires s key (s, false)
not_due s key v e = record {
  due = sym e;
  kept = λ _. refl;
  dropped = λ h. absurd (ground (arith, h));
  quiet = same-Quiet s v;
}

-- A deadline that has passed, for a server that deletes on its own.
due-Expires :
    (s : Store) (key : Bytes)
    → IsValid s
    → is_due s.now (find s.expires key) ≡ true
    → Expires s key (expire s key, true)
due-Expires s key v e =
    let c = expire-Changes s key v in
    record {
      due = sym e;
      kept = λ h. absurd (ground (arith, h));
      dropped = λ _ _. rw (c.dict_binds.reads key, bytes_eq_refl key);
      quiet = unseen-Quiet s _ key v c (due_unseen s key e);
    }

passive-Expires :
    (s : Store) (key : Bytes)
    → IsValid s
    → is_due s.now (find s.expires key) ≡ true
    → s.passive_expiry ≡ true
    → Expires s key (s, true)
passive-Expires s key v e p = record {
  due = sym e;
  kept = λ h. absurd (ground (arith, h));
  dropped = λ _ h. absurd (ground (arith, h, p));
  quiet = same-Quiet s v;
}

choose-Expires :
    (s : Store) (key : Bytes) (b : Bool)
    → s.passive_expiry ≡ b
    → IsValid s
    → is_due s.now (find s.expires key) ≡ true
    → Expires s key (if b then (s, true) else (expire s key, true))
choose-Expires s key true p v e = passive-Expires s key v e p
choose-Expires s key false p v e = due-Expires s key v e

passed-Expires :
    (s : Store) (key : Bytes)
    → IsValid s
    → is_due s.now (find s.expires key) ≡ true
    → Expires s key (if s.passive_expiry then (s, true) else (expire s key, true))
passed-Expires s key v e = choose-Expires s key s.passive_expiry refl v e

-- What the code does with a deadline that has passed.
due_step :
    (s : Store) (key : Bytes) (when : ℤ)
    → (s.expires.num_entries == 0) ≡ false
    → find s.expires key ≡ some when
    → ltb_ℤ s.now when ≡ false
    → expire_if_needed s key ≡ ((if s.passive_expiry then (s, true) else (expire s key, true)))
unfolding expire_if_needed
due_step s key when n found now = rw (n, found, now)

some_deadline-Expires :
    (s : Store) (key : Bytes) (when : ℤ)
    → IsValid s
    → (s.expires.num_entries == 0) ≡ false
    → find s.expires key ≡ some when
    → Expires s key (expire_if_needed s key)
unfolding is_due expire_if_needed
some_deadline-Expires s key when v n found = elim (Bool-cases (ltb_ℤ s.now when)) [
  | inl later ↦ rw (n, found, later) (not_due s key v (rw (found, later)))
  | inr now ↦ rw (due_step s key when n found now) (passed-Expires s key v (rw (found, now)))
]

pub expire_if_needed-Expires :
    (s : Store) (key : Bytes) → IsValid s → Expires s key (expire_if_needed s key)
unfolding is_due expire_if_needed
expire_if_needed-Expires s key v = elim (Bool-cases (s.expires.num_entries == 0)) [
  | inl e ↦
      let gone = size_zero s.expires v.expires_valid key (ground arith) in
      rw (e) (not_due s key v (rw gone))
  | inr n ↦ elim (Option-cases (find s.expires key)) [
    | inl gone ↦ rw (n, gone) (not_due s key v (rw gone))
    | inr (when, found) ↦ some_deadline-Expires s key when v n found
  ]
]

-- What `lookup` returns, and the store that it leaves.
pub record Looks (s : Store) (key : Bytes) (r : Store × Option Bytes) : Type 0 where
  pub quiet : Quiet s r.0
  pub seen : r.1 ≡ visible s key
  pub stored : (value : Bytes) → r.1 ≡ some value → find r.0.dict key ≡ some value
  pub gone : r.1 ≡ none → s.passive_expiry ≡ false → find r.0.dict key ≡ none

touch_key-Quiet : (s s' : Store) (key : Bytes) → Quiet s s' → Quiet s (touch_key s' key)
unfolding touch_key visible seen_at
touch_key-Quiet s s' key q = record {
  valid = record {
    dict_valid = q.valid.dict_valid;
    expires_valid = q.valid.expires_valid;
    linked = q.valid.linked;
  };
  same_now = q.same_now;
  same_passive = q.same_passive;
  sees = q.sees;
  later = q.later;
}

-- `lookup` behind the expiry.
after_expiry : Store × Bool → Bytes → Bool → Store × Option Bytes
after_expiry (s', expired) key touch = if expired then (s', none) else elim (find s'.dict key) [
  | none ↦ (s', none)
  | some value ↦ (if touch then touch_key s' key else s', some value)
]

lookup-after_expiry :
    (s : Store) (key : Bytes) (touch : Bool)
    → lookup s key touch ≡ after_expiry (expire_if_needed s key) key touch
unfolding lookup after_expiry
lookup-after_expiry s key touch = refl

touched :
    (s s' : Store) (key : Bytes) (touch : Bool)
    → Quiet s s'
    → Quiet s (if touch then touch_key s' key else s')
touched s s' key true q = touch_key-Quiet s s' key q
touched s s' key false q = q

touched_dict :
    (s : Store) (key : Bytes) (touch : Bool) → (if touch then touch_key s key else s).dict ≡ s.dict
unfolding touch_key
touched_dict s key true = refl
touched_dict s key false = refl

not_due_seen :
    (s : Store) (key : Bytes)
    → is_due s.now (find s.expires key) ≡ false
    → visible s key ≡ find s.dict key
unfolding visible seen_at
not_due_seen s key h = rw h

-- The key has not expired, so that the store is the old one.
live-Looks :
    (s : Store) (key : Bytes) (touch : Bool)
    → IsValid s
    → is_due s.now (find s.expires key) ≡ false
    → Looks s key (after_expiry (s, false) key touch)
unfolding after_expiry
live-Looks s key touch v e = elim (Option-cases (find s.dict key)) [
  | inl gone ↦ rw gone (record {
    quiet = same-Quiet s v;
    seen = sym (not_due_seen s key e ∙ gone);
    stored = λ value h. absurd (ground (arith, h));
    gone = λ _ _. gone;
  })
  | inr (value, found) ↦ rw found (record {
    quiet = touched s s key touch (same-Quiet s v);
    seen = sym (not_due_seen s key e ∙ found);
    stored = λ value' h. rw touched_dict (found ∙ h);
    gone = λ h. absurd (ground (arith, h));
  })
]

expired-Looks :
    (s s' : Store) (key : Bytes) (touch : Bool)
    → Expires s key (s', true)
    → Looks s key (after_expiry (s', true) key touch)
unfolding after_expiry
expired-Looks s s' key touch x = record {
  quiet = x.quiet;
  seen = sym (due_unseen s key (sym x.due));
  stored = λ value h. absurd (ground (arith, h));
  gone = λ _ p. x.dropped refl p;
}

after_expiry-Looks :
    (s : Store) (key : Bytes) (touch : Bool) (r : Store × Bool)
    → IsValid s
    → Expires s key r
    → Looks s key (after_expiry r key touch)
after_expiry-Looks s key touch (s', true) v x = expired-Looks s s' key touch x
after_expiry-Looks s key touch (s', false) v x =
    rw (x.kept refl) (live-Looks s key touch v (sym x.due))

pub lookup-Looks :
    (s : Store) (key : Bytes) (touch : Bool) → IsValid s → Looks s key (lookup s key touch)
lookup-Looks s key touch v =
    rw lookup-after_expiry
      (after_expiry-Looks s key touch (expire_if_needed s key) v (expire_if_needed-Expires s key v))
