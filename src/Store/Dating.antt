-- ===== src/Store/Dating.antt =====
-- src/store.cpp, `set_expire`: a key with a new deadline, as it is read from then on.
use epochkv.Prelude.{
  ◌≡◌, refl, sym, ◌∙◌, ap, inl, inr, Option, none, some, Bool, true, false, not, ◌&&◌, Bytes, arith,
  bytes_eq, bytes_eq→eq, if◌then◌else◌, Bool-cases,
}
use epochkv.Prelude.Int.{ℤ, ltb_ℤ}
use epochkv.Store.{Store, is_some, remove, put_deadline, deadline_found}
use epochkv.Store.Visible.{
  is_due, seen_at, visible, IsValid, Changes, Quiet, seen_at-Changes, is_due-later, later_unseen,
  Changes-IsValid, remove-Changes,
}
use epochkv.Store.Expiry.{Looks}
use epochkv.Store.Writes.{put_deadline-Changes}

-- A change behind a lookup, as it is read later.
after-later :
    (s s1 s' : Store) (key : Bytes) {v w : Option Bytes} {when : Option ℤ}
    → Quiet s s1
    → Changes s1 key v when s'
    → (now : ℤ) → ltb_ℤ now s.now ≡ false
    → (if is_due now when then none else v) ≡ w
    → (q : Bytes) → seen_at now s' q ≡ (if bytes_eq key q then w else seen_at now s q)
after-later s s1 s' key q c now h e p = rw (seen_at-Changes s1 s' key c now p, e, q.later now h p)

Quiet-later :
    (s s1 : Store) (key : Bytes) (b : Bool)
    → Quiet s s1
    → visible s key ≡ none
    → (now : ℤ) → ltb_ℤ now s.now ≡ false
    → (q : Bytes)
    → seen_at now s1 q ≡ (if bytes_eq key q then if b then none else none else seen_at now s q)
Quiet-later s s1 key b q e now h p = elim (Bool-cases (bytes_eq key p)) [
  | inl same ↦
      let gone : seen_at now s p ≡ none =
        rw (← bytes_eq→eq key p same) (later_unseen s key now h e) in
      rw (same, q.later now h p, gone) (ground arith)
  | inr other ↦ rw other (q.later now h p)
]

-- What `set_expire` returns and leaves, and what is read of that now and later.
pub record Dated (s : Store) (key : Bytes) (when : ℤ) (r : Store × Bool) : Type 0 where
  pub found : r.1 ≡ is_some (visible s key)
  pub valid : IsValid (r.0)
  pub same_now : (r.0).now ≡ s.now
  pub later :
      (now : ℤ)
      → ltb_ℤ now s.now ≡ false
      → (q : Bytes)
      → seen_at now r.0 q ≡ (
          if bytes_eq key q
          then if is_due now (some when) then none else visible s key
          else seen_at now s q)

live-Dated :
    (s s1 : Store) (key value : Bytes) (when : ℤ) (delete : Bool)
    → (delete ≡ true → ltb_ℤ s1.now when ≡ false)
    → Looks s key (s1, some value)
    → Dated s key when
        (if delete then ((remove s1 key).0, true) else (put_deadline s1 key when, true))
unfolding is_due
live-Dated s s1 key value when true past l =
    let c = remove-Changes s1 key l.quiet.valid in
    record {
      found = rw (← l.seen);
      valid = Changes-IsValid s1 _ key l.quiet.valid c (λ h. refl);
      same_now = c.same_now ∙ l.quiet.same_now;
      later = λ now h.
          let due : is_due now (some when) ≡ true =
            is_due-later s1.now now (some when) (ap (ltb_ℤ now) l.quiet.same_now ∙ h)
              (rw (past refl) refl) in
          after-later s s1 _ key l.quiet c now h (rw due);
    }
live-Dated s s1 key value when false past l =
    let c = put_deadline-Changes s1 key when l.quiet.valid in
    record {
      found = rw (← l.seen);
      valid =
          Changes-IsValid s1 _ key l.quiet.valid c
            (λ h. absurd (ground (arith, h, l.stored value refl)));
      same_now = c.same_now ∙ l.quiet.same_now;
      later = λ now h. after-later s s1 _ key l.quiet c now h (rw (l.stored value refl, ← l.seen));
    }

pub deadline_found-Dated :
    (s : Store) (key : Bytes) (when : ℤ) (r : Store × Option Bytes)
    → Looks s key r
    → Dated s key when (deadline_found r.0 key when r.1)
unfolding deadline_found
deadline_found-Dated s key when (s1, none) l =
    let gone : visible s key ≡ none = sym l.seen in
    record {
      found = rw gone;
      valid = l.quiet.valid;
      same_now = l.quiet.same_now;
      later = λ now h. rw gone (Quiet-later s s1 key (is_due now (some when)) l.quiet gone now h);
    }
deadline_found-Dated s key when (s1, some value) l =
    live-Dated s s1 key value when (not (ltb_ℤ s1.now when) && not s1.passive_expiry)
      (λ h. ground (arith, h)) l
