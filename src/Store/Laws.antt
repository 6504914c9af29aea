-- ===== src/Store/Laws.antt =====
-- src/store.cpp: the operations of the keyspace, by what clients may read.
use epochkv.Prelude.{
  ℕ, ◌≡◌, refl, sym, ◌∙◌, ap, inl, inr, Option, none, some, Bool, true, false, Bytes, arith,
  bytes_eq, bytes_eq_refl, bytes_eq→eq, if◌then◌else◌, Bool-cases,
}
use epochkv.Prelude.Int.{ℤ, ltb_ℤ}
use epochkv.HashTable.{find}
use epochkv.HashTable.Laws.{empty-IsValid, find-empty}
use epochkv.Store.{
  Store, EvictionPolicy, new, is_some, get, set, del, set_expire, remove, set_found,
}
use epochkv.Store.Visible.{
  is_due, seen_at, visible, IsValid, Changes, Quiet, visible-Changes, Changes-IsValid,
  remove-Changes, unseen-Quiet,
}
use epochkv.Store.Expiry.{Looks, lookup-Looks}
use epochkv.Store.Dating.{deadline_found-Dated}
use epochkv.Store.Writes.{overwrite-Changes, overwrite-clear, create-Changes}

-- A store whose reads are those of `s` but for one key.
pub record Updates (s : Store) (key : Bytes) (v : Option Bytes) (s' : Store) : Type 0 where
  pub valid : IsValid s'
  pub reads : (q : Bytes) → visible s' q ≡ (if bytes_eq key q then v else visible s q)

-- A change behind a lookup.
after-Updates :
    (s s1 s' : Store) (key : Bytes) {v w : Option Bytes} {when : Option ℤ}
    → Quiet s s1
    → Changes s1 key v when s'
    → (v ≡ none → when ≡ none)
    → (if is_due s1.now when then none else v) ≡ w
    → Updates s key w s'
after-Updates s s1 s' key q c h e = record {
  valid = Changes-IsValid s1 s' key q.valid c h;
  reads = λ p. rw (visible-Changes s1 s' key c p, e, q.sees p);
}

seen_not_due :
    (s : Store) (key : Bytes) {v : Bytes}
    → visible s key ≡ some v
    → is_due s.now (find s.expires key) ≡ false
unfolding visible
seen_not_due s key h = elim (Bool-cases (is_due s.now (find s.expires key))) [
  | inl due ↦ absurd (ground (arith, h, due))
  | inr not_due ↦ not_due
]

over-Updates :
    (s s1 : Store) (key old value : Bytes) (keep_ttl : Bool)
    → Looks s key (s1, some old)
    → Updates s key (some value) (set_found s1 key value keep_ttl (some old))
unfolding set_found is_due
over-Updates s s1 key old value true l =
    after-Updates s s1 _ key l.quiet (overwrite-Changes s1 key old value l.quiet.valid)
      (λ h. absurd (ground (arith, h))) (rw (seen_not_due s1 key (l.quiet.sees key ∙ sym l.seen)))
over-Updates s s1 key old value false l =
    after-Updates s s1 _ key l.quiet (overwrite-clear s1 key old value l.quiet.valid) (λ h. refl)
      refl

-- The store before the entry is created: nothing is seen to change, and the key has no deadline.
record Cleared (s : Store) (key : Bytes) (s' : Store) : Type 0 where
  pub quiet : Quiet s s'
  pub no_deadline : find s'.expires key ≡ none

Quiet-trans : (s s1 s2 : Store) → Quiet s s1 → Quiet s1 s2 → Quiet s s2
Quiet-trans s s1 s2 p q = record {
  valid = q.valid;
  same_now = q.same_now ∙ p.same_now;
  same_passive = q.same_passive ∙ p.same_passive;
  sees = λ k. q.sees k ∙ p.sees k;
  later = λ now h k. q.later now (ap (ltb_ℤ now) p.same_now ∙ h) k ∙ p.later now h k;
}

room-Cleared :
    (s s1 : Store) (key : Bytes) (passive : Bool)
    → s1.passive_expiry ≡ passive
    → Looks s key (s1, none)
    → Cleared s key (if passive then (remove s1 key).0 else s1)
room-Cleared s s1 key true e l =
    let c = remove-Changes s1 key l.quiet.valid in
    record {
      quiet =
          Quiet-trans s s1 _ l.quiet
            (unseen-Quiet s1 _ key l.quiet.valid c (l.quiet.sees key ∙ sym l.seen));
      no_deadline = rw (c.expires_binds.reads key, bytes_eq_refl key);
    }
room-Cleared s s1 key false e l =
    let gone = l.gone refl (sym l.quiet.same_passive ∙ e) in
    record { quiet = l.quiet; no_deadline = l.quiet.valid.linked key gone }

new-Updates :
    (s s1 : Store) (key value : Bytes) (keep_ttl : Bool)
    → Looks s key (s1, none)
    → Updates s key (some value) (set_found s1 key value keep_ttl none)
unfolding set_found is_due
new-Updates s s1 key value keep_ttl l =
    let c = room-Cleared s s1 key s1.passive_expiry refl l in
    after-Updates s _ _ key c.quiet (create-Changes _ key value c.quiet.valid c.no_deadline)
      (λ h. refl) refl

set_found-Updates :
    (s : Store) (key value : Bytes) (keep_ttl : Bool) (r : Store × Option Bytes)
    → Looks s key r
    → Updates s key (some value) (set_found r.0 key value keep_ttl r.1)
set_found-Updates s key value keep_ttl (s1, some old) l = over-Updates s s1 key old value keep_ttl l
set_found-Updates s key value keep_ttl (s1, none) l = new-Updates s s1 key value keep_ttl l

Quiet-Updates :
    (s s1 : Store) (key : Bytes) {w : Option Bytes}
    → Quiet s s1
    → visible s key ≡ w
    → Updates s key w s1
Quiet-Updates s s1 key q e = record {
  valid = q.valid;
  reads = λ p. elim (Bool-cases (bytes_eq key p)) [
    | inl same ↦ rw same (q.sees p ∙ (rw (bytes_eq→eq key p same) at e))
    | inr other ↦ rw other (q.sees p)
  ];
}

module _ (s : Store) (valid : IsValid s) (key : Bytes) where
  -- `get` on a well-formed store returns the key's value unless its deadline has passed, and leaves a
  -- well-formed store in which every key reads as before.
  pub visible-get :
      ((get s key).1 ≡ visible s key)
      × IsValid (get s key).0
      × ((q : Bytes) → visible (get s key).0 q ≡ visible s q)
  unfolding get
  visible-get = let l = lookup-Looks s key true valid in (l.seen, l.quiet.valid, l.quiet.sees)

  -- `set` on a well-formed store, on a master or under passive expiry, leaves a well-formed one in
  -- which the key reads as the value and every other key as before, whether it keeps the deadline or
  -- not and also if the key had expired.
  pub visible-set :
      (value : Bytes) (keep_ttl : Bool)
      → IsValid (set s key value keep_ttl)
        × ((q : Bytes)
            → visible (set s key value keep_ttl) q
              ≡ (if bytes_eq key q then some value else visible s q))
  unfolding set
  visible-set value keep_ttl =
      let u = set_found-Updates s key value keep_ttl _ (lookup-Looks s key true valid) in
      (u.valid, u.reads)

  -- `del` on a well-formed store returns whether the key could be read, and leaves a well-formed
  -- store in which it cannot, every other key reading as before.
  pub visible-del :
      ((del s key).1 ≡ is_some (visible s key))
      × IsValid (del s key).0
      × ((q : Bytes) → visible (del s key).0 q ≡ (if bytes_eq key q then none else visible s q))
  unfolding del is_due
  visible-del =
      let l = lookup-Looks s key false valid in
      let u =
        after-Updates s _ _ key l.quiet (remove-Changes _ key l.quiet.valid) (λ h. refl) refl in
      (ap is_some l.seen, u.valid, u.reads)

  -- `set_expire` on a well-formed store returns whether the key could be read, and leaves a
  -- well-formed store at the same time. When that is read then or at any later time, the key has the
  -- value that it had at the call up to its deadline, and none from the deadline on, on a master and
  -- under passive expiry alike, and every other key reads as in the old store at that time.
  pub visible-set_expire :
      (when : ℤ)
      → ((set_expire s key when).1 ≡ is_some (visible s key))
        × IsValid (set_expire s key when).0
        × ((set_expire s key when).0.now ≡ s.now)
        × ((now : ℤ)
            → ltb_ℤ now s.now ≡ false
            → (q : Bytes)
            → seen_at now (set_expire s key when).0 q ≡ (
                if bytes_eq key q
                then if is_due now (some when) then none else visible s key
                else seen_at now s q))
  unfolding set_expire
  visible-set_expire when =
      let d = deadline_found-Dated s key when _ (lookup-Looks s key true valid) in
      (d.found, d.valid, d.same_now, d.later)

-- A new store is well formed.
pub new-IsValid :
    (maxmemory : ℕ) (policy : EvictionPolicy) (now : ℤ) → IsValid (new maxmemory policy now)
unfolding new
new-IsValid maxmemory policy now = record {
  dict_valid = empty-IsValid Bytes;
  expires_valid = empty-IsValid ℤ;
  linked = λ q e. find-empty ℤ q;
}
