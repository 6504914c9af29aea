-- ===== src/Store/Writes.antt =====
-- src/store.cpp: the writes behind a lookup, each as a change of one key.
use epochkv.Prelude.{
  ◌≡◌, refl, inl, inr, none, some, Bytes, bytes_eq, bytes_eq→eq, Bool-cases, Option-cases,
}
use epochkv.Prelude.Int.{ℤ}
use epochkv.HashTable
use epochkv.HashTable.{HashTable, find}
use epochkv.HashTable.Binding.{Binds, insert-Binds, put-Binds}
use epochkv.Store.{Store, clear_expire, overwrite, create, put_deadline}
use epochkv.Store.Visible.{IsValid, Changes, clear_expire-Changes, same-Binds}

-- A key bound to what it was.
self-Binds :
    {V : Type 0} (t : HashTable V) (key : Bytes)
    → HashTable.Valid.IsValid t
    → Binds t key (find t key) t
self-Binds t key v = record {
  valid = v;
  reads = λ q. elim (Bool-cases (bytes_eq key q)) [
    | inl same ↦ rw (same, bytes_eq→eq key q same)
    | inr other ↦ rw other
  ];
}

pub overwrite-Changes :
    (s : Store) (key old value : Bytes)
    → IsValid s
    → Changes s key (some value) (find s.expires key) (overwrite s key old value)
unfolding overwrite
overwrite-Changes s key old value v = record {
  dict_binds = put-Binds s.dict v.dict_valid key value;
  expires_binds = self-Binds s.expires key v.expires_valid;
  same_now = refl;
  same_passive = refl;
}

pub overwrite-clear :
    (s : Store) (key old value : Bytes)
    → IsValid s
    → Changes s key (some value) none (clear_expire (overwrite s key old value) key).0
unfolding overwrite
overwrite-clear s key old value v =
    clear_expire-Changes s (overwrite s key old value) key v
      (put-Binds s.dict v.dict_valid key value) refl refl refl

pub create-Changes :
    (s : Store) (key value : Bytes)
    → IsValid s
    → find s.expires key ≡ none
    → Changes s key (some value) none (create s key value)
unfolding create
create-Changes s key value v e = record {
  dict_binds = insert-Binds s.dict v.dict_valid key value;
  expires_binds = same-Binds s.expires key v.expires_valid e;
  same_now = refl;
  same_passive = refl;
}

pub put_deadline-Changes :
    (s : Store) (key : Bytes) (when : ℤ)
    → IsValid s
    → Changes s key (find s.dict key) (some when) (put_deadline s key when)
unfolding put_deadline
put_deadline-Changes s key when v = elim (Option-cases (find s.expires key)) [
  | inl gone ↦
      rw (gone, put_deadline)
        (record {
          dict_binds = self-Binds s.dict key v.dict_valid;
          expires_binds = insert-Binds s.expires v.expires_valid key when;
          same_now = refl;
          same_passive = refl;
        })
  | inr (old, found) ↦
      rw (found, put_deadline)
        (record {
          dict_binds = self-Binds s.dict key v.dict_valid;
          expires_binds = put-Binds s.expires v.expires_valid key when;
          same_now = refl;
          same_passive = refl;
        })
]

pub clear-Changes :
    (s : Store) (key : Bytes)
    → IsValid s
    → Changes s key (find s.dict key) none (clear_expire s key).0
clear-Changes s key v =
    clear_expire-Changes s s key v (self-Binds s.dict key v.dict_valid) refl refl refl
