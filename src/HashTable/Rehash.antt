-- ===== src/HashTable/Rehash.antt =====
-- Starting, advancing and finishing a resize: none of these changes what the table stands for.
use epochkv.Prelude.{
  ℕ, ◌+◌, ◌<◌, ◌≡◌, sym, ◌∙◌, ap, inl, inr, [], true, false, Bytes, arith, ◌==◌, ltb, Bool-cases,
  get_or, length,
}
use epochkv.HashTable.Bucket.{chain_find, count, chain_find-none}
use epochkv.HashTable.Buckets.{home, get_or-replicate, total, total-replicate}
use epochkv.HashTable.{HashTable, make_table, skip_bucket}
use epochkv.HashTable.Valid.{IsPlaced, IsSplit, IsValid, chain_of, view}

module _ {V : Type 0} where
  pub empty-IsPlaced : (n : ℕ) → IsPlaced (make_table {V = V} n)
  unfolding make_table count total
  empty-IsPlaced n = record {
    once = λ q i. rw (get_or-replicate n i) (omega arith);
    at_home = λ q i ne. rw (get_or-replicate n i);
  }

  -- A resize is started on a table that has none in progress.
  module _ (t : HashTable V) (s : IsSplit t) (none_new : t.table1 ≡ []) (start : t.rehash_idx ≡ 0)
      (n : ℕ) where
    abbrev pub started : HashTable V
    started = record t { table1 = make_table n }

    pub started-IsValid : IsValid started
    unfolding make_table count total
    started-IsValid = record {
      split = record {
        some_old = s.some_old;
        bounded = s.bounded;
        old_placed = s.old_placed;
        new_placed = empty-IsPlaced n;
        moved = s.moved;
        unmoved = λ q i above. rw (get_or-replicate n i);
        counted = rw (total-replicate V n) (rw none_new at (s.counted));
      };
      idle = λ e. start;
      busy = λ e. rw start s.some_old;
    }

    pub view-started : (q : Bytes) → view started q ≡ view t q
    unfolding view chain_of
    view-started q = rw start (ground arith)

  pub skip_bucket-IsSplit :
      (t : HashTable V)
      → IsSplit t
      → t.rehash_idx < length t.table0
      → get_or t.table0 t.rehash_idx [] ≡ []
      → IsSplit (skip_bucket t)
  unfolding skip_bucket
  skip_bucket-IsSplit t s more empty_here = record {
    some_old = s.some_old;
    bounded = omega arith;
    old_placed = s.old_placed;
    new_placed = s.new_placed;
    moved = λ i below. elim (Bool-cases (t.rehash_idx == i)) [
      | inl here ↦ let e : i ≡ t.rehash_idx = ground arith in rw e empty_here
      | inr there ↦ s.moved i (ground arith)
    ];
    unmoved = λ q i above. s.unmoved q i (omega arith);
    counted = s.counted;
  }

  pub view-skip_bucket :
      (t : HashTable V)
      → IsSplit t
      → t.rehash_idx < length t.table0
      → get_or t.table0 t.rehash_idx [] ≡ []
      → (q : Bytes) → view (skip_bucket t) q ≡ view t q
  unfolding skip_bucket view chain_of chain_find
  view-skip_bucket t s more empty_here q =
      let hq = home q (length t.table0) in
      elim (Bool-cases (t.rehash_idx == hq)) [
        | inr other ↦ let e : ltb hq (t.rehash_idx + 1) ≡ ltb hq t.rehash_idx = ground arith in rw e
        | inl here ↦
            let e : t.rehash_idx ≡ hq = ground arith in
            let before : ltb hq t.rehash_idx ≡ false = ground arith in
            let after : ltb hq (t.rehash_idx + 1) ≡ true = ground arith in
            let absent = s.unmoved q (home q (length t.table1)) (omega arith) in
            rw (before, after, chain_find-none q _ absent)
              (sym (ap (chain_find q) (ap (λ i. get_or t.table0 i []) (sym e) ∙ empty_here)))
      ]
