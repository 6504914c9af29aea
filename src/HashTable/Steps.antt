-- ===== src/HashTable/Steps.antt =====
-- `maybe_resize` and `rehash_step` keep the table well formed, and change no lookup and no size.
use epochkv.Prelude.{
  ℕ, zero, suc, ◌-◌, ◌*◌, ◌%◌, ◌^◌, ◌/◌, ◌≤◌, ◌<◌, ◌≡◌, refl, ◌∙◌, inl, inr, List, [], ◌∷◌, true,
  ◌&&◌, ◌||◌, ◌⊎◌, Bytes, arith, ◌==◌, ltb, leb, Bool-cases, get_or, length,
}
use epochkv.HashTable.Bucket.{count}
use epochkv.HashTable.Buckets.{home, home-lt, total, total-empty}
use epochkv.HashTable.{
  HashTable, make_table, maybe_resize, move_bucket, skip_bucket, rehash_loop, finish_rehash,
  rehash_step, before, initial_bucket_count,
}
use epochkv.HashTable.Valid.{IsSplit, IsValid, chain_of, view}
use epochkv.HashTable.Move.{move_bucket-IsSplit, view-move_bucket, length-move_bucket}
use epochkv.HashTable.Rehash.{started-IsValid, view-started, skip_bucket-IsSplit, view-skip_bucket}

length-zero : {A : Type 0} (xs : List A) → length xs ≡ 0 → xs ≡ []
length-zero [] h = refl
length-zero (x ∷ xs) h = absurd (omega arith)

List-cases : {A : Type 0} (xs : List A) → (xs ≡ []) ⊎ ((x : A) × (l : List A) × (xs ≡ x ∷ l))
List-cases [] = inl refl
List-cases (x ∷ l) = inr (x, l, refl)

module _ {V : Type 0} where
  -- `t'` is well formed, and stands for what `t` does.
  pub record SameTable (t t' : HashTable V) : Type 0 where
    pub valid : IsValid t'
    pub reads : (q : Bytes) → view t' q ≡ view t q
    pub same_size : t'.num_entries ≡ t.num_entries

  pub SameTable-refl : (t : HashTable V) → IsValid t → SameTable t t
  SameTable-refl t v = record { valid = v; reads = λ q. refl; same_size = refl }

  start_at :
      (n : ℕ) (t : HashTable V)
      → IsValid t
      → t.table1 ≡ []
      → SameTable t (record t { table1 = make_table n })
  start_at n t v no_new =
      let start : t.rehash_idx ≡ 0 = v.idle (rw no_new) in
      record {
        valid = started-IsValid t v.split no_new start n;
        reads = view-started t v.split no_new start n;
        same_size = refl;
      }

  pub maybe_resize-SameTable : (t : HashTable V) → IsValid t → SameTable t (maybe_resize t)
  unfolding maybe_resize
  maybe_resize-SameTable t v = elim (Bool-cases (length t.table1 == 0)) [
    | inr some_new ↦ rw some_new (SameTable-refl t v)
    | inl none_new ↦
        let no_new = length-zero t.table1 (ground arith) in
        elim (Bool-cases (ltb (length t.table0 * 3) (t.num_entries * 4))) [
          | inl full ↦ rw (none_new, full) (start_at (length t.table0 * 2) t v no_new)
          | inr roomy ↦
              elim (Bool-cases (
                ltb initial_bucket_count (length t.table0)
                && ltb (t.num_entries * 10) (length t.table0))) [
                  | inl sparse ↦
                      rw (none_new, roomy, sparse) (start_at (length t.table0 / 2) t v no_new)
                  | inr fine ↦ rw (none_new, roomy, fine) (SameTable-refl t v)
                ]
        ]
  ]

  -- What the loop of `rehash_step` keeps, and that it goes forward.
  record Advances (t t' : HashTable V) : Type 0 where
    split : IsSplit t'
    reads : (q : Bytes) → view t' q ≡ view t q
    same_size : t'.num_entries ≡ t.num_entries
    width0 : length t'.table0 ≡ length t.table0
    width1 : length t'.table1 ≡ length t.table1
    forward : t.rehash_idx ≤ t'.rehash_idx

  Advances-refl : (t : HashTable V) → IsSplit t → Advances t t
  Advances-refl t s = record {
    split = s;
    reads = λ q. refl;
    same_size = refl;
    width0 = refl;
    width1 = refl;
    forward = omega arith;
  }

  Advances-trans : {t u w : HashTable V} → Advances t u → Advances u w → Advances t w
  Advances-trans a b = record {
    split = b.split;
    reads = λ q. b.reads q ∙ a.reads q;
    same_size = b.same_size ∙ a.same_size;
    width0 = b.width0 ∙ a.width0;
    width1 = b.width1 ∙ a.width1;
    forward = omega arith;
  }

  module _ (t : HashTable V) (s : IsSplit t) (more : t.rehash_idx < length t.table0) where
    skip_bucket-Advances : get_or t.table0 t.rehash_idx [] ≡ [] → Advances t (skip_bucket t)
    skip_bucket-Advances e = record {
      split = skip_bucket-IsSplit t s more e;
      reads = view-skip_bucket t s more e;
      same_size = (unfold skip_bucket in refl);
      width0 = (unfold skip_bucket in refl);
      width1 = (unfold skip_bucket in refl);
      forward = (unfold skip_bucket in omega arith);
    }

    move_bucket-Advances : 0 < length t.table1 → Advances t (move_bucket t)
    move_bucket-Advances some_new = record {
      split = move_bucket-IsSplit t s some_new more;
      reads = view-move_bucket t s some_new more;
      same_size = (unfold move_bucket in refl);
      width0 = (length-move_bucket t s some_new more).0;
      width1 = (length-move_bucket t s some_new more).1;
      forward = (unfold move_bucket in omega arith);
    }

  rehash_loop-Advances :
      (fuel n visits : ℕ) (t : HashTable V)
      → IsSplit t
      → 0 < length t.table1
      → Advances t (rehash_loop fuel n visits t)
  unfolding rehash_loop
  rehash_loop-Advances zero n visits t s some_new = Advances-refl t s
  rehash_loop-Advances (suc fuel) n visits t s some_new =
      elim (Bool-cases (n == 0 || leb (length t.table0) t.rehash_idx)) [
        | inl stop ↦ rw stop (Advances-refl t s)
        | inr go ↦
            let more : t.rehash_idx < length t.table0 = ground arith in
            elim (List-cases (get_or t.table0 t.rehash_idx [])) [
              | inl e ↦
                  let a = skip_bucket-Advances t s more e in
                  let rest =
                    rehash_loop-Advances fuel n (before visits) (skip_bucket t) a.split
                      (omega (arith, a.width1)) in
                  elim (Bool-cases (before visits == 0)) [
                    | inl tired ↦ rw (go, e, tired, rehash_loop) a
                    | inr on ↦ rw (go, e, on, rehash_loop) (Advances-trans a rest)
                  ]
              | inr (node, nodes, e) ↦
                  let a = move_bucket-Advances t s more some_new in
                  let rest =
                    rehash_loop-Advances fuel (n - 1) visits (move_bucket t) a.split
                      (omega (arith, a.width1)) in
                  rw (go, e, rehash_loop) (Advances-trans a rest)
            ]
      ]

  -- Every old bucket has been moved, and the new array takes the old one's place.
  adopted-IsValid :
      (t : HashTable V)
      → IsSplit t
      → 0 < length t.table1
      → t.rehash_idx ≡ length t.table0
      → IsValid (record t { table0 = t.table1; table1 = []; rehash_idx = 0 })
  unfolding count total
  adopted-IsValid t s some_new done = record {
    split = record {
      some_old = some_new;
      bounded = omega arith;
      old_placed = s.new_placed;
      new_placed = record { once = λ q i. omega arith; at_home = λ q i ne. refl };
      moved = λ i below. absurd (omega arith);
      unmoved = λ q i above. refl;
      counted =
          (let drained = total-empty t.table0 (λ i below. s.moved i (omega arith)) in
            omega (arith, s.counted, drained));
    };
    idle = λ e. refl;
    busy = λ h. absurd (omega arith);
  }

  view-adopted :
      (t : HashTable V)
      → IsSplit t
      → t.rehash_idx ≡ length t.table0
      → (q : Bytes)
      → view (record t { table0 = t.table1; table1 = []; rehash_idx = 0 }) q ≡ view t q
  unfolding view chain_of
  view-adopted t s done q =
      let inside = home-lt q (length t.table0) s.some_old in
      let moved : ltb (home q (length t.table0)) t.rehash_idx ≡ true = ground arith in
      rw moved (ground arith)

  finish_rehash-SameTable :
      (t : HashTable V) → IsSplit t → 0 < length t.table1 → SameTable t (finish_rehash t)
  unfolding finish_rehash
  finish_rehash-SameTable t s some_new = elim (Bool-cases (t.rehash_idx == length t.table0)) [
    | inl done ↦
        let e : t.rehash_idx ≡ length t.table0 = ground arith in
        let same = maybe_resize-SameTable _ (adopted-IsValid t s some_new e) in
        rw done (record {
          valid = same.valid;
          reads = λ q. same.reads q ∙ view-adopted t s e q;
          same_size = same.same_size;
        })
    | inr left ↦ rw left (record {
      valid = record {
        split = s;
        idle = λ e. absurd (omega arith);
        busy = λ h. ground (arith, s.bounded);
      };
      reads = λ q. refl;
      same_size = refl;
    })
  ]

  pub rehash_step-SameTable :
      (t : HashTable V) (n : ℕ) → IsValid t → SameTable t (rehash_step t n).0
  unfolding rehash_step
  rehash_step-SameTable t n v = elim (Bool-cases (length t.table1 == 0)) [
    | inl none_new ↦ rw none_new (SameTable-refl t v)
    | inr some_new ↦
        let a =
          rehash_loop-Advances (length t.table0 - t.rehash_idx) n (n * 10 % 2 ^ 64) t v.split
            (ground arith) in
        let busy : 0 < length t.table1 = ground arith in
        let f = finish_rehash-SameTable _ a.split (omega (arith, a.width1)) in
        rw some_new (record {
          valid = f.valid;
          reads = λ q. f.reads q ∙ a.reads q;
          same_size = f.same_size ∙ a.same_size;
        })
  ]
