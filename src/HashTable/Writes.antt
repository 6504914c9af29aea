-- ===== src/HashTable/Writes.antt =====
-- A write to the bucket of a key, as `set` and `del` make it.
use epochkv.Prelude.{
  ℕ, ◌+◌, ◌≤◌, ◌<◌, ◌≡◌, ◌≢◌, refl, sym, ◌∙◌, ap, inl, inr, List, [], Option, false, Bytes, arith,
  ◌==◌, bytes_eq, bytes_eq_iff, if◌then◌else◌, Bool-cases, get_or, set, length, length-set,
}
use epochkv.HashTable.Bucket.{Chain, chain_find, count}
use epochkv.HashTable.Buckets.{home, home-lt, get_or-set, total-set}
use epochkv.HashTable.{HashTable}
use epochkv.HashTable.Valid.{IsPlaced, IsSplit, chain_of, view}

module _ {V : Type 0} (key : Bytes) (c c' : Chain V) where
  -- A chain that differs from another only at one key, which it holds once at most.
  pub record Rewrites (v : Option V) : Type 0 where
    pub same : (q : Bytes) → key ≢ q → count q c' ≡ count q c
    pub single : count key c' ≤ 1
    pub reads : (q : Bytes) → chain_find q c' ≡ (if bytes_eq key q then v else chain_find q c)

  Rewrites-once : {v : Option V} → Rewrites v → (q : Bytes) → count q c ≤ 1 → count q c' ≤ 1
  Rewrites-once r q h = elim (Bool-cases (bytes_eq key q)) [
    | inl e ↦ rw (sym ((bytes_eq_iff key q).0 e)) r.single
    | inr ne ↦ rw (r.same q (λ e. ground (arith, bytes_eq_iff key q, e))) h
  ]

module _ {V : Type 0} {v : Option V} (key : Bytes) (c' : Chain V) (bs : List (Chain V)) where
  set-IsPlaced :
      0 < length bs
      → IsPlaced bs
      → Rewrites key (get_or bs (home key (length bs)) []) c' v
      → IsPlaced (set bs (home key (length bs)) c')
  set-IsPlaced some_bucket p r =
      let i = home key (length bs) in
      let inside = home-lt key (length bs) some_bucket in
      let old = get_or bs i [] in
      record {
        once = λ q j. elim (Bool-cases (i == j)) [
          | inl here ↦
              rw (get_or-set bs i j c' [] inside, here) (Rewrites-once key old c' r q (p.once q i))
          | inr there ↦ rw (get_or-set bs i j c' [] inside, there) (p.once q j)
        ];
        at_home = λ q j ne. elim (Bool-cases (i == j)) [
          | inl here ↦
              let at : i ≡ j = ground arith in
              let far : home q (length bs) ≢ j = rw (← length-set bs i c') ne in
              let other : key ≢ q = λ e. far (rw (← e) at) in
              rw (get_or-set bs i j c' [] inside, here)
                (r.same q other ∙ p.at_home q i (λ e. far (e ∙ at)))
          | inr there ↦
              rw (get_or-set bs i j c' [] inside, there)
                (p.at_home q j (rw (← length-set bs i c') ne))
        ];
      }

-- What a write must establish.
pub record Writes {V : Type 0} (t : HashTable V) (key : Bytes) (v : Option V) (t' : HashTable V)
    : Type 0 where
  pub split : IsSplit t'
  pub idx : t'.rehash_idx ≡ t.rehash_idx
  pub width0 : length t'.table0 ≡ length t.table0
  pub width1 : length t'.table1 ≡ length t.table1
  pub reads : (q : Bytes) → view t' q ≡ (if bytes_eq key q then v else view t q)

module _ {V : Type 0} (t : HashTable V) (key : Bytes) (c' : Chain V) (n : ℕ) {v : Option V}
    (s : IsSplit t) where
  -- The key's bucket is an old one.
  module _ (r : Rewrites key (get_or t.table0 (home key (length t.table0)) []) c' v)
      (sized : n + length (get_or t.table0 (home key (length t.table0)) [])
        ≡ t.num_entries + length c')
      (up : t.rehash_idx ≤ home key (length t.table0)) where
    pub old_Writes :
        Writes t key v
          (record t { table0 = set t.table0 (home key (length t.table0)) c'; num_entries = n })
    unfolding view chain_of
    old_Writes =
        let i = home key (length t.table0) in
        let inside = home-lt key (length t.table0) s.some_old in
        let width = length-set t.table0 i c' in
        record {
          split = record {
            some_old = rw width s.some_old;
            bounded = rw width s.bounded;
            old_placed = set-IsPlaced key c' t.table0 s.some_old s.old_placed r;
            new_placed = s.new_placed;
            moved = λ j below.
                let apart : (i == j) ≡ false = ground arith in
                rw (get_or-set t.table0 i j c' [] inside, apart) (s.moved j below);
            unmoved = λ q j. rw width (s.unmoved q j);
            counted = omega (arith, total-set t.table0 i c' inside, s.counted);
          };
          idx = refl;
          width0 = width;
          width1 = refl;
          reads = λ q.
              rw (width, get_or-set t.table0 i (home q (length t.table0)) c' [] inside)
                (ground (arith, r.reads q, bytes_eq_iff key q));
        }

  -- The key's bucket has been moved.
  module _ (r : Rewrites key (get_or t.table1 (home key (length t.table1)) []) c' v)
      (sized : n + length (get_or t.table1 (home key (length t.table1)) [])
        ≡ t.num_entries + length c')
      (some_new : 0 < length t.table1) (down : home key (length t.table0) < t.rehash_idx) where
    pub new_Writes :
        Writes t key v
          (record t { table1 = set t.table1 (home key (length t.table1)) c'; num_entries = n })
    unfolding view chain_of
    new_Writes =
        let i = home key (length t.table1) in
        let inside = home-lt key (length t.table1) some_new in
        let width = length-set t.table1 i c' in
        record {
          split = record {
            some_old = s.some_old;
            bounded = s.bounded;
            old_placed = s.old_placed;
            new_placed = set-IsPlaced key c' t.table1 some_new s.new_placed r;
            moved = s.moved;
            unmoved = λ q j above. elim (Bool-cases (i == j)) [
              | inl here ↦
                  let other : key ≢ q =
                    λ e. absurd (omega (arith, ap (λ k. home k (length t.table0)) e)) in
                  rw (get_or-set t.table1 i j c' [] inside, here)
                    (r.same q other ∙ s.unmoved q i above)
              | inr there ↦ rw (get_or-set t.table1 i j c' [] inside, there) (s.unmoved q j above)
            ];
            counted = omega (arith, total-set t.table1 i c' inside, s.counted);
          };
          idx = refl;
          width0 = refl;
          width1 = width;
          reads = λ q.
              rw (width, get_or-set t.table1 i (home q (length t.table1)) c' [] inside)
                (ground (arith, r.reads q, bytes_eq_iff key q));
        }
