-- ===== src/HashTable/Move.antt =====
-- Moving one old bucket into the new array.
use epochkv.Prelude.{
  ℕ, ◌+◌, ◌≤◌, ◌<◌, ◌≡◌, ◌≢◌, refl, ◌∙◌, ap, inl, inr, List, [], ◌∷◌, true, false, Bytes, arith,
  ◌==◌, ltb, bytes_eq, bytes_eq_iff, if◌then◌else◌, Bool-cases, dec_lt, get_or, set, length,
  length-set,
}
use epochkv.HashTable.Bucket.{Chain, chain_find, count, chain_find-none}
use epochkv.HashTable.Buckets.{home, home-lt, get_or-set, total, total-set}
use epochkv.HashTable.{HashTable, move_nodes, move_bucket}
use epochkv.HashTable.Valid.{IsPlaced, IsSplit, chain_of, view}

module _ {V : Type 0} (k : Bytes) (v : V) (bs : List (Chain V)) where
  -- The array with one node put at the head of its bucket.
  abbrev put_head : List (Chain V)
  put_head = set bs (home k (length bs)) ((k, v) ∷ get_or bs (home k (length bs)) [])

module _ {V : Type 0} where
  move_nodes-cons :
      (k : Bytes) (v : V) (c : Chain V) (bs : List (Chain V))
      → move_nodes ((k, v) ∷ c) bs ≡ move_nodes c (put_head k v bs)
  unfolding move_nodes home
  move_nodes-cons k v c bs = refl

  length-move_nodes : (c : Chain V) (bs : List (Chain V)) → length (move_nodes c bs) ≡ length bs
  unfolding move_nodes
  length-move_nodes [] bs = refl
  length-move_nodes ((k, v) ∷ c) bs = length-move_nodes c _ ∙ length-set bs _ _

  total-move_nodes :
      (c : Chain V) (bs : List (Chain V))
      → 0 < length bs
      → total (move_nodes c bs) ≡ total bs + length c
  total-move_nodes [] bs h = (unfold move_nodes in omega arith)
  total-move_nodes ((k, v) ∷ c) bs h =
      let width = length-set bs (home k (length bs)) ((k, v) ∷ get_or bs (home k (length bs)) []) in
      let rest = total-move_nodes c (put_head k v bs) (omega arith) in
      let one =
        total-set bs (home k (length bs)) ((k, v) ∷ get_or bs (home k (length bs)) [])
          (home-lt k (length bs) h) in
      rw (move_nodes-cons k v c bs) (omega (arith, rest, one))

  count-move_nodes :
      (c : Chain V) (bs : List (Chain V)) (q : Bytes) (i : ℕ)
      → 0 < length bs
      → count q (get_or (move_nodes c bs) i [])
        ≡ (if home q (length bs) == i then count q c else 0) + count q (get_or bs i [])
  count-move_nodes [] bs q i h = (unfold move_nodes count in ground arith)
  count-move_nodes ((k, v) ∷ c) bs q i h =
      let hk = home k (length bs) in
      let width = length-set bs hk ((k, v) ∷ get_or bs hk []) in
      let rest = count-move_nodes c (put_head k v bs) q i (omega arith) in
      let at = get_or-set bs hk i ((k, v) ∷ get_or bs hk []) [] (home-lt k (length bs) h) in
      rw (move_nodes-cons k v c bs, rest, width, at)
        (unfold count in ground (arith, bytes_eq_iff k q))

  -- A key that is not among the nodes reads as before.
  find-moved_other :
      (c : Chain V) (bs : List (Chain V)) (q : Bytes) (i : ℕ)
      → 0 < length bs
      → count q c ≡ 0
      → chain_find q (get_or (move_nodes c bs) i []) ≡ chain_find q (get_or bs i [])
  find-moved_other [] bs q i h absent = (unfold move_nodes in refl)
  find-moved_other ((k, v) ∷ c) bs q i h absent =
      let hk = home k (length bs) in
      let width = length-set bs hk ((k, v) ∷ get_or bs hk []) in
      let gone : count q c ≡ 0 = unfold count in ground arith in
      let rest = find-moved_other c (put_head k v bs) q i (omega arith) gone in
      let at = get_or-set bs hk i ((k, v) ∷ get_or bs hk []) [] (home-lt k (length bs) h) in
      rw (move_nodes-cons k v c bs, rest, at) (unfold count chain_find in ground arith)

  -- A key that the new array lacks reads as among the nodes.
  find-moved_self :
      (c : Chain V) (bs : List (Chain V)) (q : Bytes)
      → 0 < length bs
      → count q c ≤ 1
      → count q (get_or bs (home q (length bs)) []) ≡ 0
      → chain_find q (get_or (move_nodes c bs) (home q (length bs)) []) ≡ chain_find q c
  find-moved_self [] bs q h single absent =
      unfold move_nodes chain_find in chain_find-none q (get_or bs (home q (length bs)) []) absent
  find-moved_self ((k, v) ∷ c) bs q h single absent =
      let hk = home k (length bs) in
      let hq = home q (length bs) in
      let width = length-set bs hk ((k, v) ∷ get_or bs hk []) in
      let at = get_or-set bs hk hq ((k, v) ∷ get_or bs hk []) [] (home-lt k (length bs) h) in
      elim (Bool-cases (bytes_eq k q)) [
        | inl same ↦
            let e : k ≡ q = (bytes_eq_iff k q).0 same in
            let homes : (hk == hq) ≡ true = ground (arith, ap (λ x. home x (length bs)) e) in
            let gone : count q c ≡ 0 = unfold count in ground (arith, same) in
            let rest = find-moved_other c (put_head k v bs) q hq (omega arith) gone in
            rw (move_nodes-cons k v c bs, rest, at, homes)
              (unfold chain_find in rw (same, chain_find))
        | inr other ↦
            let single' : count q c ≤ 1 = unfold count in ground (arith, other) in
            let absent' : count q (get_or (put_head k v bs) (home q (length (put_head k v bs))) [])
                ≡ 0 =
              rw (width, at) (unfold count in ground arith) in
            let rest =
              rw width at (find-moved_self c (put_head k v bs) q (omega arith) single' absent') in
            rw (move_nodes-cons k v c bs, rest) (unfold chain_find in rw (other, chain_find))
      ]

module _ {V : Type 0} (t : HashTable V) (s : IsSplit t) (some_new : 0 < length t.table1)
    (more : t.rehash_idx < length t.table0) where
  -- The keys of the bucket that is moved.
  here_gone :
      (q : Bytes) (i : ℕ) → home q (length t.table0) ≢ i → count q (get_or t.table0 i []) ≡ 0
  here_gone = s.old_placed.at_home

  abbrev chain : Chain V
  chain = get_or t.table0 t.rehash_idx []

  count-moved :
      (q : Bytes) (i : ℕ)
      → count q (get_or (move_nodes chain t.table1) i [])
        ≡ (if home q (length t.table1) == i then count q chain else 0)
          + count q (get_or t.table1 i [])
  count-moved q i = count-move_nodes chain t.table1 q i some_new

  new-IsPlaced : IsPlaced (move_nodes chain t.table1)
  new-IsPlaced =
      let width = length-move_nodes chain t.table1 in
      record {
        once = λ q i. rw (count-moved q i) (elim (dec_lt (home q (length t.table0)) t.rehash_idx) [
          | yes below ↦
              let gone = here_gone q t.rehash_idx (omega arith) in
              rw gone (ground (arith, s.new_placed.once q i))
          | no above ↦
              rw (s.unmoved q i (omega arith)) (ground (arith, s.old_placed.once q t.rehash_idx))
        ]);
        at_home = λ q i ne.
            let far : home q (length t.table1) ≢ i = rw (← width) ne in
            rw (count-moved q i, s.new_placed.at_home q i far) (ground arith);
      }

  abbrev emptied : List (Chain V)
  emptied = set t.table0 t.rehash_idx []

  at_emptied :
      (i : ℕ) → get_or emptied i [] ≡ (if t.rehash_idx == i then [] else get_or t.table0 i [])
  at_emptied i = get_or-set t.table0 t.rehash_idx i [] [] more

  emptied-IsPlaced : IsPlaced emptied
  emptied-IsPlaced =
      let width = length-set t.table0 t.rehash_idx [] in
      record {
        once = λ q i. rw (at_emptied i) (unfold count in ground (arith, s.old_placed.once q i));
        at_home = λ q i ne.
            rw (at_emptied i)
              (unfold count in ground (arith, s.old_placed.at_home q i (rw (← width) ne)));
      }

  pub move_bucket-IsSplit : IsSplit (move_bucket t)
  unfolding move_bucket
  move_bucket-IsSplit =
      let width = length-set t.table0 t.rehash_idx [] in
      record {
        some_old = rw width s.some_old;
        bounded = rw width (omega arith);
        old_placed = emptied-IsPlaced;
        new_placed = new-IsPlaced;
        moved = λ i below. rw (at_emptied i) (ground (arith, s.moved i));
        unmoved = λ q i above.
            let far : t.rehash_idx + 1 ≤ home q (length t.table0) = rw (← width) above in
            rw
              (count-moved q i, s.unmoved q i (omega arith), here_gone q t.rehash_idx (omega arith))
              (ground arith);
        counted = omega (
          arith,
          s.counted,
          total-move_nodes chain t.table1 some_new,
          total-set t.table0 t.rehash_idx [] more,
        );
      }

  -- Moving a bucket changes no lookup.
  pub view-move_bucket : (q : Bytes) → view (move_bucket t) q ≡ view t q
  unfolding move_bucket view
  view-move_bucket q =
      let hq = home q (length t.table0) in
      let width = length-set t.table0 t.rehash_idx [] in
      let width1 = length-move_nodes chain t.table1 in
      elim (dec_lt hq t.rehash_idx) [
        | yes below ↦
            let before : ltb hq t.rehash_idx ≡ true = ground arith in
            let after : ltb hq (t.rehash_idx + 1) ≡ true = ground arith in
            let gone = here_gone q t.rehash_idx (omega arith) in
            rw (width, width1, chain_of, before, after)
              (find-moved_other chain t.table1 q (home q (length t.table1)) some_new gone)
        | no above ↦
            let before : ltb hq t.rehash_idx ≡ false = ground arith in
            elim (Bool-cases (t.rehash_idx == hq)) [
              | inl now ↦
                  let e : t.rehash_idx ≡ hq = ground arith in
                  let after : ltb hq (t.rehash_idx + 1) ≡ true = ground arith in
                  let absent = s.unmoved q (home q (length t.table1)) (omega arith) in
                  rw (width, width1, chain_of, before, after)
                    (find-moved_self chain t.table1 q some_new (s.old_placed.once q t.rehash_idx)
                        absent
                      ∙ ap (λ i. chain_find q (get_or t.table0 i [])) e)
              | inr later ↦
                  let after : ltb hq (t.rehash_idx + 1) ≡ false = ground arith in
                  rw (width, width1, chain_of, before, after) (rw (at_emptied hq, later))
            ]
      ]

  pub length-move_bucket :
      (length (move_bucket t).table0 ≡ length t.table0)
      × (length (move_bucket t).table1 ≡ length t.table1)
  unfolding move_bucket
  length-move_bucket = (length-set t.table0 t.rehash_idx [], length-move_nodes chain t.table1)
