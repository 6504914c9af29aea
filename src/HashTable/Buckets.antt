-- ===== src/HashTable/Buckets.antt =====
-- Arrays of buckets: writes to one bucket, the number of nodes, and the bucket of a key.
use epochkv.Prelude.{
  ℕ, zero, suc, ◌+◌, ◌-◌, ◌≤◌, ◌<◌, ◌≡◌, refl, List, [], ◌∷◌, arith, ◌==◌, if◌then◌else◌, get_or,
  set, replicate, length, Bytes,
}
use epochkv.Prelude.Bits.{bit_and-le}
use epochkv.HashTable.Bucket.{Chain}
use epochkv.HashTable.{hash_key, bucket_index}

-- The bucket of a key in an array of the given size.
unfoldable pub home : Bytes → ℕ → ℕ
home key size = bucket_index (hash_key key) size

pub home-lt : (key : Bytes) (size : ℕ) → 0 < size → home key size < size
unfolding home bucket_index
home-lt key size h = omega (arith, bit_and-le (hash_key key) (size - 1))

module _ {A : Type 0} where
  pub get_or-set :
      (xs : List A) (i j : ℕ) (v d : A)
      → i < length xs
      → get_or (set xs i v) j d ≡ (if i == j then v else get_or xs j d)
  get_or-set [] i j v d h = absurd (omega arith)
  get_or-set (x ∷ xs) zero zero v d h = refl
  get_or-set (x ∷ xs) zero (suc j) v d h = ground arith
  get_or-set (x ∷ xs) (suc i) zero v d h = ground arith
  get_or-set (x ∷ xs) (suc i) (suc j) v d h = ground (arith, get_or-set xs i j v d)

  pub get_or-replicate : (n i : ℕ) (a : A) → get_or (replicate n a) i a ≡ a
  get_or-replicate zero i a = refl
  get_or-replicate (suc n) zero a = refl
  get_or-replicate (suc n) (suc i) a = get_or-replicate n i a

module _ {V : Type 0} where
  -- The number of nodes in all buckets.
  unfoldable pub total : List (Chain V) → ℕ
  total [] = 0
  total (c ∷ cs) = length c + total cs

  pub total-set :
      (bs : List (Chain V)) (i : ℕ) (c : Chain V)
      → i < length bs
      → total (set bs i c) + length (get_or bs i []) ≡ total bs + length c
  unfolding total
  total-set [] i c h = absurd (omega arith)
  total-set (b ∷ bs) zero c h = omega arith
  total-set (b ∷ bs) (suc i) c h = omega (arith, total-set bs i c (omega arith))

  pub length-get_or-le : (bs : List (Chain V)) (i : ℕ) → length (get_or bs i []) ≤ total bs
  unfolding total
  length-get_or-le [] i = omega arith
  length-get_or-le (b ∷ bs) zero = omega arith
  length-get_or-le (b ∷ bs) (suc i) = omega (arith, length-get_or-le bs i)

  -- Buckets that are all empty hold nothing.
  pub total-empty :
      (bs : List (Chain V)) → ((i : ℕ) → i < length bs → get_or bs i [] ≡ []) → total bs ≡ 0
  unfolding total
  total-empty [] h = refl
  total-empty (b ∷ bs) h =
      let first : b ≡ [] = h 0 (omega arith) in
      let rest = total-empty bs (λ i k. h (suc i) (omega arith)) in rw (first, rest)

pub total-replicate : (V : Type 0) (n : ℕ) → let nil : Chain V = [] in total (replicate n nil) ≡ 0
unfolding total
total-replicate V zero = refl
total-replicate V (suc n) = omega (arith, total-replicate V n)
