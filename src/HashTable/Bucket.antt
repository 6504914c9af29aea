-- ===== src/HashTable/Bucket.antt =====
-- One bucket: a chain of nodes. A node is its key and its value; a list stands for the `next` links.
use epochkv.Prelude.{
  ℕ, suc, ◌+◌, ◌≤◌, ◌≡◌, refl, List, [], ◌∷◌, Option, none, some, Bytes, arith, bytes_eq,
  bytes_eq_iff, if◌then◌else◌, length, ◌≢◌,
}

abbrev pub Chain : Type 0 → Type 0
Chain V = List (Bytes × V)

module _ {V : Type 0} where
  -- The loop of `find`.
  unfoldable pub chain_find : Bytes → Chain V → Option V
  chain_find key [] = none
  chain_find key ((k, v) ∷ nodes) = if bytes_eq k key then some v else chain_find key nodes

  -- `node->value = value` at the node of the key.
  unfoldable pub chain_assign : Bytes → V → Chain V → Chain V
  chain_assign key value [] = []
  chain_assign key value ((k, v) ∷ nodes) =
      if bytes_eq k key then (k, value) ∷ nodes else (k, v) ∷ chain_assign key value nodes

  -- `*link = node->next` at the node of the key.
  unfoldable pub chain_unlink : Bytes → Chain V → Chain V
  chain_unlink key [] = []
  chain_unlink key ((k, v) ∷ nodes) =
      if bytes_eq k key then nodes else (k, v) ∷ chain_unlink key nodes

  -- How often a key occurs in a chain.
  unfoldable pub count : Bytes → Chain V → ℕ
  count q [] = 0
  count q ((k, v) ∷ nodes) = if bytes_eq k q then suc (count q nodes) else count q nodes

  pub chain_find-none : (q : Bytes) (c : Chain V) → count q c ≡ 0 → chain_find q c ≡ none
  unfolding chain_find count
  chain_find-none q [] h = refl
  chain_find-none q ((k, v) ∷ c) h = ground (arith, chain_find-none q c)

  pub count-zero : (q : Bytes) (c : Chain V) → chain_find q c ≡ none → count q c ≡ 0
  unfolding chain_find count
  count-zero q [] h = refl
  count-zero q ((k, v) ∷ c) h = ground (arith, count-zero q c)

  module _ (key q : Bytes) where
    pub chain_find-assign :
        (value : V) (c : Chain V) (old : V)
        → chain_find key c ≡ some old
        → chain_find q (chain_assign key value c)
          ≡ (if bytes_eq key q then some value else chain_find q c)
    unfolding chain_find chain_assign
    chain_find-assign value [] old h = ground arith
    chain_find-assign value ((k, v) ∷ c) old h = ground (
      arith,
      chain_find-assign value c old,
      bytes_eq_iff k key,
      bytes_eq_iff k q,
      bytes_eq_iff key q,
    )

    pub count-assign : (value : V) (c : Chain V) → count q (chain_assign key value c) ≡ count q c
    unfolding count chain_assign
    count-assign value [] = refl
    count-assign value ((k, v) ∷ c) = ground (arith, count-assign value c)

    pub chain_find-unlink :
        (c : Chain V)
        → count q c ≤ 1
        → chain_find q (chain_unlink key c) ≡ (if bytes_eq key q then none else chain_find q c)
    unfolding chain_find chain_unlink count
    chain_find-unlink [] h = ground arith
    chain_find-unlink ((k, v) ∷ c) h = ground (
      arith,
      chain_find-unlink c,
      chain_find-none q c,
      bytes_eq_iff k key,
      bytes_eq_iff k q,
      bytes_eq_iff key q,
    )

    pub count-unlink : (c : Chain V) → key ≢ q → count q (chain_unlink key c) ≡ count q c
    unfolding count chain_unlink
    count-unlink [] h = refl
    count-unlink ((k, v) ∷ c) h =
        ground (arith, count-unlink c h, bytes_eq_iff k key, bytes_eq_iff k q)

    pub count-unlink-le : (c : Chain V) → count q (chain_unlink key c) ≤ count q c
    unfolding count chain_unlink
    count-unlink-le [] = omega arith
    count-unlink-le ((k, v) ∷ c) = ground (arith, count-unlink-le c)

  pub length-assign :
      (key : Bytes) (value : V) (c : Chain V) → length (chain_assign key value c) ≡ length c
  unfolding chain_assign
  length-assign key value [] = refl
  length-assign key value ((k, v) ∷ c) = ground (arith, length-assign key value c)

  pub length-unlink :
      (key : Bytes) (c : Chain V) (old : V)
      → chain_find key c ≡ some old
      → length (chain_unlink key c) + 1 ≡ length c
  unfolding chain_unlink chain_find
  length-unlink key [] old h = ground arith
  length-unlink key ((k, v) ∷ c) old h = ground (arith, length-unlink key c old)
