-- ===== src/Slots/Tags.antt =====
-- The slot of a key with a tag.
use epochkv.Prelude.{
  ℕ, suc, ◌+◌, ◌-◌, ◌<◌, ◌≡◌, refl, ap, ◌≢◌, false, List, [], ◌∷◌, ◌++◌, none, some, Bytes, All,
  arith, length, take, drop, ◌==◌, bit_and,
}
use epochkv.Slots.{crc16, index_of, find_from, hashed_part, key_hash_slot}

length-pos : (s : Bytes) → s ≢ [] → 0 < length s
length-pos [] h = absurd (h refl)
length-pos (b ∷ s) h = omega arith

abbrev pub Without : ℕ → Bytes → Type 0
Without c s = All (λ b. b ≢ c) s

pub index_of-none : (c : ℕ) (s : Bytes) → Without c s → index_of c s ≡ none
unfolding index_of
index_of-none c [] h = refl
index_of-none c (b ∷ s) h = ground (arith, index_of-none c s h.1)

pub index_of-append :
    (c : ℕ) (s t : Bytes) → Without c s → index_of c (s ++ c ∷ t) ≡ some (length s)
unfolding index_of
index_of-append c [] t h = ground arith
index_of-append c (b ∷ s) t h = ground (arith, index_of-append c s t h.1)

pub drop-length_append : {A : Type 0} (s t : List A) → drop (length s) (s ++ t) ≡ t
drop-length_append [] t = refl
drop-length_append (b ∷ s) t = drop-length_append s t

pub take-length_append : {A : Type 0} (s t : List A) → take (length s) (s ++ t) ≡ s
take-length_append [] t = refl
take-length_append (b ∷ s) t = ap (λ (l : List _). b ∷ l) (take-length_append s t)

drop_past : (s t : Bytes) (b : ℕ) → drop (length s + 1) (s ++ b ∷ t) ≡ t
drop_past [] t b = refl
drop_past (x ∷ s) t b =
    let e : suc (length s) + 1 ≡ suc (length s + 1) = omega arith in rw e (drop_past s t b)

module _ (pre tag post : Bytes) (opens : Without b'{' pre) (closes : Without b'}' tag) where
  abbrev tagged : Bytes
  tagged = pre ++ b'{' ∷ (tag ++ b'}' ∷ post)

  open_found : find_from b'{' tagged 0 ≡ some (length pre)
  unfolding find_from
  open_found =
      rw (index_of-append b'{' pre (tag ++ b'}' ∷ post) opens, find_from) (ap some (omega arith))

  close_found : find_from b'}' tagged (length pre + 1) ≡ some (length pre + 1 + length tag)
  unfolding find_from
  close_found =
      rw (drop_past pre (tag ++ b'}' ∷ post) b'{', index_of-append b'}' tag post closes, find_from)

  pub hashed_part-tagged : tag ≢ [] → hashed_part tagged ≡ tag
  unfolding hashed_part
  hashed_part-tagged h =
      let some_tag : 0 < length tag = length-pos tag h in
      let apart : (length pre + 1 + length tag == length pre + 1) ≡ false = ground arith in
      let span : length pre + 1 + length tag - length pre - 1 ≡ length tag = omega arith in
      rw (open_found, close_found, hashed_part)
        (rw (apart, span, drop_past pre (tag ++ b'}' ∷ post) b'{')
          (take-length_append tag (b'}' ∷ post)))

  -- A key with a non-empty tag has the slot of its tag, whatever stands around the tag: the first
  -- '{' opens it, and the tag has no '}'.
  pub key_hash_slot-tagged : tag ≢ [] → key_hash_slot tagged ≡ bit_and (crc16 tag) 16383
  unfolding key_hash_slot
  key_hash_slot-tagged h = rw (hashed_part-tagged h)

-- A key with no '{' is hashed whole.
pub hashed_part-plain : (key : Bytes) → Without b'{' key → hashed_part key ≡ key
unfolding hashed_part find_from
hashed_part-plain key h = rw (index_of-none b'{' key h, hashed_part)
