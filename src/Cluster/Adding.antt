-- ===== src/Cluster/Adding.antt =====
-- src/cluster.cpp, `cmd_addslots`: all of the slots change hands, or none.
use epochkv.Prelude.{
  ℕ, ◌<◌, not, ◌&&◌, str, ◌≡◌, List, [], ◌∷◌, none, some, Bool, true, Bytes, if◌then◌else◌,
}
use epochkv.ClusterMsg.{slot_count}
use epochkv.Reply
use epochkv.Cluster.{Cluster, is_null}
use epochkv.Cluster.Arguments.{is_among, is_named}

-- No slot twice.
unfoldable pub is_distinct : List ℕ → Bool
is_distinct [] = true
is_distinct (slot ∷ slots) = not (is_among slot slots) && is_distinct slots

module _ {R : Type 0} where
  -- A command that changed the owners of the slots that its arguments name.
  pub record Changes (c : Cluster R) (range add : Bool) (args : List Bytes) (out : Bytes)
      (r : Cluster R × Bytes) : Type 0 where
    pub are_slots : (i : ℕ) → (is_named range args i ≡ true) → i < slot_count
    pub were_free : (i : ℕ) → (is_named range args i ≡ true) → is_null (c.owner i) ≡ add
    pub owners :
        (i : ℕ)
        → (r.0).owner i
          ≡ (if is_named range args i then (if add then some c.myself else none) else c.owner i)
    pub saved : (r.0).todo_save ≡ true
    pub reply : r.1 ≡ Reply.simple_string out (str "OK")

  -- A command that did nothing.
  abbrev pub Refused : Cluster R → Bytes → Cluster R × Bytes → Type 0
  Refused c out r = (r.0 ≡ c) × (err : Bytes) × (r.1 ≡ Reply.error out err)
