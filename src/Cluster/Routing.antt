-- ===== src/Cluster/Routing.antt =====
-- src/cluster.cpp, `route`: which node runs a command.
use epochkv.Prelude.{
  ℕ, ◌+◌, List, [], ◌∷◌, ◌++◌, Option, none, some, Bool, true, not, ◌&&◌, ◌||◌, Bytes, ◌==◌, ltb,
  bytes_eq, if◌then◌else◌, length, str,
}
use epochkv.Prelude.Decimal.{to_string_ℕ}
use epochkv.Slots.{key_hash_slot}
use epochkv.Store
use epochkv.Store.{Store}
use epochkv.Cluster.{Node, Cluster, is_null}
use epochkv.Cluster.Nodes.{find_ref}
use epochkv.Cluster.Bus.{self, nobody}

-- Whether the keys hash to a slot.
unfoldable pub same_slot : ℕ → List Bytes → Bool
same_slot slot [] = true
same_slot slot (k ∷ ks) = key_hash_slot k == slot && same_slot slot ks

-- How many of the keys are not here; a look at a key may drop it.
unfoldable pub count_missing : List Bytes → Store → Store × ℕ
count_missing [] s = (s, 0)
count_missing (k ∷ ks) s =
    let (s', found) = Store.contains s k in
    let (s'', missing) = count_missing ks s' in (s'', (if found then 0 else 1) + missing)

unfoldable pub address : Node → Bytes
address n = n.ip ++ str ":" ++ to_string_ℕ n.port

-- `Run` stands for `true`, and `Refuse` for `false` with the error.
pub data Route : Type 0 where
  run : Route
  refuse : Bytes → Route

abbrev pub tryagain : Route
tryagain = refuse (str "TRYAGAIN Multiple keys request during rehashing of slot")

unfoldable pub redirect : Bytes → ℕ → Node → Route
unfolding address
redirect word slot n = refuse (word ++ str " " ++ to_string_ℕ slot ++ str " " ++ address n)

-- The verdict for keys of one slot, `missing` of which are not here, when somebody serves the slot.
-- The owner is `owner`, and `migrating` and `importing` tell what goes on with the slot.
unfoldable pub decide : Bool → Bool → ℕ → ℕ → Bool → Bool → Route → Route → Route
decide migrating importing missing count asking here ask moved =
    if migrating && ltb 0 missing
    then (if ltb missing count then tryagain else ask)
    else if importing && asking
    then (if ltb 1 count && ltb 0 missing then tryagain else run)
    else if here
    then run
    else moved

module _ {R : Type 0} where
  -- The node of a pointer that is not null.
  abbrev pub target : Cluster R → Option ℕ → Node
  target c none = nobody
  target c (some r) = elim (find_ref r c.nodes) [ none ↦ nobody | some n ↦ n ]

  -- A replica serves reads of its master's slots to the clients that accept it.
  unfoldable pub reads_here : Cluster R → Bool → Bool → Node → Bool
  reads_here c write readonly owner =
      not write && readonly && (self c).is_replica && bytes_eq (self c).master_id owner.id

  unfoldable pub route_slot :
      Cluster R → ℕ → List Bytes → Bool → Bool → Bool → ℕ → Cluster R × Route
  unfolding count_missing decide reads_here
  route_slot c slot keys write asking readonly r =
      let mine = r == c.myself in
      let migrating = mine && not (is_null (c.migrating_to slot)) in
      let importing = not (is_null (c.importing_from slot)) in
      let (s, n) = count_missing keys c.store in
      let missing = if migrating || importing then n else 0 in
      let store = if migrating || importing then s else c.store in
      let owner = target c (some r) in
      (
        record c { store = store },
        decide migrating importing missing (length keys) asking
            (mine || reads_here c write readonly owner)
            (redirect (str "ASK") slot (target c (c.migrating_to slot)))
            (redirect (str "MOVED") slot owner),
      )

  unfoldable pub route_owner :
      Cluster R → ℕ → List Bytes → Bool → Bool → Bool → Option ℕ → Cluster R × Route
  unfolding route_slot
  route_owner c slot keys write asking readonly none =
      (c, refuse (str "CLUSTERDOWN Hash slot not served"))
  route_owner c slot keys write asking readonly (some r) =
      route_slot c slot keys write asking readonly r

  unfoldable pub route : Cluster R → List Bytes → Bool → Bool → Bool → Cluster R × Route
  unfolding same_slot route_owner
  route c [] write asking readonly = (c, run)
  route c (k ∷ ks) write asking readonly =
      let slot = key_hash_slot k in
      if not (same_slot slot ks)
      then (c, refuse (str "CROSSSLOT Keys in request don't hash to the same slot"))
      else if not c.state_ok
      then (c, refuse (str "CLUSTERDOWN The cluster is down"))
      else route_owner c slot (k ∷ ks) write asking readonly (c.owner slot)
