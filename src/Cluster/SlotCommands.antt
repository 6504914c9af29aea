-- ===== src/Cluster/SlotCommands.antt =====
-- src/cluster.cpp: CLUSTER ADDSLOTS, DELSLOTS, their RANGE forms, and SETSLOT.
use epochkv.Prelude.{
  ℕ, zero, suc, ◌+◌, ◌-◌, List, [], ◌∷◌, ◌++◌, Option, none, some, Bool, true, false, not, ◌&&◌,
  ◌||◌, Bytes, ◌==◌, ltb, str, bytes_eq, if◌then◌else◌,
}
use epochkv.Prelude.Int.{pos, negsuc}
use epochkv.Prelude.Decimal.{to_string_ℕ}
use epochkv.ClusterMsg.{SlotBitmap, slot_count}
use epochkv.Dispatcher.{parse_int64, to_upper}
use epochkv.Reply
use epochkv.Store.Reclaim.{count_keys_in_slot}
use epochkv.Cluster.{Node, Cluster, points_to, is_null}
use epochkv.Cluster.Nodes.{put, lookup, save, set_slot, bump_epoch_without_consensus}
use epochkv.Cluster.Bus.{self}

abbrev pub small_slot : ℕ → Option ℕ
small_slot n = if ltb n slot_count then some n else none

-- `parse_slot`; a number that is no `int` is no slot either.
unfoldable pub parse_slot : Bytes → Option ℕ
parse_slot s = elim (parse_int64 s) [
  | none ↦ none
  | some z ↦ elim z [ pos n ↦ small_slot n | negsuc n ↦ none ]
]

-- `n` slots from `start`.
unfoldable pub slots_from : ℕ → ℕ → List ℕ
slots_from start zero = []
slots_from start (suc n) = start ∷ slots_from (start + 1) n

-- The slots of a command, or the error that it is answered with.
pub data Parsed : Type 0 where
  ok : List ℕ → Parsed
  bad : Bytes → Parsed

abbrev pub invalid_slot : Bytes
invalid_slot = str "ERR Invalid or out of range slot"

unfoldable pub more_slots : List ℕ → Parsed → Parsed
more_slots slots (ok rest) = ok (slots ++ rest)
more_slots slots (bad err) = bad err

unfoldable pub parse_one : Option ℕ → Parsed → Parsed
unfolding more_slots
parse_one none rest = bad invalid_slot
parse_one (some slot) rest = more_slots (slot ∷ []) rest

unfoldable pub parse_range : Option ℕ → Option ℕ → Parsed → Parsed
unfolding more_slots slots_from
parse_range none end rest = bad invalid_slot
parse_range (some start) none rest = bad invalid_slot
parse_range (some start) (some end) rest =
    if ltb end start
    then bad (
        str "ERR start slot number "
        ++ to_string_ℕ start
        ++ str " is greater than end slot number "
        ++ to_string_ℕ end)
    else more_slots (slots_from start (end + 1 - start)) rest

-- The arguments of the RANGE forms come in pairs.
unfoldable pub parse_slots : Bool → List Bytes → Parsed
unfolding parse_one parse_range parse_slot
parse_slots range [] = ok []
parse_slots false (a ∷ args) = parse_one (parse_slot a) (parse_slots false args)
parse_slots true (a ∷ []) = bad invalid_slot
parse_slots true (a ∷ b ∷ args) = parse_range (parse_slot a) (parse_slot b) (parse_slots true args)

abbrev pub slot_error : ℕ → Bytes → Bytes
slot_error slot what = str "ERR Slot " ++ to_string_ℕ slot ++ what

-- The first slot that cannot be taken or given up; `seen` are the slots in front.
unfoldable pub check_slots : (ℕ → Option ℕ) → Bool → SlotBitmap → List ℕ → Option Bytes
check_slots owner add seen [] = none
check_slots owner add seen (slot ∷ slots) =
    let rest = check_slots owner add (λ i. if i == slot then true else seen i) slots in
    if seen slot
    then some (slot_error slot (str " specified multiple times"))
    else if add && not (is_null (owner slot))
    then some (slot_error slot (str " is already busy"))
    else if not add && is_null (owner slot)
    then some (slot_error slot (str " is already unassigned"))
    else rest

abbrev pub is_action : Bytes → Bool
is_action action =
    bytes_eq action (str "MIGRATING")
    || bytes_eq action (str "IMPORTING")
    || bytes_eq action (str "NODE")

abbrev pub bad_action : Bytes
bad_action = str "ERR Invalid CLUSTER SETSLOT action or number of arguments. Try CLUSTER HELP"

module _ {R : Type 0} where
  unfoldable pub change_slot : Bool → ℕ → Cluster R → Cluster R
  change_slot false slot c = set_slot slot none c
  change_slot true slot c =
      set_slot slot (some c.myself) (record c { importing_from = put c.importing_from slot none })

  unfoldable pub change_slots : Bool → List ℕ → Cluster R → Cluster R
  unfolding change_slot
  change_slots add [] c = c
  change_slots add (slot ∷ slots) c = change_slots add slots (change_slot add slot c)

  unfoldable pub add_parsed : Bool → Parsed → Bytes → Cluster R → Cluster R × Bytes
  unfolding check_slots change_slots
  add_parsed add (bad err) out c = (c, Reply.error out err)
  add_parsed add (ok slots) out c = elim (check_slots c.owner add (λ i. false) slots) [
    | some err ↦ (c, Reply.error out err)
    | none ↦ (
      record (save (change_slots add slots c)) { todo_broadcast = true },
      Reply.simple_string out (str "OK"),
    )
  ]

  -- `args` are the arguments behind the subcommand.
  unfoldable pub cmd_addslots : List Bytes → Bool → Bool → Bytes → Cluster R → Cluster R × Bytes
  unfolding add_parsed parse_slots
  cmd_addslots args range add out c =
      if (self c).is_replica
      then (c, Reply.error out (str "ERR Please use this command only with masters."))
      else add_parsed add (parse_slots range args) out c

  abbrev pub saved_ok : Bytes → Cluster R → Cluster R × Bytes
  saved_ok out c = (save c, Reply.simple_string out (str "OK"))

  unfoldable pub set_migrating : ℕ → Node → Bytes → Cluster R → Cluster R × Bytes
  set_migrating slot n out c =
      if not (points_to (c.owner slot) c.myself)
      then (c, Reply.error out (str "ERR I'm not the owner of hash slot " ++ to_string_ℕ slot))
      else saved_ok out (record c { migrating_to = put c.migrating_to slot (some n.ref) })

  unfoldable pub set_importing : ℕ → Node → Bytes → Cluster R → Cluster R × Bytes
  set_importing slot n out c =
      if points_to (c.owner slot) c.myself
      then (c, Reply.error out (str "ERR I'm already the owner of hash slot " ++ to_string_ℕ slot))
      else saved_ok out (record c { importing_from = put c.importing_from slot (some n.ref) })

  -- The handover of a slot; the end of an import takes a fresh epoch.
  unfoldable pub hand_over : ℕ → Node → Cluster R → Cluster R
  hand_over slot n c =
      let mine = n.ref == c.myself in
      let finishes_import = mine && not (is_null (c.importing_from slot)) in
      let c1 =
        if count_keys_in_slot c.store slot == 0
        then record c { migrating_to = put c.migrating_to slot none }
        else c in
      let c2 =
        if mine then record c1 { importing_from = put c1.importing_from slot none } else c1 in
      let c3 = set_slot slot (some n.ref) c2 in
      let c4 = if finishes_import then (bump_epoch_without_consensus c3).0 else c3 in
      record c4 { todo_broadcast = true }

  unfoldable pub set_node : ℕ → Node → Bytes → Cluster R → Cluster R × Bytes
  unfolding hand_over
  set_node slot n out c =
      if points_to (c.owner slot) c.myself
        && not (n.ref == c.myself)
        && ltb 0 (count_keys_in_slot c.store slot)
      then (
        c,
        Reply.error out (
            str "ERR Can't assign hashslot "
            ++ to_string_ℕ slot
            ++ str " to a different node while I still hold keys for this hash slot."),
      )
      else saved_ok out (hand_over slot n c)

  -- For a node that is known.
  unfoldable pub set_action : Bytes → ℕ → Node → Bytes → Cluster R → Cluster R × Bytes
  unfolding set_migrating set_importing set_node
  set_action action slot n out c =
      if n.is_replica
      then (c, Reply.error out (str "ERR Target node is not a master"))
      else if bytes_eq action (str "MIGRATING")
      then set_migrating slot n out c
      else if bytes_eq action (str "IMPORTING")
      then set_importing slot n out c
      else set_node slot n out c

  -- `args` are the arguments behind the action.
  unfoldable pub set_slot_to : ℕ → Bytes → List Bytes → Bytes → Cluster R → Cluster R × Bytes
  unfolding set_action
  set_slot_to slot action [] out c =
      if bytes_eq action (str "STABLE")
      then saved_ok out (record c {
        migrating_to = put c.migrating_to slot none;
        importing_from = put c.importing_from slot none;
      })
      else (c, Reply.error out bad_action)
  set_slot_to slot action (id ∷ []) out c =
      if bytes_eq action (str "STABLE")
      then (c, Reply.error out (str "ERR syntax error"))
      else if not (is_action action)
      then (c, Reply.error out bad_action)
      else elim (lookup c id) [
        | none ↦ (c, Reply.error out (str "ERR I don't know about node " ++ id))
        | some n ↦
            if n.in_handshake
            then (c, Reply.error out (str "ERR I don't know about node " ++ id))
            else set_action action slot n out c
      ]
  set_slot_to slot action (a ∷ b ∷ args) out c = (
    c,
    Reply.error out (if bytes_eq action (str "STABLE") then str "ERR syntax error" else bad_action),
  )

  unfoldable pub cmd_setslot : Bytes → Bytes → List Bytes → Bytes → Cluster R → Cluster R × Bytes
  unfolding set_slot_to
  cmd_setslot slot action args out c =
      if (self c).is_replica
      then (c, Reply.error out (str "ERR Please use SETSLOT only with masters."))
      else elim (parse_slot slot) [
        | none ↦ (c, Reply.error out invalid_slot)
        | some n ↦ set_slot_to n (to_upper action) args out c
      ]
