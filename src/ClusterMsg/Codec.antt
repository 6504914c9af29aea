-- ===== src/ClusterMsg/Codec.antt =====
-- src/cluster_msg.cpp: `encode` and `decode`.
use epochkv.Prelude.{
  ℕ, zero, suc, ◌+◌, ◌-◌, ◌*◌, ◌^◌, List, [], ◌∷◌, Option, none, some, false, not, ◌&&◌, Bytes, str,
  ◌==◌, ltb, leb, bytes_eq, if◌then◌else◌, get_or, drop, length,
}
use epochkv.Prelude.Decimal.{to_string_ℕ}
use epochkv.Reply
use epochkv.ClusterMsg.{
  MsgType, update, fail, GossipEntry, Message, header_only, type_name, parse_type, parse_uint,
  parse_port, role_name, parse_role, gossip_flags, parse_gossip_flags, valid_node_id,
  slots_to_bytes, slots_from_bytes,
}

unfoldable pub gossip_args : List GossipEntry → List Bytes
unfolding gossip_flags
gossip_args [] = []
gossip_args (g ∷ gs) =
    g.id ∷ g.ip ∷ to_string_ℕ g.port ∷ to_string_ℕ g.cport ∷ gossip_flags g ∷ gossip_args gs

unfoldable pub body_args : MsgType → Message → List Bytes
unfolding gossip_args header_only
body_args update msg =
    msg.update_id ∷ to_string_ℕ msg.update_epoch ∷ slots_to_bytes msg.update_slots ∷ []
body_args fail msg = msg.fail_id ∷ []
body_args type msg =
    if header_only type then [] else to_string_ℕ (length msg.gossip) ∷ gossip_args msg.gossip

unfoldable pub encode_args : Message → List Bytes
unfolding body_args type_name role_name
encode_args msg =
    type_name msg.type
    ∷ msg.sender
    ∷ to_string_ℕ msg.port
    ∷ to_string_ℕ msg.cport
    ∷ role_name msg.is_replica
    ∷ (if length msg.master_id == 0 then str "-" else msg.master_id)
    ∷ to_string_ℕ msg.current_epoch
    ∷ to_string_ℕ msg.config_epoch
    ∷ to_string_ℕ msg.repl_offset
    ∷ to_string_ℕ msg.mflags
    ∷ slots_to_bytes msg.slots
    ∷ body_args msg.type msg

unfoldable pub encode : Message → Bytes → Bytes
unfolding encode_args
encode msg out = Reply.command out (encode_args msg)

infixl 5 ◌>>=◌
abbrev ◌>>=◌ : {A B : Type 0} → Option A → (A → Option B) → Option B
none >>= f = none
some a >>= f = f a

abbrev max_u64 : ℕ
max_u64 = 2 ^ 64 - 1

abbrev max_u32 : ℕ
max_u32 = 2 ^ 32 - 1

unfoldable pub checked_id : Bytes → Option Bytes
checked_id id = if valid_node_id id then some id else none

-- A master has "-" for its master.
unfoldable pub parse_master : Bytes → Option Bytes
unfolding checked_id
parse_master s = if bytes_eq s (str "-") then some [] else checked_id s

unfoldable pub decode_entry : List Bytes → Option GossipEntry
unfolding checked_id parse_port parse_gossip_flags
decode_entry f = do
  id ← checked_id (get_or f 0 [])
  port ← parse_port (get_or f 2 [])
  cport ← parse_port (get_or f 3 [])
  parse_gossip_flags (get_or f 4 []) (record {
    id = id;
    ip = get_or f 1 [];
    port = port;
    cport = cport;
    is_replica = false;
    is_pfail = false;
    is_fail = false;
  })

-- The loop over the entries, each of five arguments.
unfoldable pub decode_entries : ℕ → List Bytes → Option (List GossipEntry)
unfolding decode_entry
decode_entries zero f = some []
decode_entries (suc count) f = do
  g ← decode_entry f
  gs ← decode_entries count (drop 5 f)
  some (g ∷ gs)

unfoldable pub decode_gossip : List Bytes → Message → Option Message
unfolding decode_entries
decode_gossip body msg = if length body == 0 then none else do
  count ← parse_uint max_u64 (get_or body 0 [])
  gs ←
      if leb count (length body) && length body == 1 + count * 5
      then decode_entries count (drop 1 body)
      else none
  some (record msg { gossip = gs })

unfoldable pub decode_update : List Bytes → Message → Option Message
unfolding checked_id
decode_update body msg = if not (length body == 3) then none else do
  id ← checked_id (get_or body 0 [])
  epoch ← parse_uint max_u64 (get_or body 1 [])
  slots ← slots_from_bytes (get_or body 2 [])
  some (record msg { update_id = id; update_epoch = epoch; update_slots = slots })

unfoldable pub decode_fail : List Bytes → Message → Option Message
unfolding checked_id
decode_fail body msg =
    if not (length body == 1)
    then none
    else do id ← checked_id (get_or body 0 []); some (record msg { fail_id = id })

-- What follows the header, for a message that has the header's fields.
unfoldable pub decode_body : MsgType → List Bytes → Message → Option Message
unfolding decode_update decode_fail decode_gossip header_only
decode_body update body msg = decode_update body msg
decode_body fail body msg = decode_fail body msg
decode_body type body msg =
    if header_only type then if length body == 0 then some msg else none else decode_gossip body msg

-- The header's checks have no effects, so that their order does not matter.
unfoldable pub decode : List Bytes → Option Message
unfolding parse_type parse_master decode_body
decode argv = if ltb (length argv) 11 then none else do
  type ← parse_type (get_or argv 0 [])
  sender ← checked_id (get_or argv 1 [])
  port ← parse_port (get_or argv 2 [])
  cport ← parse_port (get_or argv 3 [])
  is_replica ← parse_role (get_or argv 4 [])
  master_id ← parse_master (get_or argv 5 [])
  current_epoch ← parse_uint max_u64 (get_or argv 6 [])
  config_epoch ← parse_uint max_u64 (get_or argv 7 [])
  repl_offset ← parse_uint max_u64 (get_or argv 8 [])
  mflags ← parse_uint max_u32 (get_or argv 9 [])
  slots ← slots_from_bytes (get_or argv 10 [])
  decode_body type (drop 11 argv) (record {
    type = type;
    sender = sender;
    port = port;
    cport = cport;
    is_replica = is_replica;
    master_id = master_id;
    current_epoch = current_epoch;
    config_epoch = config_epoch;
    repl_offset = repl_offset;
    mflags = mflags;
    slots = slots;
    gossip = [];
    update_id = [];
    update_epoch = 0;
    update_slots = λ slot. false;
    fail_id = [];
  })
