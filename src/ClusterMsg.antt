-- ===== src/ClusterMsg.antt =====
-- include/cluster_msg.hpp and src/cluster_msg.cpp: the messages of the cluster bus and their fields.
-- A bitmap is given by its test; a slot of 16384 or more is not in it.
pub mod Codec
pub mod Bitmap
use Prim.Native.String.{String}
use epochkv.Prelude.{
  ℕ, zero, suc, ◌+◌, ◌-◌, ◌*◌, ◌/◌, ◌%◌, ◌^◌, List, [], ◌∷◌, ◌++◌, Option, none, some, Bool, true,
  false, not, ◌&&◌, ◌||◌, Bytes, str, ◌==◌, ltb, leb, bytes_eq, if◌then◌else◌, get_or, length,
}
use epochkv.Dispatcher.{unsigned_value}

abbrev pub slot_count : ℕ
slot_count = 16384

abbrev pub slot_bytes : ℕ
slot_bytes = 2048

abbrev pub node_id_length : ℕ
node_id_length = 40

abbrev pub SlotBitmap : Type 0
SlotBitmap = ℕ → Bool

pub data MsgType : Type 0 where
  ping pong meet update fail failover_auth_request failover_auth_ack mf_start : MsgType

pub record GossipEntry : Type 0 where
  pub id : Bytes
  pub ip : Bytes
  pub port : ℕ
  pub cport : ℕ
  pub is_replica : Bool
  pub is_pfail : Bool
  pub is_fail : Bool

pub record Message : Type 0 where
  pub type : MsgType
  pub sender : Bytes
  pub port : ℕ
  pub cport : ℕ
  pub is_replica : Bool
  pub master_id : Bytes
  pub current_epoch : ℕ
  pub config_epoch : ℕ
  pub repl_offset : ℕ
  pub mflags : ℕ
  pub slots : SlotBitmap
  pub gossip : List GossipEntry
  pub update_id : Bytes
  pub update_epoch : ℕ
  pub update_slots : SlotBitmap
  pub fail_id : Bytes

unfoldable pub type_name : MsgType → Bytes
type_name ping = str "PING"
type_name pong = str "PONG"
type_name meet = str "MEET"
type_name update = str "UPDATE"
type_name fail = str "FAIL"
type_name failover_auth_request = str "FAILOVER_AUTH_REQUEST"
type_name failover_auth_ack = str "FAILOVER_AUTH_ACK"
type_name mf_start = str "MFSTART"

unfoldable pub header_only : MsgType → Bool
header_only failover_auth_request = true
header_only failover_auth_ack = true
header_only mf_start = true
header_only _ = false

abbrev pub all_types : List MsgType
all_types =
    ping ∷ pong ∷ meet ∷ update ∷ fail ∷ failover_auth_request ∷ failover_auth_ack ∷ mf_start ∷ []

unfoldable pub find_type : List MsgType → Bytes → Option MsgType
unfolding type_name
find_type [] s = none
find_type (t ∷ ts) s = if bytes_eq s (type_name t) then some t else find_type ts s

unfoldable pub parse_type : Bytes → Option MsgType
unfolding find_type
parse_type s = find_type all_types s

-- `std::from_chars` of an unsigned type whose values are at most `limit`, read to the end.
unfoldable pub parse_uint : ℕ → Bytes → Option ℕ
parse_uint limit s = unsigned_value limit s

unfoldable pub parse_port : Bytes → Option ℕ
unfolding parse_uint
parse_port s = elim (parse_uint (2 ^ 16 - 1) s) [
  | none ↦ none
  | some port ↦ if port == 0 then none else some port
]

unfoldable pub role_name : Bool → Bytes
role_name is_replica = if is_replica then str "slave" else str "master"

unfoldable pub parse_role : Bytes → Option Bool
parse_role s =
    if bytes_eq s (str "master")
    then some false
    else if bytes_eq s (str "slave")
    then some true
    else none

unfoldable pub gossip_flags : GossipEntry → Bytes
unfolding role_name
gossip_flags g =
    role_name g.is_replica
    ++ (if g.is_fail then str ",fail" else if g.is_pfail then str ",fail?" else [])

-- The text in front of the first comma, and the fields behind it.
unfoldable pub split_flags : Bytes → Bytes × List Bytes
split_flags [] = ([], [])
split_flags (c ∷ cs) =
    let (word, words) = split_flags cs in
    if c == b',' then ([], word ∷ words) else (c ∷ word, words)

unfoldable pub flag_loop : List Bytes → GossipEntry → Option GossipEntry
flag_loop [] g = some g
flag_loop (flag ∷ flags) g =
    let failing = flag_loop flags (record g { is_pfail = true }) in
    let failed = flag_loop flags (record g { is_fail = true }) in
    if bytes_eq flag (str "fail?")
    then failing
    else if bytes_eq flag (str "fail")
    then failed
    else none

unfoldable pub parse_gossip_flags : Bytes → GossipEntry → Option GossipEntry
unfolding split_flags flag_loop parse_role
parse_gossip_flags s g =
    let (role, flags) = split_flags s in
    elim (parse_role role) [
      | none ↦ none
      | some is_replica ↦ flag_loop flags (record g { is_replica = is_replica })
    ]

unfoldable pub is_hex : Bytes → Bool
is_hex [] = true
is_hex (c ∷ cs) = ((leb b'0' c && leb c b'9') || (leb b'a' c && leb c b'f')) && is_hex cs

unfoldable pub valid_node_id : Bytes → Bool
unfolding is_hex
valid_node_id id = length id == node_id_length && is_hex id

-- The byte that holds the slots `8 * i`, …, `8 * i + 7`: the first `bits` of them have been set. Each
-- bit is set once, so that the or is a sum.
unfoldable pub slot_byte : SlotBitmap → ℕ → ℕ → ℕ
slot_byte slots i zero = 0
slot_byte slots i (suc bit) = (if slots (8 * i + bit) then 2 ^ bit else 0) + slot_byte slots i bit

-- The bytes from the `i`-th on, `n` of them.
unfoldable pub bytes_loop : SlotBitmap → ℕ → ℕ → Bytes
unfolding slot_byte
bytes_loop slots i zero = []
bytes_loop slots i (suc n) = slot_byte slots i 8 ∷ bytes_loop slots (i + 1) n

unfoldable pub slots_to_bytes : SlotBitmap → Bytes
slots_to_bytes slots = bytes_loop slots 0 slot_bytes

unfoldable pub bit_set : Bytes → ℕ → Bool
bit_set bytes slot = get_or bytes (slot / 8) 0 / 2 ^ (slot % 8) % 2 == 1

unfoldable pub slots_from_bytes : Bytes → Option SlotBitmap
slots_from_bytes bytes =
    if length bytes == slot_bytes
    then some (λ slot. ltb slot slot_count && bit_set bytes slot)
    else none
