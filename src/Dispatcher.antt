-- ===== src/Dispatcher.antt =====
-- include/command_dispatcher.hpp and src/command_dispatcher.cpp: the dispatcher's state, what it
-- takes from the other components, and the helpers of its handlers.
-- The persistence, replication, cluster and migration components and the propagator's readers are
-- given by `Services`, over a state of theirs, `W`. Handlers append to `out` and change the state.
pub mod Strings
pub mod Keys
pub mod Admin
pub mod Migrate
pub mod Dispatch
pub mod Numbers
pub mod Guards
use Prim.Native.String.{String}
use epochkv.Prelude.{
  ℕ, zero, suc, ◌+◌, ◌-◌, ◌*◌, ◌^◌, List, [], ◌∷◌, ◌++◌, map, Option, none, some, Bool, true, false,
  not, ◌&&◌, ◌||◌, Bytes, str, ◌==◌, ltb, leb, bytes_eq, if◌then◌else◌, get_or, length,
}
use epochkv.Prelude.Int.{ℤ, pos, negsuc, pos_part, neg_part, ltb_ℤ, ◌+ℤ◌, ◌*ℤ◌}
use epochkv.Prelude.Decimal.{to_string}
use epochkv.Store.{Store}

abbrev pub Args : Type 0
Args = List Bytes

-- The fields of a connection that handlers read and write.
pub record Client : Type 0 where
  pub asking : Bool
  pub readonly : Bool
  pub is_master : Bool
  pub repl_listening_port : ℕ

pub data RewriteStart : Type 0 where
  started scheduled rewrite_error : RewriteStart

-- The other components, as the handlers call them. A pointer that is null is a `has_` that is false.
pub record Services (W : Type 0) : Type 0 where
  pub has_propagator : Bool
  pub log_wanted : W → Bool
  pub has_persistence : Bool
  pub loading : W → Bool
  pub write_error : W → Bytes
  pub save : Store → W → W × Bool × Bytes
  pub bgsave : Store → W → W × Bool × Bytes
  pub bgrewriteaof : Store → W → W × RewriteStart × Bytes
  pub lastsave : W → ℤ
  pub has_replication : Bool
  pub is_replica : W → Bool
  pub replicaof_no_one : Store → W → Store × W
  pub replicaof : Bytes → ℕ → Store → W → Store × W
  pub replconf_ack : Client → ℕ → W → W
  pub replconf_getack : W → W
  pub psync : Client → Bytes → ℤ → W → Bytes → W × Bytes
  pub wait : Client → ℤ → ℤ → W → Bytes → W × Bytes
  pub replication_info : W → Bytes
  pub has_cluster : Bool
  pub route : List Bytes → Bool → Bool → Client → Store → W → Store × Option Bytes
  pub cluster_command : Args → Store → W → Bytes → Store × W × Bytes
  pub exchange : Bytes → ℕ → Bytes → ℕ → ℤ → W → W × Bool × List Bytes × Bytes

-- `logged` holds the calls of the propagator, the latest last, and `changes` counts the calls of
-- `count_change` for writes that were not built.
pub record Dispatcher (W : Type 0) : Type 0 where
  pub store : Store
  pub client : Option Client
  pub logged : List Args
  pub changes : ℕ
  pub world : W

abbrev pub Handler : Type 0 → Type 0
Handler W = Args → Dispatcher W → Bytes → Dispatcher W × Bytes

abbrev pub err_not_integer : Bytes
err_not_integer = str "ERR value is not an integer or out of range"

abbrev pub err_incr_overflow : Bytes
err_incr_overflow = str "ERR increment or decrement would overflow"

abbrev pub err_syntax : Bytes
err_syntax = str "ERR syntax error"

abbrev pub err_oom : Bytes
err_oom = str "OOM command not allowed when used memory > 'maxmemory'."

abbrev pub err_no_persistence : Bytes
err_no_persistence = str "ERR persistence is not enabled on this server"

abbrev pub err_no_replication : Bytes
err_no_replication = str "ERR replication is not available here"

abbrev pub err_read_only : Bytes
err_read_only = str "READONLY You can't write against a read only replica."

-- `std::toupper` of the C locale.
unfoldable pub to_upper_byte : ℕ → ℕ
to_upper_byte c = if leb b'a' c && leb c b'z' then c - 32 else c

unfoldable pub to_upper : Bytes → Bytes
unfolding to_upper_byte
to_upper s = map to_upper_byte s

unfoldable pub sanitize_byte : ℕ → ℕ
sanitize_byte c = if c == 13 || c == 10 then 32 else c

unfoldable pub sanitize_for_error : Bytes → Bytes
unfolding sanitize_byte
sanitize_for_error s = map sanitize_byte s

-- `argv[i]`; every handler's arity makes the index one of the arguments.
abbrev pub arg : Args → ℕ → Bytes
arg argv i = get_or argv i []

-- Whether the upper-cased argument is the word.
abbrev pub is_word : Bytes → String → Bool
is_word opt word = bytes_eq opt (str word)

-- A run of digits with a value of at most `limit`, as `std::from_chars` reads one to the end.
unfoldable pub digits_value : ℕ → ℕ → Bytes → Option ℕ
digits_value limit value [] = some value
digits_value limit value (c ∷ cs) =
    let next = value * 10 + (c - b'0') in
    if ltb c b'0' || ltb b'9' c || ltb limit next then none else digits_value limit next cs

unfoldable pub unsigned_value : ℕ → Bytes → Option ℕ
unfolding digits_value
unsigned_value limit [] = none
unsigned_value limit (c ∷ cs) = digits_value limit 0 (c ∷ cs)

abbrev pub negate : ℕ → ℤ
negate zero = pos 0
negate (suc n) = negsuc n

unfoldable pub parse_int64 : Bytes → Option ℤ
unfolding unsigned_value
parse_int64 [] = none
parse_int64 (c ∷ cs) =
    if c == b'-'
    then elim (unsigned_value (2 ^ 63) cs) [ none ↦ none | some n ↦ some (negate n) ]
    else elim (unsigned_value (2 ^ 63 - 1) (c ∷ cs)) [ none ↦ none | some n ↦ some (pos n) ]

unfoldable pub parse_canonical_int64 : Bytes → Option ℤ
unfolding parse_int64
parse_canonical_int64 s = elim (parse_int64 s) [
  | none ↦ none
  | some n ↦ if bytes_eq (to_string n) s then some n else none
]

-- Whether a number is an `int64_t`: what the overflow builtins test.
unfoldable pub in_int64 : ℤ → Bool
in_int64 n = ltb (pos_part n) (2 ^ 63) && leb (neg_part n) (2 ^ 63)

unfoldable pub deadline_from : ℤ → ℤ → ℤ → Option ℤ
unfolding in_int64
deadline_from now amount unit_ms =
    let delta = amount *ℤ unit_ms in
    if in_int64 delta && in_int64 (now +ℤ delta) then some (now +ℤ delta) else none

abbrev pub is_positive : ℤ → Bool
is_positive n = ltb_ℤ (pos 0) n

abbrev pub is_port : ℤ → Bool
is_port n = is_positive n && not (ltb_ℤ (pos 65535) n)

module _ {W : Type 0} where
  abbrev pub with_store : Dispatcher W → Store → Dispatcher W
  with_store d s = record d { store = s }

  module _ (services : Services W) where
    unfoldable pub loading : Dispatcher W → Bool
    loading d = services.has_persistence && services.loading d.world

    unfoldable pub propagate : Dispatcher W → Args → Dispatcher W
    propagate d argv =
        if services.has_propagator then record d { logged = d.logged ++ argv ∷ [] } else d

    unfoldable pub count_unlogged_write : Dispatcher W → Dispatcher W
    count_unlogged_write d =
        if services.has_propagator && services.has_persistence
        then record d { changes = d.changes + 1 }
        else d

    unfoldable pub propagate_built : Dispatcher W → Args → Dispatcher W
    unfolding propagate count_unlogged_write
    propagate_built d built =
        if services.has_propagator && services.log_wanted d.world
        then propagate d built
        else count_unlogged_write d
