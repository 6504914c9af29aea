-- ===== src/Dispatcher/Dispatch.antt =====
-- include/command_dispatcher.hpp and src/command_dispatcher.cpp: the command table and `dispatch`.
use Prim.Native.String.{String}
use epochkv.Prelude.{
  ℕ, zero, suc, ◌+◌, ◌-◌, List, [], ◌∷◌, ◌++◌, Option, none, some, Bool, true, false, not, ◌&&◌,
  ◌||◌, Bytes, str, ◌==◌, ltb, leb, if◌then◌else◌, length,
}
use epochkv.Prelude.Int.{ℤ, pos, negsuc}
use epochkv.Reply
use epochkv.Store.Reclaim.{evict_if_needed}
use epochkv.Dispatcher.{
  Args, Client, Services, Dispatcher, Handler, err_oom, err_read_only, to_upper, sanitize_for_error,
  is_word, with_store, loading,
}
use epochkv.Dispatcher.Strings
use epochkv.Dispatcher.Keys
use epochkv.Dispatcher.Admin
use epochkv.Dispatcher.Migrate

-- `write`, `denyoom` and `ask` are the bits of `flags`.
pub record CommandSpec (W : Type 0) : Type 0 where
  pub name : String
  pub handler : Handler W
  pub arity : ℤ
  pub write : Bool
  pub denyoom : Bool
  pub ask : Bool
  pub first_key : ℕ
  pub last_key : ℤ
  pub key_step : ℕ

unfoldable pub arity_ok : ℤ → ℕ → Bool
arity_ok (pos n) argc = argc == n
arity_ok (negsuc n) argc = leb (suc n) argc

-- The loop over the key arguments, `argv` being those from `i` on; `skip` counts down to the next
-- key, and `last` is one past the last.
unfoldable pub collect_keys : ℕ → ℕ → ℕ → ℕ → Args → Args
collect_keys i skip step last [] = []
collect_keys i zero step last (key ∷ argv) =
    let rest = collect_keys (i + 1) (step - 1) step last argv in
    if ltb i last then key ∷ rest else []
collect_keys i (suc skip) step last (key ∷ argv) = collect_keys (i + 1) skip step last argv

-- One past `last`: a `last_key` below 0 counts from the end.
unfoldable pub keys_end : ℤ → ℕ → ℕ
keys_end (pos n) argc = n + 1
keys_end (negsuc n) argc = argc - n

-- The connection's flags; the internal callers have no connection.
abbrev pub asks : Option Client → Bool
asks none = false
asks (some c) = c.asking

abbrev pub from_master : Option Client → Bool
from_master none = false
from_master (some c) = c.is_master

abbrev pub clear_asking : Option Client → Option Client
clear_asking none = none
clear_asking (some c) = some (record c { asking = false })

-- The table of the constructor.
abbrev Row : Type 0 → Type 0
Row W = String × CommandSpec W

module _ {W : Type 0} where
  unfoldable pub find_spec : List (String × CommandSpec W) → Bytes → Option (CommandSpec W)
  find_spec [] word = none
  find_spec ((key, spec) ∷ rows) word =
      let rest = find_spec rows word in if is_word word key then some spec else rest

  unfoldable pub routed_keys : CommandSpec W → Args → Args
  unfolding collect_keys keys_end
  routed_keys spec argv =
      collect_keys 0 spec.first_key spec.key_step (keys_end spec.last_key (length argv)) argv

  abbrev row :
      String → String → Handler W → ℤ → Bool → Bool → Bool → ℕ → ℤ → ℕ → String × CommandSpec W
  row key name handler arity write denyoom ask first_key last_key key_step = (
    key,
    record {
      name = name;
      handler = handler;
      arity = arity;
      write = write;
      denyoom = denyoom;
      ask = ask;
      first_key = first_key;
      last_key = last_key;
      key_step = key_step;
    },
  )

  module _ (services : Services W) where
    unfoldable pub table : List (String × CommandSpec W)
    table =
        row "PING" "ping" Strings.cmd_ping (negsuc 0) false false false 0 (pos 0) 0
        ∷ row "ECHO" "echo" Strings.cmd_echo (pos 2) false false false 0 (pos 0) 0
        ∷ row "SET" "set" (Strings.cmd_set services) (negsuc 2) true true false 1 (pos 1) 1
        ∷ row "GET" "get" Strings.cmd_get (pos 2) false false false 1 (pos 1) 1
        ∷ row "DEL" "del" (Strings.cmd_del services) (negsuc 1) true false false 1 (negsuc 0) 1
        ∷ row "EXISTS" "exists" Strings.cmd_exists (negsuc 1) false false false 1 (negsuc 0) 1
        ∷ row "INCR" "incr" (Strings.cmd_incr services) (pos 2) true true false 1 (pos 1) 1
        ∷ row "DECR" "decr" (Strings.cmd_decr services) (pos 2) true true false 1 (pos 1) 1
        ∷ row "INCRBY" "incrby" (Strings.cmd_incrby services) (pos 3) true true false 1 (pos 1) 1
        ∷ row "DECRBY" "decrby" (Strings.cmd_decrby services) (pos 3) true true false 1 (pos 1) 1
        ∷ row "EXPIRE" "expire" (Keys.cmd_expire services) (pos 3) true false false 1 (pos 1) 1
        ∷ row "PEXPIRE" "pexpire" (Keys.cmd_pexpire services) (pos 3) true false false 1 (pos 1) 1
        ∷ row "EXPIREAT" "expireat" (Keys.cmd_expireat services) (pos 3) true false false 1 (pos 1)
            1
        ∷ row "PEXPIREAT" "pexpireat" (Keys.cmd_pexpireat services) (pos 3) true false false 1
            (pos 1) 1
        ∷ row "TTL" "ttl" Keys.cmd_ttl (pos 2) false false false 1 (pos 1) 1
        ∷ row "PTTL" "pttl" Keys.cmd_pttl (pos 2) false false false 1 (pos 1) 1
        ∷ row "PERSIST" "persist" (Keys.cmd_persist services) (pos 2) true false false 1 (pos 1) 1
        ∷ row "DBSIZE" "dbsize" Keys.cmd_dbsize (pos 1) false false false 0 (pos 0) 0
        ∷ row "SAVE" "save" (Admin.cmd_save services) (pos 1) false false false 0 (pos 0) 0
        ∷ row "BGSAVE" "bgsave" (Admin.cmd_bgsave services) (pos 1) false false false 0 (pos 0) 0
        ∷ row "BGREWRITEAOF" "bgrewriteaof" (Admin.cmd_bgrewriteaof services) (pos 1) false false
            false 0 (pos 0) 0
        ∷ row "LASTSAVE" "lastsave" (Admin.cmd_lastsave services) (pos 1) false false false 0
            (pos 0) 0
        ∷ row "REPLICAOF" "replicaof" (Admin.cmd_replicaof services) (pos 3) false false false 0
            (pos 0) 0
        ∷ row "SLAVEOF" "slaveof" (Admin.cmd_replicaof services) (pos 3) false false false 0 (pos 0)
            0
        ∷ row "REPLCONF" "replconf" (Admin.cmd_replconf services) (negsuc 2) false false false 0
            (pos 0) 0
        ∷ row "PSYNC" "psync" (Admin.cmd_psync services) (pos 3) false false false 0 (pos 0) 0
        ∷ row "WAIT" "wait" (Admin.cmd_wait services) (pos 3) false false false 0 (pos 0) 0
        ∷ row "INFO" "info" (Admin.cmd_info services) (negsuc 0) false false false 0 (pos 0) 0
        ∷ row "DUMP" "dump" Keys.cmd_dump (pos 2) false false false 1 (pos 1) 1
        ∷ row "RESTORE" "restore" (Keys.cmd_restore services) (negsuc 3) true true false 1 (pos 1) 1
        ∷ row "RESTORE-ASKING" "restore-asking" (Keys.cmd_restore services) (negsuc 3) true true
            true 1 (pos 1) 1
        ∷ row "MIGRATE" "migrate" (Migrate.cmd_migrate services) (negsuc 5) true false false 0
            (pos 0) 0
        ∷ row "CLUSTER" "cluster" (Admin.cmd_cluster services) (negsuc 1) false false false 0
            (pos 0) 0
        ∷ row "ASKING" "asking" (Admin.cmd_asking services) (pos 1) false false false 0 (pos 0) 0
        ∷ row "READONLY" "readonly" (Admin.cmd_readonly services) (pos 1) false false false 0
            (pos 0) 0
        ∷ row "READWRITE" "readwrite" (Admin.cmd_readwrite services) (pos 1) false false false 0
            (pos 0) 0
        ∷ []

    unfoldable pub spec_writes : Option (CommandSpec W) → Bool
    spec_writes none = false
    spec_writes (some spec) = spec.write

    unfoldable pub is_write : Args → Bool
    unfolding spec_writes
    is_write [] = false
    is_write (word ∷ argv) = spec_writes (find_spec table (to_upper word))

    -- What the cluster answers for the command's keys: none when it may run here.
    unfoldable pub redirect :
        CommandSpec W → Args → Bool → Dispatcher W → Dispatcher W × Option Bytes
    unfolding routed_keys
    redirect spec argv asking d = elim d.client [
      | none ↦ (d, none)
      | some c ↦
          let (s, message) =
            services.route (routed_keys spec argv) spec.write (asking || spec.ask) c d.store
              d.world in
          if services.has_cluster && not c.is_master && ltb 0 spec.first_key
          then (with_store d s, message)
          else (d, none)
    ]

    -- Whether the command is a write that a replica refuses.
    unfoldable pub refused_by_replica : CommandSpec W → Dispatcher W → Bool
    refused_by_replica spec d =
        spec.write
        && not (from_master d.client)
        && services.has_replication
        && services.is_replica d.world

    -- The message of the persistence that refuses a write, empty when it may run.
    unfoldable pub write_refusal : CommandSpec W → Dispatcher W → Bytes
    unfolding loading
    write_refusal spec d =
        if spec.write
          && services.has_persistence
          && not (loading services d)
          && not (from_master d.client)
        then services.write_error d.world
        else []

    -- The eviction before a command that may grow memory.
    unfoldable pub make_room : CommandSpec W → Dispatcher W → Dispatcher W × Bool
    unfolding loading evict_if_needed
    make_room spec d =
        if spec.denyoom && not (loading services d) && not (from_master d.client)
        then (let (s, ok) = evict_if_needed d.store in (with_store d s, ok))
        else (d, true)

    -- `dispatch` behind the cluster's check.
    unfoldable pub run_routed : CommandSpec W → Args → Dispatcher W → Bytes → Dispatcher W × Bytes
    unfolding refused_by_replica write_refusal make_room
    run_routed spec argv d out =
        let refusal = write_refusal spec d in
        let (d', room) = make_room spec d in
        if refused_by_replica spec d
        then (d, Reply.error out err_read_only)
        else if not (length refusal == 0)
        then (d, Reply.error out refusal)
        else if not room
        then (d', Reply.error out err_oom)
        else spec.handler argv d' out

    -- `dispatch` on the cluster's answer.
    unfoldable pub follow_redirect :
        CommandSpec W → Args → Bytes → Dispatcher W × Option Bytes → Dispatcher W × Bytes
    follow_redirect spec argv out (d, some message) = (d, Reply.error out message)
    follow_redirect spec argv out (d, none) = run_routed spec argv d out

    -- `dispatch` behind the command's lookup.
    unfoldable pub run_spec :
        CommandSpec W → Args → Bool → Dispatcher W → Bytes → Dispatcher W × Bytes
    unfolding arity_ok
    run_spec spec argv asking d out =
        if arity_ok spec.arity (length argv)
        then follow_redirect spec argv out (redirect spec argv asking d)
        else (
          d,
          Reply.error out
              (str "ERR wrong number of arguments for '" ++ str spec.name ++ str "' command"),
        )

    -- `dispatch` on what the table has for the command's name.
    unfoldable pub run_found :
        Option (CommandSpec W) → Bytes → Args → Bool → Dispatcher W → Bytes → Dispatcher W × Bytes
    unfolding run_spec
    run_found none word argv asking d out =
        (d, Reply.error out (str "ERR unknown command '" ++ sanitize_for_error word ++ str "'"))
    run_found (some spec) word argv asking d out = run_spec spec argv asking d out

    unfoldable pub dispatch : Args → Dispatcher W → Bytes → Dispatcher W × Bytes
    unfolding run_found
    dispatch [] d out = (d, out)
    dispatch (word ∷ argv) d out =
        run_found (find_spec table (to_upper word)) word (word ∷ argv) (asks d.client)
          (record d { client = clear_asking d.client }) out
