-- ===== src/Cluster/Entry.antt =====
-- src/cluster.cpp, `command`: the subcommands of CLUSTER.
use epochkv.Prelude.{
  ℕ, ◌+◌, ◌%◌, List, [], ◌∷◌, ◌++◌, drop, Bool, true, false, not, ◌&&◌, ◌||◌, Bytes, ◌==◌, ltb, str,
  bytes_eq, if◌then◌else◌, length, get_or,
}
use epochkv.Prelude.Int.{pos}
use epochkv.Dispatcher.{to_upper}
use epochkv.Reply
use epochkv.Slots.{key_hash_slot}
use epochkv.Cluster.{Cluster, Env, Replication}
use epochkv.Cluster.Bus.{self}
use epochkv.Cluster.SlotCommands.{cmd_addslots, cmd_setslot}
use epochkv.Cluster.Commands.{
  fails, cmd_meet, count_failure_reports, set_config_epoch, bump_epoch, cmd_saveconfig,
  get_keys_in_slot, count_keys, cmd_replicate, cmd_forget, cmd_failover,
}
use epochkv.Cluster.Report.{info, describe_nodes, cmd_slots}

-- What the system gives to the CLUSTER command: the calendar's time of a time of the steady clock, and
-- the text of its last error.
pub record Clock : Type 0 where
  pub unix_ms : ℕ → ℕ
  pub strerror : Bytes

abbrev pub wrong_args : Bytes → Bytes
wrong_args sub = str "ERR wrong number of arguments for 'cluster|" ++ sub ++ str "' command"

abbrev pub unknown_subcommand : Bytes → Bytes
unknown_subcommand sub =
    str "ERR unknown subcommand or wrong number of arguments for '"
    ++ sub
    ++ str "'. Try CLUSTER HELP."

module _ {R : Type 0} (rep : Replication R) (clock : Clock) where
  -- `sub` is the subcommand in capitals, `name` as it was given, and `args` are the arguments behind it.
  unfoldable pub run_subcommand :
      Bytes → Bytes → List Bytes → Bytes → Env → Cluster R → Cluster R × Bytes
  run_subcommand sub name args out env c =
      let is : Bytes → Bool = bytes_eq sub in
      let argc = 2 + length args in
      let arg : ℕ → Bytes = λ i. get_or args i [] in
      let wrong = fails out (wrong_args name) c in
      if is (str "INFO") && argc == 2
      then (c, Reply.bulk_string out (info c))
      else if is (str "MYID") && argc == 2
      then (c, Reply.bulk_string out (self c).id)
      else if is (str "NODES") && argc == 2
      then (c, Reply.bulk_string out (describe_nodes clock.unix_ms false c))
      else if is (str "SLOTS") && argc == 2
      then (c, cmd_slots out c)
      else if is (str "KEYSLOT")
      then (if not (argc == 3) then wrong else (c, Reply.integer out (pos (key_hash_slot (arg 0)))))
      else if is (str "COUNTKEYSINSLOT")
      then (if not (argc == 3) then wrong else (c, count_keys (arg 0) out c))
      else if is (str "GETKEYSINSLOT")
      then (if not (argc == 4) then wrong else (c, get_keys_in_slot (arg 0) (arg 1) out c))
      else if is (str "ADDSLOTS") || is (str "DELSLOTS")
      then (if ltb argc 3 then wrong else cmd_addslots args false (is (str "ADDSLOTS")) out c)
      else if is (str "ADDSLOTSRANGE") || is (str "DELSLOTSRANGE")
      then (if ltb argc 4 || not (argc % 2 == 0)
          then wrong
          else cmd_addslots args true (is (str "ADDSLOTSRANGE")) out c)
      else if is (str "SETSLOT")
      then (if ltb argc 4 then wrong else cmd_setslot (arg 0) (arg 1) (drop 2 args) out c)
      else if is (str "MEET")
      then (if not (argc == 4) && not (argc == 5)
          then wrong
          else cmd_meet (arg 0) (arg 1) (drop 2 args) out env c)
      else if is (str "REPLICATE")
      then (if not (argc == 3) then wrong else cmd_replicate rep (arg 0) out c)
      else if is (str "FORGET")
      then (if not (argc == 3) then wrong else cmd_forget rep (arg 0) out env c)
      else if is (str "FAILOVER")
      then (if ltb 3 argc then wrong else cmd_failover rep args out env c)
      else if is (str "COUNT-FAILURE-REPORTS")
      then (if not (argc == 3) then wrong else count_failure_reports (arg 0) out env c)
      else if is (str "SET-CONFIG-EPOCH")
      then (if not (argc == 3) then wrong else set_config_epoch (arg 0) out c)
      else if is (str "BUMPEPOCH") && argc == 2
      then bump_epoch out c
      else if is (str "SAVECONFIG") && argc == 2
      then cmd_saveconfig clock.strerror out env c
      else fails out (unknown_subcommand name) c

  unfoldable pub command : List Bytes → Bytes → Env → Cluster R → Cluster R × Bytes
  unfolding run_subcommand
  command [] out env c = fails out (unknown_subcommand []) c
  command (name ∷ []) out env c = fails out (unknown_subcommand []) c
  command (name ∷ sub ∷ args) out env c = run_subcommand (to_upper sub) sub args out env c
