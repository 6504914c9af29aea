-- ===== src/Tests/Commands.antt =====
-- src/command_dispatcher.cpp on a server without other components.
use epochkv.Prelude.{◌≡◌, refl, [], ◌∷◌, none, some, Bool, true, false, str, bytes_eq}
use epochkv.Prelude.Int.{pos, negsuc}
use epochkv.Prelude.Decimal.{to_string}
use epochkv.Store
use epochkv.Store.{no_eviction}
use epochkv.Dispatcher.{
  Client, Services, Dispatcher, started, parse_canonical_int64, in_int64, to_upper, to_upper_byte,
}
use epochkv.Dispatcher.Dispatch.{CommandSpec, dispatch, clear_asking, table, find_spec}
use epochkv.Dispatcher.Strings
use epochkv.Dispatcher.Guards.{error_line, refusal, dispatch-refused}
use epochkv.Dispatcher.Numbers.{parse_canonical_int64-to_string}

parse_canonical_int64-to_string_example :
    parse_canonical_int64 (to_string (negsuc 41)) ≡ some (negsuc 41)
unfolding in_int64
parse_canonical_int64-to_string_example = parse_canonical_int64-to_string (negsuc 41) refl

-- A replica, on its own.
abbrev replica : Services Bool
replica = record {
  has_propagator = true;
  log_wanted = λ w. true;
  has_persistence = false;
  loading = λ w. false;
  write_error = λ w. [];
  save = λ s w. (w, true, []);
  bgsave = λ s w. (w, true, []);
  bgrewriteaof = λ s w. (w, started, []);
  lastsave = λ w. pos 0;
  has_replication = true;
  is_replica = λ w. w;
  replicaof_no_one = λ s w. (s, false);
  replicaof = λ host port s w. (s, true);
  replconf_ack = λ c offset w. w;
  replconf_getack = λ w. w;
  psync = λ c id offset w out. (w, out);
  wait = λ c n timeout w out. (w, out);
  replication_info = λ w. [];
  has_cluster = false;
  route = λ keys write asking c s w. (s, none);
  cluster_command = λ argv s w out. (s, w, out);
  exchange = λ host port request n timeout w. (w, true, [], []);
}

abbrev caller : Client
caller = record { asking = true; readonly = false; is_master = false; repl_listening_port = 0 }

abbrev state : Dispatcher Bool
state = record {
  store = Store.new 0 no_eviction (pos 0);
  client = some caller;
  logged = [];
  changes = 0;
  world = true;
}

abbrev set_spec : CommandSpec Bool
set_spec = record {
  name = "set";
  handler = Strings.cmd_set replica;
  arity = negsuc 2;
  write = true;
  denyoom = true;
  ask = false;
  first_key = 1;
  last_key = pos 1;
  key_step = 1;
}

dispatch-refused_example : dispatch replica (str "set" ∷ str "foo" ∷ str "1" ∷ []) state [] ≡ (
  record state { client = clear_asking state.client },
  error_line [] (refusal set_spec (str "set" ∷ str "foo" ∷ str "1" ∷ [])),
)
unfolding table find_spec to_upper to_upper_byte str bytes_eq
dispatch-refused_example =
    dispatch-refused replica (str "set") (str "foo" ∷ str "1" ∷ []) set_spec state [] refl refl refl
      refl refl refl
