-- ===== src/Dispatcher/Migrate.antt =====
-- src/command_dispatcher.cpp: MIGRATE.
use epochkv.Prelude.{
  ℕ, List, [], ◌∷◌, ◌++◌, Option, none, some, Bool, true, false, not, Bytes, str, ◌==◌, ltb,
  if◌then◌else◌, drop, length,
}
use epochkv.Prelude.Int.{ℤ, pos, negsuc, pos_part}
use epochkv.Prelude.Decimal.{to_string}
use epochkv.Reply
use epochkv.Snapshot.{dump_value}
use epochkv.Store
use epochkv.Store.{Store}
use epochkv.Dispatcher.{
  Args, Services, Dispatcher, Handler, err_not_integer, err_syntax, to_upper, sanitize_for_error,
  arg, is_word, parse_int64, is_positive, is_port, with_store, propagate,
}

pub record MigrateOptions : Type 0 where
  pub copy : Bool
  pub replace : Bool
  pub keys : Args

pub data MigrateParse : Type 0 where
  options : MigrateOptions → MigrateParse
  migrate_error : Bytes → MigrateParse

-- The loop over the options; KEYS takes all that follows it.
unfoldable pub migrate_options : Bytes → Args → MigrateOptions → MigrateParse
migrate_options key [] o = options o
migrate_options key (word ∷ rest) o =
    let opt = to_upper word in
    elim (is_word opt "COPY") [
      | true ↦ migrate_options key rest (record o { copy = true })
      | false ↦ elim (is_word opt "REPLACE") [
        | true ↦ migrate_options key rest (record o { replace = true })
        | false ↦
            if is_word opt "KEYS"
            then if not (length key == 0)
              then migrate_error (
                  str
                    "ERR When using MIGRATE KEYS option, the key argument must be set to the empty string")
              else options (record o { keys = rest })
            else migrate_error err_syntax
      ]
    ]

-- What the loop over the keys builds: the request, and the keys that it sends.
pub record Outgoing : Type 0 where
  pub store : Store
  pub request : Bytes
  pub sent : Args

unfoldable pub collect : Args → Bool → Outgoing → Outgoing
collect [] replace o = o
collect (key ∷ keys) replace o =
    let (s, found) = Store.get o.store key in
    let (s', ttl) = Store.pttl s key in
    let flag : Args = if replace then str "REPLACE" ∷ [] else [] in
    let next : Outgoing = elim found [
      | none ↦ record o { store = s }
      | some value ↦ record {
        store = s';
        request = Reply.command o.request (
            str "RESTORE-ASKING"
            ∷ key
            ∷ to_string (if is_positive ttl then ttl else pos 0)
            ∷ dump_value value
            ∷ flag);
        sent = o.sent ++ key ∷ [];
      }
    ] in
    collect keys replace next

-- The loop over the replies: the store, the first error, and the keys that were deleted.
pub record Settled : Type 0 where
  pub store : Store
  pub target_error : Bytes
  pub deleted : Args

abbrev pub is_error : Bytes → Bool
is_error [] = false
is_error (c ∷ cs) = c == b'-'

unfoldable pub settle : List Bytes → Args → Bool → Settled → Settled
settle [] sent copy r = r
settle (answer ∷ answers) sent copy r =
    let key = arg sent 0 in
    let (s, live) = Store.del r.store key in
    let next =
      if is_error answer
      then if length r.target_error == 0 then record r { target_error = drop 1 answer } else r
      else if copy
      then r
      else record r { store = s; deleted = if live then r.deleted ++ key ∷ [] else r.deleted } in
    settle answers (drop 1 sent) copy next

module _ {W : Type 0} (services : Services W) where
  -- MIGRATE behind its options.
  unfoldable pub run_migrate :
      Bytes → ℕ → ℤ → MigrateOptions → Args → Dispatcher W → Bytes → Dispatcher W × Bytes
  unfolding collect settle
  run_migrate host port timeout o keys d out =
      let built = collect keys o.replace (record { store = d.store; request = []; sent = [] }) in
      let d' = with_store d built.store in
      let limit = if is_positive timeout then timeout else pos 1000 in
      let (w, io_ok, replies, io_error) =
        services.exchange host port built.request (length built.sent) limit d.world in
      let settled =
        settle replies built.sent o.copy
          (record { store = built.store; target_error = []; deleted = str "DEL" ∷ [] }) in
      let d'' = record d { store = settled.store; world = w } in
      let reply =
        if not io_ok
        then Reply.error out io_error
        else if not (length settled.target_error == 0)
        then Reply.error out (
            str "ERR Target instance replied with error: "
            ++ sanitize_for_error settled.target_error)
        else Reply.simple_string out (str "OK") in
      if length built.sent == 0 then (d', Reply.simple_string out (str "NOKEY")) else (
        if ltb 1 (length settled.deleted) then propagate services d'' settled.deleted else d'',
        reply,
      )

  -- The numbers that MIGRATE is given: the port, the database and the timeout.
  unfoldable pub migrate_numbers : Args → Option (ℤ × ℤ × ℤ)
  migrate_numbers argv = elim (parse_int64 (arg argv 2)) [
    | none ↦ none
    | some port ↦ elim (parse_int64 (arg argv 4)) [
      | none ↦ none
      | some db ↦ elim (parse_int64 (arg argv 5)) [
        | none ↦ none
        | some timeout ↦ if is_port port then some (port, db, timeout) else none
      ]
    ]
  ]

  abbrev pub is_zero : ℤ → Bool
  is_zero (pos n) = n == 0
  is_zero (negsuc n) = false

  unfoldable pub cmd_migrate : Handler W
  unfolding run_migrate migrate_numbers migrate_options
  cmd_migrate argv d out = elim (migrate_numbers argv) [
    | none ↦ (d, Reply.error out err_not_integer)
    | some (port, db, timeout) ↦
        if not (is_zero db)
        then (d, Reply.error out (str "ERR DB index is out of range"))
        else elim (migrate_options (arg argv 3) (drop 6 argv)
            (record { copy = false; replace = false; keys = [] })) [
              | migrate_error message ↦ (d, Reply.error out message)
              | options o ↦
                  let keys = if length o.keys == 0 then arg argv 3 ∷ [] else o.keys in
                  run_migrate (arg argv 1) (pos_part port) timeout o keys d out
            ]
  ]
