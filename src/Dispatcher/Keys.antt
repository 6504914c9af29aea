-- ===== src/Dispatcher/Keys.antt =====
-- src/command_dispatcher.cpp: deadlines, DBSIZE, DUMP and RESTORE.
use Prim.Native.String.{String}
use epochkv.Prelude.{
  ◌+◌, ◌-◌, ◌/◌, ◌^◌, [], ◌∷◌, ◌++◌, Option, none, some, Bool, true, false, not, Bytes, str,
  if◌then◌else◌, drop,
}
use epochkv.Prelude.Int.{ℤ, pos, negsuc, ltb_ℤ}
use epochkv.Prelude.Decimal.{to_string}
use epochkv.HashTable
use epochkv.Reply
use epochkv.Snapshot.{dump_value, restore_value}
use epochkv.Store
use epochkv.Store.{Store}
use epochkv.Dispatcher.{
  Args, Services, Dispatcher, Handler, err_not_integer, err_syntax, to_upper, arg, is_word,
  parse_int64, deadline_from, is_positive, with_store, propagate, propagate_built,
}

-- `(ms + 500) / 1000` of a time that is not negative.
unfoldable pub seconds_of : ℤ → ℤ
seconds_of (pos ms) = pos ((ms + 500) / 1000)
seconds_of (negsuc n) = negsuc n

-- The options of RESTORE.
pub record RestoreOptions : Type 0 where
  pub replace : Bool
  pub absttl : Bool

unfoldable pub restore_options : Args → RestoreOptions → Option RestoreOptions
restore_options [] o = some o
restore_options (word ∷ rest) o =
    let opt = to_upper word in
    if is_word opt "REPLACE"
    then restore_options rest (record o { replace = true })
    else if is_word opt "ABSTTL"
    then restore_options rest (record o { absttl = true })
    else none

abbrev pub int64_max : ℤ
int64_max = pos (2 ^ 63 - 1)

unfoldable pub restore_deadline : ℤ → ℤ → Bool → Option ℤ
restore_deadline now ttl absttl =
    if is_positive ttl
    then if absttl
      then some ttl
      else elim (deadline_from now ttl (pos 1)) [ none ↦ some int64_max | some when ↦ some when ]
    else none

abbrev pub is_past : ℤ → Option ℤ → Bool
is_past now none = false
is_past now (some when) = not (ltb_ℤ now when)

module _ {W : Type 0} where
  unfoldable pub cmd_ttl : Handler W
  unfolding seconds_of
  cmd_ttl argv d out =
      let (s, ms) = Store.pttl d.store (arg argv 1) in
      (with_store d s, Reply.integer out (seconds_of ms))

  unfoldable pub cmd_pttl : Handler W
  cmd_pttl argv d out =
      let (s, ms) = Store.pttl d.store (arg argv 1) in (with_store d s, Reply.integer out ms)

  unfoldable pub cmd_dbsize : Handler W
  cmd_dbsize argv d out = (d, Reply.integer out (pos (HashTable.size d.store.dict)))

  unfoldable pub cmd_dump : Handler W
  cmd_dump argv d out =
      let (s, value) = Store.get d.store (arg argv 1) in
      elim value [
        | some v ↦ (with_store d s, Reply.bulk_string out (dump_value v))
        | none ↦ (with_store d s, Reply.null_bulk out)
      ]

  module _ (services : Services W) where
    unfoldable pub logged_expire : ℤ → Bytes → ℤ → Args
    logged_expire now key when =
        if ltb_ℤ now when then str "PEXPIREAT" ∷ key ∷ to_string when ∷ [] else str "DEL" ∷ key ∷ []

    unfoldable pub expire_generic :
        Args → ℤ → Bool → String → Dispatcher W → Bytes → Dispatcher W × Bytes
    unfolding logged_expire
    expire_generic argv unit_ms relative name d out = elim (parse_int64 (arg argv 2)) [
      | none ↦ (d, Reply.error out err_not_integer)
      | some amount ↦
          let now = d.store.now in
          elim (deadline_from (if relative then now else pos 0) amount unit_ms) [
            | none ↦ (
              d,
              Reply.error out (str "ERR invalid expire time in '" ++ (str name ++ str "' command")),
            )
            | some when ↦
                let (s, done) = Store.set_expire d.store (arg argv 1) when in
                let d' = with_store d s in
                if done
                then (
                  propagate_built services d' (logged_expire now (arg argv 1) when),
                  Reply.integer out (pos 1),
                )
                else (d', Reply.integer out (pos 0))
          ]
    ]

    unfoldable pub cmd_expire : Handler W
    unfolding expire_generic
    cmd_expire argv d out = expire_generic argv (pos 1000) true "expire" d out

    unfoldable pub cmd_pexpire : Handler W
    unfolding expire_generic
    cmd_pexpire argv d out = expire_generic argv (pos 1) true "pexpire" d out

    unfoldable pub cmd_expireat : Handler W
    unfolding expire_generic
    cmd_expireat argv d out = expire_generic argv (pos 1000) false "expireat" d out

    unfoldable pub cmd_pexpireat : Handler W
    unfolding expire_generic
    cmd_pexpireat argv d out = expire_generic argv (pos 1) false "pexpireat" d out

    unfoldable pub cmd_persist : Handler W
    cmd_persist argv d out =
        let (s, done) = Store.persist d.store (arg argv 1) in
        let d' = with_store d s in
        if done
        then (propagate services d' argv, Reply.integer out (pos 1))
        else (d', Reply.integer out (pos 0))

    -- RESTORE behind its checks.
    unfoldable pub run_restore :
        Dispatcher W → Bytes → Bytes → Option ℤ → Bytes → Dispatcher W × Bytes
    run_restore d key value expire_at out =
        let now = d.store.now in
        if is_past now expire_at
        then (let (s, live) = Store.del d.store key in
            let d' = with_store d s in
            (
              if live then propagate services d' (str "DEL" ∷ key ∷ []) else d',
              Reply.simple_string out (str "OK"),
            ))
        else let s = Store.set d.store key value false in
          let s' : Store = elim expire_at [
            | none ↦ s
            | some when ↦ (Store.set_expire s key when).0
          ] in
          let deadline : Args = elim expire_at [
            | none ↦ []
            | some when ↦ str "PXAT" ∷ to_string when ∷ []
          ] in
          (
            propagate_built services (with_store d s') (str "SET" ∷ key ∷ value ∷ deadline),
            Reply.simple_string out (str "OK"),
          )

    -- Whether the key is in the way: it is looked up only without REPLACE.
    unfoldable pub busy_key : Store → Bytes → Bool → Store × Bool
    busy_key s key replace = if replace then (s, false) else Store.exists s key

    unfoldable pub cmd_restore : Handler W
    unfolding restore_options restore_deadline run_restore busy_key
    cmd_restore argv d out =
        let key = arg argv 1 in
        elim (restore_options (drop 4 argv) (record { replace = false; absttl = false })) [
          | none ↦ (d, Reply.error out err_syntax)
          | some o ↦ elim (parse_int64 (arg argv 2)) [
            | none ↦ (d, Reply.error out (str "ERR Invalid TTL value, must be >= 0"))
            | some ttl ↦
                let (s, busy) = busy_key d.store key o.replace in
                let d' = with_store d s in
                if ltb_ℤ ttl (pos 0)
                then (d, Reply.error out (str "ERR Invalid TTL value, must be >= 0"))
                else if busy
                then (d', Reply.error out (str "BUSYKEY Target key name already exists."))
                else elim (restore_value (arg argv 3)) [
                  | none ↦
                      (d', Reply.error out (str "ERR DUMP payload version or checksum are wrong"))
                  | some value ↦
                      run_restore d' key value (restore_deadline d.store.now ttl o.absttl) out
                ]
          ]
        ]
