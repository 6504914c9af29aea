-- ===== src/Dispatcher/Strings.antt =====
-- src/command_dispatcher.cpp: PING, ECHO, SET, GET, DEL, EXISTS and the counters.
use epochkv.Prelude.{
  ℕ, ◌+◌, ◌-◌, ◌^◌, [], ◌∷◌, ◌⊎◌, inl, inr, Option, none, some, Bool, true, false, not, ◌&&◌, ◌||◌,
  Bytes, str, ◌==◌, if◌then◌else◌, drop, length,
}
use epochkv.Prelude.Int.{ℤ, pos, negsuc, ◌+ℤ◌, ◌-ℤ◌}
use epochkv.Prelude.Decimal.{to_string}
use epochkv.Reply
use epochkv.Store
use epochkv.Store.{Store}
use epochkv.Dispatcher.{
  Args, Services, Dispatcher, Handler, err_not_integer, err_incr_overflow, err_syntax, to_upper,
  arg, is_word, parse_int64, parse_canonical_int64, in_int64, deadline_from, is_positive,
  with_store, propagate, propagate_built,
}

-- The options of SET that the loop has read.
pub record SetOptions : Type 0 where
  pub nx : Bool
  pub xx : Bool
  pub keep_ttl : Bool
  pub expire_at : Option ℤ

abbrev pub no_options : SetOptions
no_options = record { nx = false; xx = false; keep_ttl = false; expire_at = none }

pub data SetParse : Type 0 where
  options : SetOptions → SetParse
  set_error : Bytes → SetParse

-- The first three tests of a round: an option that takes no amount.
unfoldable pub plain_option : Bytes → SetOptions → Option SetOptions
plain_option opt o =
    if is_word opt "NX" && not o.xx
    then some (record o { nx = true })
    else if is_word opt "XX" && not o.nx
    then some (record o { xx = true })
    else if is_word opt "KEEPTTL" && not (Store.is_some o.expire_at)
    then some (record o { keep_ttl = true })
    else none

unfoldable pub takes_amount : Bytes → SetOptions → Bool
takes_amount opt o =
    (is_word opt "EX" || is_word opt "PX" || is_word opt "EXAT" || is_word opt "PXAT")
    && not o.keep_ttl
    && not (Store.is_some o.expire_at)

-- The deadline that an amount sets, or the reply that ends the command.
unfoldable pub amount_option : ℤ → Bytes → Bytes → SetOptions → Bytes ⊎ SetOptions
amount_option now opt text o = elim (parse_int64 text) [
  | none ↦ inl err_not_integer
  | some amount ↦
      let relative = is_word opt "EX" || is_word opt "PX" in
      let unit_ms = if is_word opt "EX" || is_word opt "EXAT" then pos 1000 else pos 1 in
      let expire_at =
        if is_positive amount
        then deadline_from (if relative then now else pos 0) amount unit_ms
        else none in
      elim expire_at [
        | none ↦ inl (str "ERR invalid expire time in 'set' command")
        | some when ↦ inr (record o { expire_at = some when })
      ]
]

unfoldable pub set_options : ℤ → Args → SetOptions → SetParse
unfolding plain_option takes_amount amount_option
set_options now [] o = options o
set_options now (word ∷ []) o = elim (plain_option (to_upper word) o) [
  | some o' ↦ options o'
  | none ↦ set_error err_syntax
]
set_options now (word ∷ text ∷ rest) o = elim (plain_option (to_upper word) o) [
  | some o' ↦ set_options now (text ∷ rest) o'
  | none ↦ elim (takes_amount (to_upper word) o) [
    | false ↦ set_error err_syntax
    | true ↦ elim (amount_option now (to_upper word) text o) [
      | inl message ↦ set_error message
      | inr o' ↦ set_options now rest o'
    ]
  ]
]

-- What is logged for a SET: the absolute deadline in place of a relative one.
unfoldable pub logged_set : Bytes → Bytes → SetOptions → Args
logged_set key value o = str "SET" ∷ key ∷ value ∷ elim o.expire_at [
  | some when ↦ str "PXAT" ∷ to_string when ∷ []
  | none ↦ if o.keep_ttl then str "KEEPTTL" ∷ [] else []
]

-- The write of SET: the value, then the deadline.
unfoldable pub store_set : Store → Bytes → Bytes → SetOptions → Store
store_set s key value o =
    let s' = Store.set s key value o.keep_ttl in
    elim o.expire_at [ none ↦ s' | some when ↦ (Store.set_expire s' key when).0 ]

-- The loops of DEL and EXISTS: the store after the last key, and how many keys counted.
unfoldable pub del_loop : Store → Args → ℕ → Store × ℕ
del_loop s [] removed = (s, removed)
del_loop s (key ∷ keys) removed =
    let (s', live) = Store.del s key in del_loop s' keys (if live then removed + 1 else removed)

unfoldable pub exists_loop : Store → Args → ℕ → Store × ℕ
exists_loop s [] found = (s, found)
exists_loop s (key ∷ keys) found =
    let (s', there) = Store.exists s key in exists_loop s' keys (if there then found + 1 else found)

-- INT64_MIN has no negative.
unfoldable pub is_int64_min : ℤ → Bool
is_int64_min (pos n) = false
is_int64_min (negsuc n) = n == 2 ^ 63 - 1

module _ {W : Type 0} where
  unfoldable pub cmd_ping : Handler W
  cmd_ping argv d out =
      if length argv == 1
      then (d, Reply.simple_string out (str "PONG"))
      else if length argv == 2
      then (d, Reply.bulk_string out (arg argv 1))
      else (d, Reply.error out (str "ERR wrong number of arguments for 'ping' command"))

  unfoldable pub cmd_echo : Handler W
  cmd_echo argv d out = (d, Reply.bulk_string out (arg argv 1))

  unfoldable pub cmd_get : Handler W
  cmd_get argv d out =
      let (s, value) = Store.get d.store (arg argv 1) in
      elim value [
        | some v ↦ (with_store d s, Reply.bulk_string out v)
        | none ↦ (with_store d s, Reply.null_bulk out)
      ]

  unfoldable pub cmd_exists : Handler W
  unfolding exists_loop
  cmd_exists argv d out =
      let (s, found) = exists_loop d.store (drop 1 argv) 0 in
      (with_store d s, Reply.integer out (pos found))

  module _ (services : Services W) where
    -- SET behind the test of NX and XX.
    unfoldable pub run_set :
        Dispatcher W → Bytes → Bytes → SetOptions → Bytes → Dispatcher W × Bytes
    unfolding store_set logged_set
    run_set d key value o out =
        let d' = with_store d (store_set d.store key value o) in
        (propagate_built services d' (logged_set key value o), Reply.simple_string out (str "OK"))

    unfoldable pub cmd_set : Handler W
    unfolding set_options run_set
    cmd_set argv d out = elim (set_options d.store.now (drop 3 argv) no_options) [
      | set_error message ↦ (d, Reply.error out message)
      | options o ↦
          if o.nx || o.xx
          then (let (s, there) = Store.exists d.store (arg argv 1) in
              if o.nx && there || o.xx && not there
              then (with_store d s, Reply.null_bulk out)
              else run_set (with_store d s) (arg argv 1) (arg argv 2) o out)
          else run_set d (arg argv 1) (arg argv 2) o out
    ]

    unfoldable pub cmd_del : Handler W
    unfolding del_loop
    cmd_del argv d out =
        let (s, removed) = del_loop d.store (drop 1 argv) 0 in
        let d' = with_store d s in
        (if removed == 0 then d' else propagate services d' argv, Reply.integer out (pos removed))

    -- `incr_by` once the old number is read.
    unfoldable pub add_delta : Dispatcher W → Bytes → ℤ → ℤ → Bytes → Dispatcher W × Bytes
    add_delta d key value delta out =
        let sum = value +ℤ delta in
        if not (in_int64 sum)
        then (d, Reply.error out err_incr_overflow)
        else let d' = with_store d (Store.set d.store key (to_string sum) true) in
          let logged = str "SET" ∷ key ∷ to_string sum ∷ str "KEEPTTL" ∷ [] in
          (propagate_built services d' logged, Reply.integer out sum)

    unfoldable pub incr_by : Dispatcher W → Bytes → ℤ → Bytes → Dispatcher W × Bytes
    unfolding add_delta
    incr_by d key delta out =
        let (s, current) = Store.get d.store key in
        elim current [
          | none ↦ add_delta (with_store d s) key (pos 0) delta out
          | some text ↦ elim (parse_canonical_int64 text) [
            | none ↦ (with_store d s, Reply.error out err_not_integer)
            | some value ↦ add_delta (with_store d s) key value delta out
          ]
        ]

    unfoldable pub cmd_incr : Handler W
    unfolding incr_by
    cmd_incr argv d out = incr_by d (arg argv 1) (pos 1) out

    unfoldable pub cmd_decr : Handler W
    unfolding incr_by
    cmd_decr argv d out = incr_by d (arg argv 1) (negsuc 0) out

    unfoldable pub cmd_incrby : Handler W
    unfolding incr_by
    cmd_incrby argv d out = elim (parse_int64 (arg argv 2)) [
      | none ↦ (d, Reply.error out err_not_integer)
      | some delta ↦ incr_by d (arg argv 1) delta out
    ]

    unfoldable pub cmd_decrby : Handler W
    unfolding incr_by is_int64_min
    cmd_decrby argv d out = elim (parse_int64 (arg argv 2)) [
      | none ↦ (d, Reply.error out err_not_integer)
      | some delta ↦
          if is_int64_min delta
          then (d, Reply.error out (str "ERR decrement would overflow"))
          else incr_by d (arg argv 1) (pos 0 -ℤ delta) out
    ]
