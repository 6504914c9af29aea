-- ===== src/Dispatcher/Admin.antt =====
-- src/command_dispatcher.cpp: persistence, replication, INFO and the connection's flags.
use epochkv.Prelude.{
  ℕ, ◌%◌, [], ◌∷◌, ◌++◌, none, some, Bool, true, false, not, ◌&&◌, ◌||◌, Bytes, str, ◌==◌,
  if◌then◌else◌, drop, length,
}
use epochkv.Prelude.Int.{pos, pos_part, ltb_ℤ}
use epochkv.Reply
use epochkv.Dispatcher.{
  Args, Services, Dispatcher, Handler, started, scheduled, rewrite_error, err_not_integer,
  err_syntax, err_no_persistence, err_no_replication, to_upper, sanitize_for_error, arg, is_word,
  parse_int64, is_port,
}

-- The sections that INFO was asked for.
pub record Sections : Type 0 where
  pub all : Bool
  pub replication : Bool
  pub cluster : Bool

unfoldable pub info_sections : Args → Sections → Sections
info_sections [] s = s
info_sections (word ∷ words) s =
    let section = to_upper word in
    info_sections words (record {
      all =
          s.all
          || is_word section "ALL"
          || is_word section "DEFAULT"
          || is_word section "EVERYTHING";
      replication = s.replication || is_word section "REPLICATION";
      cluster = s.cluster || is_word section "CLUSTER";
    })

module _ {W : Type 0} (services : Services W) where
  unfoldable pub cmd_save : Handler W
  cmd_save argv d out =
      if not services.has_persistence
      then (d, Reply.error out err_no_persistence)
      else let (w, saved, err) = services.save d.store d.world in
        (
          record d { world = w },
          if saved then Reply.simple_string out (str "OK") else Reply.error out err,
        )

  unfoldable pub cmd_bgsave : Handler W
  cmd_bgsave argv d out =
      if not services.has_persistence
      then (d, Reply.error out err_no_persistence)
      else let (w, begun, err) = services.bgsave d.store d.world in
        (
          record d { world = w },
          if begun
              then Reply.simple_string out (str "Background saving started")
              else Reply.error out err,
        )

  unfoldable pub cmd_bgrewriteaof : Handler W
  cmd_bgrewriteaof argv d out =
      if not services.has_persistence
      then (d, Reply.error out err_no_persistence)
      else let (w, start, err) = services.bgrewriteaof d.store d.world in
        (
          record d { world = w },
          elim start [
            | started ↦
                Reply.simple_string out (str "Background append only file rewriting started")
            | scheduled ↦
                Reply.simple_string out (str "Background append only file rewriting scheduled")
            | rewrite_error ↦ Reply.error out err
          ],
        )

  unfoldable pub cmd_lastsave : Handler W
  cmd_lastsave argv d out =
      if not services.has_persistence
      then (d, Reply.error out err_no_persistence)
      else (d, Reply.integer out (services.lastsave d.world))

  unfoldable pub cmd_replicaof : Handler W
  cmd_replicaof argv d out =
      if not services.has_replication
      then (d, Reply.error out err_no_replication)
      else if services.has_cluster
      then (d, Reply.error out (str "ERR REPLICAOF not allowed in cluster mode."))
      else if is_word (to_upper (arg argv 1)) "NO" && is_word (to_upper (arg argv 2)) "ONE"
      then (let (s, w) = services.replicaof_no_one d.store d.world in
          (record d { store = s; world = w }, Reply.simple_string out (str "OK")))
      else elim (parse_int64 (arg argv 2)) [
        | none ↦ (d, Reply.error out (str "ERR Invalid master port"))
        | some port ↦
            if not (is_port port)
            then (d, Reply.error out (str "ERR Invalid master port"))
            else (let (s, w) = services.replicaof (arg argv 1) (pos_part port) d.store d.world in
                (record d { store = s; world = w }, Reply.simple_string out (str "OK")))
      ]

  -- `client_->repl_listening_port = port`, if there is a client.
  unfoldable pub set_listening_port : Dispatcher W → ℕ → Dispatcher W
  set_listening_port d port = elim d.client [
    | none ↦ d
    | some c ↦ record d { client = some (record c { repl_listening_port = port }) }
  ]

  -- REPLCONF ACK: never answered, and ignored if anything is missing.
  unfoldable pub replconf_ack : Dispatcher W → Bytes → Dispatcher W
  replconf_ack d text = elim d.client [
    | none ↦ d
    | some c ↦ elim (parse_int64 text) [
      | none ↦ d
      | some offset ↦
          if services.has_replication && not (ltb_ℤ offset (pos 0))
          then record d { world = services.replconf_ack c (pos_part offset) d.world }
          else d
    ]
  ]

  unfoldable pub replconf_getack : Dispatcher W → Dispatcher W
  replconf_getack d = elim d.client [
    | none ↦ d
    | some c ↦
        if services.has_replication && c.is_master
        then record d { world = services.replconf_getack d.world }
        else d
  ]

  -- The loop of REPLCONF over pairs of option and value.
  unfoldable pub replconf_loop : Args → Dispatcher W → Bytes → Dispatcher W × Bytes
  unfolding set_listening_port replconf_ack replconf_getack
  replconf_loop (word ∷ text ∷ rest) d out =
      let opt = to_upper word in
      elim (is_word opt "LISTENING-PORT") [
        | true ↦ elim (parse_int64 text) [
          | none ↦ (d, Reply.error out (str "ERR Invalid listening port"))
          | some port ↦ elim (is_port port) [
            | false ↦ (d, Reply.error out (str "ERR Invalid listening port"))
            | true ↦ replconf_loop rest (set_listening_port d (pos_part port)) out
          ]
        ]
        | false ↦ elim (is_word opt "CAPA") [
          | true ↦ replconf_loop rest d out
          | false ↦
              if is_word opt "ACK"
              then (replconf_ack d text, out)
              else if is_word opt "GETACK"
              then (replconf_getack d, out)
              else (
                d,
                Reply.error out
                    (str "ERR Unrecognized REPLCONF option: " ++ sanitize_for_error word),
              )
        ]
      ]
  replconf_loop _ d out = (d, Reply.simple_string out (str "OK"))

  unfoldable pub cmd_replconf : Handler W
  unfolding replconf_loop
  cmd_replconf argv d out =
      if length argv % 2 == 0
      then (d, Reply.error out err_syntax)
      else replconf_loop (drop 1 argv) d out

  unfoldable pub cmd_psync : Handler W
  cmd_psync argv d out = elim d.client [
    | none ↦ (d, Reply.error out err_no_replication)
    | some c ↦
        if not services.has_replication
        then (d, Reply.error out err_no_replication)
        else elim (parse_int64 (arg argv 2)) [
          | none ↦ (d, Reply.error out err_not_integer)
          | some offset ↦
              let (w, out') = services.psync c (arg argv 1) offset d.world out in
              (record d { world = w }, out')
        ]
  ]

  unfoldable pub cmd_wait : Handler W
  cmd_wait argv d out = elim d.client [
    | none ↦ (d, Reply.error out err_no_replication)
    | some c ↦
        if not services.has_replication
        then (d, Reply.error out err_no_replication)
        else elim (parse_int64 (arg argv 1)) [
          | none ↦ (d, Reply.error out err_not_integer)
          | some numreplicas ↦ elim (parse_int64 (arg argv 2)) [
            | none ↦ (d, Reply.error out err_not_integer)
            | some timeout ↦
                let (w, out') = services.wait c numreplicas timeout d.world out in
                if ltb_ℤ timeout (pos 0)
                then (d, Reply.error out (str "ERR timeout is negative"))
                else (record d { world = w }, out')
          ]
        ]
  ]

  unfoldable pub cmd_info : Handler W
  unfolding info_sections
  cmd_info argv d out =
      let asked =
        info_sections (drop 1 argv)
          (record { all = length argv == 1; replication = false; cluster = false }) in
      let text : Bytes =
        if (asked.all || asked.replication) && services.has_replication
        then services.replication_info d.world
        else [] in
      let gap : Bytes = if length text == 0 then [] else str "\r\n" in
      let cluster =
        str "# Cluster\r\ncluster_enabled:"
        ++ ((if services.has_cluster then str "1" else str "0") ++ str "\r\n") in
      (
        d,
        Reply.bulk_string out
            (if asked.all || asked.cluster then text ++ (gap ++ cluster) else text),
      )

  abbrev pub err_no_cluster : Bytes
  err_no_cluster = str "ERR This instance has cluster support disabled"

  unfoldable pub cmd_cluster : Handler W
  cmd_cluster argv d out =
      if not services.has_cluster
      then (d, Reply.error out err_no_cluster)
      else let (s, w, out') = services.cluster_command argv d.store d.world out in
        (record d { store = s; world = w }, out')

  unfoldable pub cmd_asking : Handler W
  cmd_asking argv d out =
      if not services.has_cluster then (d, Reply.error out err_no_cluster) else (
        elim d.client [
          | none ↦ d
          | some c ↦ record d { client = some (record c { asking = true }) }
        ],
        Reply.simple_string out (str "OK"),
      )

  -- READONLY and READWRITE.
  unfoldable pub set_readonly : Bool → Handler W
  set_readonly on argv d out =
      if not services.has_cluster then (d, Reply.error out err_no_cluster) else (
        elim d.client [
          | none ↦ d
          | some c ↦ record d { client = some (record c { readonly = on }) }
        ],
        Reply.simple_string out (str "OK"),
      )

  unfoldable pub cmd_readonly : Handler W
  unfolding set_readonly
  cmd_readonly = set_readonly true

  unfoldable pub cmd_readwrite : Handler W
  unfolding set_readonly
  cmd_readwrite = set_readonly false
