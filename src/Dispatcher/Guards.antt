-- ===== src/Dispatcher/Guards.antt =====
-- src/command_dispatcher.cpp: the checks of `dispatch` in front of the handlers.
use epochkv.Prelude.{
  ◌++◌, str, if◌then◌else◌, ◌≡◌, inl, inr, refl, [], ◌∷◌, Option, none, some, Bool, true, false,
  Bytes, arith, length, Bool-cases,
}
use epochkv.Reply
use epochkv.Dispatcher.{Args, Client, Services, Dispatcher, to_upper}
use epochkv.Dispatcher.Dispatch.{
  CommandSpec, table, find_spec, dispatch, run_spec, run_routed, redirect, refused_by_replica,
  arity_ok, from_master, clear_asking, follow_redirect, run_found,
}

-- The line of an error on the wire.
unfoldable pub error_line : Bytes → Bytes → Bytes
error_line out message = out ++ (b'-' ∷ (message ++ 13 ∷ 10 ∷ []))

error_lem : (out message : Bytes) → Reply.error out message ≡ error_line out message
unfolding Reply.error error_line
error_lem out message = refl

abbrev pub read_only : Bytes
read_only = str "READONLY You can't write against a read only replica."

module _ {W : Type 0} where
  -- What a write command that a replica refuses is answered with.
  unfoldable pub refusal : CommandSpec W → Args → Bytes
  refusal spec argv =
      if arity_ok spec.arity (length argv)
      then read_only
      else str "ERR wrong number of arguments for '" ++ str spec.name ++ str "' command"

  module _ (services : Services W) where
    no_redirect :
        (spec : CommandSpec W) (argv : Args) (asking : Bool) (d : Dispatcher W)
        → services.has_cluster ≡ false
        → redirect services spec argv asking d ≡ (d, none)
    unfolding redirect
    no_redirect spec argv asking d h = ground (arith, h)

    refused :
        (spec : CommandSpec W) (d : Dispatcher W)
        → spec.write ≡ true
        → services.has_replication ≡ true
        → services.is_replica d.world ≡ true
        → from_master d.client ≡ false
        → refused_by_replica services spec d ≡ true
    unfolding refused_by_replica
    refused spec d w r i m = rw (w, r, i, m)

    run_routed-refused :
        (spec : CommandSpec W) (argv : Args) (d : Dispatcher W) (out : Bytes)
        → refused_by_replica services spec d ≡ true
        → run_routed services spec argv d out ≡ (d, error_line out read_only)
    unfolding run_routed
    run_routed-refused spec argv d out h = rw (h, error_lem)

    run_spec-refused :
        (spec : CommandSpec W) (argv : Args) (asking : Bool) (d : Dispatcher W) (out : Bytes)
        → services.has_cluster ≡ false
        → refused_by_replica services spec d ≡ true
        → run_spec services spec argv asking d out ≡ (d, error_line out (refusal spec argv))
    unfolding run_spec follow_redirect refusal
    run_spec-refused spec argv asking d out c h =
        elim (Bool-cases (arity_ok spec.arity (length argv))) [
          | inl ok ↦
              rw (ok, no_redirect spec argv asking d c) (run_routed-refused spec argv d out h)
          | inr bad ↦ rw (bad, error_lem)
        ]

    from_master-clear_asking : (c : Option Client) → from_master (clear_asking c) ≡ from_master c
    from_master-clear_asking none = refl
    from_master-clear_asking (some c) = refl

    -- A replica outside a cluster refuses every write command of a connection that is not its
    -- master's, whatever the arguments are: of the whole state, only the connection's `asking` flag
    -- is changed, which is cleared, and the client is sent the READONLY error, or the one for a wrong
    -- number of arguments.
    pub dispatch-refused :
        (word : Bytes) (args : Args) (spec : CommandSpec W) (d : Dispatcher W) (out : Bytes)
        → find_spec (table services) (to_upper word) ≡ some spec
        → spec.write ≡ true
        → services.has_cluster ≡ false
        → services.has_replication ≡ true
        → services.is_replica d.world ≡ true
        → from_master d.client ≡ false
        → dispatch services (word ∷ args) d out ≡ (
          record d { client = clear_asking d.client },
          error_line out (refusal spec (word ∷ args)),
        )
    unfolding dispatch run_found
    dispatch-refused word args spec d out f w c r i m = rw f (
        run_spec-refused spec (word ∷ args) _ _ out c
          (refused spec _ w r i (rw from_master-clear_asking m)))
