-- ===== src/Server/Helper/Lifecycle.antt =====
-- The life of the server that mozolm/grpc/server_helper.cc holds.
use mozolm.Base.{◌≡◌, Bool, true, false, Option, none, some}
use mozolm.Base.Program.{Program, Outcome, Code, ok, err, fault}
use mozolm.Utf8.{Bytes}
use mozolm.Server.Helper.{
  ServerConfig, ServerCredentials, AsyncServer, ServerHelper, Worker, new_helper, init, run,
  shutdown,
}

module _ {C H : Type 0} (make_model_hub : C → Program (Unit {0}) H)
    (can_start : Bytes → ServerCredentials → Bool) where
  -- What a helper becomes by calls of its functions that end, by a caller who, where there is a server,
  -- calls `Run` only if `Init` has succeeded since the last `Shutdown`.
  pub data Calls : Bool → ServerHelper H → Type 0 where
    created : Calls false new_helper
    init_called :
        {b : Bool} {h t : ServerHelper H} (config : ServerConfig C)
        → Calls b h
        → init make_model_hub can_start config h ≡ ok tt t
        → Calls true t
    init_failed :
        {b : Bool} {c : Code} {h t : ServerHelper H} (config : ServerConfig C)
        → Calls b h
        → init make_model_hub can_start config h ≡ err c t
        → Calls b t
    run_called :
        {h t : ServerHelper H} (wait_till_terminated : Bool)
        → Calls true h
        → run make_model_hub can_start wait_till_terminated h ≡ ok tt t
        → Calls true t
    run_failed :
        {b : Bool} {c : Code} {h t : ServerHelper H} (wait_till_terminated : Bool)
        → Calls b h
        → run make_model_hub can_start wait_till_terminated h ≡ err c t
        → Calls b t
    shutdown_called :
        {b : Bool} {h t : ServerHelper H}
        → Calls b h
        → shutdown make_model_hub can_start h ≡ ok tt t
        → Calls false t

  -- Where `Init` has succeeded the server was built; where not there is no thread.
  IsHeld : Bool → Option (AsyncServer H) → Option Worker → Type 0
  IsHeld true none w = ⊥
  IsHeld true (some s) w = s.has_server ≡ true
  IsHeld false s none = Unit
  IsHeld false s (some w) = ⊥

  abbrev IsHelper : Bool → ServerHelper H → Type 0
  IsHelper b h = IsHeld b h.server h.server_thread

  -- What holds of the state of either ending.
  abbrev After :
      (ServerHelper H → Type 0)
      → (ServerHelper H → Type 0)
      → Outcome (ServerHelper H) (Unit {0})
      → Type 0
  After P Q (ok a t) = P t
  After P Q (err c t) = Q t
  After P Q fault = Unit
