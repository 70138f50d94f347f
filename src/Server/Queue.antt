-- ===== src/Server/Queue.antt =====
-- mozolm/grpc/server_async_impl.cc: the completion queue of the server, and the count of the calls that
-- are pending. What the handlers do to the hub is left to Server.antt.
pub mod Pending
use mozolm.Base.{ℕ, zero, suc, ◌+◌, ◌≡◌, Bool, true, false, List, [], ◌∷◌, ◌++◌, if◌then◌else◌}
use mozolm.Base.Int.{ℤ, pos, negsuc, eq_ℤ}

pub data Rpc : Type 0 where
  get_next_state get_lm_score update_lm_scores : Rpc

-- `waiting` holds the operations in the queue that wait for a new call, `finishing` those that wait
-- for a response to be sent. The queue has a shutdown of its own, after which what is in it still
-- leaves it, but nothing may be put into it.
pub record Server : Type 0 where
  pub server_shutdown : Bool
  pub rpcs_pending : ℤ
  pub rpcs_completed : Bool
  pub waiting : List Rpc
  pub finishing : List Rpc
  pub queue_shutdown : Bool

abbrev pub plus_one : ℤ → ℤ
plus_one (pos n) = pos (n + 1)
plus_one (negsuc zero) = pos 0
plus_one (negsuc (suc n)) = negsuc n

abbrev pub less_one : ℤ → ℤ
less_one (pos zero) = negsuc 0
less_one (pos (suc n)) = pos n
less_one (negsuc n) = negsuc (n + 1)

unfoldable pub increment_rpc_pending : Server → Bool × Server
increment_rpc_pending s =
    if s.server_shutdown
    then (false, s)
    else (true, record s { rpcs_pending = plus_one s.rpcs_pending })

-- The notification, once given, stays.
pub decrement_rpc_pending : Server → Server
decrement_rpc_pending s = record s {
  rpcs_pending = less_one s.rpcs_pending;
  rpcs_completed = if eq_ℤ (less_one s.rpcs_pending) (pos 0) then true else s.rpcs_completed;
}

-- `RequestNextGetNextState` and the like.
unfoldable pub request_next : Rpc → Server → Server
unfolding increment_rpc_pending
request_next r s =
    let (incremented, t) = increment_rpc_pending s in
    if incremented then record t { waiting = t.waiting ++ r ∷ [] } else t

-- `CleanupAfterGetNextState` and the like.
pub cleanup_after : Rpc → Server → Server
unfolding decrement_rpc_pending
cleanup_after r s = decrement_rpc_pending s

-- `ProcessGetNextState` and the like, of an operation that has left the queue.
unfoldable pub process : Rpc → Bool → Server → Server
unfolding request_next cleanup_after
process r false s = cleanup_after r s
process r true s = let t = request_next r s in record t { finishing = t.finishing ++ r ∷ [] }

-- `BuildAndStart` of a new server, and the calls of `ProcessRequests` before its loop.
abbrev pub built : Server
built = record {
  server_shutdown = false;
  rpcs_pending = pos 0;
  rpcs_completed = true;
  waiting = [];
  finishing = [];
  queue_shutdown = false;
}

unfoldable pub requests_started : Server → Server
unfolding request_next
requests_started s =
    request_next update_lm_scores (request_next get_lm_score (request_next get_next_state s))

-- `Shutdown` sets the flag.
abbrev pub set_shutdown : Server → Server
set_shutdown s = record s { server_shutdown = true }

-- `Shutdown` shuts the queue down.
abbrev pub shutdown_queue : Server → Server
shutdown_queue s = record s { queue_shutdown = true }

-- A step: `DriveCQ` takes an operation off the queue, or `Shutdown` sets its flag, or, when the
-- notification that it then waits for is given, shuts the queue down. As gRPC promises, a wait for a new
-- call ends without one only after a shutdown. A second `Shutdown` changes nothing. A call that arrives
-- when the queue is shut down would put its response there, which gRPC forbids: what becomes of the program
-- then is not defined, and there is no step.
pub data Step : Server → Server → Type 0 where
  call_arrived :
      (s : Server) (before after : List Rpc) (r : Rpc)
      → s.queue_shutdown ≡ false
      → s.waiting ≡ before ++ r ∷ after
      → Step s (process r true (record s { waiting = before ++ after }))
  wait_ended :
      (s : Server) (before after : List Rpc) (r : Rpc)
      → s.server_shutdown ≡ true
      → s.waiting ≡ before ++ r ∷ after
      → Step s (process r false (record s { waiting = before ++ after }))
  response_sent :
      (s : Server) (before after : List Rpc) (r : Rpc)
      → s.finishing ≡ before ++ r ∷ after
      → Step s (cleanup_after r (record s { finishing = before ++ after }))
  shutdown_requested : (s : Server) → s.server_shutdown ≡ false → Step s (set_shutdown s)
  queue_shut_down :
      (s : Server)
      → s.server_shutdown ≡ true
      → s.rpcs_completed ≡ true
      → s.queue_shutdown ≡ false
      → Step s (shutdown_queue s)

-- The states that a server gets to once it processes requests.
pub data Reachable : Server → Type 0 where
  started : Reachable (requests_started built)
  stepped : {s t : Server} → Reachable s → Step s t → Reachable t

-- So many steps.
pub data Run : ℕ → Server → Server → Type 0 where
  no_step : (s : Server) → Run 0 s s
  one_more : {n : ℕ} {s t v : Server} → Step s t → Run n t v → Run (suc n) s v
