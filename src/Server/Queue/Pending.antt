-- ===== src/Server/Queue/Pending.antt =====
-- The count of pending calls in mozolm/grpc/server_async_impl.cc, at every moment of a run of the
-- server.
use mozolm.Base.{
  ℕ, suc, ◌+◌, ◌≡◌, ◌≤◌, inl, inr, refl, sym, ap, ◌∙◌, Bool, true, false, List, [], ◌∷◌, ◌++◌,
  arith, if◌then◌else◌, length, length-append, Bool-cases,
}
use mozolm.Base.Int.{ℤ, pos}
use mozolm.Server.Queue.{
  Rpc, get_next_state, get_lm_score, update_lm_scores, Server, plus_one, less_one,
  increment_rpc_pending, decrement_rpc_pending, request_next, cleanup_after, process, built,
  requests_started, Step, call_arrived, wait_ended, response_sent, shutdown_requested,
  queue_shut_down, Reachable, started, stepped, Run, no_step, one_more,
}

abbrev pub same_rpc : Rpc → Rpc → Bool
same_rpc get_next_state get_next_state = true
same_rpc get_lm_score get_lm_score = true
same_rpc update_lm_scores update_lm_scores = true
same_rpc _ _ = false

-- How often a kind of call stands in a list.
abbrev pub tally : Rpc → List Rpc → ℕ
tally r [] = 0
tally r (x ∷ xs) = let rest = tally r xs in if same_rpc x r then suc rest else rest

tally-append : (r : Rpc) (xs ys : List Rpc) → tally r (xs ++ ys) ≡ tally r xs + tally r ys
tally-append r [] ys = omega arith
tally-append r (x ∷ xs) ys = let rest = tally-append r xs ys in ground arith

-- The operations that the queue owes the server.
abbrev pub outstanding : Server → ℕ
outstanding s = length s.waiting + length s.finishing

pub record IsAccounted (s : Server) : Type 0 where
  pub pending : s.rpcs_pending ≡ pos (outstanding s)
  pub serving : s.server_shutdown ≡ false → (r : Rpc) → tally r s.waiting ≡ 1

-- An operation off a list, and on at its end.
length-taken :
    (xs before after : List Rpc) (r : Rpc)
    → xs ≡ before ++ r ∷ after
    → length xs ≡ suc (length (before ++ after))
length-taken xs before after r e =
    ap length e ∙ omega (arith, length-append before (r ∷ after), length-append before after)

tally-moved :
    (q : Rpc) (xs before after : List Rpc) (r : Rpc)
    → xs ≡ before ++ r ∷ after
    → tally q ((before ++ after) ++ r ∷ []) ≡ tally q xs
tally-moved q xs before after r e =
    tally-append q (before ++ after) (r ∷ [])
    ∙ ap (λ n. n + tally q (r ∷ [])) (tally-append q before after)
    ∙ ground (arith, tally-append q before (r ∷ after))
    ∙ sym (ap (tally q) e)

less_one-suc : (z : ℤ) (n : ℕ) → z ≡ pos (suc n) → less_one z ≡ pos n
less_one-suc z n e = ap less_one e

plus_one-pos : (z : ℤ) (n : ℕ) → z ≡ pos n → plus_one z ≡ pos (suc n)
plus_one-pos z n e = ap plus_one e ∙ ap pos (omega arith)

arrived :
    (s : Server) (before after : List Rpc) (r : Rpc)
    → s.waiting ≡ before ++ r ∷ after
    → IsAccounted s
    → IsAccounted (process r true (record s { waiting = before ++ after }))
unfolding process request_next increment_rpc_pending
arrived s before after r e a = elim (Bool-cases s.server_shutdown) [
  | inl down ↦ rw down record {
    pending = a.pending ∙ ap pos (omega (arith, taken, length-append s.finishing (r ∷ [])));
    serving = λ up. absurd (ground arith);
  }
  | inr up ↦ rw up record {
    pending =
        plus_one-pos s.rpcs_pending (outstanding s) a.pending
        ∙ ap pos (
            omega (
              arith,
              taken,
              length-append s.finishing (r ∷ []),
              length-append (before ++ after) (r ∷ []),
            ));
    serving = λ _ q. tally-moved q s.waiting before after r e ∙ a.serving up q;
  }
]
  where
    taken : length s.waiting ≡ suc (length (before ++ after))
    taken = length-taken s.waiting before after r e

ended :
    (s : Server) (before after : List Rpc) (r : Rpc)
    → s.server_shutdown ≡ true
    → s.waiting ≡ before ++ r ∷ after
    → IsAccounted s
    → IsAccounted (process r false (record s { waiting = before ++ after }))
unfolding process cleanup_after decrement_rpc_pending
ended s before after r down e a = record {
  pending =
      less_one-suc s.rpcs_pending (length (before ++ after) + length s.finishing)
        (a.pending ∙ ap pos (omega (arith, length-taken s.waiting before after r e)));
  serving = λ up. absurd (ground arith);
}

sent :
    (s : Server) (before after : List Rpc) (r : Rpc)
    → s.finishing ≡ before ++ r ∷ after
    → IsAccounted s
    → IsAccounted (cleanup_after r (record s { finishing = before ++ after }))
unfolding cleanup_after decrement_rpc_pending
sent s before after r e a = record {
  pending =
      less_one-suc s.rpcs_pending (length s.waiting + length (before ++ after))
        (a.pending ∙ ap pos (omega (arith, length-taken s.finishing before after r e)));
  serving = a.serving;
}

step-IsAccounted : {s t : Server} → Step s t → IsAccounted s → IsAccounted t
step-IsAccounted (call_arrived s before after r is_open e) a = arrived s before after r e a
step-IsAccounted (wait_ended s before after r down e) a = ended s before after r down e a
step-IsAccounted (response_sent s before after r e) a = sent s before after r e a
step-IsAccounted (shutdown_requested s up) a = record {
  pending = a.pending;
  serving = λ e. absurd (cc);
}
step-IsAccounted (queue_shut_down s down completed is_open) a = record {
  pending = a.pending;
  serving = a.serving;
}

start-IsAccounted : IsAccounted (requests_started built)
unfolding requests_started request_next increment_rpc_pending
start-IsAccounted = record { pending = refl; serving = one }
  where
    one :
        false ≡ false
        → (r : Rpc) → tally r (get_next_state ∷ get_lm_score ∷ update_lm_scores ∷ []) ≡ 1
    one e get_next_state = refl
    one e get_lm_score = refl
    one e update_lm_scores = refl

-- At every moment of a run the count of pending calls is the number of operations that the queue owes
-- the server; and until the server is shut down exactly one operation of each kind waits for a call.
pub rpcs_pending-IsAccounted : {s : Server} → Reachable s → IsAccounted s
rpcs_pending-IsAccounted started = start-IsAccounted
rpcs_pending-IsAccounted (stepped r e) = step-IsAccounted e (rpcs_pending-IsAccounted r)

abbrev until_shut : Bool → ℕ
until_shut true = 0
until_shut false = 1

-- What the queue can still do after a shutdown: two steps for each wait, one for each response, and one
-- for its own shutdown.
abbrev pub work_left : Server → ℕ
work_left s = length s.waiting + length s.waiting + length s.finishing + until_shut s.queue_shutdown

drained :
    {s t : Server}
    → Step s t
    → s.server_shutdown ≡ true
    → (suc (work_left t) ≤ work_left s) × (t.server_shutdown ≡ true)
unfolding process request_next increment_rpc_pending cleanup_after decrement_rpc_pending
drained (call_arrived s before after r is_open e) down = rw down (
    let taken = length-taken s.waiting before after r e in
    (omega (arith, taken, length-append s.finishing (r ∷ [])), refl))
drained (wait_ended s before after r _ e) down =
    let taken = length-taken s.waiting before after r e in (omega (arith, taken), down)
drained (response_sent s before after r e) down =
    let taken = length-taken s.finishing before after r e in (omega (arith, taken), down)
drained (shutdown_requested s up) down = absurd (ground arith)
drained (queue_shut_down s down completed is_open) _ = rw is_open (omega arith, down)

-- After a shutdown the server stays shut down, and a run has no more steps than two for each operation
-- that waited for a call, one for each response that was being sent, and one for the shutdown of the
-- queue itself.
pub Run-work_left :
    {n : ℕ} {s t : Server}
    → Run n s t
    → s.server_shutdown ≡ true
    → (n + work_left t ≤ work_left s) × (t.server_shutdown ≡ true)
Run-work_left (no_step s) down = (omega arith, down)
Run-work_left (one_more e run) down =
    let (less, still) = drained e down in
    let (rest, last) = Run-work_left run still in (omega arith, last)

length-tally :
    (xs : List Rpc)
    → length xs ≡ tally get_next_state xs + tally get_lm_score xs + tally update_lm_scores xs
length-tally [] = omega arith
length-tally (get_next_state ∷ xs) = let rest = length-tally xs in omega arith
length-tally (get_lm_score ∷ xs) = let rest = length-tally xs in omega arith
length-tally (update_lm_scores ∷ xs) = let rest = length-tally xs in omega arith

notified : {s : Server} → Reachable s → s.rpcs_completed ≡ true
unfolding requests_started request_next increment_rpc_pending process cleanup_after
    decrement_rpc_pending
notified started = refl
notified (stepped r (call_arrived s before after q is_open e)) =
    elim (Bool-cases s.server_shutdown) [
      | inl down ↦ rw down (notified r)
      | inr up ↦ rw up (notified r)
    ]
notified (stepped r (wait_ended s before after q down e)) =
    let before_it = notified r in ground arith
notified (stepped r (response_sent s before after q e)) = let before_it = notified r in ground arith
notified (stepped r (shutdown_requested s up)) = notified r
notified (stepped r (queue_shut_down s down completed is_open)) = completed

-- The queue is shut down after the server only.
queue_open : {s : Server} → Reachable s → s.server_shutdown ≡ false → s.queue_shutdown ≡ false
unfolding requests_started request_next increment_rpc_pending process cleanup_after
    decrement_rpc_pending
queue_open started up = refl
queue_open (stepped r (call_arrived s before after q is_open e)) up =
    elim (Bool-cases s.server_shutdown) [
      | inl down ↦ rw down is_open
      | inr is_up ↦ rw is_up is_open
    ]
queue_open (stepped r (wait_ended s before after q down e)) up = queue_open r up
queue_open (stepped r (response_sent s before after q e)) up = queue_open r up
queue_open (stepped r (shutdown_requested s _)) up = absurd (ground arith)
queue_open (stepped r (queue_shut_down s down completed is_open)) up = absurd (cc)

-- At every moment of a run the notification that `Shutdown` waits for has been given already. Until the
-- server is shut down, at least three calls are pending, and a shutdown can shut the queue down, two
-- steps on, with all of them pending.
pub rpcs_completed_early :
    {s : Server}
    → Reachable s
    → (s.rpcs_completed ≡ true)
      × (s.server_shutdown ≡ false
          → (3 ≤ outstanding s)
            × (t : Server) × Run 2 s t
            × (t.queue_shutdown ≡ true)
            × (outstanding t ≡ outstanding s))
rpcs_completed_early {s} r = (
  notified r,
  λ up.
      let one = (rpcs_pending-IsAccounted r).serving up in
      (
        omega (
          arith,
          length-tally s.waiting,
          one get_next_state,
          one get_lm_score,
          one update_lm_scores,
        ),
        _,
        one_more (shutdown_requested s up)
            (one_more (queue_shut_down _ refl (notified r) (queue_open r up)) (no_step _)),
        refl,
        refl,
      ),
)
