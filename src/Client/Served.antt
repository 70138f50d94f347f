-- ===== src/Client/Served.antt =====
-- The client of mozolm/grpc/client_async_impl.cc at the server of server_async_impl.cc, over a
-- connection that delivers every request and every answer.
use mozolm.Base.{◌≡◌, refl, Bool, true, false, Option, some, List, []}
use mozolm.Base.Int.{ℤ, pos}
use mozolm.Base.Program.{Program, Outcome, ok, err, fault, internal, ◌>>=◌, bind_same, or_fault}
use mozolm.Double.{Double}
use mozolm.Utf8.{Bytes, Utf8Library, str_split_by_char_to_unicode}
use mozolm.Model.{LmScores, LanguageModel}
use mozolm.Hub.{Hub}
use mozolm.Server.{
  GetContextRequest, handle_get_lm_scores, handle_get_next_state, manage_update_lm_scores,
}
use mozolm.Client.{
  Finished, Stub, finish_tag, wait_and_check, response_of, checked_response_of, top_scores,
  get_lm_score, get_next_state, update_count, update_count_get_dest_state_score,
}

module _ {S R : Type 0} where
  -- The event of a call that the server answers in this way; a server that ends leaves it unanswered.
  abbrev pub delivered : R → S → Outcome S R → Option (Finished R) × S
  delivered unset s (ok r t) = (
    some (record {
      next = true;
      ok_flag = true;
      got_tag = finish_tag;
      status_ok = true;
      response = r;
    }),
    t,
  )
  delivered unset s (err c t) = (
    some (record {
      next = true;
      ok_flag = true;
      got_tag = finish_tag;
      status_ok = false;
      response = unset;
    }),
    t,
  )
  delivered unset s fault = (
    some (record {
      next = true;
      ok_flag = false;
      got_tag = finish_tag;
      status_ok = false;
      response = unset;
    }),
    s,
  )

  -- What a client sees of an answer: every failure is an internal error.
  abbrev pub as_seen : S → Outcome S R → Outcome S R
  as_seen s (ok r t) = ok r t
  as_seen s (err c t) = err internal t
  as_seen s fault = err internal s

  abbrev pub seen : Program S R → Program S R
  seen m s = as_seen s (m s)

  response_of-delivered :
      (unset : R) (s : S) (o : Outcome S R)
      → response_of (delivered unset s o).0 (delivered unset s o).1 ≡ as_seen s o
  unfolding response_of wait_and_check
  response_of-delivered unset s (ok r t) = refl
  response_of-delivered unset s (err c t) = refl
  response_of-delivered unset s fault = refl

  checked-delivered :
      (unset : R) (s : S) (o : Outcome S R)
      → checked_response_of (delivered unset s o).0 (delivered unset s o).1 ≡ as_seen s o
  unfolding checked_response_of
  checked-delivered unset s (ok r t) = response_of-delivered unset s (ok r t)
  checked-delivered unset s (err c t) = response_of-delivered unset s (err c t)
  checked-delivered unset s fault = response_of-delivered unset s fault

module _ {D M : Type 0} (d : Double D) (u : Utf8Library) (o : LanguageModel D M)
    (same_bytes : Bytes → Bytes → Bool) (zero_d : D)
    (order sort : List (Bytes × D) → List (Bytes × D)) where
  abbrev unset_scores : LmScores D
  unset_scores = record { symbols = []; probabilities = []; normalization = zero_d }

  abbrev pub over_server : Stub D (Hub D M)
  over_server = record {
    async_get_lm_scores = λ t r hub.
        delivered unset_scores hub (handle_get_lm_scores d u o same_bytes zero_d order sort r hub);
    async_get_next_state = λ t r hub.
        delivered (pos 0) hub (handle_get_next_state d u o same_bytes zero_d order sort r hub);
    async_update_lm_scores = λ t r hub.
        delivered unset_scores hub
          (manage_update_lm_scores d u o same_bytes zero_d order sort r hub);
  }

  top_scores-delivered :
      (top : List (D × Bytes) → List (D × Bytes)) (handler : Program (Hub D M) (LmScores D))
      (hub : Hub D M)
      → ◌>>=◌
          (response_of (delivered unset_scores hub (handler hub)).0)
          (top_scores top over_server u)
          (delivered unset_scores hub (handler hub)).1
        ≡ ◌>>=◌ (seen handler) (top_scores top over_server u) hub
  top_scores-delivered top handler hub =
      let answer = delivered unset_scores hub (handler hub) in
      let scores = top_scores top over_server u in
      bind_same (response_of answer.0) (seen handler) scores scores answer.1 hub
        (response_of-delivered unset_scores hub (handler hub)) (λ r h. refl)

  -- A client at the server gets from GetNextState what the server's handler returns; from GetLMScore the
  -- hypotheses of the handler's scores; and from UpdateCountGetDestStateScore the hypotheses after the
  -- handler's update with the code points of the text, and then the state after the text on the hub that
  -- the update leaves. Every failure of the server is an internal error for the client.
  pub over_server-handlers :
      (top : List (D × Bytes) → List (D × Bytes)) (c : Bytes) (s count : ℤ) (t : D) (hub : Hub D M)
      → (get_next_state top over_server u c s t hub
          ≡ seen
              (handle_get_next_state d u o same_bytes zero_d order sort
                (record { context = c; state = s }))
              hub)
        × (get_lm_score top over_server u c s t hub
            ≡ ◌>>=◌
                (seen (
                  handle_get_lm_scores d u o same_bytes zero_d order sort
                    (record { context = c; state = s })))
                (top_scores top over_server u)
                hub)
        × (update_count_get_dest_state_score top over_server u c s t count hub
            ≡ ◌>>=◌
                (or_fault (str_split_by_char_to_unicode u c))
                (λ syms.
                  seen (
                    manage_update_lm_scores d u o same_bytes zero_d order sort
                      (record { state = s; utf8_sym = syms; count = count }))
                  >>= top_scores top over_server u
                  >>= λ result.
                      seen (
                        handle_get_next_state d u o same_bytes zero_d order sort
                          (record { context = c; state = s }))
                      >>= λ next. λ hub'. ok (next, result) hub')
                hub)
  unfolding get_next_state get_lm_score update_count_get_dest_state_score update_count
  over_server-handlers top c s count t hub =
      let request : GetContextRequest = record { context = c; state = s } in
      let scores = top_scores top over_server u in
      let next = handle_get_next_state d u o same_bytes zero_d order sort request in
      let get = handle_get_lm_scores d u o same_bytes zero_d order sort request in
      let manage : List ℤ → Program (Hub D M) (LmScores D) = λ syms.
        manage_update_lm_scores d u o same_bytes zero_d order sort
          (record { state = s; utf8_sym = syms; count = count }) in
      let split = or_fault (str_split_by_char_to_unicode u c) in
      (
        checked-delivered (pos 0) hub (next hub),
        top_scores-delivered top get hub,
        bind_same split split _ _ hub hub refl (λ syms h.
            bind_same (update_count top over_server u syms s t count)
              (seen (manage syms) >>= scores) _ _ h h (top_scores-delivered top (manage syms) h)
              (λ result h'.
                bind_same (get_next_state top over_server u c s t) (seen next) _ _ h' h'
                  (checked-delivered (pos 0) h' (next h')) (λ n h''. refl))),
      )
