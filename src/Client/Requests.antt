-- ===== src/Client/Requests.antt =====
-- How the requests of mozolm/grpc/client_async_impl.cc end.
use mozolm.Base.{
  ◌<◌, length, ◌≡◌, ◌⊎◌, inl, inr, sym, subst, true, false, not, Option, some, List, if◌then◌else◌,
}
use mozolm.Base.Int.{ℤ, minus_one}
use mozolm.Base.Program.{
  Settles, Settles-bind, Settles-if, Settles-weaken, ◌>>=◌, value, status, StatusOr, fail, pure,
  lift, internal,
}
use mozolm.Double.{Double}
use mozolm.Utf8.{Bytes, Utf8Library, IsUtf8}
use mozolm.Utf8.Split.{str_split_by_char_to_unicode_total}
use mozolm.Model.{LmScores, get_top_hypotheses}
use mozolm.Server.{GetContextRequest, UpdateLmScoresRequest}
use mozolm.Client.{
  Finished, Stub, Scored, finish_tag, wait_and_check, response_of, checked_response_of, top_scores,
  get_lm_score, get_next_state, update_count, update_count_get_dest_state_score,
}

-- A call that is answered: the queue gives its event, and the status is OK.
pub record IsAnswered {R : Type 0} (f : Finished R) : Type 0 where
  pub next_lem : f.next ≡ true
  pub ok_flag_lem : f.ok_flag ≡ true
  pub got_tag_lem : f.got_tag ≡ finish_tag
  pub status_ok_lem : f.status_ok ≡ true

module _ {D : Type 0} (d : Double D) (zero_d : D) (sort : List (D × Bytes) → List (D × Bytes)) where
  -- Scores as they should be: with some hypothesis and a positive normalization.
  pub record AreScores (response : LmScores D) : Type 0 where
    pub hyps : List (D × Bytes)
    pub hyps_lem : get_top_hypotheses sort response minus_one ≡ value hyps
    pub nonempty : 0 < length hyps
    pub normalization_lem : d.le response.normalization zero_d ≡ false

  -- Every call of the stub has a reader, as gRPC documents, and is answered, scores as they should be,
  -- unless `E`, which is what failures are put down to.
  pub record Serves {W : Type 0} (E : Type 0) (stub : Stub D W) : Type 0 where
    pub get_lm_scores_lem :
        (t : D) (r : GetContextRequest) (w : W)
        → (f : Finished (LmScores D)) × ((stub.async_get_lm_scores t r w).0 ≡ some f)
          × ((IsAnswered f × AreScores f.response) ⊎ E)
    pub get_next_state_lem :
        (t : D) (r : GetContextRequest) (w : W)
        → (f : Finished ℤ) × ((stub.async_get_next_state t r w).0 ≡ some f) × (IsAnswered f ⊎ E)
    pub update_lm_scores_lem :
        (t : D) (r : UpdateLmScoresRequest) (w : W)
        → (f : Finished (LmScores D)) × ((stub.async_update_lm_scores t r w).0 ≡ some f)
          × ((IsAnswered f × AreScores f.response) ⊎ E)

module _ {W : Type 0} (E : Type 0) where
  -- The response of a call, unless `E`.
  response_of-Settles :
      {R : Type 0} (P : R → Type 0) (f : Finished R) (w : W)
      → (IsAnswered f × P f.response) ⊎ E
      → Settles E (λ r v. P r ⊎ E) (response_of (some f) w)
  unfolding response_of wait_and_check
  response_of-Settles {R} P f w (inl (answered, p)) =
      rw (answered.next_lem, answered.ok_flag_lem, answered.got_tag_lem, answered.status_ok_lem)
        (inl p)
  response_of-Settles {R} P f w (inr e) =
      Settles-bind E (λ t v. Unit) (λ r v. P r ⊎ E) (wait_and_check f finish_tag)
        (λ t. if f.status_ok then pure f.response else fail internal) w
        (Settles-if E (λ t v. Unit) (not f.next) (fail internal) _ w (λ h. e)
          (λ h.
            Settles-if E (λ t v. Unit) (not f.ok_flag) (fail internal) _ w (λ h. e)
              (λ h. Settles-if E (λ t v. Unit) _ (fail internal) (pure tt) w (λ h. e) (λ h. tt))))
        (λ t v p.
          Settles-if E (λ r v. P r ⊎ E) f.status_ok (pure f.response) (fail internal) v (λ h. inr e)
            (λ h. e))

-- Scores that `ClientHelper` takes, unless `E`.
abbrev pub Usable : {D W : Type 0} → Double D → D → Type 0 → Scored D → W → Type 0
Usable d zero_d E s w = ((d.le s.0 zero_d ≡ false) × (0 < length s.1)) ⊎ E

module _ {D W : Type 0} (d : Double D) (zero_d : D) (sort : List (D × Bytes) → List (D × Bytes))
    (E : Type 0) (stub : Stub D W) (u : Utf8Library) where
  top_scores-Settles :
      (response : LmScores D) (w : W)
      → AreScores d zero_d sort response ⊎ E
      → Settles E (Usable d zero_d E) (top_scores sort stub u response w)
  unfolding top_scores
  top_scores-Settles response w (inl good) =
      rw (good.hyps_lem, lift) (inl (good.normalization_lem, good.nonempty))
  top_scores-Settles response w (inr e) =
      Settles-bind E (λ h v. Unit) (Usable d zero_d E)
        (lift (get_top_hypotheses sort response minus_one))
        (λ hyps. pure (response.normalization, hyps)) w
        (lifted (get_top_hypotheses sort response minus_one)) (λ h v p. inr e)
    where
      lifted : {A : Type 0} (o : StatusOr A) → Settles E (λ h v. Unit) (lift o w)
      lifted (value a) = tt
      lifted (status c) = e

  -- What follows a response with scores.
  scores-Settles :
      (rpc : Option (Finished (LmScores D))) (f : Finished (LmScores D)) (w : W)
      → rpc ≡ some f
      → (IsAnswered f × AreScores d zero_d sort f.response) ⊎ E
      → Settles E (Usable d zero_d E) (◌>>=◌ (response_of rpc) (top_scores sort stub u) w)
  scores-Settles rpc f w e answered =
      subst (λ o. Settles E (Usable d zero_d E) (◌>>=◌ (response_of o) (top_scores sort stub u) w))
        (sym e)
        (Settles-bind E (λ r v. AreScores d zero_d sort r ⊎ E) (Usable d zero_d E)
          (response_of (some f)) (top_scores sort stub u) w
          (response_of-Settles E (AreScores d zero_d sort) f w answered) top_scores-Settles)

  module _ (serves : Serves d zero_d sort E stub) where
    pub get_lm_score-Settles :
        (c : Bytes) (s : ℤ) (t : D) (w : W)
        → Settles E (Usable d zero_d E) (get_lm_score sort stub u c s t w)
    unfolding get_lm_score
    get_lm_score-Settles c s t w =
        let r : GetContextRequest = record { context = c; state = s } in
        let (f, e, answered) = serves.get_lm_scores_lem t r w in
        scores-Settles (stub.async_get_lm_scores t r w).0 f (stub.async_get_lm_scores t r w).1 e
          answered

    pub get_next_state-Settles :
        (c : Bytes) (s : ℤ) (t : D) (w : W)
        → Settles E (λ n v. Unit) (get_next_state sort stub u c s t w)
    unfolding get_next_state checked_response_of
    get_next_state-Settles c s t w =
        let r : GetContextRequest = record { context = c; state = s } in
        let (f, e, answered) = serves.get_next_state_lem t r w in
        let v = (stub.async_get_next_state t r w).1 in
        subst (λ o. Settles E (λ n v. Unit) (checked_response_of o v)) (sym e)
          (weakened f v (response_of-Settles E (λ n. Unit) f v (with_unit f answered)))
      where
        with_unit : (f : Finished ℤ) → IsAnswered f ⊎ E → (IsAnswered f × Unit {0}) ⊎ E
        with_unit f (inl a) = inl (a, tt)
        with_unit f (inr e) = inr e

        weakened :
            (f : Finished ℤ) (v : W)
            → Settles E (λ r v. Unit {0} ⊎ E) (response_of (some f) v)
            → Settles E (λ n v. Unit) (checked_response_of (some f) v)
        weakened f v =
            Settles-weaken E (λ r v. Unit {0} ⊎ E) (λ n v. Unit) (λ n v p. tt)
              (response_of (some f) v)

    pub update_count_get_dest_state_score-Settles :
        IsUtf8 u
        → (c : Bytes) (s : ℤ) (t : D) (count : ℤ) (w : W)
        → Settles E
            (λ r v. Usable d zero_d E r.1 v)
            (update_count_get_dest_state_score sort stub u c s t count w)
    unfolding update_count_get_dest_state_score update_count
    update_count_get_dest_state_score-Settles law c s t count w =
        let (syms, split) = str_split_by_char_to_unicode_total u law c in
        let r : UpdateLmScoresRequest = record { state = s; utf8_sym = syms; count = count } in
        let (f, e, answered) = serves.update_lm_scores_lem t r w in
        rw split (
          Settles-bind E (Usable d zero_d E) (λ r v. Usable d zero_d E r.1 v)
            (update_count sort stub u syms s t count) _ w
            (scores-Settles (stub.async_update_lm_scores t r w).0 f
              (stub.async_update_lm_scores t r w).1 e answered)
            (λ scores v p.
              Settles-bind E (λ n v. Unit) (λ r v. Usable d zero_d E r.1 v)
                (get_next_state sort stub u c s t) _ v (get_next_state-Settles c s t v)
                (λ n v q. p)))
