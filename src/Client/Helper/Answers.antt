-- ===== src/Client/Helper/Answers.antt =====
-- How the requests of `ClientHelper` in mozolm/grpc/client_helper.cc end.
use mozolm.Base.{◌≡◌, inl, inr, some, List}
use mozolm.Base.Int.{ℤ}
use mozolm.Base.Program.{
  Program, Outcome, ok, err, fault, Settles, Settles-bind, Settles-if, pure, fail, internal,
}
use mozolm.Double.{Double}
use mozolm.Utf8.{Bytes, Utf8Library, IsUtf8}
use mozolm.Client.{Stub, Scored, get_next_state, get_lm_score}
use mozolm.Client.Requests.{
  Serves, Usable, get_lm_score-Settles, get_next_state-Settles,
  update_count_get_dest_state_score-Settles,
}
use mozolm.Client.Helper.{
  Outside, ClientHelper, checked_scores, get_lm_scores, helper_next_state, or_internal,
  update_scores,
}

-- The client is there, and the server serves.
pub record IsReady {D W : Type 0} (d : Double D) (zero_d : D)
    (sort : List (D × Bytes) → List (D × Bytes)) (E : Type 0) (h : ClientHelper D W) : Type 0 where
  pub stub : Stub D W
  pub stub_lem : h.completion_client ≡ some stub
  pub serves : Serves d zero_d sort E stub

module _ {D W : Type 0} (d : Double D) (zero_d : D) (out : Outside D W)
    (sort : List (D × Bytes) → List (D × Bytes)) (u : Utf8Library) (E : Type 0)
    (h : ClientHelper D W) (ready : IsReady d zero_d sort E h) where
  pub get_lm_scores-Settles :
      (c : Bytes) (s : ℤ) (w : W)
      → Settles E (Usable d zero_d E) (get_lm_scores d zero_d out sort u h c s w)
  unfolding get_lm_scores checked_scores
  get_lm_scores-Settles c s w = rw ready.stub_lem (
      Settles-bind E (Usable d zero_d E) (Usable d zero_d E)
        (get_lm_score sort ready.stub u c s h.timeout_sec) (checked_scores d zero_d out sort u h) w
        (get_lm_score-Settles d zero_d sort E ready.stub u ready.serves c s h.timeout_sec w)
        checked)
    where
      checked :
          (scores : Scored D) (v : W)
          → Usable d zero_d E scores v
          → Settles E (Usable d zero_d E) (checked_scores d zero_d out sort u h scores v)
      checked scores v (inl (positive, nonempty)) = rw positive (inl (positive, nonempty))
      checked scores v (inr e) =
          Settles-if E (Usable d zero_d E) (d.le scores.0 zero_d) (fail internal) (pure scores) v
            (λ b. e) (λ b. inr e)

  pub helper_next_state-Settles :
      (c : Bytes) (s : ℤ) (w : W)
      → Settles E (λ n v. Unit) (helper_next_state d zero_d out sort u h c s w)
  unfolding helper_next_state
  helper_next_state-Settles c s w = rw ready.stub_lem (
      relabelled (get_next_state sort ready.stub u c s h.timeout_sec) w
        (get_next_state-Settles d zero_d sort E ready.stub u ready.serves c s h.timeout_sec w))
    where
      by_outcome :
          (o : Outcome W ℤ)
          → Settles E (λ n v. Unit) o
          → Settles E
              (λ n v. Unit)
              (elim o [ ok a v ↦ ok a v | err c v ↦ err internal v | fault ↦ fault ])
      by_outcome (ok a v) p = p
      by_outcome (err c v) e = e
      by_outcome fault p = p

      relabelled :
          (m : Program W ℤ) (w : W)
          → Settles E (λ n v. Unit) (m w)
          → Settles E (λ n v. Unit) (or_internal m w)
      relabelled m w p = by_outcome (m w) p

  pub update_scores-Settles :
      IsUtf8 u
      → (c : Bytes) (s count : ℤ) (w : W)
      → Settles E (λ r v. Usable d zero_d E r.1 v) (update_scores d zero_d out sort u h c s count w)
  unfolding update_scores
  update_scores-Settles law c s count w = rw ready.stub_lem (
      update_count_get_dest_state_score-Settles d zero_d sort E ready.stub u ready.serves law c s
        h.timeout_sec count w)
