-- ===== src/Client/Helper/Generating.antt =====
-- The text that `RandGen` of mozolm/grpc/client_helper.cc returns.
use mathlib.Core.List.{flatten, append-nil}
use mozolm.Base.{
  ◌∙◌, ℕ, ◌+◌, ◌≤◌, ◌≡◌, inl, inr, refl, sym, ap, Bool, true, false, not, ◌&&◌, List, [], ◌++◌,
  arith, length, leb, if◌then◌else◌,
}
use mozolm.Base.Int.{ℤ, minus_one}
use mozolm.Base.Program.{Settles, Settles-bind, Settles-call, Settles-if, fail, internal, ok}
use mozolm.Double.{Double}
use mozolm.Utf8.{Bytes, Utf8Library, IsUtf8}
use mozolm.Client.{Scored}
use mozolm.Client.Requests.{Usable}
use mozolm.Client.Helper.{
  Outside, ClientHelper, Generation, as_int, get_lm_scores, helper_next_state, generate_loop,
  generated, rand_gen,
}
use mozolm.Client.Helper.Answers.{IsReady, get_lm_scores-Settles, helper_next_state-Settles}
use mozolm.Client.Helper.Rounds.{Generates, Ends, generate_loop-Ends}

module _ {D W : Type 0} (d : Double D) (zero_d : D) (out : Outside D W)
    (sort : List (D × Bytes) → List (D × Bytes)) (u : Utf8Library) (law : IsUtf8 u) (E : Type 0)
    (h : ClientHelper D W) (ready : IsReady d zero_d sort E h) where
  -- What `RandGen` does: the state after the context, the scores for it, and then the rounds, 128 at most
  -- that add a symbol. The text is the context with the symbols, and the note about the limit exactly where
  -- the rounds have ended at it.
  pub record IsRandom (context : Bytes) (w : W) (text : Bytes) (v : W) : Type 0 where
    pub state : ℤ
    pub first : Scored D
    pub after_state : W
    pub after_scores : W
    pub state_lem :
        helper_next_state d zero_d out sort u h context minus_one w ≡ ok state after_state
    pub first_lem :
        get_lm_scores d zero_d out sort u h [] (as_int state) after_state ≡ ok first after_scores
    pub symbols : List Bytes
    pub full : Bool
    pub generates :
        Generates d zero_d out sort u h
          (128 + length context)
          context
          state
          first.1
          after_scores
          symbols
          full
          v
    pub count_lem : length symbols ≤ 128
    pub text_lem :
        text ≡ (context ++ flatten symbols) ++ (if full then out.reached_length_limit else [])

  abbrev started : Bytes → ℤ → Scored D → Generation D
  started context state first = record {
    result = context;
    state = state;
    chosen = [];
    hyps = first.1;
    success = true;
  }

  -- The end of `RandGen`, after the loop.
  generated-IsRandom :
      (context : Bytes) (w : W) (state : ℤ) (first : Scored D) (w1 w2 : W)
      → helper_next_state d zero_d out sort u h context minus_one w ≡ ok state w1
      → get_lm_scores d zero_d out sort u h [] (as_int state) w1 ≡ ok first w2
      → (g : Generation D) (v : W)
      → Ends d zero_d out sort u law E h ready
          (128 + length context)
          (started context state first)
          w2
          g
          v
      → Settles E (IsRandom context w) (generated d zero_d out sort u h (128 + length context) g v)
  unfolding generated
  generated-IsRandom context w state first w1 w2 called scored g v (inr (bad, reason)) =
      rw (bad, Settles) reason
  generated-IsRandom context w state first w1 w2 called scored g v (inl made) =
      let count = made.count_lem in
      Settles-if E (IsRandom context w) (not g.success) (fail internal) _ v
        (λ bad. let good = made.good in absurd (ground arith))
        (λ ok_. record {
          state = state;
          first = first;
          after_state = w1;
          after_scores = w2;
          state_lem = called;
          first_lem = scored;
          symbols = made.symbols;
          full = made.full;
          generates = made.generates;
          count_lem = omega arith;
          text_lem =
              noted g.success made.full (leb (128 + length context) (length g.result)) made.good
                made.full_lem
              ∙ ap (λ t. t ++ (if made.full then out.reached_length_limit else [])) made.text_lem;
        })
    where
      noted :
          (success full long : Bool)
          → success ≡ true
          → long ≡ full
          → (if success && long then g.result ++ out.reached_length_limit else g.result)
            ≡ g.result ++ (if full then out.reached_length_limit else [])
      noted true true true e same = refl
      noted true false false e same = sym (append-nil g.result)
      noted true true false e same = absurd (cc)
      noted true false true e same = absurd (cc)
      noted false full long e same = absurd (cc)

  -- RandGen with fuel for 128 rounds, of a client that is connected: it ends without a fault. It asks for
  -- the state after the context and for its scores. Each round draws a random position and appends the
  -- symbol there, which the server is told of; its answer is the state with the hypotheses for the next
  -- round. The rounds end at the end of the text, or where 128 bytes have been added, which the note
  -- behind the text says. It fails only for the reason `E` that calls fail for: where every call is
  -- answered it does not. The UTF-8 library keeps its law.
  pub rand_gen-Settles :
      (fuel : ℕ) (context : Bytes) (w : W)
      → 128 ≤ fuel
      → Settles E (IsRandom context w) (rand_gen d zero_d out sort u h fuel context w)
  unfolding rand_gen
  rand_gen-Settles fuel context w enough =
      Settles-call E (λ n v. Unit) (IsRandom context w)
        (helper_next_state d zero_d out sort u h context minus_one) _ w
        (helper_next_state-Settles d zero_d out sort u E h ready context minus_one w)
        (λ state w1 called p.
          Settles-call E (Usable d zero_d E) (IsRandom context w)
            (get_lm_scores d zero_d out sort u h [] (as_int state)) _ w1
            (get_lm_scores-Settles d zero_d out sort u E h ready [] (as_int state) w1)
            (λ first w2 scored usable.
              Settles-bind E
                (Ends d zero_d out sort u law E h ready (128 + length context)
                  (started context state first) w2)
                (IsRandom context w)
                (generate_loop d zero_d out sort u h fuel (128 + length context)
                  (started context state first))
                (generated d zero_d out sort u h (128 + length context)) w2
                (generate_loop-Ends d zero_d out sort u law E h ready (128 + length context) fuel
                  (started context state first) w2 refl
                  (elim usable [ inl scores ↦ inl scores.1 | inr e ↦ inr e ]) (omega arith)
                  (omega arith))
                (generated-IsRandom context w state first w1 w2 called scored)))
