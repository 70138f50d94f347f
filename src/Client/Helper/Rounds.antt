-- ===== src/Client/Helper/Rounds.antt =====
-- The rounds of `RandGen` in mozolm/grpc/client_helper.cc.
use mathlib.Core.List.{flatten, append_assoc, append-nil}
use mozolm.Base.{
  ℕ, zero, suc, ◌+◌, ◌<◌, ◌≤◌, ◌≡◌, ◌⊎◌, inl, inr, refl, sym, ap, ◌∙◌, Bool, true, false, leb,
  Option, none, some, List, [], ◌∷◌, ◌++◌, arith, length, length-append, get_elem?, if◌then◌else◌,
}
use mozolm.Base.Int.{ℤ, pos}
use mozolm.Base.Program.{
  Program, Settles, Settles-bind, Settles-if, Settles-weaken, Outcome, ok, err, fault, pure, ◌>>=◌,
}
use mozolm.Double.{Double}
use mozolm.Utf8.{Bytes, Utf8Library, IsUtf8}
use mozolm.Client.{Scored}
use mozolm.Client.Requests.{Usable}
use mozolm.Client.Helper.{
  Outside, ClientHelper, Generation, as_int, position_of, get_random_position,
  get_uniform_threshold, update_scores, attempted, after_update, choose, generate, goes_on,
  generate_loop,
}
use mozolm.Client.Helper.Answers.{IsReady, update_scores-Settles}
use mozolm.Client.Helper.Positions.{position_of-StopsAt}

get_elem?-some {ℓ} :
    {A : Type ℓ} (xs : List A) (i : ℕ) → i < length xs → (x : A) × (get_elem? xs i ≡ some x)
get_elem?-some [] i less = absurd (omega arith)
get_elem?-some (x ∷ xs) zero less = (x, refl)
get_elem?-some (x ∷ xs) (suc i) less = get_elem?-some xs i (omega arith)

-- What the rounds of `RandGen` choose, from a text, a state and the hypotheses that the server gave for it.
module _ {D W : Type 0} (d : Double D) (zero_d : D) (out : Outside D W)
    (sort : List (D × Bytes) → List (D × Bytes)) (u : Utf8Library) (h : ClientHelper D W)
    (max_length : ℕ) where
  -- The symbols at the random positions, one for each round but one that chooses the end of the text; each
  -- is sent to the server, whose answer is the state with the hypotheses for the next round. The flag
  -- says that the text has reached its limit, where the rounds end as well.
  pub data Generates : Bytes → ℤ → List (D × Bytes) → W → List Bytes → Bool → W → Type 0 where
    text_ended :
        {text : Bytes} {state : ℤ} {hyps : List (D × Bytes)} {w v : W} {p : ℕ} {x : D}
        → get_random_position d zero_d out hyps w ≡ ok p v
        → get_elem? hyps p ≡ some (x, [])
        → Generates text state hyps w [] false v
    limit_reached :
        {text : Bytes} {state : ℤ} {hyps : List (D × Bytes)} {w v v' : W} {p : ℕ} {x : D} {b : ℕ}
        {s : Bytes} {r : ℤ × Scored D}
        → get_random_position d zero_d out hyps w ≡ ok p v
        → get_elem? hyps p ≡ some (x, b ∷ s)
        → update_scores d zero_d out sort u h (b ∷ s) (as_int state) (pos 1) v ≡ ok r v'
        → max_length ≤ length (text ++ b ∷ s)
        → Generates text state hyps w ((b ∷ s) ∷ []) true v'
    continued :
        {text : Bytes} {state : ℤ} {hyps : List (D × Bytes)} {w v v' v'' : W} {p : ℕ} {x : D}
        {b : ℕ} {s : Bytes} {r : ℤ × Scored D} {symbols : List Bytes} {full : Bool}
        → get_random_position d zero_d out hyps w ≡ ok p v
        → get_elem? hyps p ≡ some (x, b ∷ s)
        → update_scores d zero_d out sort u h (b ∷ s) (as_int state) (pos 1) v ≡ ok r v'
        → length (text ++ b ∷ s) < max_length
        → Generates (text ++ b ∷ s) r.0 r.1.1 v' symbols full v''
        → Generates text state hyps w ((b ∷ s) ∷ symbols) full v''

module _ {D W : Type 0} (d : Double D) (zero_d : D) (out : Outside D W)
    (sort : List (D × Bytes) → List (D × Bytes)) (u : Utf8Library) (law : IsUtf8 u) (E : Type 0)
    (h : ClientHelper D W) (ready : IsReady d zero_d sort E h) where
  -- The hypotheses at the start of a round.
  abbrev pub CanChoose : List (D × Bytes) → Type 0
  CanChoose hyps = (0 < length hyps) ⊎ E

  -- The state of the loop after a symbol that was counted.
  abbrev counted_symbol : Generation D → Bytes → ℤ × Scored D → Generation D
  counted_symbol g s r = record {
    result = g.result ++ s;
    state = r.0;
    chosen = s;
    hyps = r.1.1;
    success = true;
  }

  -- What a round does.
  data IsRound (g : Generation D) (w : W) : Generation D → W → Type 0 where
    chose_end :
        {p : ℕ} {x : D} {v : W}
        → get_random_position d zero_d out g.hyps w ≡ ok p v
        → get_elem? g.hyps p ≡ some (x, [])
        → IsRound g w (record g { chosen = [] }) v
    chose :
        {p : ℕ} {x : D} {b : ℕ} {s : Bytes} {v v' : W} {r : ℤ × Scored D}
        → get_random_position d zero_d out g.hyps w ≡ ok p v
        → get_elem? g.hyps p ≡ some (x, b ∷ s)
        → update_scores d zero_d out sort u h (b ∷ s) (as_int g.state) (pos 1) v ≡ ok r v'
        → CanChoose r.1.1
        → IsRound g w (counted_symbol g (b ∷ s) r) v'
    failed : {next : Generation D} {v : W} → next.success ≡ false → E → IsRound g w next v

  choose-IsRound :
      (g : Generation D) (w : W) (p : ℕ) (o : Option (D × Bytes)) (v : W)
      → get_random_position d zero_d out g.hyps w ≡ ok p v
      → get_elem? g.hyps p ≡ o
      → ((x : D × Bytes) × (o ≡ some x)) ⊎ E
      → Settles E (IsRound g w) (choose d zero_d out sort u h g o v)
  unfolding choose after_update
  choose-IsRound g w p none v drawn at_p (inl (x, e)) = absurd (cc)
  choose-IsRound g w p none v drawn at_p (inr e) = e
  choose-IsRound g w p (some (x, [])) v drawn at_p has = chose_end drawn at_p
  choose-IsRound g w p (some (x, b ∷ s)) v drawn at_p has =
      by_outcome (update_scores d zero_d out sort u h (b ∷ s) (as_int g.state) (pos 1) v) refl
        (update_scores-Settles d zero_d out sort u E h ready law (b ∷ s) (as_int g.state) (pos 1) v)
    where
      by_outcome :
          (o : Outcome W (ℤ × Scored D))
          → update_scores d zero_d out sort u h (b ∷ s) (as_int g.state) (pos 1) v ≡ o
          → Settles E (λ r t. Usable d zero_d E r.1 t) o
          → Settles E (IsRound g w) (choose d zero_d out sort u h g (some (x, b ∷ s)) v)
      by_outcome (ok r v') e (inl usable) =
          rw (e, attempted, ◌>>=◌) (chose drawn at_p e (inl usable.1))
      by_outcome (ok r v') e (inr reason) =
          rw (e, attempted, ◌>>=◌) (chose drawn at_p e (inr reason))
      by_outcome (err k v') e reason = rw (e, attempted, ◌>>=◌) (failed refl reason)
      by_outcome fault e never = absurd never

  generate-IsRound :
      (g : Generation D) (w : W)
      → g.success ≡ true
      → CanChoose g.hyps
      → Settles E (IsRound g w) (generate d zero_d out sort u h g w)
  unfolding generate get_random_position get_uniform_threshold
  generate-IsRound g w good can =
      let thresh = d.div (d.of_ℕ (out.uniform 0 100000 w).0) (d.of_ℕ 100000) in
      let p = position_of d zero_d thresh g.hyps in
      Settles-if E (IsRound g w) g.success _ _ w
        (λ still.
          choose-IsRound g w p (get_elem? g.hyps p) (out.uniform 0 100000 w).1 refl refl
            (found p thresh refl can))
        (λ bad. absurd (cc))
    where
      found :
          (p : ℕ) (thresh : D)
          → p ≡ position_of d zero_d thresh g.hyps
          → (0 < length g.hyps) ⊎ E
          → ((x : D × Bytes) × (get_elem? g.hyps p ≡ some x)) ⊎ E
      found p thresh e (inr r) = inr r
      found p thresh e (inl nonempty) =
          let (less, _, _, _) = position_of-StopsAt d zero_d thresh g.hyps nonempty in
          inl (get_elem?-some g.hyps p (omega (arith, less, e)))

  module _ (max_length : ℕ) where
    -- The loop has ended well, from a state of the loop to another.
    pub record IsGenerated (g : Generation D) (w : W) (last : Generation D) (v : W) : Type 0 where
      pub symbols : List Bytes
      pub full : Bool
      pub generates :
          Generates d zero_d out sort u h max_length g.result g.state g.hyps w symbols full v
      pub text_lem : last.result ≡ g.result ++ flatten symbols
      pub count_lem : length symbols + length g.result ≤ max_length
      pub good : last.success ≡ true
      pub full_lem : leb max_length (length last.result) ≡ full

    abbrev pub Ends : Generation D → W → Generation D → W → Type 0
    Ends g w last v = IsGenerated g w last v ⊎ ((last.success ≡ false) × E)

    goes_on_inv :
        (g : Generation D)
        → goes_on d zero_d out sort u h max_length g ≡ true
        → (g.success ≡ true) × (0 < length g.chosen) × (length g.result < max_length)
    unfolding goes_on
    goes_on_inv g on = (ground arith, ground arith, ground arith)

    stopped_inv :
        (g : Generation D) (b : ℕ) (s : Bytes) (r : ℤ × Scored D)
        → goes_on d zero_d out sort u h max_length (counted_symbol g (b ∷ s) r) ≡ false
        → leb max_length (length (g.result ++ b ∷ s)) ≡ true
    unfolding goes_on
    stopped_inv g b s r off = ground arith

    one_symbol :
        (g : Generation D) (b : ℕ) (s : Bytes)
        → g.result ++ b ∷ s ≡ g.result ++ flatten ((b ∷ s) ∷ [])
    unfolding flatten
    one_symbol g b s = ap (λ t. g.result ++ t) (sym (append-nil (b ∷ s)))

    more_symbols :
        (g : Generation D) (b : ℕ) (s : Bytes) (symbols : List Bytes)
        → (g.result ++ b ∷ s) ++ flatten symbols ≡ g.result ++ flatten ((b ∷ s) ∷ symbols)
    unfolding flatten
    more_symbols g b s symbols = append_assoc g.result (b ∷ s) (flatten symbols)

    -- What follows a round.
    goes_on-Ends :
        (loop : Generation D → Program W (Generation D)) (g : Generation D) (w : W)
        (next : Generation D) (v : W)
        → IsRound g w next v
        → g.success ≡ true
        → length g.result < max_length
        → ((b : ℕ) (s : Bytes) (r : ℤ × Scored D)
            → CanChoose r.1.1
            → length (g.result ++ b ∷ s) < max_length
            → (last : W)
            → Settles E
                (Ends (counted_symbol g (b ∷ s) r) last)
                (loop (counted_symbol g (b ∷ s) r) last))
        → Settles E
            (Ends g w)
            ((if goes_on d zero_d out sort u h max_length next then loop next else pure next) v)
    unfolding flatten
    goes_on-Ends loop g w next v (chose_end drawn at_p) good short rest =
        Settles-if E (Ends g w) (goes_on d zero_d out sort u h max_length next) (loop next)
          (pure next) v (λ on. let (_, nonempty, _) = goes_on_inv next on in absurd (omega arith))
          (λ off. inl (record {
            symbols = [];
            full = false;
            generates = text_ended drawn at_p;
            text_lem = sym (append-nil g.result);
            count_lem = omega arith;
            good = good;
            full_lem = ground arith;
          }))
    goes_on-Ends loop g w next v (chose {b} {s} {r} drawn at_p called can) good short rest =
        let longer = length-append g.result (b ∷ s) in
        Settles-if E (Ends g w) (goes_on d zero_d out sort u h max_length next) (loop next)
          (pure next) v
          (λ on.
            let (_, _, below) = goes_on_inv next on in
            Settles-weaken E (Ends next v) (Ends g w)
              (λ last v' ended. elim ended [
                | inr bad ↦ inr bad
                | inl made ↦
                    let c = made.count_lem in
                    inl (record {
                      symbols = (b ∷ s) ∷ made.symbols;
                      full = made.full;
                      generates = continued drawn at_p called below made.generates;
                      text_lem = made.text_lem ∙ more_symbols g b s made.symbols;
                      count_lem = omega arith;
                      good = made.good;
                      full_lem = made.full_lem;
                    })
              ])
              (loop next v) (rest b s r can below v))
          (λ off.
            let full = stopped_inv g b s r off in
            inl (record {
              symbols = (b ∷ s) ∷ [];
              full = true;
              generates = limit_reached drawn at_p called (ground arith);
              text_lem = one_symbol g b s;
              count_lem = omega arith;
              good = refl;
              full_lem = full;
            }))
    goes_on-Ends loop g w next v (failed bad reason) good short rest =
        Settles-if E (Ends g w) (goes_on d zero_d out sort u h max_length next) (loop next)
          (pure next) v (λ on. let (still, _, _) = goes_on_inv next on in absurd (cc))
          (λ off. inr (bad, reason))

    pub generate_loop-Ends :
        (fuel : ℕ) (g : Generation D) (w : W)
        → g.success ≡ true
        → CanChoose g.hyps
        → length g.result < max_length
        → max_length ≤ length g.result + fuel
        → Settles E (Ends g w) (generate_loop d zero_d out sort u h fuel max_length g w)
    unfolding generate_loop
    generate_loop-Ends zero g w good can short enough = absurd (omega arith)
    generate_loop-Ends (suc fuel) g w good can short enough =
        Settles-bind E (IsRound g w) (Ends g w) (generate d zero_d out sort u h g) _ w
          (generate-IsRound g w good can)
          (λ next v round.
            goes_on-Ends (generate_loop d zero_d out sort u h fuel max_length) g w next v round good
              short
              (λ b s r can' below last.
                generate_loop-Ends fuel (counted_symbol g (b ∷ s) r) last refl can' below
                  (omega (arith, length-append g.result (b ∷ s)))))
