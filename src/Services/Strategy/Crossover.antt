-- ===== src/Services/Strategy/Crossover.antt =====
-- The crossover against its description: the means of the last bars, compared.
use day_trade_intellegence.Core.Action.{Result, err, ok}
use day_trade_intellegence.Core.Action.Ends.{Outcome}
use day_trade_intellegence.Core.Errors.{Error, class_name}
use day_trade_intellegence.Core.Float.{min, Float, IsOrdered, min, nought, one}
use day_trade_intellegence.Domain.Json.{Metadata}
use day_trade_intellegence.Domain.Trading.{MarketBar, SignalAction, StrategyDecision}
use day_trade_intellegence.Prelude.{
  Bool, Bool-cases, List, String, arith, false, if◌then◌else◌, inl, inr, leb, length, length-drop,
  ltb, refl, true, ℕ, ◌&&◌, ◌-◌, ◌<◌, ◌==◌, ◌↔◌, ◌∙◌, ◌≡◌, ◌≤◌, ◌⊎◌,
}
use day_trade_intellegence.Services.Strategy.{
  average, averages, choose_action, closes, decide, evaluate_moving_average_crossover,
  gap_confidence, last_n, make_decision, wrap_strategy_error,
}

-- `xs[-n:]` is the last `n` elements of a list that has so many.
pub length-last_n {ℓ} :
    {A : Type ℓ} (n : ℕ) (xs : List A) → 0 < n → n ≤ length xs → length (last_n n xs) ≡ n
unfolding last_n
length-last_n n xs h k = ground (arith, length-drop (length xs - n) xs)

-- The exceptions of the engine: its own, and pydantic's for a confidence out of range.
abbrev pub IsEngineError : Error → Type 0
IsEngineError e = ((m : String) × (e ≡ Error.strategy_error m)) ⊎ (class_name e ≡ "ValidationError")

ok_if :
    {A : Type 0} (b : Bool) (x : A) (e : Error)
    → b ≡ true
    → (a : A) × ((if b then ok x else err e) ≡ ok a)
ok_if b x e h = (x, rw h)

module _ {F : Type 0} ⦃fl : Float F⦄ where
  -- The mean of the last `n` closes.
  abbrev pub mean : ℕ → List (MarketBar F) → F
  mean n bars = fl.div (fl.sum (last_n n (closes bars))) (fl.of_int n)

  -- What a decision says of the bars: enough of them were there, and the action is to buy exactly
  -- when the short mean lies above the long one, and to sell exactly when it lies below.
  pub record IsCrossover (bars : List (MarketBar F)) (short_window long_window : ℕ)
      (d : StrategyDecision F) : Type 0 where
    pub shorter : short_window < long_window
    pub enough : long_window ≤ length bars
    pub bought :
        (d.action ≡ SignalAction.buy)
        ↔ (fl.lt (mean long_window bars) (mean short_window bars) ≡ true)
    pub sold :
        (d.action ≡ SignalAction.sell)
        ↔ (fl.lt (mean short_window bars) (mean long_window bars) ≡ true)
    pub confident : (fl.le nought d.confidence ≡ true) × (fl.le d.confidence one ≡ true)

  -- `make_decision` accepts exactly the confidences from 0 to 1.
  make_decision_sound :
      (action : SignalAction) (c : F) (reason : String) (metadata : Metadata F)
      → Outcome
          (λ (d : StrategyDecision F).
            (d.action ≡ action)
            × (fl.le nought d.confidence ≡ true)
            × (fl.le d.confidence one ≡ true))
          IsEngineError
          (make_decision action c reason metadata)
  unfolding make_decision class_name
  make_decision_sound action c reason metadata = elim (Bool-cases (fl.le nought c)) [
    | inr low ↦ rw low (inr refl)
    | inl e ↦ elim (Bool-cases (fl.le c one)) [
      | inr high ↦ rw (e, high) (inr refl)
      | inl f ↦ rw (e, f) (refl, e, f)
    ]
  ]

  abbrev Directed : F → F → SignalAction → Type 0
  Directed s l action =
      ((action ≡ SignalAction.buy) ↔ (fl.lt l s ≡ true))
      × ((action ≡ SignalAction.sell) ↔ (fl.lt s l ≡ true))

  module _ (laws : IsOrdered fl) where
    choose_action-Directed : (s l : F) → Directed s l (choose_action s l)
    unfolding choose_action
    choose_action-Directed s l =
        ((ground arith, ground arith), (ground arith, ground (arith, laws.lt_asymm s l)))

    abbrev Sound : F → F → StrategyDecision F → Type 0
    Sound s l d =
        Directed s l d.action
        × ((fl.le nought d.confidence ≡ true) × (fl.le d.confidence one ≡ true))

    directed :
        (s l : F) (r : Result (StrategyDecision F))
        → Outcome
            (λ d.
              (d.action ≡ choose_action s l)
              × (fl.le nought d.confidence ≡ true)
              × (fl.le d.confidence one ≡ true))
            IsEngineError
            r
        → Outcome (Sound s l) IsEngineError r
    directed s l (ok d) o = (rw o.0 (choose_action-Directed s l), (o.1, o.2))
    directed s l (err e) o = o

    decide_ends : (s l : F) → Outcome (Sound s l) IsEngineError (decide s l)
    unfolding decide
    decide_ends s l = directed s l _ (make_decision_sound _ _ _ _)

    crossover :
        (bars : List (MarketBar F)) (short_window long_window : ℕ) (r : Result (StrategyDecision F))
        → short_window < long_window
        → long_window ≤ length bars
        → Outcome (Sound (mean short_window bars) (mean long_window bars)) IsEngineError r
        → Outcome (IsCrossover bars short_window long_window) IsEngineError r
    crossover bars short_window long_window (ok d) p q o = record {
      shorter = p;
      enough = q;
      bought = o.0.0;
      sold = o.0.1;
      confident = o.1;
    }
    crossover bars short_window long_window (err e) p q o = o

    -- Windows that fit the bars lead to the decision on the two means.
    pub evaluate_fits :
        (symbol : String) (bars : List (MarketBar F)) (short_window long_window : ℕ)
        → 0 < short_window
        → short_window < long_window
        → long_window ≤ length bars
        → evaluate_moving_average_crossover symbol bars short_window long_window
          ≡ decide (mean short_window bars) (mean long_window bars)
    unfolding evaluate_moving_average_crossover averages average wrap_strategy_error
    evaluate_fits symbol bars short_window long_window p q r =
        let a : leb long_window short_window ≡ false = ground arith in
        let b : ltb (length bars) long_window ≡ false = ground arith in
        let c : (short_window == 0) ≡ false = ground arith in
        let d : (long_window == 0) ≡ false = ground arith in rw (a, b, c, d)

    -- The engine returns a decision, where enough bars were there, that is to buy exactly when the short
    -- mean lies above the long one and to sell exactly when it lies below, with a confidence from 0 to
    -- 1; or it raises a `StrategyError` or pydantic's refusal of a confidence, and nothing else.
    pub evaluate_sound :
        (symbol : String) (bars : List (MarketBar F)) (short_window long_window : ℕ)
        → Outcome
            (IsCrossover bars short_window long_window)
            IsEngineError
            (evaluate_moving_average_crossover symbol bars short_window long_window)
    unfolding evaluate_moving_average_crossover class_name averages average wrap_strategy_error
    evaluate_sound symbol bars short_window long_window =
        elim (Bool-cases (leb long_window short_window)) [
          | inl e ↦ rw e (inl (_, refl))
          | inr e ↦ elim (Bool-cases (ltb (length bars) long_window)) [
            | inl f ↦ rw (e, f) (inl (_, refl))
            | inr f ↦ elim (Bool-cases (short_window == 0)) [
              | inl g ↦ rw (e, f, g) (inl (_, refl))
              | inr g ↦
                  let h : (long_window == 0) ≡ false = ground arith in
                  rw (e, f, g, h)
                    (crossover bars short_window long_window _ (ground arith) (ground arith)
                      (decide_ends (mean short_window bars) (mean long_window bars)))
            ]
          ]
        ]

    confidence_in_range :
        (s l : F)
        → fl.lt nought l ≡ true
        → fl.is_finite (fl.sub s l) ≡ true
        → (fl.le nought (gap_confidence s l) ≡ true) × (fl.le (gap_confidence s l) one ≡ true)
    unfolding gap_confidence
    confidence_in_range s l h k =
        let positive =
          laws.div_nonneg (fl.abs (fl.sub s l)) l (laws.abs-is_finite _ k) (laws.abs_nonneg _ k)
            h in
        rw (laws.lt-eq _ _ h) (elim (Bool-cases (fl.lt one (fl.div (fl.abs (fl.sub s l)) l))) [
          | inl e ↦ rw (e, min) (laws.le-zero_one, laws.le_refl_one)
          | inr e ↦ rw (e, min) (positive, laws.le_one _ positive e)
        ])

    decide_total :
        (s l : F)
        → fl.lt nought l ≡ true
        → fl.is_finite (fl.sub s l) ≡ true
        → (d : StrategyDecision F) × (decide s l ≡ ok d)
    unfolding decide make_decision
    decide_total s l h k =
        let (low, high) = confidence_in_range s l h k in
        let c = gap_confidence s l in ok_if (fl.le nought c && fl.le c one) _ _ (rw (low, high))

    -- With windows that fit the bars, a positive long mean and a finite gap between the means, the
    -- crossover always returns a decision, and it is that of the means.
    pub evaluate_total :
        (symbol : String) (bars : List (MarketBar F)) (short_window long_window : ℕ)
        → 0 < short_window
        → short_window < long_window
        → long_window ≤ length bars
        → fl.lt nought (mean long_window bars) ≡ true
        → fl.is_finite (fl.sub (mean short_window bars) (mean long_window bars)) ≡ true
        → (d : StrategyDecision F) × (evaluate_moving_average_crossover symbol bars short_window
              long_window
            ≡ ok d)
          × IsCrossover bars short_window long_window d
    evaluate_total symbol bars short_window long_window p q r t g =
        let (d, e) = decide_total _ _ t g in
        let found = evaluate_fits symbol bars short_window long_window p q r ∙ e in
        (d, found, rw found at (evaluate_sound symbol bars short_window long_window))
