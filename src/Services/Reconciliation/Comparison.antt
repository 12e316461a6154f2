-- ===== src/Services/Reconciliation/Comparison.antt =====
-- What the comparison of two books says: the symbols that it covers, when it finds that they match,
-- and a position that it never finds to match.
use day_trade_intellegence.Core.Float.{Float, IsOrdered, nought, one}
use day_trade_intellegence.Domain.Portfolio.{PortfolioSnapshot}
use day_trade_intellegence.Domain.Reconciliation.{PositionReconciliationItem, ReconciliationStatus}
use day_trade_intellegence.Domain.Trading.{PositionRead}
use day_trade_intellegence.Prelude.{
  All, Bool-cases, IsAmong, List, String, [], ap, arith, false, inl, inr, length, map, refl, some,
  true, ◌++◌, ◌==◌, ◌↔◌, ◌∷◌, ◌≡◌, ◌≢◌, ◌≤◌, ◌⊎◌,
}
use day_trade_intellegence.Repositories.Positions.{held}
use day_trade_intellegence.Services.Reconciliation.{
  all_symbols, compare_positions, compare_symbol, count_mismatched, position_for, summary,
  value_or_nought,
}
use day_trade_intellegence.Services.Reconciliation.Symbols.{
  IsIncreasing, sorted_set-IsAmong, sorted_set-IsIncreasing,
}

IsAmong-append :
    (x : String) (xs ys : List String) → IsAmong x (xs ++ ys) ↔ (IsAmong x xs ⊎ IsAmong x ys)
IsAmong-append x [] ys = (inr, λ h. elim h [ inl n ↦ absurd n | inr m ↦ m ])
IsAmong-append x (y ∷ xs) ys =
    let (into, out) = IsAmong-append x xs ys in
    (
      λ h. elim h [
        | inl p ↦ inl (inl p)
        | inr m ↦ elim (into m) [ inl n ↦ inl (inr n) | inr n ↦ inr n ]
      ],
      λ h. elim h [
        | inl n ↦ elim n [ inl p ↦ inl p | inr m ↦ inr (out (inl m)) ]
        | inr n ↦ inr (out (inr n))
      ],
    )

module _ {F : Type 0} ⦃fl : Float F⦄ (internal : List (PositionRead F))
    (snapshot : PortfolioSnapshot F) where
  abbrev pub covered : List String
  covered = map (λ item. item.symbol) (compare_positions internal snapshot)

  symbols_of_items :
      (symbols : List String)
      → map (λ item. item.symbol) (map (compare_symbol internal snapshot) symbols) ≡ symbols
  unfolding compare_symbol
  symbols_of_items [] = refl
  symbols_of_items (x ∷ symbols) = ap (◌∷◌ x) (symbols_of_items symbols)

  covered_lem : covered ≡ all_symbols internal snapshot
  unfolding compare_positions
  covered_lem = symbols_of_items _

  -- The comparison has one item for each symbol that the broker or the internal book has, no item
  -- for another symbol, and the symbols of the items increase.
  pub compare_positions_complete :
      IsIncreasing covered
      × ((symbol : String)
          → IsAmong symbol covered ↔ (
              IsAmong symbol (map (λ p. p.symbol) snapshot.positions)
              ⊎ IsAmong symbol (map (λ p. p.symbol) internal)))
  unfolding all_symbols
  compare_positions_complete = rw covered_lem (
    sorted_set-IsIncreasing
        (map (λ p. p.symbol) snapshot.positions ++ map (λ p. p.symbol) internal),
    λ symbol.
        let (into, out) =
          sorted_set-IsAmong symbol
            (map (λ p. p.symbol) snapshot.positions ++ map (λ p. p.symbol) internal) in
        let (split, join) =
          IsAmong-append symbol (map (λ p. p.symbol) snapshot.positions)
            (map (λ p. p.symbol) internal) in
        (λ h. split (into h), λ h. out (join h)),
  )

  -- The two books have the same finite quantity and the same finite price for a symbol.
  pub record IsAgreed (symbol : String) : Type 0 where
    pub quantity :
        value_or_nought (λ p. fl.of_int p.quantity) (position_for (λ p. p.symbol) symbol internal)
        ≡ value_or_nought (λ p. p.quantity) (position_for (λ p. p.symbol) symbol snapshot.positions)
    pub price :
        value_or_nought (λ p. p.average_price) (position_for (λ p. p.symbol) symbol internal)
        ≡ value_or_nought
            (λ p. p.average_cost)
            (position_for (λ p. p.symbol) symbol snapshot.positions)
    pub finite_quantity :
        fl.is_finite (
          value_or_nought
            (λ p. p.quantity)
            (position_for (λ p. p.symbol) symbol snapshot.positions))
        ≡ true
    pub finite_price :
        fl.is_finite (
          value_or_nought
            (λ p. p.average_cost)
            (position_for (λ p. p.symbol) symbol snapshot.positions))
        ≡ true

  module _ (laws : IsOrdered fl) where
    agreed_matched :
        (symbol : String)
        → IsAgreed symbol
        → (compare_symbol internal snapshot symbol).matched ≡ true
    unfolding compare_symbol
    agreed_matched symbol agreed =
        rw
          (
            agreed.quantity,
            agreed.price,
            laws.sub_self_lt _ 1 4 agreed.finite_quantity laws.lt-zero_tolerance,
            laws.sub_self_lt _ 1 2 agreed.finite_price laws.lt-zero_cent,
          )
          refl

    agreed_count :
        ((symbol : String) → IsAgreed symbol)
        → (symbols : List String)
        → count_mismatched (map (compare_symbol internal snapshot) symbols) ≡ 0
    unfolding count_mismatched
    agreed_count agreed [] = refl
    agreed_count agreed (x ∷ symbols) =
        rw (agreed_matched x (agreed x)) (omega (arith, agreed_count agreed symbols))

    -- Where the two books agree on every symbol, the status of the comparison is MATCHED and it
    -- counts no mismatch.
    pub compare_positions_agreed :
        ((symbol : String) → IsAgreed symbol)
        → ((summary snapshot.source (compare_positions internal snapshot)).status
            ≡ ReconciliationStatus.matched)
          × ((summary snapshot.source (compare_positions internal snapshot)).mismatched_symbols ≡ 0)
    unfolding summary compare_positions
    compare_positions_agreed agreed =
        let none_left = agreed_count agreed (all_symbols internal snapshot) in
        (rw none_left refl, none_left)

    -- A position that the internal book holds and that the broker reports with a quantity of 0 or
    -- less, which is how it reports a short position, is never found to match, whatever its side.
    pub short_position_mismatched :
        (symbol : String) (p : PositionRead F)
        → position_for (λ q. q.symbol) symbol internal ≡ some p
        → 1 ≤ p.quantity
        → fl.is_finite (fl.of_int p.quantity) ≡ true
        → fl.le
            (value_or_nought
              (λ q. q.quantity)
              (position_for (λ q. q.symbol) symbol snapshot.positions))
            nought
          ≡ true
        → (compare_symbol internal snapshot symbol).matched ≡ false
    unfolding compare_symbol value_or_nought
    short_position_mismatched symbol p found held finite short =
        let difference = fl.sub (fl.of_int p.quantity) (
          value_or_nought (λ q. q.quantity)
            (position_for (λ q. q.symbol) symbol snapshot.positions)) in
        let at_least_one : fl.le one difference ≡ true =
          laws.le_trans _ _ _ (laws.of_int-ge_one _ held) (laws.sub-le _ _ finite short) in
        let far : fl.lt (fl.lit 1 4) (fl.abs difference) ≡ true =
          laws.lt_of_lt_le _ _ _ laws.lt-tolerance_one (laws.le_abs _ at_least_one) in
        rw (found, laws.lt_asymm _ _ far) refl

module _ {F : Type 0} ⦃fl : Float F⦄ where
  count_mismatched_none :
      (items : List (PositionReconciliationItem F))
      → (count_mismatched items ≡ 0) ↔ All (λ item. item.matched ≡ true) items
  unfolding count_mismatched
  count_mismatched_none [] = (λ h. tt, λ h. refl)
  count_mismatched_none (item ∷ items) =
      let (into, out) = count_mismatched_none items in
      elim (Bool-cases item.matched) [
        | inl e ↦ rw e (λ h. (refl, into (omega (arith, h))), λ h. omega (arith, out h.1))
        | inr e ↦ rw e (λ h. absurd (omega (arith, h)), λ h. cc (h.0))
      ]

  -- A comparison has the status MATCHED just when each of its items matches, and MISMATCHED
  -- otherwise; it counts all items as checked.
  pub summary_matched :
      (source : String) (items : List (PositionReconciliationItem F))
      → (((summary source items).status ≡ ReconciliationStatus.matched)
          ↔ All (λ item. item.matched ≡ true) items)
        × ((summary source items).status ≢ ReconciliationStatus.failed)
        × ((summary source items).checked_symbols ≡ length items)
  unfolding summary
  summary_matched source items =
      let (into, out) = count_mismatched_none items in
      elim (Bool-cases (count_mismatched items == 0)) [
        | inl e ↦ rw e ((λ h. into (ground arith), λ h. refl), matched_not_failed, refl)
        | inr e ↦ rw e (
          (λ h. absurd (mismatched_not_matched h), λ h. absurd (ground (arith, out h))),
          mismatched_not_failed,
          refl,
        )
      ]
    where
      matched_not_failed : ReconciliationStatus.matched ≢ ReconciliationStatus.failed
      matched_not_failed = cc

      mismatched_not_failed : ReconciliationStatus.mismatched ≢ ReconciliationStatus.failed
      mismatched_not_failed = cc

      mismatched_not_matched : ReconciliationStatus.mismatched ≢ ReconciliationStatus.matched
      mismatched_not_matched = cc
