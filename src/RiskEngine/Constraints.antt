-- ===== src/RiskEngine/Constraints.antt =====
-- services/trading_constraints/validation.py: the checks of an exchange's symbol constraints.
use Prim.Native.String.{◌++◌ as append}
use save_money_trading_bot.Prelude.{
  String, Bool, false, Option, none, some, List, [], ◌∷◌, not, if◌then◌else◌,
}
use save_money_trading_bot.Decimal.{
  Decimal, ok, raised, nonpos, negative, lt, eq, div, is_finite, to_integral_value,
}
use save_money_trading_bot.RiskEngine.Models.{SymbolConstraints}

-- The string constants of the module.
pub data ConstraintCode : Type 0 where
  invalid_tick_size invalid_quantity_step invalid_min_quantity : ConstraintCode
  invalid_min_notional precision_mismatch : ConstraintCode

pub record ConstraintValidationError : Type 0 where
  pub field_name : String
  pub code : ConstraintCode
  pub message : String

-- `_is_step_aligned`. Division by a positive step raises nothing.
unfoldable pub is_step_aligned : Decimal → Decimal → Bool
is_step_aligned value step =
    if nonpos step
    then false
    else elim (div value step) [ ok q ↦ eq q (to_integral_value q) | raised _ ↦ false ]

-- The loop over `positive_fields`.
unfoldable pub first_not_positive :
    List (String × Decimal × ConstraintCode) → Option ConstraintValidationError
first_not_positive [] = none
first_not_positive ((name, value, code) ∷ fields) =
    if not (is_finite value)
    then some (record { field_name = name; code = code; message = append name " must be finite" })
    else if nonpos value
    then some (record { field_name = name; code = code; message = append name " must be > 0" })
    else first_not_positive fields

-- The checks below the loop.
unfoldable pub check_notional_and_step : SymbolConstraints → Option ConstraintValidationError
check_notional_and_step c =
    if not (is_finite c.minimum_notional)
    then some (violation "minimum_notional" invalid_min_notional "minimum_notional must be finite")
    else if negative c.minimum_notional
    then some (violation "minimum_notional" invalid_min_notional "minimum_notional must be >= 0")
    else if lt c.minimum_quantity c.quantity_step
    then some
        (violation "minimum_quantity" precision_mismatch "minimum_quantity below quantity_step")
    else if not (is_step_aligned c.minimum_quantity c.quantity_step)
    then some (
        violation "minimum_quantity" precision_mismatch
          "minimum_quantity not aligned to quantity_step")
    else none
  where
    violation : String → ConstraintCode → String → ConstraintValidationError
    violation name code message = record { field_name = name; code = code; message = message }

unfoldable pub validate_symbol_constraints_core :
    SymbolConstraints → Option ConstraintValidationError
unfolding first_not_positive check_notional_and_step
validate_symbol_constraints_core c =
    elim (first_not_positive (
      ("price_tick_size", c.price_tick_size, invalid_tick_size)
      ∷ ("quantity_step", c.quantity_step, invalid_quantity_step)
      ∷ ("minimum_quantity", c.minimum_quantity, invalid_min_quantity)
      ∷ [])) [ some e ↦ some e | none ↦ check_notional_and_step c ]
