-- ===== src/RiskEngine/Sizing.antt =====
-- services/risk_engine/sizing.py: the quantity of a trade, and the caps that may only reduce it.
pub mod Cap
pub mod Raises
pub mod Termination
use save_money_trading_bot.Prelude.{
  ℕ, zero, suc, ◌+◌, Bool, true, false, ◌&&◌, Option, none, some, if◌then◌else◌,
}
use save_money_trading_bot.Prelude.Int.{abs}
use save_money_trading_bot.Decimal.{
  Decimal, Exc, ok, raised, out_of_fuel, ◌>>=◌, nonpos, negative, le, eq, add, sub, mul, div,
  truncate, min_dec, of_ℕ, zero_dec,
}
use save_money_trading_bot.RiskEngine.Models.{RiskParameters, PositionSizingResult}
use save_money_trading_bot.RiskEngine.Rounding.{floor_to_step}

abbrev pub compute_stop_distance : Decimal → Decimal → Decimal
compute_stop_distance entry_price stop_price = sub entry_price stop_price

abbrev pub compute_risk_budget : Decimal → RiskParameters → Decimal
compute_risk_budget equity_usd params = mul equity_usd params.risk_per_trade_pct

abbrev pub compute_raw_quantity : Decimal → Decimal → Exc Decimal
compute_raw_quantity risk_budget_usd stop_distance_usd = div risk_budget_usd stop_distance_usd

-- The keyword arguments of `apply_risk_cap_after_rounding`.
pub record CapInputs : Type 0 where
  pub stop_distance_usd : Decimal
  pub equity_usd : Decimal
  pub risk_budget_usd : Decimal
  pub quantity_step : Decimal
  pub minimum_quantity : Decimal
  pub params : RiskParameters

unfoldable pub trade_limit : RiskParameters → Decimal
trade_limit params = mul params.risk_per_trade_pct (add (of_ℕ 1) params.risk_rounding_tolerance)

-- The test that ends the `while` loop with a result.
unfoldable pub within_risk : CapInputs → Decimal → Exc Bool
unfolding trade_limit
within_risk i qty = do
  actual_pct ← div (mul qty i.stop_distance_usd) i.equity_usd
  ok (le (mul qty i.stop_distance_usd) i.risk_budget_usd && le actual_pct (trade_limit i.params))

-- One step less; none where that leaves the quantity as it is (`break`).
unfoldable pub step_down : CapInputs → Decimal → Exc (Option Decimal)
step_down i qty = do
  next_qty ← floor_to_step (sub qty i.quantity_step) i.quantity_step
  ok (if eq next_qty qty then none else some next_qty)

-- The `while` loop, with fuel. The recursive call stands in a case, so it waits.
unfoldable pub cap_loop : CapInputs → ℕ → Decimal → Exc (Option Decimal)
unfolding within_risk step_down
cap_loop i zero qty = raised out_of_fuel
cap_loop i (suc fuel) qty = elim (le i.minimum_quantity qty) [
  | false ↦ ok none
  | true ↦ elim (within_risk i qty) [
    | raised e ↦ raised e
    | ok true ↦ ok (some qty)
    | ok false ↦ elim (step_down i qty) [
      | raised e ↦ raised e
      | ok none ↦ ok none
      | ok (some next_qty) ↦ cap_loop i fuel next_qty
    ]
  ]
]

-- One round for each step in the quantity, and two more.
unfoldable pub rounds : Decimal → Decimal → Exc ℕ
rounds qty step = do q ← div qty step; ok (abs (truncate q).coeff + 2)

unfoldable pub apply_risk_cap_after_rounding : CapInputs → Decimal → Exc (Option Decimal)
unfolding cap_loop rounds
apply_risk_cap_after_rounding i quantity = do
  fuel ← rounds quantity i.quantity_step
  cap_loop i fuel quantity

abbrev no_quantity : Decimal → Decimal → Decimal → PositionSizingResult
no_quantity risk_budget stop_distance raw_qty = record {
  risk_budget_usd = risk_budget;
  stop_distance_usd = stop_distance;
  raw_quantity = raw_qty;
  rounded_quantity = zero_dec;
  actual_trade_risk_usd = zero_dec;
  actual_trade_risk_pct = zero_dec;
}

-- The end of `compute_position_sizing`, by the outcome of the cap.
unfoldable pub sized :
    Decimal → Decimal → Decimal → Decimal → Option Decimal → Exc PositionSizingResult
sized equity_usd risk_budget stop_distance raw_qty none =
    ok (no_quantity risk_budget stop_distance raw_qty)
sized equity_usd risk_budget stop_distance raw_qty (some final_qty) = do
  actual_pct ← div (mul final_qty stop_distance) equity_usd
  ok (record {
    risk_budget_usd = risk_budget;
    stop_distance_usd = stop_distance;
    raw_quantity = raw_qty;
    rounded_quantity = final_qty;
    actual_trade_risk_usd = mul final_qty stop_distance;
    actual_trade_risk_pct = actual_pct;
  })

-- The arguments of the risk cap in `compute_position_sizing`.
abbrev pub sizing_inputs :
    (equity_usd stop_distance quantity_step minimum_quantity : Decimal) → RiskParameters → CapInputs
sizing_inputs equity_usd stop_distance quantity_step minimum_quantity params = record {
  stop_distance_usd = stop_distance;
  equity_usd = equity_usd;
  risk_budget_usd = compute_risk_budget equity_usd params;
  quantity_step = quantity_step;
  minimum_quantity = minimum_quantity;
  params = params;
}

-- `compute_position_sizing`
unfoldable pub compute_position_sizing :
    (equity_usd entry_price stop_price quantity_step minimum_quantity : Decimal)
    → RiskParameters
    → Exc (Option PositionSizingResult)
unfolding sized
compute_position_sizing equity_usd entry_price stop_price quantity_step minimum_quantity params =
    let stop_distance = compute_stop_distance entry_price stop_price in
    let risk_budget = compute_risk_budget equity_usd params in
    let inputs = sizing_inputs equity_usd stop_distance quantity_step minimum_quantity params in
    if nonpos stop_distance then ok none else (do
      raw_qty ← compute_raw_quantity risk_budget stop_distance
      rounded ← floor_to_step raw_qty quantity_step
      if nonpos rounded then ok (some (no_quantity risk_budget stop_distance raw_qty)) else (do
        final_qty ← apply_risk_cap_after_rounding inputs rounded
        result ← sized equity_usd risk_budget stop_distance raw_qty final_qty
        ok (some result)))

-- `cap_quantity_for_leverage`
unfoldable pub cap_quantity_for_leverage :
    (quantity entry_price equity_usd total_notional_usd quantity_step max_leverage : Decimal)
    → Exc Decimal
cap_quantity_for_leverage quantity entry_price equity_usd total_notional_usd quantity_step
      max_leverage =
    do
      projected_leverage ← div (add total_notional_usd (mul quantity entry_price)) equity_usd
      let max_new_notional = sub (mul max_leverage equity_usd) total_notional_usd
      if le projected_leverage max_leverage
          then ok quantity
          else if nonpos max_new_notional
          then ok zero_dec
          else (do
            most ← div max_new_notional entry_price
            capped ← floor_to_step most quantity_step
            ok (min_dec quantity capped))

-- `cap_quantity_for_margin`
unfoldable pub cap_quantity_for_margin :
    (quantity entry_price available_margin_usd max_leverage quantity_step : Decimal) → Exc Decimal
cap_quantity_for_margin quantity entry_price available_margin_usd max_leverage quantity_step =
    if negative available_margin_usd then ok zero_dec else (do
      required_margin ← div (mul quantity entry_price) max_leverage
      let max_notional = mul available_margin_usd max_leverage
      if le required_margin available_margin_usd
          then ok quantity
          else if nonpos max_notional
          then ok zero_dec
          else (do
            most ← div max_notional entry_price
            capped ← floor_to_step most quantity_step
            ok (min_dec quantity capped)))
