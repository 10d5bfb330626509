-- ===== src/Backtester/Portfolio.antt =====
-- services/backtester/portfolio.py. A dictionary of marks by symbol is a function
-- into Option; a dictionary by time is a list of its entries in order.
pub mod Marks
pub mod States
use save_money_trading_bot.Prelude.{
  ℕ, String, Bool, true, false, ◌||◌, ◌&&◌, Option, none, some, List, [], ◌∷◌, map, any, str_eq,
  leb, ltb, ◌==◌, if◌then◌else◌,
}
use save_money_trading_bot.Decimal.{
  Decimal, Exc, ok, ◌>>=◌, add, sub, mul, div, nonpos, max_dec, sum_from, zero_dec,
}
use save_money_trading_bot.StrategyEngine.Models.{Time, Candle}
use save_money_trading_bot.RiskEngine.Models.{PositionState, OpenOrderState, AccountState, long}
use save_money_trading_bot.Backtester.Models.{SimulatedPosition, PendingIntent}
use save_money_trading_bot.RiskEngine.Portfolio as RiskPortfolio

-- Prices by symbol.
abbrev pub Marks : Type 0
Marks = String → Option Decimal

-- `marks.get(pos.symbol, pos.entry_price)`
abbrev pub mark_of : Marks → SimulatedPosition → Decimal
mark_of marks p = elim (marks p.symbol) [ some mark ↦ mark | none ↦ p.entry_price ]

-- The mark of one position in `resolve_marks_at_open`.
unfoldable pub mark_at_open :
    (day_candles : String → Option Candle) (prior_closes : Marks) → SimulatedPosition → Decimal
mark_at_open day_candles prior_closes p = elim (day_candles p.symbol) [
  | some candle ↦ candle.open_price
  | none ↦ mark_of prior_closes p
]

-- `resolve_marks_at_open`: the entry of a symbol is that of its last position.
unfoldable pub resolve_marks_at_open :
    List SimulatedPosition → (day_candles : String → Option Candle) (prior_closes : Marks) → Marks
unfolding mark_at_open
resolve_marks_at_open [] day_candles prior_closes symbol = none
resolve_marks_at_open (p ∷ ps) day_candles prior_closes symbol =
    elim (resolve_marks_at_open ps day_candles prior_closes symbol) [
      | some mark ↦ some mark
      | none ↦
          if str_eq p.symbol symbol then some (mark_at_open day_candles prior_closes p) else none
    ]

unfoldable pub compute_used_margin : List SimulatedPosition → Decimal
compute_used_margin ps = sum_from zero_dec (map (λ (p : SimulatedPosition). p.margin_reserved) ps)

-- The loop of `compute_unrealized_pnl` from a total.
unfoldable pub unrealized_from : Marks → Decimal → List SimulatedPosition → Decimal
unrealized_from marks total [] = total
unrealized_from marks total (p ∷ ps) =
    unrealized_from marks (add total (mul p.quantity (sub (mark_of marks p) p.entry_price))) ps

unfoldable pub compute_unrealized_pnl : List SimulatedPosition → Marks → Decimal
unfolding unrealized_from
compute_unrealized_pnl ps marks = unrealized_from marks zero_dec ps

unfoldable pub compute_equity : Decimal → List SimulatedPosition → Marks → Decimal
unfolding compute_unrealized_pnl
compute_equity wallet_balance ps marks = add wallet_balance (compute_unrealized_pnl ps marks)

unfoldable pub compute_available_margin : Decimal → List SimulatedPosition → Marks → Decimal
unfolding compute_equity compute_used_margin
compute_available_margin wallet_balance ps marks =
    let equity = compute_equity wallet_balance ps marks in
    let used = compute_used_margin ps in max_dec zero_dec (sub equity used)

unfoldable pub position_margin : (notional max_leverage : Decimal) → Exc Decimal
position_margin notional max_leverage =
    if nonpos max_leverage then ok notional else div notional max_leverage

-- `to_position_states`, which passes over a position without a positive quantity and mark.
unfoldable pub to_position_states : List SimulatedPosition → Marks → List PositionState
to_position_states [] marks = []
to_position_states (p ∷ ps) marks =
    let rest = to_position_states ps marks in
    if nonpos p.quantity || nonpos (mark_of marks p)
    then rest
    else record {
      symbol = p.symbol;
      entry_price = p.entry_price;
      position_size = p.quantity;
      stop_initial = p.initial_stop;
      trail_stop = p.trail_stop;
      mark_price = mark_of marks p;
    }
      ∷ rest

unfoldable pub current_open_risk : List SimulatedPosition → Marks → Decimal
unfolding to_position_states
current_open_risk ps marks = RiskPortfolio.current_open_risk_usd (to_position_states ps marks)

-- `prior is None or ot > prior`
abbrev pub is_later : Option Time → Time → Bool
is_later none ot = true
is_later (some prior) ot = ltb prior ot

-- The loop of `prior_closes_from_timeline` over the open times of one symbol.
unfoldable pub prior_from : (before_open : Time) → Option Time → List Time → Option Time
prior_from before_open prior [] = prior
prior_from before_open prior (ot ∷ ots) =
    prior_from before_open (if ltb ot before_open && is_later prior ot then some ot else prior) ots

-- `by_time[time][1]`
abbrev pub candle_at : List (Time × Candle) → Time → Option Candle
candle_at [] time = none
candle_at ((ot, candle) ∷ entries) time = if ot == time then some candle else candle_at entries time

-- `prior_closes_from_timeline` for one symbol.
unfoldable pub prior_close : List (Time × Candle) → (before_open : Time) → Option Decimal
unfolding prior_from
prior_close entries before_open =
    elim (prior_from before_open none (map (λ (e : Time × Candle). e.0) entries)) [
      | none ↦ none
      | some t ↦ elim (candle_at entries t) [ some candle ↦ some candle.close | none ↦ none ]
    ]

unfoldable pub to_open_orders : List PendingIntent → List OpenOrderState
to_open_orders [] = []
to_open_orders (i ∷ is) =
    record {
      symbol = i.symbol;
      client_intent_id = i.client_intent_id;
      side = long;
      is_entry = true;
    }
    ∷ to_open_orders is

-- `mark_prices_from_candles`; a later position of a symbol has the same mark, or its own entry price.
unfoldable pub mark_prices_from_candles : List SimulatedPosition → (closes : Marks) → Marks
mark_prices_from_candles [] closes symbol = none
mark_prices_from_candles (p ∷ ps) closes symbol = elim (mark_prices_from_candles ps closes symbol) [
  | some mark ↦ some mark
  | none ↦ if str_eq p.symbol symbol then some (mark_of closes p) else none
]

-- `build_account_state(build_portfolio_state(wallet_cash, positions), marks, max_leverage)`; neither
-- function reads more of the portfolio than the wallet and the positions.
unfoldable pub build_account_state :
    (wallet_cash : Decimal) → List SimulatedPosition → Marks → AccountState
unfolding compute_equity compute_used_margin
build_account_state wallet_cash ps marks =
    let equity = compute_equity wallet_cash ps marks in
    record {
      equity_usd = equity;
      available_margin_usd = max_dec zero_dec (sub equity (compute_used_margin ps));
      daily_realized_pnl_usd = zero_dec;
      weekly_realized_pnl_usd = zero_dec;
      peak_equity_usd = some equity;
    }
