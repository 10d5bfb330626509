-- ===== src/Backtester/Exits.antt =====
-- services/backtester/engine.py: `_check_stop_exit`, `_apply_funding` and `_update_trailing`.
use save_money_trading_bot.Prelude.{
  String, Bool, true, false, ◌&&◌, Option, none, some, List, [], ◌∷◌, ◌++◌, leb, str_eq,
  if◌then◌else◌,
}
use save_money_trading_bot.Prelude.Dict.{Dict, lookup, put, erase}
use save_money_trading_bot.Decimal.{Decimal, Exc, ok, ◌>>=◌, eq, add, sub, mul, div, zero_dec}
use save_money_trading_bot.StrategyEngine.Models.{
  Time, Candle, StrategyEvaluation, TrailingStopState,
}
use save_money_trading_bot.Backtester.Models.{
  BacktestConfig, HistoricalDataBundle, SimulatedPosition, TrailingStopSnapshot, BacktestTrade,
  FundingEvent,
}
use save_money_trading_bot.Backtester.Execution.{compute_funding_payment}
use save_money_trading_bot.Backtester.Lifecycle.{
  StopTriggerResult, ExitAccounting, compute_gap_stop_at_open, compute_stop_trigger,
  compute_exit_accounting, compute_trailing_stop_update,
}
use save_money_trading_bot.Backtester.Slicing.{slice_closed_candles}
use save_money_trading_bot.Backtester.Runtime.{Runtime, get_constraints, days_between}

-- `_safe_r`
unfoldable pub safe_r : (initial_risk : Option Decimal) (net_pnl : Decimal) → Exc (Option Decimal)
safe_r none net_pnl = ok none
safe_r (some initial_risk) net_pnl =
    if eq initial_risk zero_dec then ok none else (do r ← div net_pnl initial_risk; ok (some r))

-- The history that `trail_history.get(symbol, [])` gives.
abbrev pub history_of : Dict (List TrailingStopSnapshot) → String → List TrailingStopSnapshot
history_of d symbol = elim (lookup symbol d) [ some snapshots ↦ snapshots | none ↦ [] ]

-- The trade that an exit closes.
unfoldable pub closed_trade :
    Candle
    → StopTriggerResult
    → ExitAccounting
    → List TrailingStopSnapshot
    → BacktestTrade
    → (r_multiple : Option Decimal) → BacktestTrade
closed_trade candle trigger exit history trade r_multiple =
    let fees = add trade.fees exit.fee in
    record trade {
      exit_time = some candle.open_time;
      exit_reason = some trigger.exit_reason;
      exit_reference_price = some trigger.exit_reference;
      exit_fill_price = some exit.fill_price;
      gross_pnl = some exit.gross_pnl;
      fees = fees;
      slippage_cost = add trade.slippage_cost exit.slippage_cost;
      net_pnl = some (sub (sub exit.gross_pnl fees) trade.funding);
      r_multiple = r_multiple;
      holding_period_days = some (days_between trade.entry_time candle.open_time);
      trailing_stop_history = history;
    }

-- The active trade of the symbol, if there is one, is closed.
unfoldable pub close_trade :
    (symbol : String)
    → Candle
    → StopTriggerResult
    → ExitAccounting
    → Option BacktestTrade
    → Runtime
    → Exc Runtime
unfolding closed_trade safe_r
close_trade symbol candle trigger exit none rt = ok rt
close_trade symbol candle trigger exit (some trade) rt = do
  let net = sub (sub exit.gross_pnl (add trade.fees exit.fee)) trade.funding
  r_multiple ← safe_r trade.initial_risk_usd net
  ok (record rt {
    closed_trades =
        rt.closed_trades
        ++ closed_trade candle trigger exit (history_of rt.trail_history symbol) trade r_multiple
          ∷ [];
    realized_pnl = add rt.realized_pnl net;
  })

-- `_check_stop_exit` from the trigger on.
unfoldable pub exit_position :
    BacktestConfig
    → (symbol : String) → Candle
    → SimulatedPosition
    → StopTriggerResult
    → Runtime
    → Exc Runtime
unfolding close_trade
exit_position config symbol candle p trigger rt = do
  exit ←
      compute_exit_accounting trigger.exit_reference p.quantity p.entry_price
        config.slippage_model.slippage_bps config.fee_model.exit_fee_rate
  let paid = record rt {
    cash = add rt.cash exit.net_wallet_delta;
    total_fees = add rt.total_fees exit.fee;
    total_slippage = add rt.total_slippage exit.slippage_cost;
    active_trades = erase symbol rt.active_trades;
  }
  rt' ← close_trade symbol candle trigger exit (lookup symbol rt.active_trades) paid
  ok (record rt' {
    positions = erase symbol rt'.positions;
    trail_history = erase symbol rt'.trail_history;
  })

-- The trigger that `_check_stop_exit` looks for: at the open the gap alone.
unfoldable pub stop_trigger :
    (at_open : Bool) → Candle → SimulatedPosition → Option StopTriggerResult
stop_trigger true candle p = compute_gap_stop_at_open candle p.effective_stop
stop_trigger false candle p =
    compute_stop_trigger candle p.effective_stop p.initial_stop p.trail_stop

-- `_check_stop_exit`
unfoldable pub check_stop_exit :
    BacktestConfig → (at_open : Bool) (symbol : String) → Candle → Runtime → Exc Runtime
unfolding exit_position stop_trigger
check_stop_exit config at_open symbol candle rt = elim (lookup symbol rt.positions) [
  | none ↦ ok rt
  | some p ↦ elim (stop_trigger at_open candle p) [
    | none ↦ ok rt
    | some trigger ↦ exit_position config symbol candle p trigger rt
  ]
]

-- One payment on a position.
unfoldable pub pay_funding : (symbol : String) (payment : Decimal) → Runtime → Runtime
pay_funding symbol payment rt = record rt {
  cash = sub rt.cash payment;
  total_funding = add rt.total_funding payment;
  active_trades = elim (lookup symbol rt.active_trades) [
    | none ↦ rt.active_trades
    | some trade ↦
        put symbol (record trade { funding = add trade.funding payment }) rt.active_trades
  ];
}

-- The events of the bundle within the candle.
unfoldable pub pay_events :
    (symbol : String) (notional : Decimal) → Candle → List FundingEvent → Runtime → Runtime
unfolding pay_funding
pay_events symbol notional candle [] rt = rt
pay_events symbol notional candle (ev ∷ evs) rt =
    let paid = pay_funding symbol (compute_funding_payment notional ev.funding_rate) rt in
    pay_events symbol notional candle evs
      (if leb candle.open_time ev.timestamp && leb ev.timestamp candle.close_time then paid else rt)

-- `_apply_funding`
unfoldable pub apply_funding :
    BacktestConfig → HistoricalDataBundle → (symbol : String) → Candle → Runtime → Runtime
unfolding pay_events
apply_funding config bundle symbol candle rt = elim (lookup symbol rt.positions) [
  | none ↦ rt
  | some p ↦
      let notional = mul p.quantity p.entry_price in
      elim config.funding_model.assumed_rate [
        | some rate ↦ pay_funding symbol (compute_funding_payment notional rate) rt
        | none ↦ pay_events symbol notional candle (bundle.funding symbol) rt
      ]
]

-- The last evaluation of the symbol, from the end of the list.
unfoldable pub last_evaluation :
    (symbol : String) → List StrategyEvaluation → Option StrategyEvaluation
last_evaluation symbol [] = none
last_evaluation symbol (e ∷ es) = elim (last_evaluation symbol es) [
  | some later ↦ some later
  | none ↦ if str_eq e.symbol symbol then some e else none
]

-- `eval_copy.atr if eval_copy and eval_copy.atr else pos.entry_atr14`: an ATR of zero is false.
abbrev pub atr_or : Option StrategyEvaluation → Decimal → Decimal
atr_or none entry_atr14 = entry_atr14
atr_or (some e) entry_atr14 = elim e.atr [
  | none ↦ entry_atr14
  | some atr ↦ if eq atr zero_dec then entry_atr14 else atr
]

abbrev pub trail_state_of : SimulatedPosition → TrailingStopState
trail_state_of p = record {
  entry_price = p.entry_price;
  stop_initial = p.initial_stop;
  highest_close = p.highest_close;
  trail_stop = p.trail_stop;
  effective_stop = p.effective_stop;
}

-- `_update_trailing` of a position that is there.
unfoldable pub trail_position :
    BacktestConfig
    → (symbol : String) → Candle
    → (eval_time : Time) → SimulatedPosition
    → Runtime
    → Exc Runtime
unfolding last_evaluation
trail_position config symbol candle eval_time p rt = do
  constraints ← get_constraints config symbol
  updated ←
      compute_trailing_stop_update (trail_state_of p) candle.close
        (atr_or (last_evaluation symbol rt.evaluations) p.entry_atr14) config.strategy_params
        constraints.price_tick_size
  ok (record rt {
    positions =
        put symbol
          (record p {
            trail_stop = updated.trail_stop;
            effective_stop = updated.effective_stop;
            highest_close = updated.highest_close;
          })
          rt.positions;
    trail_history =
        put symbol
          (history_of rt.trail_history symbol
            ++ record {
              time = eval_time;
              trail_stop = updated.trail_stop;
              effective_stop = updated.effective_stop;
            }
              ∷ [])
          rt.trail_history;
  })

-- `_update_trailing`
unfoldable pub update_trailing :
    BacktestConfig
    → HistoricalDataBundle
    → (symbol : String) → Candle
    → (eval_time : Time) → Runtime
    → Exc Runtime
unfolding trail_position
update_trailing config bundle symbol candle eval_time rt = elim (lookup symbol rt.positions) [
  | none ↦ ok rt
  | some p ↦ elim (slice_closed_candles (bundle.daily symbol) eval_time) [
    | [] ↦ ok rt
    | c ∷ cs ↦ trail_position config symbol candle eval_time p rt
  ]
]
