-- ===== src/Lib.antt =====
-- The trading services of the save-money trading bot, services/ of the repository.
--
-- Prices, quantities and amounts are Python decimals. Decimal.Defs models decimal.Decimal as
-- the services use it: a finite value coeff / 10 ^ scale, exact comparison, and arithmetic
-- rounded half-even to 28 digits, the default context. pydantic refuses NaN and infinities for
-- a Decimal field, so values are finite; the exponent limits of the context are left out.
-- An operation that can raise ends in Exc, with the exception as a Fault. Times are whole
-- numbers of microseconds. The details dictionary of an error is left out, and so is logging.
--
-- services/strategy_engine turns closed candles of three timeframes into a signal:
--   StrategyEngine.Codes, .Models       models.py, constants.py
--   StrategyEngine.Validation           validation.py: validate_candle_series, the warm-up
--   StrategyEngine.Indicators           indicators.py: EMA, true range, Wilder ATR, volume, high
--   StrategyEngine.Filters              regime.py, trend.py, entry.py
--   StrategyEngine.Stops                stops.py: the initial and the trailing stop
--   StrategyEngine.Readings, .Outcome, .Engine   engine.py: StrategyEngine.evaluate by its
--     stages: quality_of, read_indicators, assess, select_entry
-- The periods of StrategyParameters are natural numbers. compute_highest_close_since_entry is
-- not modelled.
--
-- services/risk_engine decides on a proposal that carries such a signal:
--   RiskEngine.Models                   models.py, constants.py
--   RiskEngine.Rounding                 rounding.py
--   RiskEngine.Constraints              services/trading_constraints/validation.py
--   RiskEngine.Validation, .LossLimits  validation.py
--   RiskEngine.Sizing                   sizing.py; the while loop of the risk cap runs on fuel
--   RiskEngine.Portfolio                portfolio.py
--   RiskEngine.Step, .Engine            engine.py: RiskEngine.evaluate by its stages, each of
--     which goes on, returns a rejection early, or raises
-- The fuel of the risk cap is the number of whole steps in the quantity, and two more. It is
-- enough for every multiple of a positive step that 28 digits hold; beyond, rounding may make a
-- round go down by less than a step, and out_of_fuel stands for the rounds that are left.
--
-- services/paper_trading runs the two engines over live market events. Modelled of it:
--   PaperTrading.Enums, .Transitions    enums.py, transitions.py: the permitted changes of the
--     runtime, of intents and of orders
--   PaperTrading.Fairness               event_fairness.py: retry backoff, groups that are due,
--     the rotation cursor; the grouping of events by key is not modelled
--
-- services/backtester replays candles through the two engines. Modelled of it:
--   Backtester.Models                   models.py
--   Backtester.Portfolio                portfolio.py: marks, margins, equity, the position states
--     given to the risk engine, and the prior closes, which prior_closes_from_timeline collects
--     symbol by symbol
--   Backtester.Execution                execution.py: slippage, fees, funding
--   Backtester.Lifecycle                paper_lifecycle.py: the computations of entries, stops, exits
--   Backtester.Slicing                  data.py: closed candles as of a time, evaluation times, the
--     check of the order; and the timeline that engine.py builds
--   Backtester.Runtime, .Exits, .Entries   engine.py: _Runtime and the methods that change it
--   Backtester.Engine                   engine.py: BacktestEngine.run, and the drawdown curve of
--     metrics.py
-- The state of a run is passed from step to step; a step that raises ends the run. An intent's id
-- holds a time as strftime prints it: that function is the parameter format_time. The loops run over
-- the candles of the day, which are those of the configured symbols that have one.
--   Backtester.Keeps                    what each step of a day keeps, a run keeps
--   Backtester.Consistent, .Outcome     the invariant of the state, and the ends of an intent
--   Backtester.Books                    what a run writes down, as an abstract machine of five fields
--   Backtester.Causal                   a history, extended by later candles and funding events
--
-- services/market_data gives the two engines their candles. Modelled of it:
--   MarketData.Models                   models.py, as far as candles go
--   MarketData.Timeframes               timeframes.py, closed.py, stale.py, over the fields of
--     Python's UTC datetimes, from 1970 on
--   MarketData.Validation               validation.py: the codes of a candle, sorting, conflicts
--   MarketData.Series                   validation.py: the report of validate_series, less its messages
--   MarketData.Gaps                     gaps.py; each while loop runs on fuel, two rounds more than
--     there are days up to its bound, and a round goes on by a day at least
--   MarketData.Merge                    merge_policy.py
--   MarketData.Aggregation              aggregation.py, with the same fuel
--
-- Not modelled: the rest of services/paper_trading (fills, lifecycle, market events, scheduler,
-- recovery, storage, API), compute_metrics and the assembly of BacktestResult in services/backtester,
-- the imports, stores and live updates of services/market_data, services/research,
-- migrations, scripts and the dashboard under src/.
pub mod Prelude
pub mod Decimal
pub mod StrategyEngine
pub mod RiskEngine
pub mod PaperTrading
pub mod Backtester
pub mod MarketData
