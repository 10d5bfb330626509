-- ===== src/Backtester/Books.antt =====
-- What a run writes down: the pending intents, the processed ids, the orders and the closed trades, and
-- the steps in which they may change.
pub mod Refines
pub mod Served
use save_money_trading_bot.Prelude.{
  ◌≡◌, refl, sym, ap, ◌∙◌, ◌⊎◌, String, Bool, true, false, Option, none, some, Bool-cases, ◌||◌,
  List, [], ◌∷◌, ◌++◌, All, str_eq, eq_iff, arith, inl, inr,
}
use mathlib.Core.Path.{subst}
use save_money_trading_bot.Prelude.Dict.{Dict, lookup, contains, put, lookup-put, contains-put}
use save_money_trading_bot.Decimal.{Decimal, add, sub, sum_from, zero_dec}
use save_money_trading_bot.RiskEngine.Validation.{seen}
use save_money_trading_bot.Backtester.Models.{
  OrderStatus, order_filled, order_rejected, PendingIntent, SimulatedOrder, BacktestTrade,
}
use save_money_trading_bot.Backtester.Runtime.{Runtime}
use save_money_trading_bot.Backtester.Entries.{intents_of}

pub record Book : Type 0 where
  pub pending : List PendingIntent
  pub processed : List String
  pub orders : Dict SimulatedOrder
  pub closed : List BacktestTrade
  pub realized : Decimal

-- The book of a state.
abbrev pub book_of : Runtime → Book
book_of rt = record {
  pending = rt.pending_intents;
  processed = rt.processed_intent_ids;
  orders = rt.intent_orders;
  closed = rt.closed_trades;
  realized = rt.realized_pnl;
}

-- The order is the last word on an intent.
pub record IsFinal (id : String) (order : SimulatedOrder) : Type 0 where
  pub for_id : order.client_intent_id ≡ id
  pub final : (order.status ≡ order_filled) ⊎ (order.status ≡ order_rejected)

-- The trade is closed, with its net profit.
pub record IsClosed (trade : BacktestTrade) (net : Decimal) : Type 0 where
  pub gross : Decimal
  pub gross_lem : trade.gross_pnl ≡ some gross
  pub net_lem : net ≡ sub (sub gross trade.fees) trade.funding
  pub net_pnl_lem : trade.net_pnl ≡ some net

-- One step of the book: an intent that was not processed before is queued; the intents of a symbol leave
-- the queue; an intent that was not processed before ends with a final order; a closed trade is booked.
pub data BookStep (b : Book) : Book → Type 0 where
  queue :
      (p : PendingIntent)
      → seen p.client_intent_id b.processed ≡ false
      → BookStep b (record b { pending = b.pending ++ p ∷ [] })
  take : (symbol : String) → BookStep b (record b { pending = intents_of false symbol b.pending })
  finish :
      (id : String) (order : SimulatedOrder)
      → seen id b.processed ≡ false
      → IsFinal id order
      → BookStep b (record b { processed = id ∷ b.processed; orders = put id order b.orders })
  close :
      (trade : BacktestTrade) (net : Decimal)
      → IsClosed trade net
      → BookStep b (record b { closed = b.closed ++ trade ∷ []; realized = add b.realized net })

-- The books that steps reach.
pub data Books (a : Book) : Book → Type 0 where
  start : Books a a
  then_step : {b c : Book} → Books a b → BookStep b c → Books a c

-- The sum of the net profits, in the order of the trades.
unfoldable pub net_from : Decimal → List BacktestTrade → Decimal
net_from acc [] = acc
net_from acc (t ∷ ts) = net_from (elim t.net_pnl [ none ↦ acc | some net ↦ add acc net ]) ts

net_from-append :
    (acc net : Decimal) (ts : List BacktestTrade) (t : BacktestTrade)
    → t.net_pnl ≡ some net
    → net_from acc (ts ++ t ∷ []) ≡ add (net_from acc ts) net
unfolding net_from
net_from-append acc net [] t h = rw h refl
net_from-append acc net (u ∷ ts) t h =
    net_from-append (elim u.net_pnl [ none ↦ acc | some n ↦ add acc n ]) net ts t h

-- Every order is final and its intent is processed; the realized profit is that of the closed trades.
pub record IsBook (b : Book) : Type 0 where
  pub ordered :
      (id : String) (order : SimulatedOrder)
      → lookup id b.orders ≡ some order
      → IsFinal id order × (seen id b.processed ≡ true)
  pub booked : b.realized ≡ net_from zero_dec b.closed

finish-ordered :
    {b : Book} (id : String) (order : SimulatedOrder) (j : String) (o : SimulatedOrder)
    → IsBook b
    → IsFinal id order
    → lookup j (put id order b.orders) ≡ some o
    → IsFinal j o × (seen j (id ∷ b.processed) ≡ true)
finish-ordered {b} id order j o k final h = elim (Bool-cases (str_eq id j)) [
  | inl is ↦
      let same : order ≡ o = ground (arith, lookup-put id j order b.orders, is, h) in
      let same_id : id ≡ j = (eq_iff id j).0 is in
      (subst (λ x. IsFinal x o) same_id (subst (IsFinal id) same final), ground (arith, is))
  | inr other ↦
      let before : lookup j b.orders ≡ some o =
        ground (arith, lookup-put id j order b.orders, other, h) in
      let (is_final, processed) = k.ordered j o before in (is_final, ground (arith, processed))
]

step-IsBook : {b c : Book} → IsBook b → BookStep b c → IsBook c
step-IsBook k (queue p new) = record { ordered = k.ordered; booked = k.booked }
step-IsBook k (take symbol) = record { ordered = k.ordered; booked = k.booked }
step-IsBook k (finish id order new final) = record {
  ordered = λ j o h. finish-ordered id order j o k final h;
  booked = k.booked;
}
step-IsBook {b} k (close trade net closed) = record {
  ordered = k.ordered;
  booked =
      ap (λ z. add z net) k.booked
      ∙ sym (net_from-append zero_dec net b.closed trade closed.net_pnl_lem);
}

-- Every book that steps reach from one that is in order is in order.
pub Books-IsBook : {a b : Book} → IsBook a → Books a b → IsBook b
Books-IsBook k start = k
Books-IsBook k (then_step s x) = step-IsBook (Books-IsBook k s) x

step-order :
    {b c : Book} (id : String) (order : SimulatedOrder)
    → IsBook b
    → BookStep b c
    → lookup id b.orders ≡ some order
    → lookup id c.orders ≡ some order
step-order {b} id order k (queue p new) h = h
step-order {b} id order k (take symbol) h = h
step-order {b} id order k (finish j o new final) h =
    let (_, processed) = k.ordered id order h in
    ground (arith, new, processed, lookup-put j id o b.orders, eq_iff j id, h)
step-order {b} id order k (close trade net closed) h = h

-- An order of a book that is in order is kept.
pub Books-order :
    {a b : Book} (id : String) (order : SimulatedOrder)
    → IsBook a
    → Books a b
    → lookup id a.orders ≡ some order
    → lookup id b.orders ≡ some order
Books-order id order k start h = h
Books-order id order k (then_step s x) h =
    step-order id order (Books-IsBook k s) x (Books-order id order k s h)

step-processed :
    {b c : Book} (id : String)
    → BookStep b c
    → seen id b.processed ≡ true
    → seen id c.processed ≡ true
step-processed id (queue p new) h = h
step-processed id (take symbol) h = h
step-processed id (finish j o new final) h = ground (arith, h)
step-processed id (close trade net closed) h = h

-- A processed id stays one.
pub Books-processed :
    {a b : Book} (id : String) → Books a b → seen id a.processed ≡ true → seen id b.processed ≡ true
Books-processed id start h = h
Books-processed id (then_step s x) h = step-processed id x (Books-processed id s h)
