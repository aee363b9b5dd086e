-- ===== src/Engine/Book/Frame.antt =====
-- What a fill and the trade counter leave alone.
use sur_protocol.Common.{ℕ, suc, ◌≡◌, refl, arith}
use sur_protocol.Types.{Side, opposite}
use sur_protocol.Engine.Book.{OrderBook, levels, fill_best, count_trade}

pub trade_count-fill_best :
    (s : Side) (qty : ℕ) (b : OrderBook) → (fill_best s qty b).0.trade_count ≡ b.trade_count
unfolding fill_best
trade_count-fill_best Side.buy qty b = ground arith
trade_count-fill_best Side.sell qty b = ground arith

pub market-fill_best :
    (s : Side) (qty : ℕ) (b : OrderBook) → (fill_best s qty b).0.market ≡ b.market
unfolding fill_best
market-fill_best Side.buy qty b = ground arith
market-fill_best Side.sell qty b = ground arith

-- The other side of the book is not touched.
pub opposite-fill_best :
    (s : Side) (qty : ℕ) (b : OrderBook)
    → levels (opposite s) (fill_best s qty b).0 ≡ levels (opposite s) b
unfolding fill_best
opposite-fill_best Side.buy qty b = ground arith
opposite-fill_best Side.sell qty b = ground arith

pub levels-count_trade : (s : Side) (b : OrderBook) → levels s (count_trade b) ≡ levels s b
unfolding count_trade
levels-count_trade Side.buy b = refl
levels-count_trade Side.sell b = refl

pub trade_count-count_trade : (b : OrderBook) → (count_trade b).trade_count ≡ suc b.trade_count
unfolding count_trade
trade_count-count_trade b = refl

pub market-count_trade : (b : OrderBook) → (count_trade b).market ≡ b.market
unfolding count_trade
market-count_trade b = refl

-- A taker's own side is not touched by what it fills.
pub own-fill_best :
    (s : Side) (qty : ℕ) (b : OrderBook) → levels s (fill_best (opposite s) qty b).0 ≡ levels s b
own-fill_best Side.buy qty b = opposite-fill_best Side.sell qty b
own-fill_best Side.sell qty b = opposite-fill_best Side.buy qty b
