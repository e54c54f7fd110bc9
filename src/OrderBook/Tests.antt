-- ===== src/OrderBook/Tests.antt =====
-- crates/orderbook: runs of the engine, and its theorems at a small book.
use inference_bazaar.Base.{
  ℕ, ◌+◌, ◌≡◌, ◌≢◌, refl, List, [], ◌∷◌, String, arith, All, none, some, ok, true, false, str_eq,
  eq_iff,
}
use inference_bazaar.Base.Int.{
  pos, negsuc, I64, add_i64, sub_i64, rem_i64, wrap_i64, half_i64, ◌+ℤ◌, ◌-ℤ◌,
}
use inference_bazaar.OrderBook.Types.{Side, buy, sell, opposite, Order, Fill, PlaceOutcome}
use inference_bazaar.OrderBook.Native.{
  NativeBook, new, validate, id_exists, before, insert_into, insert_on, side_of, with_side, remove,
  levels_from, mid, mid_of, best_bid, best_ask,
}
use inference_bazaar.OrderBook.Engine.{
  crosses, print, reduce_maker, trade, round, round_against, match_loop, start, matched, settle,
  settle_on, place_unique, place, cancel, levels, snapshot, open_orders,
}
use inference_bazaar.OrderBook.Invariant.{IsBook}
use inference_bazaar.OrderBook.Loop.{matched-ends}
use inference_bazaar.OrderBook.Reference.{matched-fills, allocate, counterparties}
use inference_bazaar.OrderBook.Keeps.{place-IsBook, cancel-IsBook}
use inference_bazaar.OrderBook.Prints.{IsPrint, filled, place_accounts}
use inference_bazaar.OrderBook.Admission.{IsAdmissible, Answers, place-Answers, IsAdmissible-placed}
use inference_bazaar.OrderBook.Cancel.{find_order, cancel_lem}

abbrev order : String → Side → ℕ → ℕ → String → ℕ → Order
order id side price qty owner ts = record {
  id = id;
  instrument_id = "m";
  side = side;
  price = pos price;
  qty = pos qty;
  owner = owner;
  ts = pos ts;
}

-- Two asks of `mm` and a bid of `bo`.
abbrev stocked : NativeBook
stocked = record {
  instrument_id = "m";
  tick_size = pos 1;
  min_qty = pos 1;
  bids = order "b1" buy 99 5 "bo" 3 ∷ [];
  asks = order "a1" sell 100 10 "mm" 1 ∷ order "a2" sell 102 10 "mm" 2 ∷ [];
  last_trade_price = none;
}

abbrev lifting : Order
lifting = order "t" buy 103 15 "taker" 4

program : Unit {0}
unfolding validate id_exists before insert_into insert_on side_of with_side remove levels_from mid
    mid_of best_bid best_ask crosses print reduce_maker trade round round_against match_loop start
    matched settle settle_on place_unique place cancel levels snapshot open_orders add_i64 sub_i64
    rem_i64 wrap_i64 half_i64 ◌+ℤ◌ ◌-ℤ◌ opposite new
program = tt

abbrev qtys : List Fill → List I64
qtys [] = []
qtys (f ∷ fs) = f.qty ∷ qtys fs

-- A bid of 15 at 103 lifts 10 at 100 and 5 at 102, and nothing rests.
lifted : qtys (matched stocked lifting).fills ≡ pos 10 ∷ pos 5 ∷ []
unfolding program
lifted = refl

lifted_ask : best_ask (place stocked lifting).0 ≡ some (pos 102)
unfolding program
lifted_ask = refl

mid-stocked : mid stocked ≡ some (pos 99)
unfolding program
mid-stocked = refl

-- The sum of two prices near the limit wraps: the mid is negative.
mid_wraps :
    mid_of (some (pos 5_000_000_000_000_000_000)) (some (pos 5_000_000_000_000_000_000)) none
    ≡ some (negsuc 4_223_372_036_854_775_807)
unfolding program
mid_wraps = refl

levels_stocked :
    levels (order "a0" sell 100 3 "x" 0 ∷ stocked.asks) 1
    ≡ record { price = pos 100; qty = pos 13; orders = 2 } ∷ []
unfolding program
levels_stocked = refl

cancelled : (cancel stocked "a2").1 ≡ true
unfolding program
cancelled = refl

stocked-IsBook : IsBook stocked
unfolding program
stocked-IsBook = record {
  min_positive = omega arith;
  bids_side = record {
    resting = (
      record {
        on_side = refl;
        price_positive = omega arith;
        qty_positive = omega arith;
        qty_range = omega arith;
      },
      tt,
    );
    sorted = (tt, tt);
    distinct = (tt, tt);
  };
  asks_side = record {
    resting = (
      record {
        on_side = refl;
        price_positive = omega arith;
        qty_positive = omega arith;
        qty_range = omega arith;
      },
      (
        record {
          on_side = refl;
          price_positive = omega arith;
          qty_positive = omega arith;
          qty_range = omega arith;
        },
        tt,
      ),
    );
    sorted = ((refl, tt), (tt, tt));
    distinct = ((apart "a2" "a1" refl, tt), (tt, tt));
  };
  uncrossed = (((refl, apart "a1" "b1" refl), ((refl, apart "a2" "b1" refl), tt)), tt);
}
  where
    apart : (x y : String) → str_eq x y ≡ false → x ≢ y
    apart x y h e = cc (h, (eq_iff x y).1 e)

matched-fills_example :
    (matched stocked lifting).fills
    ≡ allocate "m" lifting (counterparties buy (pos 103) "taker" stocked.asks)
unfolding side_of opposite
matched-fills_example = matched-fills stocked lifting

place-IsBook_example : IsBook (place stocked lifting).0
place-IsBook_example = place-IsBook stocked lifting stocked-IsBook (omega arith)

cancel-IsBook_example : IsBook (cancel stocked "a1").0
cancel-IsBook_example = cancel-IsBook stocked "a1" stocked-IsBook

place-Answers_example : Answers stocked lifting (place stocked lifting)
place-Answers_example = place-Answers stocked lifting

lifting-IsAdmissible : IsAdmissible stocked lifting
unfolding program
lifting-IsAdmissible = record {
  instrument = refl;
  price_positive = omega arith;
  tick_nonzero = λ e. cc;
  on_tick = refl;
  enough = omega arith;
  fresh = refl;
}

IsAdmissible-placed_example : (out : PlaceOutcome) × ((place stocked lifting).1 ≡ ok out)
IsAdmissible-placed_example = IsAdmissible-placed stocked lifting lifting-IsAdmissible

abbrev lifted_outcome : PlaceOutcome
lifted_outcome = record { fills = (matched stocked lifting).fills; resting = none }

place-lifting : (place stocked lifting).1 ≡ ok lifted_outcome
unfolding program
place-lifting = refl

place_accounts_example :
    All (IsPrint "m" lifting) (matched stocked lifting).fills
    × (filled (matched stocked lifting).fills + 0 ≡ 15)
place_accounts_example =
    place_accounts stocked lifting lifted_outcome stocked-IsBook (omega arith) place-lifting

cancel_lem_example :
    ((cancel stocked "a1").1 ≡ id_exists stocked "a1")
    × (id_exists (cancel stocked "a1").0 "a1" ≡ false)
    × (find_order "a2" (cancel stocked "a1").0.bids ≡ find_order "a2" stocked.bids)
    × (find_order "a2" (cancel stocked "a1").0.asks ≡ find_order "a2" stocked.asks)
cancel_lem_example =
    cancel_lem stocked "a1" "a2" stocked-IsBook (λ e. cc (other_id, (eq_iff "a2" "a1").1 e))
  where
    other_id : str_eq "a2" "a1" ≡ false
    other_id = refl

matched-ends_example : round "m" (matched stocked lifting) ≡ none
matched-ends_example = matched-ends stocked lifting
