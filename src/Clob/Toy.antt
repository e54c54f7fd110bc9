-- ===== src/Clob/Toy.antt =====
-- A node of one operator, and orders and cancels for it, at which the theorems are tried.
use inference_bazaar.Base.{[], ◌∷◌, some}
use inference_bazaar.Base.Int.{pos}
use inference_bazaar.Settlement.Types.{Order}
use inference_bazaar.Settlement.Toy.{toy_domain, toy_order}
use inference_bazaar.Clob.Types.{Clob, SignedOrderBody, WireCancel}

abbrev pub offer : Order
offer = toy_order 1 100 10 2 21

abbrev pub bid : Order
bid = toy_order 0 100 10 1 11

-- A node of one operator, whose address is 7, with one instrument.
abbrev pub node : Clob
node = record {
  cfg = record { operators = (7, "u") ∷ []; threshold = 1; epoch_secs = 10; book_id = 5 };
  domain = toy_domain;
  contract = 9;
  signer = record { key = 7; address = 7 };
  instruments = record { id = "m"; tick_size = pos 1; min_qty = pos 1 } ∷ [];
  pool = [];
  settled = [];
  cancelled = [];
  file = some (record { settled = []; cancelled = [] });
}

-- A signature text recovers to its length.
abbrev pub offer_body : SignedOrderBody
offer_body = record { instrument_id = "m"; order = offer; signature = "0xab" }

abbrev pub offer_cancel : WireCancel
offer_cancel = record { order_hash = 21; trader = 2; signature = "ab" }

abbrev pub stranger_cancel : WireCancel
stranger_cancel = record { order_hash = 21; trader = 3; signature = "abc" }
