-- ===== src/Venue/Books.antt =====
-- operator/src/market.rs, venue.rs: the calls that change a venue, and that they keep its books.
use inference_bazaar.Base.{
  ℕ, ◌≡◌, ◌≢◌, refl, sym, ap, ◌∙◌, subst, String, str_eq, List, [], ◌∷◌, some, true, false, inl,
  inr, select, map, Result, ok, err, panic, Bool-cases, Option-cases, eq_iff, eq_of_some,
}
use inference_bazaar.Base.Int.{pos, I64, InI64, ◌<ℤ◌}
use inference_bazaar.Base.Names.{find_name, put_name, find-put, find-put-other, str_eq-same}
use inference_bazaar.OrderBook.Types.{Side, Fill, PlaceOutcome, MatchError}
use inference_bazaar.OrderBook.Native.{NativeBook, new}
use inference_bazaar.OrderBook.Engine.{cancel, open_orders}
use inference_bazaar.OrderBook.Invariant.{IsBook}
use inference_bazaar.OrderBook.Keeps.{place-IsBook, cancel-IsBook}
use inference_bazaar.Clob.Types.{Instrument}
use inference_bazaar.Venue.Types.{SignedState, InstrumentVenue, Venue, venue_of}
use inference_bazaar.Venue.Signed.{mm_side, apply_inventory, withdraw, is_expired, prune_expired}
use inference_bazaar.Venue.Listing.{
  next_id, with_venue, register_instrument, pull_quotes, cancel_quotes, start_making, stop_making,
  after_legacy, place_legacy, cancel_order,
}
use inference_bazaar.Venue.Pulling.{pull-IsBook}

-- The market an id finds has a well-formed book.
abbrev pub HasBooks : List (String × InstrumentVenue) → Type 0
HasBooks m = (id : String) (v : InstrumentVenue) → find_name id m ≡ some v → IsBook v.book

-- A market with a well-formed book may be put in.
pub put-HasBooks :
    (k : String) (w : InstrumentVenue) (m : List (String × InstrumentVenue))
    → HasBooks m
    → IsBook w.book
    → HasBooks (put_name k w m)
put-HasBooks k w m h p id v f = elim (Bool-cases (str_eq id k)) [
  | inl g ↦
      let found : find_name id (put_name k w m) ≡ some w =
        ap (λ i. find_name i (put_name k w m)) ((eq_iff id k).0 g) ∙ find-put k w m in
      subst (λ (x : InstrumentVenue). IsBook x.book) (eq_of_some (sym found ∙ f)) p
  | inr g ↦
      let far : id ≢ k = λ q. cc (sym (str_eq-same k) ∙ rw (q) at g) in
      h id v (sym (find-put-other id k w m far) ∙ f)
]

pub apply_inventory-book :
    (mm_owner : String) (fs : List Fill) (v : InstrumentVenue)
    → (apply_inventory mm_owner fs v).book ≡ v.book
unfolding apply_inventory
apply_inventory-book mm_owner [] v = refl
apply_inventory-book mm_owner (f ∷ fs) v = elim (Option-cases (mm_side mm_owner f)) [
  | inl e ↦ rw (e, apply_inventory) (apply_inventory-book mm_owner fs v)
  | inr (side, e) ↦ rw (e, apply_inventory) (apply_inventory-book mm_owner fs _)
]

withdraw-IsBook :
    (ds : List String) (s : SignedState) (book : NativeBook)
    → IsBook book
    → IsBook (withdraw ds (s, book)).1
unfolding withdraw
withdraw-IsBook [] s book h = h
withdraw-IsBook (d ∷ ds) s book h = withdraw-IsBook ds _ _ (cancel-IsBook book d h)

pub prune_expired-IsBook :
    (id : String) (now : ℕ) (s : SignedState) (book : NativeBook)
    → IsBook book
    → IsBook (prune_expired id now (s, book)).1
unfolding prune_expired
prune_expired-IsBook id now s book h =
    withdraw-IsBook (map (λ q. q.0) (select (is_expired id now) s.orders)) s book h

pub new-IsBook : (inst : Instrument) → pos 0 <ℤ inst.min_qty → IsBook (venue_of inst).book
unfolding venue_of new
new-IsBook inst h = record {
  min_positive = h;
  bids_side = record { resting = tt; sorted = tt; distinct = tt };
  asks_side = record { resting = tt; sorted = tt; distinct = tt };
  uncrossed = tt;
}

pub register_instrument-HasBooks :
    (inst : Instrument) (b : Venue)
    → pos 0 <ℤ inst.min_qty
    → HasBooks b.venues
    → HasBooks (register_instrument inst b).venues
unfolding register_instrument
register_instrument-HasBooks inst b q h = elim (Option-cases (find_name inst.id b.venues)) [
  | inl e ↦
      rw (e, register_instrument)
        (put-HasBooks inst.id (venue_of inst) b.venues h (new-IsBook inst q))
  | inr (v, e) ↦ rw (e, register_instrument) h
]

pub cancel_quotes-HasBooks :
    (id : String) (b : Venue) → HasBooks b.venues → HasBooks (cancel_quotes id b).venues
unfolding cancel_quotes pull_quotes
cancel_quotes-HasBooks id b h = elim (Option-cases (find_name id b.venues)) [
  | inl e ↦ rw (e, cancel_quotes) h
  | inr (v, e) ↦
      rw (e, cancel_quotes)
        (put-HasBooks id (pull_quotes b.mm_owner v b.signed).0 b.venues h
          (pull-IsBook (open_orders v.book b.mm_owner) v.book b.signed (h id v e)))
]

pub stop_making-HasBooks :
    (id : String) (b : Venue) → HasBooks b.venues → HasBooks (stop_making id b).0.venues
unfolding stop_making
stop_making-HasBooks id b h = elim (Option-cases (find_name id b.venues)) [
  | inl e ↦ rw (e, stop_making) h
  | inr (v, e) ↦
      rw (e, stop_making)
        (cancel_quotes-HasBooks id (with_venue id (record v { making = false }) b)
          (put-HasBooks id (record v { making = false }) b.venues h (h id v e)))
]

pub start_making-HasBooks :
    (id : String) (b : Venue) → HasBooks b.venues → HasBooks (start_making id b).0.venues
unfolding start_making
start_making-HasBooks id b h = elim (Option-cases (find_name id b.venues)) [
  | inl e ↦ rw (e, start_making) h
  | inr (v, e) ↦
      rw (e, start_making) (put-HasBooks id (record v { making = true }) b.venues h (h id v e))
]

pub cancel_order-HasBooks :
    (id order_id : String) (b : Venue)
    → HasBooks b.venues
    → HasBooks (cancel_order id order_id b).0.venues
unfolding cancel_order
cancel_order-HasBooks id order_id b h = elim (Option-cases (find_name id b.venues)) [
  | inl e ↦ rw (e, cancel_order) h
  | inr (v, e) ↦
      rw (e, cancel_order)
        (put-HasBooks id (record v { book = (cancel v.book order_id).0 }) b.venues h
          (cancel-IsBook v.book order_id (h id v e)))
]

after_legacy-HasBooks :
    (id order_id rail : String) (v : InstrumentVenue) (b : Venue) (book : NativeBook)
    (r : Result MatchError PlaceOutcome)
    → HasBooks b.venues
    → IsBook book
    → HasBooks (after_legacy id order_id rail v b (book, r)).0.venues
unfolding after_legacy
after_legacy-HasBooks id order_id rail v b book (err e) h p =
    put-HasBooks id (record v { book = book }) b.venues h p
after_legacy-HasBooks id order_id rail v b book panic h p =
    put-HasBooks id (record v { book = book }) b.venues h p
after_legacy-HasBooks id order_id rail v b book (ok out) h p =
    let v' : InstrumentVenue = record v { book = book } in
    put-HasBooks id (apply_inventory b.mm_owner out.fills v') b.venues h
      (subst IsBook (sym (apply_inventory-book b.mm_owner out.fills v')) p)

pub place_legacy-HasBooks :
    (id : String) (side : Side) (price qty : I64) (owner rail : String) (b : Venue)
    → InI64 qty
    → HasBooks b.venues
    → HasBooks (place_legacy id side price qty owner rail b).0.venues
unfolding place_legacy next_id
place_legacy-HasBooks id side price qty owner rail b q h =
    elim (Option-cases (find_name id b.venues)) [
      | inl e ↦ rw (e, place_legacy) h
      | inr (v, e) ↦
          rw (e, place_legacy)
            (after_legacy-HasBooks id _ rail v _ _ _ h (place-IsBook v.book _ (h id v e) q))
    ]
