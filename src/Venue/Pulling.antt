-- ===== src/Venue/Pulling.antt =====
-- operator/src/venue.rs: when making stops, the operator's quotes leave the book and nothing else.
use inference_bazaar.Base.{
  ◌≡◌, ◌≢◌, refl, sym, ap, subst, ◌∙◌, String, str_eq, List, [], ◌∷◌, ◌++◌, some, Bool, true, false,
  not, inl, inr, arith, All, select, any, Bool-cases, eq_iff,
}
use inference_bazaar.Base.Names.{find_name, find-put, find-drop-other}
use inference_bazaar.OrderBook.Types.{Order}
use inference_bazaar.OrderBook.Native.{NativeBook, has_id, remove}
use inference_bazaar.OrderBook.Engine.{cancel, open_orders}
use inference_bazaar.OrderBook.Side.{Distinct}
use inference_bazaar.OrderBook.Invariant.{IsBook}
use inference_bazaar.OrderBook.Keeps.{cancel-IsBook}
use inference_bazaar.OrderBook.Cancel.{find_order, cancel_lem, remove-found, other_ids, bid_not_ask}
use inference_bazaar.Venue.Types.{SignedState, InstrumentVenue, Venue}
use inference_bazaar.Venue.Listing.{with_venue, pull, pull_quotes, cancel_quotes, stop_making}
use inference_bazaar.Venue.Signed.{with_market}

module _ {A : Type 0} where
  select-append : (p : A → Bool) (xs ys : List A) → select p (xs ++ ys) ≡ select p xs ++ select p ys
  select-append p [] ys = refl
  select-append p (x ∷ xs) ys = ground (arith, select-append p xs ys)

  select-swap : (p q : A → Bool) (xs : List A) → select p (select q xs) ≡ select q (select p xs)
  select-swap p q [] = refl
  select-swap p q (x ∷ xs) = elim (Bool-cases (p x)) [
    | inl e ↦ elim (Bool-cases (q x)) [
      | inl f ↦ rw (f, e, f) (ap (λ zs. x ∷ zs) (select-swap p q xs))
      | inr f ↦ rw (f, e, f) (select-swap p q xs)
    ]
    | inr e ↦ elim (Bool-cases (q x)) [
      | inl f ↦ rw (f, e) (select-swap p q xs)
      | inr f ↦ rw (f, e) (select-swap p q xs)
    ]
  ]

-- The orders with other ids than one.
abbrev others : String → List Order → List Order
others id os = select (λ o. not (has_id id o)) os

others-none : (id : String) (os : List Order) → any (has_id id) os ≡ false → others id os ≡ os
others-none id [] h = refl
others-none id (o ∷ os) h = elim (Bool-cases (has_id id o)) [
  | inl e ↦ cc (rw (e) at h)
  | inr e ↦ rw (e) (ap (λ zs. o ∷ zs) (others-none id os (rw (e) at h)))
]

-- In a list of distinct ids, `remove` takes all orders with the id.
remove-others : (id : String) (os : List Order) → Distinct os → (remove os id).0 ≡ others id os
unfolding remove
remove-others id [] d = refl
remove-others id (o ∷ os) d = elim (Bool-cases (has_id id o)) [
  | inl e ↦ rw (e) (sym (others-none id os (other_ids id os (rw ((eq_iff o.id id).0 e) at d.0))))
  | inr e ↦ rw (e) (ap (λ zs. o ∷ zs) (remove-others id os d.1))
]

orders_of : NativeBook → List Order
orders_of b = b.bids ++ b.asks

cancel-others :
    (b : NativeBook) (id : String) → IsBook b → orders_of (cancel b id).0 ≡ others id (orders_of b)
unfolding cancel orders_of
cancel-others b id h =
    let bids = remove-others id b.bids h.bids_side.distinct in
    let asks = remove-others id b.asks h.asks_side.distinct in
    let parts = select-append (λ o. not (has_id id o)) b.bids b.asks in
    elim (Bool-cases (remove b.bids id).1) [
      | inl e ↦
          let here = sym (remove-found id b.bids) ∙ e in
          let same = others-none id b.asks (bid_not_ask id b.bids b.asks h.uncrossed here) in
          rw (e) (rw (bids, parts, same) refl)
      | inr e ↦ rw (e) (rw (bids, asks, parts) refl)
    ]

-- A list without the ids of another.
without : List Order → List Order → List Order
without [] os = os
without (x ∷ xs) os = without xs (others x.id os)

without-select :
    (p : Order → Bool) (xs os : List Order) → select p (without xs os) ≡ without xs (select p os)
unfolding without
without-select p [] os = refl
without-select p (x ∷ xs) os =
    without-select p xs (others x.id os)
    ∙ ap (without xs) (select-swap p (λ o. not (has_id x.id o)) os)

without_self : (os : List Order) → without os os ≡ []
unfolding without
without_self [] = refl
without_self (x ∷ xs) =
    let own : has_id x.id x ≡ true = (eq_iff x.id x.id).1 refl in
    let tail : others x.id (x ∷ xs) ≡ others x.id xs = rw (own) refl in
    ap (without xs) tail
    ∙ sym (without-select (λ o. not (has_id x.id o)) xs xs)
    ∙ ap (others x.id) (without_self xs)

pub pull-IsBook :
    (os : List Order) (b : NativeBook) (s : SignedState) → IsBook b → IsBook (pull os (b, s)).0
unfolding pull
pull-IsBook [] b s h = h
pull-IsBook (o ∷ os) b s h = pull-IsBook os _ _ (cancel-IsBook b o.id h)

pull-orders :
    (os : List Order) (b : NativeBook) (s : SignedState)
    → IsBook b
    → orders_of (pull os (b, s)).0 ≡ without os (orders_of b)
unfolding pull without
pull-orders [] b s h = refl
pull-orders (o ∷ os) b s h =
    pull-orders os _ _ (cancel-IsBook b o.id h) ∙ ap (without os) (cancel-others b o.id h)

-- What an id finds in a book and in the signed orders stays.
pub record IsSpared (j : String) (b b' : NativeBook) (s s' : SignedState) : Type 0 where
  pub bid : find_order j b'.bids ≡ find_order j b.bids
  pub ask : find_order j b'.asks ≡ find_order j b.asks
  pub signed : find_name j s'.orders ≡ find_name j s.orders
  pub filled : find_name j s'.filled ≡ find_name j s.filled

pull-IsSpared :
    (j : String) (os : List Order) (b : NativeBook) (s : SignedState)
    → IsBook b
    → All (λ (o : Order). j ≢ o.id) os
    → IsSpared j b (pull os (b, s)).0 s (pull os (b, s)).1
unfolding pull
pull-IsSpared j [] b s h all = record { bid = refl; ask = refl; signed = refl; filled = refl }
pull-IsSpared j (o ∷ os) b s h all =
    let rest = pull-IsSpared j os _ _ (cancel-IsBook b o.id h) all.1 in
    let one = cancel_lem b o.id j h all.0 in
    record {
      bid = rest.bid ∙ one.2;
      ask = rest.ask ∙ one.3;
      signed = rest.signed ∙ find-drop-other j o.id s.orders all.0;
      filled = rest.filled ∙ find-drop-other j o.id s.filled all.0;
    }

-- A market that is no longer made.
pub record IsStopped (id : String) (v : InstrumentVenue) (b b' : Venue) : Type 0 where
  pub market : InstrumentVenue
  pub listed : find_name id b'.venues ≡ some market
  pub stopped : market.making ≡ false
  pub well_formed : IsBook market.book
  pub no_quotes : open_orders market.book b.mm_owner ≡ []
  pub spared :
      (j : String)
      → All (λ (o : Order). j ≢ o.id) (open_orders v.book b.mm_owner)
      → IsSpared j v.book market.book b.signed b'.signed

-- After making stops in a market whose book is well-formed, the market is not made and its book is
-- well-formed and holds no order of the operator; an id that was no order of the operator's in this
-- book finds the same bid, ask, signed order and fill count as before.
pub stop_making-IsStopped :
    (id : String) (v : InstrumentVenue) (b : Venue)
    → find_name id b.venues ≡ some v
    → IsBook v.book
    → IsStopped id v b (stop_making id b).0
unfolding stop_making cancel_quotes pull_quotes open_orders orders_of
stop_making-IsStopped id v b e h =
    let own = open_orders v.book b.mm_owner in
    let stopped : InstrumentVenue = record v { making = false } in
    let b1 = with_venue id stopped b in
    let found : find_name id b1.venues ≡ some stopped = find-put id stopped b.venues in
    let pulled = pull_quotes b.mm_owner stopped b.signed in
    let same : (stop_making id b).0 ≡ with_market id pulled.0 pulled.1 b1 =
      rw (e, stop_making) (rw (found, cancel_quotes) refl) in
    subst (IsStopped id v b) (sym same) (record {
      market = pulled.0;
      listed = find-put id pulled.0 b1.venues;
      stopped = refl;
      well_formed = pull-IsBook own v.book b.signed h;
      no_quotes =
          ap (select (λ o. str_eq o.owner b.mm_owner)) (pull-orders own v.book b.signed h)
          ∙ without-select (λ o. str_eq o.owner b.mm_owner) own (v.book.bids ++ v.book.asks)
          ∙ without_self own;
      spared = λ j all. pull-IsSpared j own v.book b.signed h all;
    })
