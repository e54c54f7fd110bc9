-- ===== src/Venue/Ticks.antt =====
-- operator/src/venue.rs: the ladder of a market-making tick costs no more than the budgets.
use inference_bazaar.Base.{
  true, false, ℕ, ◌≤◌, ◌≡◌, arith, refl, sym, ap, ◌∙◌, String, List, [], ◌∷◌, Option, some, Bool,
  inl, inr, All, Result, ok, err, panic, Bool-cases, Option-cases, Result-cases, eq_of_ok,
}
use inference_bazaar.Base.Names.{find_name}
use inference_bazaar.Settlement.Types.{Crypto}
use inference_bazaar.OrderBook.Types.{buy, sell}
use inference_bazaar.Venue.Types.{Venue, VenueError, InstrumentVenue}
use inference_bazaar.Venue.Signed.{with_market}
use inference_bazaar.Venue.Outbox.{quote_budgets}
use inference_bazaar.Venue.Listing.{cancel_quotes, pull_quotes}
use inference_bazaar.Venue.Making.{
  Rung, LadderQuote, cut_rung, Tick, place_rung, place_ladder, finish_tick, requote, tick_market,
  mm_tick, least_of,
}
use inference_bazaar.Venue.Laddering.{
  IsRung, ladder_cost, WithinBudget, after_rung-WithinBudget, InBudget-costs,
}

module _ (c : Crypto) (now nanos : ℕ) (id : String) where
  place_rung-WithinBudget :
      (first : Option (ℕ × ℕ)) (least : ℕ) (r : Rung) (kept : ℕ) (left : Option (ℕ × ℕ)) (t : Tick)
      → IsRung r
      → WithinBudget first t
      → cut_rung least r t.budgets ≡ some (kept, left)
      → WithinBudget first (place_rung c now nanos id (r.0, (r.1.0, kept)) left t).0
  unfolding place_rung
  place_rung-WithinBudget first least r kept left t w h e =
      after_rung-WithinBudget first least r kept left t _ _ w h e

  place_ladder-WithinBudget :
      (first : Option (ℕ × ℕ)) (least : ℕ) (rs : List Rung) (t : Tick)
      → All IsRung rs
      → WithinBudget first t
      → WithinBudget first (place_ladder c now nanos id least rs t).0
  unfolding place_ladder
  place_ladder-WithinBudget first least [] t all h = h
  place_ladder-WithinBudget first least (r ∷ rs) t all h =
      elim (Option-cases (cut_rung least r t.budgets)) [
        | inl e ↦ rw (e, place_ladder) (place_ladder-WithinBudget first least rs t all.1 h)
        | inr ((kept, left), e) ↦
            let step = place_rung c now nanos id (r.0, (r.1.0, kept)) left t in
            let h' = place_rung-WithinBudget first least r kept left t all.0 h e in
            elim (Result-cases step.1) [
              | inl (u, f) ↦
                  rw (e, f, place_ladder) (place_ladder-WithinBudget first least rs step.0 all.1 h')
              | inr (inl (x, f)) ↦ rw (e, f, place_ladder) h'
              | inr (inr f) ↦ rw (e, f, place_ladder) h'
            ]
      ]

  finish_tick-placed :
      (t : Tick) (r : Result VenueError (Unit {0})) (placed : List Rung)
      → (finish_tick c now id (t, r)).1 ≡ ok placed
      → t.placed ≡ placed
  unfolding finish_tick
  finish_tick-placed t (err x) placed h = cc
  finish_tick-placed t panic placed h = cc
  finish_tick-placed t (ok u) placed h = elim (Option-cases t.venue.settle) [
    | inl e ↦ eq_of_ok (rw (e, finish_tick) at h)
    | inr (ctx, e) ↦ eq_of_ok (rw (e, finish_tick) at h)
  ]

  requote-IsFunded :
      (q : LadderQuote) (v : InstrumentVenue) (b : Venue) (S B : ℕ) (placed : List Rung)
      → All IsRung q.rungs
      → quote_budgets now (record b { signed = (pull_quotes b.mm_owner v b.signed).1 })
        ≡ some (S, B)
      → (requote c now nanos id q v b).1 ≡ ok placed
      → (ladder_cost sell placed ≤ S) × (ladder_cost buy placed ≤ B)
  unfolding requote
  requote-IsFunded q v b S B placed all known h = elim (Bool-cases q.valid) [
    | inr e ↦
        let same : [] ≡ placed = eq_of_ok (rw (e, requote) at h) in
        rw (← same) (omega arith, omega arith)
    | inl e ↦
        let v' = (pull_quotes b.mm_owner v b.signed).0 in
        let b' = record b { signed = (pull_quotes b.mm_owner v b.signed).1 } in
        let start : Tick = record {
          venue = b';
          market = v';
          placed = [];
          fills = [];
          budgets = quote_budgets now b';
        } in
        let last = place_ladder c now nanos id (least_of v') q.rungs start in
        let same : last.0.placed ≡ placed =
          finish_tick-placed last.0 last.1 placed (rw (e, requote) at h) in
        let within : WithinBudget (some (S, B)) last.0 =
          place_ladder-WithinBudget (some (S, B)) (least_of v') q.rungs start all
            (rw (known) (omega arith, omega arith)) in
        rw (← same) (InBudget-costs S B last.0.placed last.0.budgets within)
  ]

  tick_market-IsFunded :
      (making has_reference : Bool) (q : LadderQuote) (v : InstrumentVenue) (b : Venue) (S B : ℕ)
      (placed : List Rung)
      → All IsRung q.rungs
      → quote_budgets now (record b { signed = (pull_quotes b.mm_owner v b.signed).1 })
        ≡ some (S, B)
      → (tick_market c now nanos id making has_reference (some q) v b).1 ≡ ok placed
      → (ladder_cost sell placed ≤ S) × (ladder_cost buy placed ≤ B)
  unfolding tick_market
  tick_market-IsFunded false has_reference q v b S B placed all known h =
      let same : [] ≡ placed = eq_of_ok h in rw (← same) (omega arith, omega arith)
  tick_market-IsFunded true false q v b S B placed all known h = cc
  tick_market-IsFunded true true q v b S B placed all known h =
      requote-IsFunded q v b S B placed all known h

  -- The ladder that a tick places, when the book refuses none of it, costs at most the budgets that
  -- the operator has once its stale quotes are pulled, on each side and for all rungs together.
  -- The rungs' prices are of 64 bits, and their sizes below 2 ^ 53, where a double is exact.
  pub mm_tick-IsFunded :
      (has_reference : Bool) (q : LadderQuote) (b : Venue) (S B : ℕ) (placed : List Rung)
      → All IsRung q.rungs
      → quote_budgets now (cancel_quotes id b) ≡ some (S, B)
      → (mm_tick c now nanos id has_reference (some q) b).1 ≡ ok placed
      → (ladder_cost sell placed ≤ S) × (ladder_cost buy placed ≤ B)
  unfolding mm_tick cancel_quotes quote_budgets
  mm_tick-IsFunded has_reference q b S B placed all known h =
      elim (Option-cases (find_name id b.venues)) [
        | inl e ↦ cc (rw (e, mm_tick) at h)
        | inr (v, e) ↦
            let pulled = pull_quotes b.mm_owner v b.signed in
            let same : cancel_quotes id b ≡ with_market id pulled.0 pulled.1 b =
              rw (e, cancel_quotes) refl in
            tick_market-IsFunded v.making has_reference q v b S B placed all
              (sym (ap (quote_budgets now) same) ∙ known) (rw (e, mm_tick) at h)
      ]
