-- ===== src/OrderBook/Reference.antt =====
-- crates/orderbook/src/native.rs: the prints of `place`, described without the loop: the quantity is
-- handed out in book order to the makers within the limit that belong to somebody else.
use mathlib.Core.List.{append-nil, append_assoc}
use inference_bazaar.Base.{
  ℕ, ◌<◌, ◌≡◌, ◌∙◌, refl, sym, ap, inl, inr, Bool, true, false, not, String, List, [], ◌∷◌, ◌++◌,
  none, some, arith, Bool-cases, str_eq, if◌then◌else◌, select,
}
use inference_bazaar.Base.Int.{ℤ, pos, eqb_ℤ, sub_i64, min_i64}
use inference_bazaar.OrderBook.Types.{Side, opposite, Order, Fill}
use inference_bazaar.OrderBook.Native.{NativeBook, side_of}
use inference_bazaar.OrderBook.Engine.{
  Matching, crosses, print, trade, round, round_against, match_loop, start, matched,
}
use inference_bazaar.OrderBook.Loop.{
  match_loop_inv, Round, own, other, rounds_left, match_loop_ends, min_uses_up, reduce_maker_all,
}

-- The makers, best first, that the limit reaches.
pub within_limit : Side → ℤ → List Order → List Order
within_limit side limit [] = []
within_limit side limit (m ∷ rest) =
    if crosses side m.price limit then m ∷ within_limit side limit rest else []

pub counterparties : Side → ℤ → String → List Order → List Order
unfolding within_limit
counterparties side limit owner makers =
    select (λ m. not (str_eq m.owner owner)) (within_limit side limit makers)

-- Each maker gets the smaller of what it has and what is left of the taker.
pub allocate : String → Order → List Order → List Fill
allocate inst taker [] = []
allocate inst taker (m ∷ rest) =
    let qty = min_i64 taker.qty m.qty in
    let more =
      print inst m taker qty ∷ allocate inst (record taker { qty = sub_i64 taker.qty qty }) rest in
    if eqb_ℤ taker.qty (pos 0) then [] else more

allocate-zero :
    (inst : String) (taker : Order) (ms : List Order)
    → eqb_ℤ taker.qty (pos 0) ≡ true
    → allocate inst taker ms ≡ []
unfolding allocate
allocate-zero inst taker [] e = refl
allocate-zero inst taker (m ∷ rest) e = rw e

module _ (inst : String) where
  -- What is still to be printed, by the reference.
  abbrev to_print : Matching → List Fill
  to_print s =
      allocate inst s.taker (counterparties s.taker.side s.taker.price s.taker.owner s.makers)

  Round-to_print :
      (s s' : Matching) → Round inst s s' → s.fills ++ to_print s ≡ s'.fills ++ to_print s'
  unfolding counterparties trade allocate print
  Round-to_print s _ (own m rest e z o c) = rw (e, c, o)
  Round-to_print s _ (other m rest e z o c) =
      let after = trade inst s m rest in
      elim (min_uses_up s.taker.qty m.qty) [
        | inl t ↦
            rw (e, c, o, z, append_assoc)
              (ap (λ l. s.fills ++ print inst m s.taker (min_i64 s.taker.qty m.qty) ∷ l)
                (allocate-zero inst after.taker _ (rw t refl)
                  ∙ sym (allocate-zero inst after.taker _ (rw t refl))))
        | inr u ↦
            rw (e, c, o, z, reduce_maker_all m (min_i64 s.taker.qty m.qty) rest u, append_assoc)
      ]

  ends-against :
      (s : Matching) (ms : List Order)
      → s.makers ≡ ms
      → round_against inst s ms ≡ none
      → to_print s ≡ []
  unfolding round_against counterparties allocate
  ends-against s [] e h = rw e
  ends-against s (m ∷ rest) e h = elim (Bool-cases (crosses s.taker.side m.price s.taker.price)) [
    | inl c ↦ absurd (going_on (str_eq m.owner s.taker.owner) _ _ (rw (c, round_against) at h))
    | inr c ↦ rw (e, c)
  ]
    where
      going_on : (b : Bool) (x y : Matching) → (if b then some x else some y) ≡ none → ⊥
      going_on true x y q = cc
      going_on false x y q = cc

  ends-to_print : (s : Matching) → round inst s ≡ none → to_print s ≡ []
  unfolding round
  ends-to_print s e = elim (Bool-cases (eqb_ℤ s.taker.qty (pos 0))) [
    | inl z ↦ allocate-zero inst s.taker _ z
    | inr z ↦ ends-against s s.makers refl (rw (z, round) at e)
  ]

  match_loop-to_print :
      (fuel : ℕ) (s : Matching)
      → rounds_left s < fuel
      → (match_loop inst fuel s).fills ≡ s.fills ++ to_print s
  match_loop-to_print fuel s h =
      sym (append-nil _)
      ∙ ap (λ l. (match_loop inst fuel s).fills ++ l)
          (sym (ends-to_print (match_loop inst fuel s) (match_loop_ends inst fuel s h)))
      ∙ match_loop_inv inst (λ s'. s'.fills ++ to_print s' ≡ s.fills ++ to_print s)
          (λ s₁ s₂ r p. sym (Round-to_print s₁ s₂ r) ∙ p) fuel s refl

-- The prints of a matching are exactly the reference's: the incoming quantity is handed out, best
-- maker first, to the makers on the other side that its limit reaches and that another owner has.
pub matched-fills :
    (b : NativeBook) (o : Order)
    → (matched b o).fills
      ≡ allocate b.instrument_id o
          (counterparties o.side o.price o.owner (side_of (opposite o.side) b))
unfolding matched start
matched-fills b o = match_loop-to_print b.instrument_id _ (start b o) (ground arith)
