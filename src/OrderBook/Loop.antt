-- ===== src/OrderBook/Loop.antt =====
-- crates/orderbook/src/native.rs: the matching loop of `place`, its rounds and its end.
use inference_bazaar.Base.{
  ℕ, zero, suc, ◌+◌, ◌≤◌, ◌<◌, ◌⊎◌, length, if◌then◌else◌, arith, none, ◌≡◌, refl, inl, inr, true,
  false, String, List, [], ◌∷◌, some, Bool-cases, eq_of_some, Option-cases, str_eq, subst,
}
use inference_bazaar.Base.Int.{ℤ, pos, negsuc, leb_ℤ, eqb_ℤ, sub_i64, min_i64, wrap_i64, ◌-ℤ◌}
use inference_bazaar.OrderBook.Types.{Order, opposite}
use inference_bazaar.OrderBook.Native.{NativeBook, side_of}
use inference_bazaar.OrderBook.Engine.{
  Matching, crosses, trade, reduce_maker, round, round_against, match_loop, start, matched,
}

-- A round that goes on: against the taker's own maker, or against another's.
pub data Round (inst : String) (s : Matching) : Matching → Type 0 where
  own :
      (maker : Order) (rest : List Order)
      → s.makers ≡ maker ∷ rest
      → eqb_ℤ s.taker.qty (pos 0) ≡ false
      → str_eq maker.owner s.taker.owner ≡ true
      → crosses s.taker.side maker.price s.taker.price ≡ true
      → Round inst s (record s { makers = rest })
  other :
      (maker : Order) (rest : List Order)
      → s.makers ≡ maker ∷ rest
      → eqb_ℤ s.taker.qty (pos 0) ≡ false
      → str_eq maker.owner s.taker.owner ≡ false
      → crosses s.taker.side maker.price s.taker.price ≡ true
      → Round inst s (trade inst s maker rest)

module _ (inst : String) where
  against-Round :
      (s : Matching) {s' : Matching} (ms : List Order)
      → eqb_ℤ s.taker.qty (pos 0) ≡ false
      → s.makers ≡ ms
      → round_against inst s ms ≡ some s'
      → Round inst s s'
  unfolding round_against
  against-Round s [] z e h = cc
  against-Round s (m ∷ rest) z e h =
      elim (Bool-cases (crosses s.taker.side m.price s.taker.price)) [
        | inr c ↦ cc (rw (c, round_against) at h)
        | inl c ↦ elim (Bool-cases (str_eq m.owner s.taker.owner)) [
          | inl o ↦
              subst (Round inst s) (eq_of_some (rw (c, o, round_against) at h)) (own m rest e z o c)
          | inr o ↦
              subst (Round inst s) (eq_of_some (rw (c, o, round_against) at h))
                (other m rest e z o c)
        ]
      ]

  pub round-Round : (s : Matching) {s' : Matching} → round inst s ≡ some s' → Round inst s s'
  unfolding round
  round-Round s h = elim (Bool-cases (eqb_ℤ s.taker.qty (pos 0))) [
    | inl z ↦ cc (rw (z, round) at h)
    | inr z ↦ against-Round s s.makers z refl (rw (z, round) at h)
  ]

  -- An invariant of the rounds holds when the loop ends.
  pub match_loop_inv {ℓ} :
      (P : Matching → Type ℓ)
      → ((s s' : Matching) → Round inst s s' → P s → P s')
      → (fuel : ℕ) (s : Matching) → P s
      → P (match_loop inst fuel s)
  unfolding match_loop
  match_loop_inv P keep zero s p = p
  match_loop_inv P keep (suc fuel) s p = elim (Option-cases (round inst s)) [
    | inl e ↦ rw (e, match_loop) p
    | inr (s', e) ↦
        rw (e, match_loop) (match_loop_inv P keep fuel s' (keep s s' (round-Round s e) p))
  ]

-- The rounds that may still come: one for each maker, and one for what is left of the taker.
abbrev pub rounds_left : Matching → ℕ
rounds_left s = length s.makers + (if eqb_ℤ s.taker.qty (pos 0) then 0 else 1)

sub_self : (a : ℤ) → sub_i64 a a ≡ pos 0
unfolding sub_i64 wrap_i64 ◌-ℤ◌
sub_self (pos n) = ground arith
sub_self (negsuc n) = ground arith

-- A print takes all of the taker or all of the maker.
pub min_uses_up : (a b : ℤ) → (sub_i64 a (min_i64 a b) ≡ pos 0) ⊎ (sub_i64 b (min_i64 a b) ≡ pos 0)
min_uses_up a b = elim (Bool-cases (leb_ℤ a b)) [
  | inl e ↦ inl (rw e (sub_self a))
  | inr e ↦ inr (rw e (sub_self b))
]

length-reduce_maker :
    (m : Order) (q : ℤ) (rest : List Order) → length (reduce_maker m q rest) ≤ suc (length rest)
unfolding reduce_maker
length-reduce_maker m q rest = ground arith

pub reduce_maker_all :
    (m : Order) (q : ℤ) (rest : List Order) → sub_i64 m.qty q ≡ pos 0 → reduce_maker m q rest ≡ rest
unfolding reduce_maker
reduce_maker_all m q rest e = rw e

module _ (inst : String) where
  -- Each round leaves fewer rounds.
  pub Round-rounds_left : (s s' : Matching) → Round inst s s' → rounds_left s' < rounds_left s
  unfolding trade
  Round-rounds_left s _ (own m rest e z o c) = rw (e, z) (omega arith)
  Round-rounds_left s _ (other m rest e z o c) = elim (min_uses_up s.taker.qty m.qty) [
    | inl t ↦ rw (e, z, t) (omega (arith, length-reduce_maker m (min_i64 s.taker.qty m.qty) rest))
    | inr u ↦ rw (e, z, reduce_maker_all m (min_i64 s.taker.qty m.qty) rest u) (ground arith)
  ]

  -- With fuel for the rounds left the loop ends by a `break`.
  pub match_loop_ends :
      (fuel : ℕ) (s : Matching) → rounds_left s < fuel → round inst (match_loop inst fuel s) ≡ none
  unfolding match_loop
  match_loop_ends zero s h = absurd (omega arith)
  match_loop_ends (suc fuel) s h = elim (Option-cases (round inst s)) [
    | inl e ↦ rw (e, match_loop) e
    | inr (s', e) ↦
        rw (e, match_loop)
          (match_loop_ends fuel s' (omega (arith, Round-rounds_left s s' (round-Round inst s e))))
  ]

-- The fuel that a matching is given is enough: for every book and every order the loop ends by
-- itself, in a state in which no round is left to do.
pub matched-ends :
    (b : NativeBook) (incoming : Order) → round b.instrument_id (matched b incoming) ≡ none
unfolding matched start
matched-ends b incoming =
    match_loop_ends b.instrument_id (suc (suc (length (side_of (opposite incoming.side) b))))
      (start b incoming) (ground arith)
