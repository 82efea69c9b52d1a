-- ===== src/Checkout/Totals.antt =====
-- What a total can be, and what a promo code can do to it.
use sieshka.Prelude.{
  ◌≡◌, refl, ◌⊎◌, inl, inr, String, Option, none, some, List, [], ◌∷◌, arith, Bool-cases, All, ◌==◌,
  string_eq,
}
use sieshka.Prelude.Int.{ℤ, pos, negsuc, ◌≤ℤ◌, ◌+ℤ◌, ◌-ℤ◌, ◌*ℤ◌, max_ℤ, ltb_ℤ, +ℤ_parts, -ℤ_parts}
use sieshka.Checkout.{OrderItem, PromoEffect, goods_of, discounted, fee_of, compute_checkout_total}

-- What the checkout's items are: a price and a number of pieces, neither of them negative.
pub record IsPriced (i : OrderItem) : Type 0 where
  pub price_nonneg : pos 0 ≤ℤ i.price_rub
  pub qty_nonneg : pos 0 ≤ℤ i.qty

times_nonneg : (a b : ℤ) → pos 0 ≤ℤ a → pos 0 ≤ℤ b → pos 0 ≤ℤ a *ℤ b
unfolding ◌*ℤ◌
times_nonneg (pos a) (pos b) h g = ground arith
times_nonneg (negsuc a) b h g = absurd (omega arith)
times_nonneg (pos a) (negsuc b) h g = absurd (omega arith)

goods_nonneg : (items : List OrderItem) → All IsPriced items → pos 0 ≤ℤ goods_of items
unfolding goods_of
goods_nonneg [] h = omega arith
goods_nonneg (i ∷ items) (h, hs) = omega (
  arith,
  +ℤ_parts (i.price_rub *ℤ i.qty) (goods_of items),
  times_nonneg i.price_rub i.qty h.price_nonneg h.qty_nonneg,
  goods_nonneg items hs,
)

max_ℤ_cases : (a b : ℤ) → ((max_ℤ a b ≡ a) × (b ≤ℤ a)) ⊎ ((max_ℤ a b ≡ b) × (a ≤ℤ b))
max_ℤ_cases a b = elim (Bool-cases (ltb_ℤ a b)) [
  | inl above ↦ inr (rw above refl, ground arith)
  | inr below ↦ inl (rw below refl, ground arith)
]

abbrev Between : ℤ → ℤ → Type 0
Between a b = (pos 0 ≤ℤ a) × (a ≤ℤ b)

-- A discount that is not negative takes nothing below zero and adds nothing.
discounted_bounds :
    (goods : ℤ) (effect : PromoEffect)
    → pos 0 ≤ℤ goods
    → pos 0 ≤ℤ effect.discount_rub
    → Between (discounted goods (some effect)) goods
unfolding discounted
discounted_bounds goods effect h g = elim (max_ℤ_cases (pos 0) (goods -ℤ effect.discount_rub)) [
  | inl (e, le) ↦ rw e (omega arith, h)
  | inr (e, le) ↦ rw e (le, omega (arith, -ℤ_parts goods effect.discount_rub))
]

fee_bounds :
    (setting : ℤ) (effect : PromoEffect) (given : Option ℤ)
    → pos 0 ≤ℤ fee_of setting none given
    → Between (fee_of setting (some effect) given) (fee_of setting none given)
unfolding fee_of
fee_bounds setting effect given h = elim (Bool-cases effect.free_delivery) [
  | inl free ↦ rw free (omega arith, h)
  | inr charged ↦ rw charged (h, omega arith)
]

add_bounds : (a b c d : ℤ) → Between a b → Between c d → Between (a +ℤ c) (b +ℤ d)
add_bounds a b c d (h, h') (g, g') =
    (omega (arith, +ℤ_parts a c), omega (arith, +ℤ_parts a c, +ℤ_parts b d))

-- For items whose prices and numbers are not negative, a fee that is not negative and an effect whose
-- discount is not negative: the total with the effect is not negative, and it is at most the total
-- without it, for a delivery as for a pickup.
pub promo_only_lowers :
    (setting : ℤ) (items : List OrderItem) (mode : String) (effect : PromoEffect) (given : Option ℤ)
    → All IsPriced items
    → pos 0 ≤ℤ effect.discount_rub
    → pos 0 ≤ℤ fee_of setting none given
    → (pos 0 ≤ℤ compute_checkout_total setting items mode (some effect) given)
      × (compute_checkout_total setting items mode (some effect) given
          ≤ℤ compute_checkout_total setting items mode none given)
unfolding compute_checkout_total
promo_only_lowers setting items mode effect given priced h g =
    let goods = discounted_bounds (goods_of items) effect (goods_nonneg items priced) h in
    elim (Bool-cases (mode == "pickup")) [
      | inl picked ↦ rw picked (unfold discounted in goods)
      | inr delivered ↦ rw delivered (
          unfold discounted in
          add_bounds (discounted (goods_of items) (some effect)) (goods_of items)
            (fee_of setting (some effect) given) (fee_of setting none given) goods
            (fee_bounds setting effect given g))
    ]
