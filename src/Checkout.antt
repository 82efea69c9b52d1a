-- ===== src/Checkout.antt =====
-- The money of a checkout, of app/services/order_service.py: the resolution of a promo code and the
-- total that is charged, in whole roubles.
pub mod Totals
pub mod Promos
pub mod Route
pub mod Placing
pub mod Once
pub mod Charged
pub mod Online
pub mod Stored
pub mod Accepted
pub mod Offered
use sieshka.Prelude.{
  ℕ, ◌+◌, ◌/◌, suc, Bool, true, false, ◌&&◌, not, String, Option, none, some, List, [], ◌∷◌, map,
  ◌==◌, string_eq, nat_eq, if◌then◌else◌,
}
use sieshka.Prelude.Int.{ℤ, pos, negsuc, ◌+ℤ◌, ◌-ℤ◌, ◌*ℤ◌, max_ℤ, min_ℤ, sum}
use sieshka.Fsm.Machines.{PromotionState}

pub record OrderItem : Type 0 where
  pub product_id : ℕ
  pub name : String
  pub price_rub : ℤ
  pub qty : ℤ

pub record PromoEffect : Type 0 where
  pub promotion_id : ℕ
  pub applied_code : String
  pub discount_rub : ℤ
  pub free_delivery : Bool

-- A row of `promotions`; the column `discount` has two decimals, and stands here in hundredths.
pub record PromotionRow : Type 0 where
  pub id : ℕ
  pub trigger_code : Option String
  pub is_active : Bool
  pub effect_type : String
  pub discount : ℤ

-- `int` of a number of hundredths.
abbrev pub truncate : ℤ → ℤ
truncate (pos n) = pos (n / 100)
truncate (negsuc n) = pos 0 -ℤ pos (suc n / 100)

-- What the code uses of Python and SQL: `strip` and `lower` on texts, and the product of a percentage
-- in floating point, `int(goods_total * float(discount) / 100)`.
module _ (strip lower : String → String) (percent_of : ℤ → ℤ → ℤ) where
  abbrev pub has_code : String → Option String → Bool
  has_code code none = false
  has_code code (some trigger) = lower trigger == lower code

  -- `WHERE lower(trigger_code) = lower(:code) AND state = 'ACTIVE'`.
  unfoldable pub matching : String → List PromotionRow → List PromotionRow
  matching code [] = []
  matching code (p ∷ promotions) =
      let rest = matching code promotions in
      if p.is_active && has_code code p.trigger_code then p ∷ rest else rest

  unfoldable pub effect_of : String → ℤ → PromotionRow → Option PromoEffect
  effect_of code goods_total p =
      if p.effect_type == "PERCENT_DISCOUNT"
      then some (record {
        promotion_id = p.id;
        applied_code = code;
        discount_rub = percent_of goods_total p.discount;
        free_delivery = false;
      })
      else if p.effect_type == "FIXED_AMOUNT"
      then some (record {
        promotion_id = p.id;
        applied_code = code;
        discount_rub = min_ℤ (truncate p.discount) goods_total;
        free_delivery = false;
      })
      else if p.effect_type == "FREE_DELIVERY"
      then some (record {
        promotion_id = p.id;
        applied_code = code;
        discount_rub = pos 0;
        free_delivery = true;
      })
      else none

  abbrev pub only_match : String → ℤ → List PromotionRow → Option PromoEffect
  only_match code goods_total (p ∷ []) = effect_of code goods_total p
  only_match code goods_total _ = none

  -- An unknown or ambiguous code is no error: there is just no effect.
  unfoldable pub resolve_promo_effect : List PromotionRow → Option String → ℤ → Option PromoEffect
  unfolding effect_of
  resolve_promo_effect promotions none goods_total = none
  resolve_promo_effect promotions (some promo_code) goods_total =
      let code = strip promo_code in
      if code == "" then none else only_match code goods_total (matching code promotions)

unfoldable pub goods_of : List OrderItem → ℤ
goods_of items = sum (map (λ (i : OrderItem). i.price_rub *ℤ i.qty) items)

-- `max(0, goods - discount)` with an effect, and the goods without one.
unfoldable pub discounted : ℤ → Option PromoEffect → ℤ
discounted goods none = goods
discounted goods (some effect) = max_ℤ (pos 0) (goods -ℤ effect.discount_rub)

unfoldable pub fee_of : ℤ → Option PromoEffect → Option ℤ → ℤ
fee_of setting (some effect) given =
    if effect.free_delivery then pos 0 else elim given [ none ↦ setting | some fee ↦ fee ]
fee_of setting none given = elim given [ none ↦ setting | some fee ↦ fee ]

-- `setting` is `settings.DELIVERY_FEE`, for an order whose zone is not known.
unfoldable pub compute_checkout_total :
    ℤ → List OrderItem → String → Option PromoEffect → Option ℤ → ℤ
unfolding goods_of discounted fee_of
compute_checkout_total setting items delivery_mode promo_effect delivery_fee =
    if delivery_mode == "pickup"
    then discounted (goods_of items) promo_effect
    else discounted (goods_of items) promo_effect +ℤ fee_of setting promo_effect delivery_fee
