-- ===== src/Checkout/Promos.antt =====
-- What it takes for a promo code to have an effect.
use sieshka.Prelude.{
  ◌≡◌, ◌⊎◌, refl, ap, inl, inr, Bool, true, false, ◌&&◌, String, Option, none, some, List, [], ◌∷◌,
  ◌++◌, All, arith, Bool-cases, eq_iff, ◌==◌, string_eq,
}
use sieshka.Prelude.Int.{ℤ, pos, ◌≤ℤ◌, min_ℤ, ltb_ℤ}
use sieshka.Checkout.{
  PromoEffect, PromotionRow, truncate, has_code, matching, effect_of, only_match,
  resolve_promo_effect,
}

min_ℤ_lem : (a b : ℤ) → min_ℤ a b ≤ℤ b
min_ℤ_lem a b = elim (Bool-cases (ltb_ℤ b a)) [
  | inl above ↦ rw above (omega arith)
  | inr below ↦ rw below (ground arith)
]

module _ (strip lower : String → String) (percent_of : ℤ → ℤ → ℤ) where
  -- A promotion that a code asks for: active, and with the code as its trigger up to the case of letters.
  abbrev pub Applies : String → PromotionRow → Type 0
  Applies code p =
      (p.is_active ≡ true)
      × (trigger : String) × (p.trigger_code ≡ some trigger)
      × (lower trigger ≡ lower code)

  -- What the three kinds of promotions give for goods of a price.
  abbrev pub Gives : ℤ → PromotionRow → PromoEffect → Type 0
  Gives goods_total p effect =
      ((p.effect_type ≡ "PERCENT_DISCOUNT")
        × (effect.discount_rub ≡ percent_of goods_total p.discount)
        × (effect.free_delivery ≡ false))
      ⊎ ((p.effect_type ≡ "FIXED_AMOUNT")
          × (effect.discount_rub ≡ min_ℤ (truncate p.discount) goods_total)
          × (effect.discount_rub ≤ℤ goods_total)
          × (effect.free_delivery ≡ false))
      ⊎ ((p.effect_type ≡ "FREE_DELIVERY")
          × (effect.discount_rub ≡ pos 0)
          × (effect.free_delivery ≡ true))

  -- The one promotion that a code asks for, and its effect.
  pub record IsEffectOf (code : String) (goods_total : ℤ) (promotions : List PromotionRow)
      (effect : PromoEffect) : Type 0 where
    pub before : List PromotionRow
    pub after : List PromotionRow
    pub promotion : PromotionRow
    pub split : promotions ≡ before ++ promotion ∷ after
    pub applies : Applies code promotion
    pub none_before : All (λ q. ¬ Applies code q) before
    pub none_after : All (λ q. ¬ Applies code q) after
    pub names_it : effect.promotion_id ≡ promotion.id
    pub names_code : effect.applied_code ≡ code
    pub gives : Gives goods_total promotion effect

  abbrev is_match : String → PromotionRow → Bool
  is_match code p = p.is_active && has_code strip lower percent_of code p.trigger_code

  Applies-match : (code : String) (p : PromotionRow) → Applies code p → is_match code p ≡ true
  Applies-match code p (active, trigger, triggered, same) =
      ground (arith, active, triggered, same, eq_iff (lower trigger) (lower code))

  trigger_lem :
      (code : String) (trigger_code : Option String)
      → has_code strip lower percent_of code trigger_code ≡ true
      → (trigger : String) × (trigger_code ≡ some trigger) × (lower trigger ≡ lower code)
  trigger_lem code none h = absurd (ground arith)
  trigger_lem code (some trigger) h = (trigger, refl, (eq_iff (lower trigger) (lower code)).0 h)

  match-Applies : (code : String) (p : PromotionRow) → is_match code p ≡ true → Applies code p
  match-Applies code p h =
      let (trigger, triggered, same) = trigger_lem code p.trigger_code (ground arith) in
      (ground arith, trigger, triggered, same)

  no_match : (code : String) (p : PromotionRow) → is_match code p ≡ false → ¬ Applies code p
  no_match code p h applies = absurd (ground (arith, Applies-match code p applies))

  none_match :
      (code : String) (ps : List PromotionRow)
      → matching strip lower percent_of code ps ≡ []
      → All (λ q. ¬ Applies code q) ps
  unfolding matching
  none_match code [] h = tt
  none_match code (p ∷ ps) h = (no_match code p (ground arith), none_match code ps (ground arith))

  -- The one row of an answer, among the rows that do not match.
  abbrev Alone : String → List PromotionRow → PromotionRow → Type 0
  Alone code ps p =
      (before : List PromotionRow) × (after : List PromotionRow) × (ps ≡ before ++ p ∷ after)
      × Applies code p
      × All (λ q. ¬ Applies code q) before
      × All (λ q. ¬ Applies code q) after

  one_match :
      (code : String) (ps : List PromotionRow) (p : PromotionRow)
      → matching strip lower percent_of code ps ≡ p ∷ []
      → Alone code ps p
  unfolding matching
  one_match code [] p h = absurd (ground arith)
  one_match code (q ∷ ps) p h = elim (Bool-cases (is_match code q)) [
    | inl yes_q ↦ (
      [],
      ps,
      ground arith,
      match-Applies code p (ground arith),
      tt,
      none_match code ps (ground arith),
    )
    | inr no_q ↦
        let (before, after, split, applies, none_b, none_a) = one_match code ps p (ground arith) in
        (q ∷ before, after, ap (λ r. q ∷ r) split, applies, (no_match code q no_q, none_b), none_a)
  ]

  gives_lem :
      (code : String) (goods_total : ℤ) (p : PromotionRow) (effect : PromoEffect)
      → effect_of strip lower percent_of code goods_total p ≡ some effect
      → Gives goods_total p effect
  unfolding effect_of
  gives_lem code goods_total p effect h = elim (Bool-cases (p.effect_type == "PERCENT_DISCOUNT")) [
    | inl percent ↦
        inl ((eq_iff p.effect_type "PERCENT_DISCOUNT").0 percent, ground arith, ground arith)
    | inr other ↦ elim (Bool-cases (p.effect_type == "FIXED_AMOUNT")) [
      | inl fixed ↦ inr (
          inl (
            (eq_iff p.effect_type "FIXED_AMOUNT").0 fixed,
            ground arith,
            ground (arith, min_ℤ_lem (truncate p.discount) goods_total),
            ground arith,
          ))
      | inr third ↦
          inr
            (inr (ground (arith, eq_iff p.effect_type "FREE_DELIVERY"), ground arith, ground arith))
    ]
  ]

  effect_lem :
      (code : String) (goods_total : ℤ) (p : PromotionRow) (effect : PromoEffect)
      → effect_of strip lower percent_of code goods_total p ≡ some effect
      → (effect.promotion_id ≡ p.id) × (effect.applied_code ≡ code) × Gives goods_total p effect
  unfolding effect_of
  effect_lem code goods_total p effect h =
      (ground arith, ground arith, gives_lem code goods_total p effect h)

  of_one :
      (code : String) (goods_total : ℤ) (promotions ps : List PromotionRow) (effect : PromoEffect)
      → matching strip lower percent_of code promotions ≡ ps
      → only_match strip lower percent_of code goods_total ps ≡ some effect
      → IsEffectOf code goods_total promotions effect
  of_one code goods_total promotions [] effect m h = absurd (ground arith)
  of_one code goods_total promotions (p ∷ q ∷ ps) effect m h = absurd (ground arith)
  of_one code goods_total promotions (p ∷ []) effect m h =
      let (before, after, split, applies, none_b, none_a) = one_match code promotions p m in
      let (id, named, gives) = effect_lem code goods_total p effect h in
      record {
        before = before;
        after = after;
        promotion = p;
        split = split;
        applies = applies;
        none_before = none_b;
        none_after = none_a;
        names_it = id;
        names_code = named;
        gives = gives;
      }

  -- A promo code has an effect only if exactly one promotion is active and has that trigger, up to the case of
  -- letters: the effect names that promotion and the code without the blanks around it, and it is that of the
  -- promotion's type: a percentage of the goods, a fixed amount that is never more than the goods, or a free
  -- delivery.
  pub resolve_promo_effect-IsEffectOf :
      (promotions : List PromotionRow) (promo_code : String) (goods_total : ℤ)
      (effect : PromoEffect)
      → resolve_promo_effect strip lower percent_of promotions (some promo_code) goods_total
        ≡ some effect
      → IsEffectOf (strip promo_code) goods_total promotions effect
  unfolding resolve_promo_effect
  resolve_promo_effect-IsEffectOf promotions promo_code goods_total effect h =
      elim (Bool-cases (strip promo_code == "")) [
        | inl blank ↦ absurd (ground arith)
        | inr named ↦
            of_one (strip promo_code) goods_total promotions
              (matching strip lower percent_of (strip promo_code) promotions) effect refl
              (rw named at h)
      ]
