-- ===== src/Tests/Staff.antt =====
-- The theorems about the kitchen, the staff and the checkout at concrete inputs.
use sieshka.Prelude.{
  ℕ, ◌==◌, if◌then◌else◌, ◌≡◌, refl, true, false, none, some, [], ◌∷◌, arith, nat_eq, string_eq,
}
use sieshka.Prelude.Int.{pos, ◌≤ℤ◌}
use sieshka.Prelude.Dict.{lookup}
use sieshka.Fsm.{moved}
use sieshka.Fsm.Machines.{kitchen_transitions, new, queue, handed_off, hand_off}
use sieshka.Database.{Db, ok}
use sieshka.Services.Order.Transition.{state_of, MovedOne}
use sieshka.Services.Kitchen.{transition_ticket}
use sieshka.Services.Kitchen.Handoff.{
  ticket_state_of, TicketOutcome, transition_ticket-TicketOutcome,
}
use sieshka.Services.Kitchen.Closing.{next_stop, hand_off_advances}
use sieshka.Services.Dispatch.{courier, dispatch_order}
use sieshka.Services.Dispatch.Permitted.{Permitted, dispatch_order-Permitted}
use sieshka.Checkout.Promos.{IsEffectOf, resolve_promo_effect-IsEffectOf}
use sieshka.Checkout.{
  PromotionRow, matching, effect_of, resolve_promo_effect, OrderItem, PromoEffect, fee_of,
  compute_checkout_total,
}
use sieshka.Checkout.Totals.{IsPriced, promo_only_lowers}
use sieshka.Tests.{platform_test, shop}

transition_ticket-TicketOutcome_example :
    TicketOutcome
      (kitchen_transitions new queue)
      4
      queue
      shop
      (transition_ticket platform_test 4 queue shop)
unfolding lookup
transition_ticket-TicketOutcome_example =
    transition_ticket-TicketOutcome platform_test 4 queue shop refl

hand_off_advances_example :
    (db' : Db) × (transition_ticket platform_test 6 hand_off shop ≡ (ok (moved handed_off), db'))
    × MovedOne 9 (next_stop "pickup") shop db'
    × ((j : ℕ)
        → ticket_state_of j db' ≡ (if 6 == j then some handed_off else ticket_state_of j shop))
unfolding lookup
hand_off_advances_example = hand_off_advances platform_test 6 shop refl refl refl refl

dispatch_order-Permitted_example :
    Permitted courier
      (state_of 3 shop)
      (state_of 3 (dispatch_order platform_test courier 3 "CANCEL" shop).1)
dispatch_order-Permitted_example = dispatch_order-Permitted platform_test courier 3 "CANCEL" shop 3

abbrev soup : OrderItem
soup = record { product_id = 1; name = "soup"; price_rub = pos 350; qty = pos 2 }

abbrev free_ride : PromoEffect
free_ride = record {
  promotion_id = 1;
  applied_code = "FREE";
  discount_rub = pos 0;
  free_delivery = true;
}

soup-IsPriced : IsPriced soup
soup-IsPriced = record { price_nonneg = omega arith; qty_nonneg = omega arith }

promo_only_lowers_example :
    (pos 0
      ≤ℤ compute_checkout_total (pos 99) (soup ∷ []) "delivery" (some free_ride) (some (pos 150)))
    × (compute_checkout_total (pos 99) (soup ∷ []) "delivery" (some free_ride) (some (pos 150))
        ≤ℤ compute_checkout_total (pos 99) (soup ∷ []) "delivery" none (some (pos 150)))
unfolding fee_of
promo_only_lowers_example =
    promo_only_lowers (pos 99) (soup ∷ []) "delivery" free_ride (some (pos 150)) (soup-IsPriced, tt)
      (omega arith) (omega arith)

-- One promotion, with a code in capitals.
abbrev promotion : PromotionRow
promotion = record {
  id = 3;
  trigger_code = some "SOUP";
  is_active = true;
  effect_type = "FIXED_AMOUNT";
  discount = pos 50000;
}

abbrev soup_off : PromoEffect
soup_off = record {
  promotion_id = 3;
  applied_code = "SOUP";
  discount_rub = pos 350;
  free_delivery = false;
}

resolve_promo_effect-IsEffectOf_example :
    IsEffectOf (λ s. s) (λ s. s) (λ goods d. pos 0) "SOUP" (pos 350) (promotion ∷ []) soup_off
unfolding resolve_promo_effect matching effect_of
resolve_promo_effect-IsEffectOf_example =
    resolve_promo_effect-IsEffectOf (λ s. s) (λ s. s) (λ goods d. pos 0) (promotion ∷ []) "SOUP"
      (pos 350) soup_off refl
