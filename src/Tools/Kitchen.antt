-- ===== src/Tools/Kitchen.antt =====
-- app/tools/kitchen_tools.py: the four terminal tools of a kitchen ticket.

use sieshka.Prelude.{
  ℕ, Bool, true, none, some, nat_eq, nat_beq, ◌≡◌, ◌↔◌, Eq, ◌==◌, arith, if◌then◌else◌,
}
use sieshka.Prelude.Dict.{lookup, adjust}
use sieshka.Fsm.Machines.{KitchenState, new, queued, preparing, ready, handed_off}
use sieshka.Database.{ticket_not_found, invalid_state, Session, raise, modify}

abbrev index : KitchenState → ℕ
index new = 0
index queued = 1
index preparing = 2
index ready = 3
index handed_off = 4

abbrev kitchen_state_beq : KitchenState → KitchenState → Bool
kitchen_state_beq s t = nat_beq (index s) (index t)

pub kitchen_state_beq_iff : (s t : KitchenState) → (kitchen_state_beq s t ≡ true) ↔ (s ≡ t)
kitchen_state_beq_iff s t = (λ h. ground arith, λ h. ground arith)

instance abbrev pub kitchen_state_eq : Eq KitchenState
kitchen_state_eq = record { same = kitchen_state_beq; same_iff = kitchen_state_beq_iff }

-- The lock, the checks and the write that the four tools share.
unfoldable pub write_kitchen_state : KitchenState → KitchenState → ℕ → Session Unit
write_kitchen_state expected target ticket_id db = elim (lookup ticket_id db.kitchen_tickets) [
  | none ↦ raise ticket_not_found db
  | some t ↦
      if t.state == expected
      then modify
          (λ d. record d {
            kitchen_tickets =
                adjust ticket_id (λ row. record row { state = target }) d.kitchen_tickets;
          })
          db
      else raise invalid_state db
]

unfoldable pub write_kitchen_state_queued : ℕ → Session Unit
unfolding write_kitchen_state
write_kitchen_state_queued = write_kitchen_state new queued

unfoldable pub write_kitchen_state_preparing : ℕ → Session Unit
unfolding write_kitchen_state
write_kitchen_state_preparing = write_kitchen_state queued preparing

unfoldable pub write_kitchen_state_ready : ℕ → Session Unit
unfolding write_kitchen_state
write_kitchen_state_ready = write_kitchen_state preparing ready

unfoldable pub write_kitchen_state_handed_off : ℕ → Session Unit
unfolding write_kitchen_state
write_kitchen_state_handed_off = write_kitchen_state ready handed_off
