-- ===== src/Tools.antt =====
-- app/tools: the functions that the governed programs call, among them the writers of the states
-- of orders, kitchen tickets and stock.
pub mod Inventory
pub mod Orders
pub mod Kitchen
