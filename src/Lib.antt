-- ===== src/Lib.antt =====
-- Sieshka: the orders of a restaurant, from the checkout over the payment and the kitchen to the
-- delivery.
--
-- The program keeps its state in PostgreSQL. A service in app/services reads the state of an order or
-- of a kitchen ticket, looks the requested event up in a graph of transitions, and runs a small governed
-- program, in app/programs, on a virtual machine; the program's steps are tools, in app/tools, and only
-- the terminal tools write states. Webhooks and the staff's channels call the services.
--
--   Prelude        shared names, tests, integers, dictionaries.
--   Orders         OrderState, OrderEvent and ORDER_TRANSITIONS of app/domains/orders/models.py, and
--                  what the graph promises over every history (Orders/Lifecycle).
--   Fsm            app/fsm/core/base.py and the `transition` methods of app/domains/*/fsm.py over any
--                  graph, and the graphs of the other domains (Fsm/Machines).
--   Database       the tables that the modelled code uses, and sessions: functions from the database
--                  to a result or a failure and a database.
--   Tools          app/tools/inventory_tools.py, app/services/inventory_ledger.py,
--                  app/tools/order_tools.py and app/tools/kitchen_tools.py.
--   Vm             programs as data, and the platform: nano_vm, nano_vm_mcp and the database's choice
--                  of a new id.
--   Programs       app/programs/order_programs.py and app/programs/kitchen_programs.py.
--   Services       transition_order of app/services/order_service.py (Services/Order),
--                  app/services/idempotency.py and app/trace.py (Services/Idempotency),
--                  app/services/payment_service.py (Services/Payment), app/services/kitchen_service.py
--                  (Services/Kitchen), app/services/staff_dispatch.py (Services/Dispatch),
--                  app/services/max_webapp_auth.py (Services/WebappAuth), and
--                  app/services/menu_service.py (Services/Menu).
--   Webhooks       app/webhooks/yookassa.py.
--   Checkout       resolve_promo_effect and compute_checkout_total of app/services/order_service.py, and
--                  the handler of app/api/routes/checkout.py (Checkout/Route, Checkout/Placing), with
--                  what it stores and answers (Checkout/Online, Checkout/Stored, Checkout/Accepted) and how
--                  it agrees with the menu that was shown (Checkout/Offered).
--   Schedule       app/services/schedule_service.py: the window in effect and what is told of it.
--   Agents         app/tools/zone_agent_tools.py (Agents/Zones), app/tools/promotion_agent_tools.py
--                  (Agents/Promotions), app/tools/schedule_agent_tools.py (Agents/Hours),
--                  app/tools/inventory_agent_tools.py (Agents/Restock) and app/tools/menu_agent_tools.py
--                  (Agents/Menu): what is done with the command that a language model wrote.
--   Customers      app/services/customer_service.py.
--   Tests          a concrete platform and shop, and the theorems at concrete inputs.
--
-- A session that raises leaves what it wrote before; the services drop it where the source closes a
-- session without a commit. Row locks are not modelled: every call is one step. UUIDs are numbers,
-- Python's integers are unbounded, and amounts of money are whole roubles in the checkout and whole
-- kopecks in payments. What a column of the modelled writes cannot hold (INTEGER, NUMERIC, VARCHAR, the
-- foreign key of an order's zone) makes the write fail, as does an item that cannot be read when the
-- stock of an order is taken: the theorems on these paths say what happens then, or suppose that it does
-- not.
--
-- The virtual machine is a package that the repository does not hold. It is a parameter, the record
-- `Platform` of Vm, with three documented behaviours: a run that follows the steps ends as they do, a
-- program whose steps all resolve is valid, and a granted tool passes the policy. The documented run has
-- as fuel the number of the program's steps, which is enough since no program repeats a step. The
-- answers of the YooKassa API are a parameter of the webhook and of the checkout; the parsing and the HMAC
-- of a launch are one of Services/WebappAuth, and ORDER BY is one of Services/Menu, of which the theorems
-- on the menu suppose that it keeps the rows.
--
-- Not modelled: HTTP and templates, notifications, the calls of the language model, the import of
-- menus, and receipts.
pub mod Agents
pub mod Checkout
pub mod Customers
pub mod Database
pub mod Fsm
pub mod Orders
pub mod Prelude
pub mod Programs
pub mod Schedule
pub mod Services
pub mod Tests
pub mod Tools
pub mod Vm
pub mod Webhooks
