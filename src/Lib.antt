-- ===== src/Lib.antt =====
-- The payment ledger: two services that settle transfers between banks. Bank A (src/) keeps the
-- accounts of its customers, a double-entry ledger and the saga of each transfer to another bank. The
-- Hub (hub/src/) keeps a directory of banks, their reserves and the settlements between them. They
-- talk through a broker: each writes its events to an outbox table in the transaction that they
-- belong to, and a relay publishes them.
--
-- A service is modelled as methods over its database, a record of tables. A method is a function from
-- a state to a result or an error, and the state that it leaves (Exec.antt); BEGIN, COMMIT and ROLLBACK
-- are the combinator `transaction`. Every statement runs the checks and keys of its tables
-- (migrations/, hub/migrations/). A transaction runs as one step: row locks and the unique keys
-- serialize the transactions that touch the same rows. What other requests commit between the
-- statements that a method sends outside of its transaction is a parameter, a function of the state,
-- of which the theorems ask at most that it is made of steps of the same service.
--
-- The files:
--   Prelude    names, tests, lists, integers over the native numbers, order and joining of texts
--   Exec       results, methods with a state and errors, transactions
--   Money      domain/money.ts of both services: safe integers of cents
--   Outbox     src/outbox and hub/src/outbox: table, repository (Outbox), relay (Outbox/Relay), the
--              queue of pending events (Outbox/Queue), relays that run at the same time (Outbox/Claims),
--              and what a tick marks and delivers (Outbox/Relay/Marking, Outbox/Relay/Delivery)
--   Bank       src/, by the folder's names: Domain; Database, the schema; Ledger, Accounts, Transfers,
--              Interbank, Reply and Reconciliation, each the repository and the service with modules
--              that list how the service's method can end (Execution, Booking, Opening, Handling, ...);
--              Http, the controllers, the exception filter and the DTOs; Relay, the relay over its tables
--   Bank/Step  the abstract ledger, a step relation on the database; Refinement shows that every
--              method takes its steps and no others, Invariant what every sequence of steps keeps, with
--              Invariant/Suspense, which the methods of Interbank and Reply keep, and Idempotency what
--              retries and redeliveries do; Interbank/Answered compares an answer with a later query
--   Hub        hub/src/, by the folder's names, with the same three layers: Settlements, Step and
--              Invariant; Http, Consumers, Redelivery, and Races for replies that overlap
--   Broker     infra/messaging of both and the declarations of the two consumers: exchanges, queues and
--              bindings, and where a message goes
--   System     both services together: a step is one of either service that needs a message, and a
--              message is an event that stands in an outbox; Agreement and Backing are what the steps
--              keep, Refinement shows that the methods of both take these steps
--   Frontend   frontend/src: the state of the page and its handlers, the polling of transfers, and what
--              the page shows beside the bank's database (Frontend/Shown)
--   Migrate    scripts/migrate.ts and hub/scripts/migrate.ts, and what a second run does
--   Tests      in Bank, Hub, Outbox, Broker, System, Frontend and Migrate: runs on small states
--
-- Names follow the source in this spelling: `TransfersService.execute` (src/transfers) is `execute` of
-- Bank.Transfers, `handleReply` (hub/src/settlements) is `handle_reply` of Hub.Settlements. Errors are
-- values: a domain error with the data that its message names, `database` for a statement that the
-- database refuses, and the plain errors of the source. Loops run over lists and end with them, so
-- nothing needs fuel; `ticks_drain` counts the ticks of the relay, a hundred events each.
--
-- Parameters: `randomUUID()` and `now()` are arguments; the Hub's answers to the reconciliation are a
-- function from the settlement's id, which System takes from the Hub itself; the channel of the broker is
-- a test that says which publications return; which keys a binding matches, the checks of class-validator
-- and the number that a text reads as are functions, with their documentation as named hypotheses where a
-- theorem needs it; the effect of a migration's SQL is a function. A number of the language is an integer
-- or no integer; only the safe integers pass `fromCents`. In System a request is lost by a step of its
-- own, and a transfer of which the Hub has no record is given up only then: that is what the comment on
-- STALE_AFTER_MS takes for granted. Replies to one settlement do not overlap there; Hub/Races is about
-- those that do.
--
-- Not modelled: Bank B (bank-b/, in Python), the markup and the forms of the page, and the wiring,
-- connections and health checks, which are library calls. UUIDs are texts in the spelling that the
-- database returns.
pub mod Prelude
pub mod System
pub mod Exec
pub mod Frontend
pub mod Money
pub mod Outbox
pub mod Bank
pub mod Broker
pub mod Hub
pub mod Migrate
