-- ===== src/Lib.antt =====
-- The Adaptive Trading Ecosystem: a trading research system in Python, under
-- src/trading_ecosystem/. Validated, frozen contracts hold every number as a decimal; pure functions
-- decide, simulate, account and admit; journals and adapters stand around them. This library models
-- the pure core, the journals, and parts of what stands around them.
--
-- Parts and files. A module is named for the package it is about.
--   Domain      domain/primitives.py and domain/arithmetic.py: validated numbers and instants, and
--               the rounding of prices and lots to their increments.
--   Benchmarks  benchmarks/contracts.py, registry.py and rules.py, and research/indicators/states.py:
--               the four preregistered definitions and the decision on given values. `evaluate` is
--               `evaluate`, `get_definition` is `get_definition`.
--   Simulation  simulation/contracts.py, execution.py, events.py and lifecycle.py: one episode from
--               its signal to its exit. `simulate` is `simulate`; the loop over the bars is
--               `Simulation/Lifecycle/Walk`, with the variables that it leaves as a record.
--   Accounting  accounting/contracts.py, projection.py and performance.py: the account and the rules
--               of its ledger, its balance and equity, the net asset value per unit and the loss of
--               the day. The loops of `AccountInput.ordered` and `_nav` are `read_ledger` and
--               `nav_loop`, their variables are records.
--   Portfolio   portfolio/contracts.py, fills.py and projection.py: the book and how a fill changes
--               it (`apply_fill`), the marks (`mark_all` is `_mark`) and `project`.
--   Risk        risk/contracts.py and engine.py: the status of an account (`state_of` is `_state`),
--               the admission of an order (`evaluate`, one function per group of its early returns),
--               the search for its volume (`lot_search`) and the reservation
--               (`evaluate_and_reserve`).
--   Monitoring  monitoring/contracts.py, projections.py, schema.py and journal.py: the events that
--               sources report, their journal per stream (`append`, `replay` and `rebuild` are the
--               methods of `TelemetryJournal`) and the read models that are projected from them.
--   Journal     journal/contracts.py and persistence/journal.py: the journal of the operational events
--               of domain/events.py (`Domain/Events`). `append_draft` and `replay_account` are the
--               methods `append` and `replay` of `PostgresJournal`, `verify_chain` is `verify_chain`.
--   Observer    observer/contracts.py and the loop over the deals of observer/replay.py: the attribution
--               of a row (`attribute`) and the episodes of positions (`replay_deals`, one function per
--               part of the loop's body). A row of the terminal is the record of the fields that are
--               read; the dictionary `active` is the episodes that are not closed.
--   Features    features/splits.py: the chronological split of rows (`split`).
--   Campaigns   campaigns/journal.py: the journal of a campaign (`append_row`, `read_journal`) and its
--               writer (`record_row` is `Journal.record`).
--   Workbench   workbench/contracts.py and parts of workbench/store.py: the statuses of a project and
--               its readiness (`history_of` is the history that `create_project` makes, `detail` the
--               status that `detail` shows).
--   Chain       what the chains of hashes of both journals have in common.
-- The simulation takes its definitions from the benchmarks and its ticks from the domain; the book
-- of the portfolio holds an account of the accounting; the risk engine projects a history of
-- observations of the portfolio before it decides. The two journals verify their chain before they
-- extend it, and roll back when a call raises.
--
-- Conventions. `Prelude` passes on the libraries and holds tests, lists, results and integers.
-- `Decimal` models Python's `decimal.Decimal` as a coefficient and an exponent, with the operations
-- of the context of 34 digits that rounds half to even. A contract is a record, and its model
-- validator a function `validate_...` into `Result`, which is a value or the message of the exception.
-- It checks the bounds of the fields too, and returns its input. Fields that can hold one value only
-- are left out. An identifier is the number of a UUID, an instant a count of microseconds in UTC, and
-- the text of an enumeration is its constructor. A loop is recursion on its list. The one loop without
-- a list, the search for the volume, runs on fuel: the distance of its bounds, which every iteration
-- makes smaller. A failed `assert` is an error like a raised one.
--
-- A table of the database is the list of its rows in the order in which they were inserted, and a
-- query selects and sorts it; what an insertion refuses is written out from the keys of the schema.
--
-- Not modelled: digests and canonical text (the identities of a fill, of a request, of an order and of
-- an event and the digests of a chain are parameters; the other digests of results are left out),
-- `project_portfolio` of accounting/performance.py, the conversion of untyped input, concurrent
-- transactions, which the locks on the heads put in order, the queries of monitoring, the events that
-- the observer makes of polled positions and orders, and the packages around the core: the journal of
-- research, the rest of the campaigns, the terminal bridge, the tester, the storage of the workbench
-- and the dashboard.
pub mod Prelude
pub mod Decimal
pub mod Domain
pub mod Benchmarks
pub mod Simulation
pub mod Accounting
pub mod Portfolio
pub mod Risk
pub mod Monitoring
pub mod Chain
pub mod Journal
pub mod Features
pub mod Observer
pub mod Campaigns
pub mod Workbench
