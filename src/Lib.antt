-- ===== src/Lib.antt =====
-- SmartStock AI (smartstock-backend): the purchasing core of an inventory system. A Django service
-- keeps purchase orders and moves them through their statuses; an agent drafts an order, has it
-- approved, mails it to the supplier and polls for the confirmation.
--
-- The parts, with paths from smartstock-backend:
-- - Database: the store that the services of orders and stock share, a record of tables, with the
--   clock, the signals sent and the mail queue (apps/inventory/models.py, apps/purchasing/models.py,
--   apps/purchasing/workflow_models.py). Database.Choices has the statuses.
-- - Orders.Repository: reading and writing orders, with the constraint that the database puts on
--   them (apps/purchasing/repositories.py).
-- - Orders.Service: PurchasingService (apps/purchasing/services.py), a function per method with the
--   method's name. The other modules under Orders prove: Active the uniqueness of active orders,
--   Writes and Operations what one call writes, Drafts what draft_po does, History lists of calls,
--   Lifecycle and Progress the statuses over time, Outcomes the result of a call, Open the search of
--   open orders, Released what drafting leaves of the approved orders. Orders.Overdue has the report
--   on overdue suppliers, which Grouped describes.
-- - Workflow: PurchaseOrderWorkflowService (apps/purchasing/workflow_services.py).
-- - Agent.Tools and Agent.Purchasing: the tools and the run of PurchasingAgent (ai/agents/tools,
--   ai/agents/purchasing_agent.py). Agent.Listener, Gates, Gated and Confirmation prove how a run can
--   end.
-- - Alerts: Escalation (apps/notifications/service.py), Timeouts, the sweep over orders without an
--   answer (apps/purchasing/timeout_tasks.py), and Mail, the attempts to deliver a mail
--   (infrastructure/email.py, apps/purchasing/email_tasks.py). Sweep, Duplicates and Retries have the
--   proofs.
-- - Inventory: stock levels and confirmed invoices (apps/inventory/services.py,
--   apps/inventory/repositories.py): Stock and Invoices and Apply have the operations, Levels, Adjust
--   and Receipts the proofs. Decisions is what the service tells the decision agent.
-- - Forecasting: forecasts and reorder flags (apps/forecasting/models.py, repositories.py and
--   services.py): Repository and Service have the operations, Flags, Persisted and Reports the proofs.
-- - Decision: DecisionAgent (ai/agents/decision_agent.py, ai/agents/tools): Tools and Agent have the
--   operations, Observed, Justified, Flagged and Kept the proofs.
-- - Pipeline: the daily run that forecasts, decides and orders (Orchestrator for
--   apps/forecasting/pipeline_orchestrator.py, Creator for ai/agents/po_from_flag_creator.py). It calls
--   Forecasting, Decision and the run of the purchasing agent. Consumed, Counted, Pending, Valid
--   and Safe have the proofs.
-- - Llm: the providers of language models (ai/llm/llm_provider_manager.py): Health is the circuit
--   breaker of one provider, Manager the registry that ranks them, Failover a call that goes from one
--   provider to the next. Breaker, Registry and Ranking have the proofs.
-- - Scans: scans of invoices (apps/ingestion/services.py): Service has the operations, Outcomes, Kept,
--   Final and Confidence the proofs. A confirmation calls Inventory.Apply. Scans.Schema and its Reading
--   parse the answer of the vision model (ai/llm/invoice_schema.py); Cells and Printed are the structure
--   that it is asked for (ai/multimodal/vision.py).
-- - Retrieval: the hybrid search for chunks of documents (ai/rag/retrieval.py). Ranking and Fused have
--   the proofs.
-- - Chat: questions in natural language (ai/llm). Parser and Chain turn an answer of the language model
--   into a query, Guard is the filter against prompt injection with its Patterns, Answers the formatter,
--   Intent the classification. Accepted, Printed, Attempts, Refused and Safe have the proofs.
-- - Monitoring: the alerts of the application (apps/monitoring/alerts.py): Evaluation has the operations,
--   Firing, Calm and Cooldown the proofs.
-- - Documents: the ingestion of PDF files (ai/rag/ingestion.py); Embedded proves what the calls of the
--   model of embeddings come to, Replaced what the table holds afterwards.
-- - Accounts: permissions and the verification of addresses (apps/authentication/permissions.py and
--   services.py).
-- - Prelude: actions that return or raise over a state (Prelude.Action), tables (Prelude.Table),
--   whole numbers, Boolean tests and lists. The modules Tests hold examples on concrete stores.
--
-- Methods of the source are actions on the store: a state goes in, a result or an exception and a
-- state come out. `transaction.atomic` rolls the state back on an exception. A try block that catches
-- everything is `catch`. The polling loop is structural recursion on the attempts that are left, and
-- the loop over the pool of providers is recursion on the pool, so neither needs fuel. The retries of
-- a mail have a fuel of four, which is proved to be enough. Time is whole seconds, in Llm whole
-- milliseconds; money is cents, and a forecast is read from the table as a number of hundredths. Sums of
-- forecasts are Python's floats (Prelude.Double): multiples of 2^-60, rounded to 53 bits after each
-- operation, with `sum` as in Python 3.12, the version of the Dockerfiles; the search for the last bit
-- has the number itself as fuel, which is proved to be enough. The conversation of the decision agent with its tools is a
-- finite tree of calls, so following it ends.
--
-- What is outside of the repository is a parameter: the users, the texts of exceptions, the random
-- part of a message's key, what others do to the store while the agent sleeps, the answer of the
-- approval callback, the answers of language models and of the mail server, the keys that the
-- environment configures, Python's functions on texts, its floats elsewhere, numbers as `int` and
-- `Decimal` read them, whether the database takes a value as JSON, and the results of the SQL queries
-- of the hybrid search.
--
-- Not modelled: the receivers of signals, the rendering of templates (taken not to fail), traces,
-- timings and the rows that record a run of an agent, the queue of tasks but for what is put into it,
-- the views, the engine and the dashboard of the forecasts, the prompts, the views that take
-- documents, and the user interface. The evaluations of a pipeline's threads are taken as single
-- steps, in any order, and nobody else writes to the store during one of them.
pub mod Accounts
pub mod Agent
pub mod Alerts
pub mod Chat
pub mod Database
pub mod Decision
pub mod Documents
pub mod Forecasting
pub mod Inventory
pub mod Llm
pub mod Monitoring
pub mod Orders
pub mod Pipeline
pub mod Prelude
pub mod Retrieval
pub mod Scans
pub mod Workflow
