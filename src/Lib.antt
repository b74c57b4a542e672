-- ===== src/Lib.antt =====
-- Verification of the backend of StockPilot (backend/app), a Python service for stock analysis.
--
-- Components and files
--   Common              shared names, lists, dicts (association lists in insertion order), orders, a
--                       stable sort, results of code that raises, integers, texts
--   RateLimit           core/rate_limit.py, SlidingWindowLimiter: the limiter's dict of deques as a
--                       record, one function for each method; RateLimit/Invariant the well-formed
--                       states, RateLimit/Spec a specification by a log of admitted requests,
--                       RateLimit/Refinement the step from one to the other, RateLimit/Retry the delay
--   Market              providers/contracts.py: candles and their price basis, shared by the next two
--   CorporateActions    corporate_actions/engine.py and contracts.py: the selection of revisions, the
--                       backward adjustment and the forward one for backtests
--   Pipeline            pipeline/candles.py: validate_candles, clean_candles, aggregate_candles and
--                       CandlePipeline.process
--   TossClient          providers/toss/client.py, providers/toss/audit.py, providers/errors.py: one call
--                       of the Toss API with its retries, refresh of the token and audit records
--   Alerts              alerts/models.py, alerts/repository.py, services/alerts.py: the watchlist and
--                       the price alerts, and their evaluation against quotes
--   EventBacktest       backtest/event_engine.py, backtest/models.py: the loop over the candles and the
--                       execution of orders; EventBacktest/Ledger the position, EventBacktest/Causal the
--                       absence of look-ahead
--   RealtimeHub         realtime/hub.py: the counts of subscribers and the capacities of both hubs;
--                       RealtimeHub/Upstream the calls of its source that the streaming hub starts
--   ModelRegistry       services/model_registry.py and InMemoryPredictionRepository of
--                       repositories/memory.py: versions of models and their promotion
--   ActionStore         repositories/corporate_action.py: batches of revisions of corporate actions, and what
--                       was known at a time
--   ActionService       services/corporate_actions.py: the adjusted views over the repository and the
--                       engines, and the ingestion from verified sources
--   ActionReview        corporate_actions/reconciliation.py and the candidates of
--                       services/corporate_actions.py
--   ActionApproval      the approvals of services/corporate_actions.py and
--                       repositories/corporate_action_approval.py
--   ExchangeVerification  corporate_actions/exchange_verification.py
--   HttpGuard           the client's key and RateLimitMiddleware of core/rate_limit.py, and
--                       core/analysis_access.py; HttpGuard/Admitted their composition in main.py
--   AdminAccess         require_admin_access of api/admin.py
--   Partitions          the planning of database/partitions.py; names are code points
--   TossToken           TossTokenManager of providers/toss/auth.py with the cache in memory
--   WalkForward         the folds of backtest/validation.py
--   ModelArtifacts      ModelArtifactStore of prediction/artifacts.py; ModelArtifacts/Pointers the active
--                       models and the rollback, ModelArtifacts/Staged what was staged
-- Each Tests module runs the definitions on concrete inputs.
--
-- How code is translated
--   A method that changes an object takes the state and returns the new one. An exception is `err` of a
--   Result, or an outcome of the model's own. A dict is an association list in insertion order; a set
--   of seen keys is a list. Prices are values of a type with a total order or with the operations of
--   Decimal, which are a parameter; a float that is only compared is a natural number of ticks. Clocks,
--   uuid4, the calendar, HTTP answers and the broker are arguments.
--
-- Bounds
--   The loop of the Toss client runs on fuel max_retries + 2, which the invariant of its counters shows
--   to be enough: each pass but the last uses up a retry or the one refresh of the token. All other
--   loops are structural recursion.
--
-- Not modelled
--   Code that runs in PostgreSQL or Redis (queries, the Lua limiters, the shared caches), the routes and
--   websockets, the training of models and floating-point statistics, calls of language models, and the
--   web application. Of the code that could be modelled: the other providers, the scheduler, the
--   portfolio, the chart patterns, the vector backtest and the upstream of KIS.
pub mod Common
pub mod RateLimit
pub mod Market
pub mod CorporateActions
pub mod Pipeline
pub mod TossClient
pub mod Alerts
pub mod EventBacktest
pub mod RealtimeHub
pub mod ModelRegistry
pub mod ActionStore
pub mod ActionService
pub mod ActionReview
pub mod ActionApproval
pub mod ExchangeVerification
pub mod HttpGuard
pub mod AdminAccess
pub mod Partitions
pub mod TossToken
pub mod WalkForward
pub mod ModelArtifacts
