-- ===== src/Lib.antt =====
-- Cirvia, a portfolio analyst: an agent that calls a model and its tools, the accounts with their
-- trials and subscriptions, and the delivery of its messages. This is a model of those parts of
-- the Python program under app/, with proofs.
--
-- The files and the code they are about:
-- - Prelude: names of the libraries, Boolean tests and lists over the native numbers, dicts.
-- - Budget: app/agent/budget.py and the prices of app/config.py. Money is counted in units of
--   10^-8 US dollars instead of floats, so that the cost of a call is exact.
-- - Agent: app/agent/loop.py with `emit` of app/agent/events.py and `Observer` of
--   app/observability/logging.py. Agent.Value has `_validate_input`, Agent.Content the blocks and
--   messages, Agent.Dispatch `safe_dispatch`, Agent.Turn `_run_tools`, Agent.Loop the calls of the
--   model and `run_agent`. Agent.World is what they run in: the model's API, the tools' functions
--   and the database are parameters (a record `Env` of functions of how often they were called), the
--   run's state is a record, and a step returns, raises or runs out of fuel.
-- - Store: the tables of app/db/models.py; each operation of app/db/repo.py is a function from the
--   store to the store, one transaction each. Ids, times and durations are natural numbers.
-- - Plans: app/plans.py. Accounts: users, deletions, trials and Stripe customers of
--   app/db/repo.py. Billing: app/billing.py and the Stripe webhook of app/main.py, where Stripe's
--   API and its signature check are parameters.
-- - Delivery.Channels, Delivery.Queue: destinations and the outbound queue of app/db/repo.py with
--   app/delivery/channels.py. Delivery.Dispatcher: app/delivery/dispatcher.py, where the providers'
--   adapters are parameters. Delivery.Verification: app/delivery/verification.py, where the hash,
--   the drawn number and the adapters are parameters.
-- - TrialNotices: app/trial_notices.py, which queues through Delivery.Queue. Jobs: app/jobs.py and
--   the heartbeats, where the trigger of a crontab is a parameter. AuthCache:
--   app/perf/authcache.py. Broker: `ProgressBroker` of app/streaming.py.
-- - Auth: Auth.Jwt is app/auth/jwt.py, where PyJWT and the endpoint of the keys are parameters;
--   Auth.Session is `require_auth` and `delete_me` of app/main.py, on AuthCache, Snapshot and the
--   store. Accounts.Deletion: `delete_user_data` of app/db/repo.py.
-- - Snapshot: `SnapshotStore` of app/perf/snapshot.py, with the rebuilds that run beside the
--   requests as steps of one process.
-- - Delivery.Unsubscribe, Delivery.TwilioInbound: app/delivery/unsubscribe.py and
--   app/delivery/twilio_inbound.py with their routes in app/main.py, where Python's HMAC, string
--   methods and UUIDs are parameters.
-- - Delivery.Devices: the rows of `push_devices` in app/db/repo.py.
-- - Chat: the quota on questions and the repeated turns of app/main.py, over the rows of `agent_runs`
--   in app/db/repo.py. Portfolio: the table `positions` of app/db/repo.py and its sync in
--   app/integrations/snaptrade/sync.py, where the arithmetic of Decimals is a parameter.
-- - Watchlist: the table `watchlist_items` of app/db/repo.py and the routes of app/main.py that write
--   it, whole and in the two halves between which other requests run.
-- - TrackRecord: app/quant/trackrecord.py up to the bars that a return is computed from.
-- - Tests: the theorems at concrete inputs.
--
-- How the parts meet: the agent keeps its own state and the database; Accounts, Billing and Delivery
-- share the store; the plan of a user decides over SMS; the notices read the users in a trial and
-- write to the queue; a tick of the dispatcher claims from it and writes back. A request is bound to
-- a user through the cache of sign-ins, the keys and the store; a deletion writes all three and the
-- snapshots; links and replies write the rows of the channels that the queue reads.
--
-- Fuel: the `while True` of `run_agent` takes a round for each unit. Agent.Loop.Ends says how much
-- is enough. The retry loop of `safe_dispatch` takes eight rounds, more than its counter allows:
-- Agent.Dispatch.Outcomes shows that it ends after two. The count of missed fires stops at two as in
-- the code. A bisection takes as many rounds as there are bars, which TrackRecord.Bisect shows to be
-- enough. All else is recursion on the data.
--
-- Not modelled: times of day and latencies of a run, the texts of log lines and of errors beyond
-- what the code branches on, concurrent transactions (a claim's `SKIP LOCKED` has nothing to skip),
-- a database that fails between the reads of one transaction (which the fan-out to devices
-- survives), the columns that no modelled operation reads, the Redis backend of the snapshots, means
-- and other arithmetic on floats; the tools, the other quantitative models, the
-- pipelines of digests, picks and deep dives, the integrations, the web pages and the mobile app.
pub mod Jobs
pub mod Prelude
pub mod Tests
pub mod TrackRecord
pub mod TrialNotices
pub mod Broker
pub mod Budget
pub mod Snapshot
pub mod Store
pub mod Plans
pub mod Watchlist
pub mod Portfolio
pub mod Chat
pub mod Accounts
pub mod Billing
pub mod Delivery
pub mod Agent
pub mod Auth
pub mod AuthCache
