-- ===== src/Lib.antt =====
-- LeadtoSalesRE: the conversations and the leads of a real-estate sales assistant
--
-- The program (app/) receives messages of leads from Chatwoot, decides who owns each conversation, an
-- AI or a human, lets the AI answer, mirrors the leads of a CRM and collects a profile of the buyer.
-- Its parts share one database and talk through an outbox: a request writes its rows and its events in
-- one transaction, and a worker hands each event to the registered consumers, who open sessions of
-- their own.
--
-- How the code is modelled:
--
-- - Database.antt: a table is the list of its rows (the classes of the modules'
--   infrastructure/db_models.py). Enumerations are stored as their strings.
-- - Session.antt: a session (app/core/database.py) holds what its queries see and what is committed.
--   An action returns its result, a value or an exception (Result.antt), beside the session. Leaving a
--   session keeps what was committed only.
-- - Event.antt, EventBus.antt: domain events and app/shared/infrastructure/event_bus.py: publish, one
--   pass of the worker (_drain_batch), the dispatch of a row (_dispatch_row). A handler is a function
--   on the database. EventBus/Inbox and EventBus/Dispatch hold the theorems.
-- - Conversation/State, Model: the states, the table of transitions and the aggregate of
--   app/modules/conversation_ownership/domain/models.py; State/Reach, Ownership and
--   Ownership/Lifecycle their theorems.
-- - Conversation/Policy, Guardrail, Sidebar, Coordinator, Decay, LeadLinker: the services of
--   app/modules/conversation_ownership/application. Coordinator/Turn has one lemma for each way of a
--   turn, Coordinator/Outcome and Failure the theorems on a whole handled message.
-- - Conversation/Repository: infrastructure/repository.py of that module; RoundTrip its theorems.
-- - LeadLinker/Match, Webhook/Outcome: what the linker finds, what one webhook call does.
-- - Conversation/Webhook: api/webhook_router.py, over the JSON values of Json.antt.
-- - Lead/Stage, Mirror, Profile, ProfileStore, Repository, Sync, Guard, Capture:
--   app/modules/lead_qualification, its domain/models.py, its repositories and its services.
-- - Lead/WacrmClient: infrastructure/wacrm_client.py of that module, which fills the interface CrmClient
--   of the adapter; WacrmClient/Pages is its pagination. Lead/Wiring: its wiring.py; Wiring/Isolation
--   and Sync/Uncommitted hold what a failure leaves.
-- - Organization: app/modules/organization, its models, its repository with the dictionaries of the
--   configuration (Dictionary), its service and its endpoints (Router). Auth: app/modules/auth.
-- - Conversation/ChatwootClient: infrastructure/chatwoot_client.py of the conversation module, and the
--   sending half of its wiring.py.
-- - Recommendation: app/modules/recommendation. Ranking, Retrieval, Explanation, Enrichment, Ingestion
--   and Service are its application services, Repository its store, Wiring its handler of a completed
--   profile; the modules below them hold their theorems.
-- - PromptRegistry: app/modules/intelligence_ai_admin, its repository of prompts and its service;
--   Conversation/Coordinator/Prompt ties it to the coordinator.
-- - Worker: the consumers that app/main.py registers, by register_event_handlers of the three wiring.py;
--   Worker/Consumers and Delivery show what each of them leaves alone.
-- - Base: list, table and arithmetic helpers, the stable sort (Base/Sort) and exact fractions
--   (Base/Ratio). Session/Uncommitted: actions that leave the committing to their caller. Tests: the
--   theorems at concrete inputs.
--
-- Conventions. An identifier is a natural number. An instant is the number of microseconds since the
-- epoch in UTC. `clock k` is what the k-th part of an operation reads of new_id() and utcnow(); where
-- the code reads the clock several times for one object, one reading stands for them. Amounts are
-- signed whole cents, completeness is in whole percent, a lead's score is a natural number, a score of
-- the ranking an exact fraction, the components of a vector and a similarity are integers in a fixed
-- unit: the rounding of the code's floats is not modelled. Loops are structural recursion on the list
-- they run over, or on the number of turns that the code allows: 200 pages of a list, 3 attempts to
-- send a message, max_retries of an enrichment; the theorems say what happens when the turns run out.
--
-- Parameters: the matches of the guardrail's regular expressions, the responder, the HTTP calls to
-- Chatwoot, to the CRM and to the Maps service, the text of an exception, Python's str(), lower(),
-- strip(), replace() and datetime parsers, the password hash and the token, the hash of a
-- property's content and its embedding, the embedding of a query, the float quotient of a cosine,
-- and what a commit of the polling loop raises. Theorems about one event's row suppose that a
-- handler leaves the worker's tables alone; theorems about a lookup suppose distinct primary keys,
-- which the tables enforce.
--
-- Not modelled: a commit that fails anywhere but in the polling loop, the inside of the responder,
-- the scheduling of background tasks, the caches of process-wide objects, the constraints of the
-- tables beyond their primary keys, logging, settings, migrations, and the endless loops around
-- the modelled passes.
pub mod Base
pub mod Result
pub mod Json
pub mod Event
pub mod Database
pub mod Session
pub mod EventBus
pub mod Organization
pub mod Auth
pub mod Lead
pub mod PromptRegistry
pub mod Conversation
pub mod Recommendation
pub mod Tests
pub mod Worker
