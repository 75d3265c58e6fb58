-- ===== src/Lib.antt =====
-- Verification of cortex-tutor: the coach's turn, from the learner's answer to the committed state.
--
-- A turn takes the learner's active session (or creates one), asks a gate model to judge the answer,
-- lets a pure state machine decide what the verdict does, and writes the answer, the verdict and the
-- new state in one transaction. With a bring-your-own-key (BYOK) session the verdict comes from the
-- browser instead, and the rest is the same.
--
--   Prelude      tests, lists, texts, results: the helpers that the modules share
--   Json         Python's dicts and values, as a model or a client sends them
--   Domain       tutor/domain: steps.py (Steps), verdict.py (Verdict), fsm.py (Fsm)
--   Gate         tutor/orchestration/gate.py: compose_answer (Answer), _coerce (Coerce), evaluate
--                (Evaluate), with what pydantic is taken to do (Validate)
--   Persistence  tutor/persistence: models.py (Models), repo.py and purge.py (Sessions, Messages,
--                Gates), and SQLAlchemy's transaction (Transaction)
--   Turn         tutor/orchestration/turn.py: apply_turn, apply_byok_turn, record_coach_reply
--   Config       the settings of tutor/config.py
--   Models       tutor/models: catalog.py (Catalog), factory.py and router.py (Factory)
--   Access       tutor/auth.py (Auth), tutor/ratelimit.py (Limiter), tutor/quotas.py (Quotas)
--   Coach        tutor/grounding/context.py (Context), tutor/orchestration/coach.py (Prompts) and
--                byok.py (Client, and its prompt in Prompts)
--   Routes       tutor/routes/sessions.py: the rate limit and the bodies (Http, Body), the payloads
--                (View), the handlers of sessions (Manage) and of turns (Turns), the stream (Stream)
--   Grounding    grounding_mcp: slug.py (Slug), corpus.py (Markdown, Solution, Walk, and Corpus),
--                search.py (Search, Snippet), tools.py and the settings that they read (Tools, and
--                search_corpus in Snippet), the service token of server.py and
--                tutor/grounding/mcp_client.py (Client), and the server behind the tutor's client
--                (Served)
--   App          tutor/app.py: the limit on bodies, whoami and the purge (Front)
--   Evals        evals: schema.py (Schema), make_probes of extract.py (Probes), gate_runner.py
--                (Shapes, Runner, Stats, Metrics)
--   System       all requests together: how the handlers of Routes and the purge change the session
--                table (Changes), and any sequence of them from empty tables (Requests)
--   Tests        runs at concrete inputs
--
-- How the source is read. Functions keep their names. A table is a list of rows, a query filters
-- it, an UPDATE maps it, a transaction carries the tables that are committed and those that it
-- sees; a request that raises is rolled back. Identifiers and times are natural numbers. An
-- exception is a value of `Error`. Loops are structural recursions; only the searches for a
-- chapter's withheld blocks and their tags take fuel, the number of characters, of which each step
-- uses one or more. Texts that the code cuts or measures are lists of code points; keys and names
-- are native strings. Integers are Python's, unbounded, with a sign where the source may see one; a
-- float is its bit pattern, with the operations that the code applies to it as the parameter `FloatOps`.
--
-- Parameters: the gate provider, the coach's stream, the grounding client, PyJWT, UUID parsing,
-- pydantic's validation (`Validator`, with the laws that its documentation gives for this schema),
-- lower-casing and Unicode's classes and cases, the clock, fresh UUIDs, the hash, the rubric
-- files, and the writes that other requests commit while a request is running (`others` of
-- `Outside`).
--
-- Not modelled: row locks (other requests may write before the guarded update of a turn or of a
-- model, and before a session is inserted; the theorems of System take requests one after the
-- other), the foreign keys of the gate, gate_call and grounding_ref tables, the columns that
-- nothing reads (token counts, costs, summaries), log lines, the caches of clients, and the parts
-- that are only input and output: providers, the MCP session, the set-up of the applications and
-- the engine, the reading of the corpus's directories (Walk takes the tree that was read), the
-- order of the books, the files of a run's report. The extraction of a session's cases is left out
-- too.
pub mod Prelude
pub mod Json
pub mod Config
pub mod Domain
pub mod Gate
pub mod Persistence
pub mod Turn
pub mod Models
pub mod Access
pub mod Coach
pub mod Routes
pub mod Grounding
pub mod Evals
pub mod App
pub mod System
pub mod Tests
