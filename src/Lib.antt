-- ===== src/Lib.antt =====
-- lad-translate: live translation of a conference. Audio of one speaker goes in, and one translated
-- audio stream for each target language comes out.
--
-- A session is a pipeline. The room's audio frames pass a guard that sheds the oldest audio when the
-- recogniser falls behind (session/backpressure.py). A recogniser turns the frames into hypotheses
-- that may still change (adapters/). The chunker commits stable phrases out of them (chunker/). Each
-- phrase is translated for every target language by the backend that its language is routed to
-- (adapters/mt_routing.py), spoken at a speed that drift control chooses from the length of the
-- playout queue (session/drift.py), and its latency is measured from the speaker's mouth to the room
-- (obs/latency.py). A session belongs to a tenant, whose schema is looked up once (db/tenancy.py), and
-- is described by a configuration that is checked when it is made (config.py); its record, its
-- listeners and its transcripts are rows of that schema (db/sessions.py). Listeners join by a service
-- that finds the session, shows its languages and signs a token for the room (api/).
--
-- All paths are below src/lad_translate. A method of the source is a function of the same name, and
-- the object it belongs to is a record that the function takes and returns; a leading underscore is
-- dropped. Which files model what:
--
--  Adapters/Events: the events of adapters/base.py.
--  Chunker/Types, Words, Stability, Clause, Phrases: chunker/types.py, stability.py (its two word
--    functions in Words), clause.py and chunker.py. Files below them hold the proofs: Agreement,
--    Window, Finals and Prefix about the tracker, Cuts about clause boundaries, Runs, Drain, Decide,
--    Calls, Session, Settle and Spoken about the phrases.
--  Session/Backlog: session/backpressure.py; Channel has the two tasks `feed` and `drain` as a step
--    relation, with every interleaving of them, and Shedding is about one push.
--  Session/Drift: session/drift.py; Speed is about one policy, Control about the controller.
--  Session/Pipeline: the dispatch of a phrase and the work on it in session/pipeline.py; Dispatch is
--    about the queues of the workers, Speaking about one phrase of one language.
--  Session/Tasks: the pump, the workers and the shutdown of session/pipeline.py as a step relation;
--    Fifo is about every sequence of their steps.
--  Session/Run: `run`, `_watchdog` and `_settle` of session/pipeline.py; Limits is about the
--    watchdog, Settling about what is left in the database.
--  Session/Room: session/room.py; Tracks is about the languages that a room publishes.
--  Obs/Trace, Percentile, Latency, Stats: obs/latency.py; Order and Range are about percentiles,
--    Figures about the figures of a language.
--  Stt/Geometry, Schedule, Frames, Clock, Transcribe: the streaming bookkeeping and the session of
--    adapters/stt_fastconformer.py.
--  Stt/Whisper: adapters/stt_whisper.py; Cumulative is about the hypotheses of a stream, Window
--    about the buffer and the segments that are kept.
--  Adapters/Registry: adapters/registry.py; Credible is about a set of backends.
--  Mt/Routing: adapters/mt_routing.py. Mt/Opus: adapters/mt_opus.py; Loading is about an adapter
--    that is open, Sharing about targets with one model, Fan about a phrase in several languages.
--    Mt/Nllb: adapters/mt_nllb.py; Batch is about a phrase in several languages. Mt/Backends puts
--    both behind the router.
--  Tts/Piper: adapters/tts_piper.py; Stream is about the chunks of a phrase.
--  Config: config.py; Targets is about an accepted configuration.
--  Db/Tenancy: db/tenancy.py; Names is about schema names, Cache about the resolver.
--  Db/Sql, Ordering: what the statements of db/sessions.py do to a table, which is a list of rows.
--  Db/Sessions, Live, Listeners, Transcripts: db/sessions.py, on the tables and constraints of
--    db/migrations/001_translation_sessions.sql. Requests has the calls of any stores in any order;
--    Rows and Attendance say what a call may change, Unique, Consistent and Settled what stays so;
--    Billing, Isolation, Presence, Upsert, Queries and Reopened are about what the calls promise.
--  Api/Languages, Tokens, Rooms: api/languages.py, tokens.py and rooms.py; Published is about what
--    the inspector finds.
--  Api/Join, Page, Grants, Handlers: api/join.py; Opened, Owned, Offers, Admission and Refusal are
--    about the session that is loaded, the page, a listener who is let in, and requests that are
--    refused.
--  Common: lists, texts, Python dicts, signed integers, rounding and subsequences, and the names of
--    the libraries that every file uses.
--  Examples: the theorems at concrete inputs.
--
-- Numbers. A float of seconds is a whole number of nanoseconds, so sums and comparisons are exact; a
-- difference that can be negative is a signed integer. A speed and a conjunction threshold are in
-- thousandths, a percentile in hundredths, and a percentile or a mean is rounded down. A text is the
-- list of its code points.
--
-- Loops. `emit_all` runs on as much fuel as there are words outstanding, `offer` on the number of
-- frames and three more, `featurise_blocks` on the number of samples and one more; each returns an
-- Option, and theorems below state that with the sizes the source assumes the fuel is enough. The
-- other loops are structural.
--
-- Errors are values: an Option or a result type, with a comment that names the exception.
--
-- Parameters. The Unicode tables behind `str.isalnum`-like tests and `casefold` are the record
-- Unicode, and `lower` and `upper` the record Casing. The front end and the encoder of the recogniser
-- are the record Encoder. A translation backend is the record MtBackend, which may fail; the model of
-- the Opus adapter is the record Model, the case of letters in it the record Cases, and the model of
-- the NLLB adapter the record Nllb; a voice of Piper is the record PiperVoice. The level of a sound
-- and the resampling of the Whisper recogniser are the record Ear. The signature of a token is a
-- function of what the token says.
--
-- The database. A statement is a function on the tables of a schema, and a handler of the join service
-- reads one state of them; the clock and the id of a new listener are arguments. Rows that a query
-- leaves unordered come in the order of the table.
--
-- Not modelled: logging, and the reports of the guard and of drift control (`summary`, `as_dict`),
-- which only format what the records hold; the models behind the adapters; the connection of
-- session/room.py and the pool and migrations of the database, which are I/O; the command line tools.
pub mod Common
pub mod Adapters
pub mod Chunker
pub mod Session
pub mod Obs
pub mod Stt
pub mod Mt
pub mod Tts
pub mod Config
pub mod Db
pub mod Api
pub mod Examples
