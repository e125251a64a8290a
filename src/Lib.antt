-- ===== src/Lib.antt =====
-- WA-Graph-RAG-BACKEND: the backend of a university's WhatsApp and web assistant. FastAPI serves the
-- web, Supabase (PostgREST) keeps the tables, Redis the running conversations, Celery workers answer
-- WhatsApp messages, and an ingestion pipeline cuts documents into chunks for retrieval.
--
-- Prelude and its children hold the names, lists, texts and integers that all modules share.
--
-- Database is the way the program uses a table. Defs is the interface of one table (select, insert,
-- update, delete, each of which may raise) with its laws; InMemory is an implementation of it.
-- Action is a request handler: a state, which is the database, and an exception; what was written
-- before a raise stays written, since the handlers open no transaction. Action/Rules has the rules by
-- which the proofs read a handler.
--
-- Accounts is the part on users and sessions. State has the rows of the tables, the outside
-- libraries (bcrypt, PyJWT, SHA-256, the embedded selects of PostgREST) as the record Client, and in
-- Env what one request draws from its surroundings. Tokens is agent/auth_utils.py, Guards
-- agent/auth_deps.py, Auth agent/auth_router.py, Users and Rbac agent/users_router.py; each handler
-- has the name of the Python function. Calls has the single calls of the Supabase client. Under Auth,
-- Moves says what each request may do to the tables and History runs sequences of requests; the
-- other children prove what the handlers promise. Rbac/Admin gathers the requests that are for
-- administrators only; Emails serves requests to both routers in any order. Sample is a small client and database, and the Tests run the handlers on it.
--
-- Chunker is ingestion/chunker.py, on a text as the list of its code points. The module itself has
-- the configuration and `_simple_split`: positions are integers, since a step back by the overlap
-- can leave the text on the left, where Python counts from the right end, and the loop runs on fuel:
-- one round for each character and one more is enough for every sound configuration, and Endless
-- shows that some configurations that pass the checks have no number of rounds that is enough.
-- Objects is DocumentChunk and `_create_chunk_objects`, Semantic the rest of SemanticChunker with
-- the language model, `str.strip` and the patterns as parameters, and Paragraphs is SimpleChunker.
--
-- Embedder is ingestion/embedder.py: retries, batches and the way back to single texts. The service
-- and the clock are a world that each call changes; a run of `embed_batches` has one round of fuel
-- for each chunk, which is enough for batches that are not empty. Cache is EmbeddingCache.
--
-- Documents is the part of agent/db_utils.py on the tables documents and chunks. Ingest is
-- `ingest_document` of ingestion/ingest_service.py over these functions and over Embedder, and Bulk
-- the runs on S3 buckets. Hashes is on the diff of chunks, Steps on single calls, Stored and Ingested
-- on what a run leaves in the tables, and Interrupted on runs that break off. Tasks has the ingestion
-- tasks of worker/tasks.py, Endpoints the endpoints of agent/api.py on documents and ingestion.
--
-- Retriever is agent/retriever.py: the index of keywords, the two legs of a search and their fusion.
-- The floats are an interface, of which only the comparison has a law. Sorting is on the dictionary
-- of scores, Fused on the fusion.
--
-- Whatsapp is agent/whatsapp_router.py with the handshake and the signature of
-- integrations/whatsapp.py; Intake is on what a webhook queues. Task is `_process_whatsapp_message`
-- of worker/tasks.py, over Chats, Memory, AgentSettings and the turn of Agent, with `send_text`,
-- `classify_query_scope` and the confidence gate; Replies is on what it sends. Desk is
-- agent/conversations_router.py, the screen of the staff, behind its guard.
--
-- Memory is agent/session_memory.py: the last turns of each session, in Redis or, where Redis does not
-- answer at the first use, in a dictionary of the process. The server with its lists and the JSON
-- codec are the record Redis, whose laws are what the commands RPUSH, LTRIM, EXPIRE and DEL are
-- documented to do; that the server goes on answering is a hypothesis of the theorem, and a key that
-- reaches the end of its lifetime is not modelled. Window
-- follows one turn, Turns a sequence of turns of several sessions, and Tests has a small server.
--
-- Chats is agent/conversation_store.py: the tables wa_conversations and wa_messages and the functions
-- that write and read them; Contacts follows sequences of these, and Tests runs them.
--
-- Agent is one turn of the assistant: agent/guardrails.py, with its compiled patterns as parameters,
-- and in Turn run_agent_turn of agent/conversation.py over Memory, with the language model as a
-- function from prompts to responses that may raise; the prompts that are sent are noted in the
-- state. Blocked is on what the guardrails refuse and what is sent.
--
-- AgentSettings is agent/settings_store.py: the assistant's settings in the table app_settings and
-- their cache of thirty seconds; Endpoints is agent/settings_router.py.
--
-- Access is agent/access_control.py, with `str.split` and `str.strip` as parameters.
--
-- Choices: a timestamp is a number of seconds, where the sources store its ISO form and parse it
-- back; a request reads the clock once; requests are served one after the other; a row that the
-- database deletes by a foreign key is not deleted in the model; sizes and offsets of pages are
-- natural numbers; a select gives all rows that match, where Supabase cuts an answer at 1000 rows by
-- default, except for the chunks of a document, where the limit is part of the interface. In the
-- webhook the parts of the body may be misshapen wherever the code reads them; the fields of a message
-- that only the worker reads are taken to be texts.
--
-- Not modelled: `me` of agent/auth_router.py, the avatar endpoints of agent/users_router.py, the
-- dashboard, the chat and search endpoints of agent/api.py; the agent's tools and prompts; the
-- retries of Celery; the factories and examples of the ingestion pipeline, its parsers and the
-- builder of the graph; and the calls of outside services.
pub mod Prelude
pub mod Database
pub mod Access
pub mod Accounts
pub mod Agent
pub mod AgentSettings
pub mod Chats
pub mod Chunker
pub mod Embedder
pub mod Documents
pub mod Whatsapp
pub mod Retriever
pub mod Memory
