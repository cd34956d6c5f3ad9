-- ===== src/Lib.antt =====
-- The research workspace: its backend keeps what a language model says, runs and cites within
-- rules that a person can rely on. This library models those rules and the code that keeps them.
--
-- Parts, and how they interact. A user message comes over a socket (Ws, backend/ws/__init__.py),
-- which reserves the one turn of its session and starts the agent loop (backend/harness/loop.py).
-- The loop sends a prompt that Harness.Context assembles (backend/harness/context.py) through the
-- gateway of the language models (Llm, backend/llm/__init__.py, with backend/settings/__init__.py),
-- and feeds what the model streams to the citation machine (Streaming,
-- backend/harness/streaming.py), whose validator asks Provenance (backend/provenance) whether a
-- quote stands in a paper. A crash leaves turns that Harness.Resume closes at the next connect
-- (backend/harness/resume.py, with `finish` of backend/harness/trace.py). Tools search papers
-- (Search, backend/search/__init__.py, with the ids of Papers, behind Ratelimit,
-- backend/ratelimit.py), add them to the library, where jobs fetch, parse, embed, extract and trace
-- them (Papers, backend/papers/__init__.py), retrieve and store chunks of texts (Memory, backend/memory) and
-- record experiments (Experiments, backend/experiments), whose notebooks run in containers after
-- consent (Sandbox, backend/sandbox/__init__.py). A matrix compares papers and experiments (Matrix,
-- backend/matrix), a feed finds new papers (Feed, backend/feed), and a document cites the papers of
-- its project (Writing, backend/writing, whose keys and checks are modelled).
--
-- Files. Prelude and its children hold tests on numbers, lists, texts as code points, association
-- lists for dicts and tables (Assoc by number, Dict by text), decimal numerals, and the search for
-- a free name. For each part:
--   * Streaming: Markup is the regular expressions and literals, Machine the class CitationStream
--     with one function per method, Loop and Turn the deltas of a turn. Splits, Progress, Pieces and Marked
--     are lemmas, Runs tests.
--   * Provenance: Normalize and Locator are locator.py and validator.py, Anchors is
--     validate_and_anchor and get_anchor. Positions and Spans are lemmas.
--   * Experiments: Models the records and tables, Record the operations. Gate, Slugs and History
--     state what they keep, History for every succession of operations.
--   * Sandbox: Confirmation is the run spec and the consent tokens, Consent histories of them;
--     Servers and Stopping are the start and the stop of the live notebook servers, with Guarded,
--     Counts and Accounts; Launch is `run_all`, with Recorded and Asked.
--   * Harness: Models the records, Context.Blocks and Context.Assemble the prompt, Context.Bands
--     and Context.Eviction its lemmas; Resume the sweep, Resume.Sweep, .Settles and .Closed its lemmas;
--     ToolCalls the calls of one completion in `run_turn`, with ToolCalls.Consent and .Pairs; Turn
--     is `run_turn`, with Turn.Feeds, .Calm and .Ends;
--     Compaction the summary of a conversation (backend/harness/compaction.py, with `_history` of
--     loop.py), with Compaction.Window; Registry the tools (backend/harness/registry.py), with
--     Registry.Visible.
--   * Ws: the sessions, the in-flight slots of loop.py and the pending approvals of approval.py as
--     one state with a step relation. Turns and Registry are about it.
--   * Llm: Models the records, Resolve the tiers and settings, Saved what was saved is resolved;
--     Budget and Calls are the shortening of messages and the calls with their retries, Fits and
--     Bounded their lemmas.
--   * Search: Models, Federation (operations), Dedupe and Pages.
--   * Papers: CanonicalId the ids, Pipeline the requests, Jobs the jobs, each as two steps, Steps what
--     can happen. Staged, with Requests and Always, and Stuck state what that keeps; Recovers, with
--     Behind and Ends, what retries can reach. Windows is the texts of an extraction, with
--     Windows.Fit.
--   * Memory: Chunking the loop, Cover its lemmas; Selection is the choice of rows of a query, TopK
--     its lemmas; Index is the chunk jobs, Rechunk their lemmas. Ratelimit: the wrappers, Attempts
--     their lemmas.
--   * Matrix: Cells is the views and updates, Overrides and Rows lemmas, Refines what an edit shows.
--   * Feed: Poll is the poll and the dismissal, Once its lemmas, Histories and Events successions of
--     both, with additions to libraries.
--   * Writing: Models, References (keys and BibTeX) and Citations (the check); Keys, Scans, Cited
--     and Spans are about them.
--   * Examples: concrete inputs.
--
-- State is passed as a record; a table or dict is an association list by key, an id is a number.
-- A `ValueError` is a value (`Result`, `Option`, or a refusal). Times are numbers: seconds for
-- tokens, milliseconds for waits. What the code draws or gets from elsewhere is an argument: new
-- ids, clocks, jitter, digests (`hash_spec`), `slugify`, the similarity of difflib, token counts,
-- validators, encryption, `str.lower` in the feed, the tools of the registry, HTTP responses, the
-- replies of language models, the embedder and the cross-encoder, and what Docker, Jupyter, the file
-- system and the vault answer. In canonical ids and in the comparison of venues `lower` changes
-- ASCII letters only.
--
-- Loops with a fuel: `feed_loop` gets one more than a measure of buffer and mode, `find_all` and
-- `split_from` one more than the length of the text, `unique_slug` one more than the number of
-- slugs, `evict` one more than the number of blocks, `reveal` one more than the number of matches,
-- the search for a citation key one more than the number of keys in use, the search for a prefix
-- that fits the budget one more than the length of the content, and the pieces of a window the
-- length of its text. Every round of these loops uses up one of what is counted. `run_turn` has its
-- own bound of 8 iterations.
--
-- Not modelled: the prompts and statistics of `run_turn`, the streaming completion, the ranking of
-- searches, the links that are harvested from papers, the saving and compilation of documents, the
-- extractions that a matrix view stores, the saving of feed items and the interest profile, notes, the graph, the vault, projects, conversations, voice and the
-- scheduling of jobs, the HTTP routes, migrations, and the user interface: most of them are reads
-- and writes of single rows, or I/O. Of the tables only the columns that modelled code reads or
-- computes are kept.
pub mod Prelude
pub mod Streaming
pub mod Examples
pub mod Experiments
pub mod Sandbox
pub mod Provenance
pub mod Feed
pub mod Harness
pub mod Llm
pub mod Matrix
pub mod Memory
pub mod Papers
pub mod Ratelimit
pub mod Search
pub mod Writing
pub mod Ws
