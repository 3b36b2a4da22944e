-- ===== src/Lib.antt =====
-- ARMIN keeps a durable graph of what coding agents decide: rules, decisions and open items as
-- nodes, and edges that supersede, refute, resolve or relate them. The engine feeds it events, and a
-- short-lived scratch of each session's edits and checks stands beside it.
--
-- Parts and files:
--   Types          armin-core/graph/src/types.rs: nodes, edges, snapshots; Types/Scratch has the
--                  session scratch's entries
--   Petgraph       the graph crate that the store is built on, as an interface with its documented
--                  laws; Petgraph/Listed is a graph that meets it
--   Text           armin-core/graph/src/utils.rs: `tokenize`, and in Text/Sessions `session_index`,
--                  `session_short_name` and `session_id_at_index`
--   Store          armin-core/graph/src/store.rs: the state `GraphStoreInner` and the methods of
--                  `GraphStore` that write: `add_node`, `add_edge`, `invalidate_node`,
--                  `resolve_question`, `register_session`
--   Store/Index    `index_node`, the incremental BM25 index that `add_node` feeds
--   Store/Query    the methods that only read: `nodes_where`, `recent_touching`, `snapshot`,
--                  `snapshot_at_time`, `last_n_nodes`, `recent_snapshot`, `open_questions`
--   Store/Bfs      `bfs_subgraph`
--   Store/Walk     the walk along edges that decisions.rs and risks.rs share, and that it ends
--   Store/Consistent  what ties the fields of the state together, and that each write keeps it
--   Store/Writes   what each write does, and what holds over any sequence of them
--   Persistence    armin-core/graph/src/persistence.rs: the trees of the database and their operations
--   Persistence/Disk     what the crates of the database and of the serialisation promise
--   Persistence/Durable  store.rs: `GraphStore` with its database, and its methods that write
--   Persistence/Open     store.rs: `new_persistent`, which loads a database
--   Persistence/Mirror   that the database holds the store; Persistence/Keeps: after every method
--   Persistence/ReadBack, Rebuild, Reopen, Restore  that what is written is loaded again
--   Persistence/Memory   the store in memory beside its database; Persistence/Migrate  the former format
--   Diff           armin-core/graph/src/diff.rs: `compute_graph_diff`, and `compute_diff`
--   Scratch        armin-core/engine/src/toolclass.rs: `Scratch`, its bounds and its reads
--   Tools          the rest of that file: `classify`, `check_passed`, `record_tool_event`, over the
--                  event record of armin-core/ingest/src/lib.rs
--   Debt           armin-core/graph/src/debt.rs: `compute_debt`, its four detectors over the store
--                  and a scratch
--   Decisions      armin-core/graph/src/decisions.rs: `extract_decisions`; Decisions/Status is about
--                  the status, Decisions/Order about which decisions there are
--   Risks          armin-core/graph/src/risks.rs: `compute_risks_from_debt`
--   Summary        armin-core/graph/src/summary.rs: `compute_debt_delta`, and in Summary/Executive
--                  `compute_summary`; Summary/Sorted is about the key of a debt item
--   Hook/Transcript  armin-core/hook/src/transcript.rs: `read_new`, which reads what a session's
--                  transcript has gained; Hook/Transcript/Resume has what a later read finds
--   Hook/Util      armin-core/hook/src/util.rs: hashes, slugs, percent encoding and truncation
--   Jev            armin-core/extraction/src/jev.rs: sentences, their types and the nodes; Jev/Pairs has the
--                  candidate pairs and their edges, Jev/Batch `extract_native_batch`
--   Jev/Sentences, Nodes, Chronological, Edges  where sentences, nodes, pairs and edges are from;
--                  Jev/Requests has which request is about what, Jev/Choices and Jev/Relations what an
--                  answer chooses, Jev/Kept the sentences that are kept, Jev/Sorted the order of nodes
--   Jev/Client     the relays and `JevClient`; Jev/Client/Retries is about `ask`, Jev/Client/FromEnv
--                  about `from_env`, and Jev/Client/Shortens about the base
--   Engine         armin-core/engine/src/state.rs and metrics.rs: the engine's state, its sessions and
--                  its event log
--   Engine/Config  the settings of state.rs, and `JevNativeConfig` of armin-core/extraction/src/jev.rs
--   Engine/Ingest  armin-core/engine/src/routes.rs, `ingest`: scratch, event log and extraction queue
--   Engine/Agent   the same file: the writes of the agent, and `bfs` and `debt`
--   Engine/Reports the same file: the other reads and reports, `add_node` and `add_edge`
--   Engine/Import  armin-core/engine/src/import.rs: the import of a project's documents
--   Engine/Brief   armin-core/engine/src/brief.rs: the choice of the decisions of a brief;
--                  Engine/Brief/Text has its text, Engine/Brief/Text/Empty when it is empty
--   Engine/Worker  armin-core/engine/src/worker.rs: batches of events and the commit of a result
--   Engine/Ready   what holds between two calls, and Engine/Serve that every call keeps it
--   Prelude        shared names: Boolean tests, lists, hash maps as association lists
--   Tests          the theorems at concrete inputs
--
-- How the program is read:
--   A method that holds the lock for its whole body is a function on the locked value; a call
--   sequence is a sequence of such functions (`Run` for the store, `run` for the scratch).
--   `resolve_question` and `compute_diff` take the lock twice; they are read with no other call in
--   between, and since no method removes a node, the checks of the former hold until its write.
--   The clock and the random identifiers are arguments.
--   A hash map is an association list and a hash set a list, and the theorems do not speak of their
--   order. Errors are values of `StoreError` with the identifier that the message names.
--   Time stamps, which the code only compares, are natural numbers; a confidence is a number of
--   ten-thousandths, and the tolerance 0.01 of the difference is 100 of them.
--   The debt score, a sum of 32-bit numbers of at most 3 each, and the counts of the delta are
--   natural numbers; a report would need a billion items to reach the 32-bit bound.
--   `graph[i]` panics at an index that is not there. The functions skip it, and in a consistent
--   store it does not occur.
--   A handler of the engine is a function on the engine's state; a sequence of requests and batches
--   is a sequence of such functions (`serve`), each run to its end before the next. A counter wraps
--   around at 2 ^ 64. The channel to the worker is the list of what was sent and not received, which no call of
--   `serve` shortens; the worker's loop (`batches`) has a list of what it receives and of the deadlines.
--   Environment variables are a function; a threshold, which `parse::<f64>` reads, is a number of
--   ten-thousandths, so that a variable that reads as NaN is left out.
--   The loops are structural: over lists, bytes, and the depth of the search. The walk along
--   edges has fuel, two more than the edges of the graph: a round takes one node off the queue, and a
--   node joins the queue once, over an edge. The decimal digits of a number n have the fuel n, and a
--   step divides by ten.
--
-- Parameters: the graph crate (`StableGraph`; edges at a node come in any order), Rust's Unicode
-- tables (`Unicode`), what the JSON parser reads a line as (`SerdeJson`), the hash of an imported
-- text (`Sha256`), the key-value database and the serialisation (`Sled`, `Bincode`; a write of the
-- database may fail, a serialisation does not), the parsing of floating-point settings
-- (`ParseFloat`), the answers of the extractors and of the linker (`Extractors`), the answers of
-- the Jev service (`Replies`, `Reply`) and how a probability is printed (`FormatFloat`).
--
-- Not modelled: the texts of the requests to the Jev service; a database that cannot be read, its
-- files and its flush, the floating-point scores of the retrieval and of the communities, the
-- extraction from transcripts by language models, the hook processes but for the transcript reader
-- and the helpers, the older server, and everything that is not Rust.
pub mod Prelude
pub mod Types
pub mod Petgraph
pub mod Text
pub mod Store
pub mod Persistence
pub mod Diff
pub mod Scratch
pub mod Debt
pub mod Summary
pub mod Decisions
pub mod Risks
pub mod Tools
pub mod Hook
pub mod Jev
pub mod Engine
pub mod Tests
