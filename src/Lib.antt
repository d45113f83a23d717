-- ===== src/Lib.antt =====
-- The recovery service for protected Lua programs, as far as it is modelled here: the job queue and the
-- states of jobs, the limits of the gateway, the byte strings of Lua literals, the folding of
-- constants, the graph of basic blocks, the lexer, parser and generator of Lua, the families of fixtures,
-- and the gates that decide whether a recovered program is admitted.
--
-- How the parts interact. The gateway asks the limiter, then puts a job into the queue; workers lease
-- jobs, send heartbeats and complete or fail them; the API shows a job's state by the product's
-- machine. A worker runs the core, which decodes literals into byte strings, folds constants, builds
-- the graph of basic blocks and walks it; the analyzers report evidence, the validators judge it, and
-- the final gate decides.
--
-- Prelude (Tests, Lists, Dict): Boolean tests, lists over native numbers, and maps as association
-- lists in the order of insertion, as a JavaScript `Map` has it.
-- Jobs (Legal, Product, Simulation): packages/queue/src/types.js (`isValidTransition` is
-- is_valid_transition) and packages/api/src/state-machine.js (`isValidProductTransition`,
-- `assertValidTransition`, `mapInternalToProductState`). States are data types.
-- Queue (Defs, Methods, Settle): packages/queue/src/in-memory-queue.js. The queue is a record with the
-- maps of jobs, idempotency keys and leases and the waiting list; each method is a function of the
-- same name that takes the state, and `Date.now()` and fresh ids or tokens as arguments. Invariant,
-- Keeps, Flow, History, Progress and Run hold the invariant and the runs of calls; Contract, Service,
-- Reclaim and Requests what the single calls promise. `enqueue` does not check that an id is unused, so
-- the runs of Run say so of each request, and Requests says what comes of one that reuses an id.
-- Bytes (Defs, Literal): packages/shared/src/bytestring.js. A byte string is the list of its bytes, a
-- JavaScript text the list of its code units. RoundTrip, Inverse and Fuel hold the proofs.
-- Admission (Gate, Evidence, Integrity, Required, Graph): packages/core/src/analysis, the files
-- final-admission-gate.js, proof-integrity-validator.js, required-proof-validator.js and
-- semantic-graph-completeness-verifier.js. Reports are records, and missing fields are `none` where
-- the code tells them from false ones. Verdict, Provenance, Contract, Single and Complete hold the
-- proofs.
-- Gateway (Limiter): packages/gateway/src/rate-limiter.js. The Redis client is a parameter. Window,
-- Tracks, Sliding and Slots hold the proofs.
-- Evaluator (Syntax, Fold): packages/core/src/evaluator/constant-evaluator.js over the nodes of
-- packages/core/src/ast/nodes.js and `transform` of packages/core/src/ast/visitor.js. Numbers are a
-- parameter. Nodes of other types keep their type, their names and flags and their children. Meaning says
-- what Lua does: an expression gives a list of values, which an operator cuts to one. Quiet, Sound, Plain,
-- Whole and Count hold the proofs.
-- Flow (Blocks, Reach): packages/core/src/cfg, the files basic-block.js, edge.js and cfg.js. Blocks are
-- objects in a heap and edges hold addresses, so that a block may be in many edges. Fuel, Closed,
-- Sweep and Whole hold the proofs.
-- Syntax: packages/core/src/lexer (Tokens, Lexer), packages/core/src/parser, the files parser.js and
-- index.js (Tree, Result, Parse; Parse.Source is `parse` of a text),
-- and packages/core/src/generator/lua-generator.js (Generate). Each method is a function of its name; the
-- parser reads the kinds of the lexer's tokens but the last, which is the end of file
-- (Parse.Stream holds the code's own view of them, a list of tokens and a place). The generator
-- writes pieces, which are tokens or layout; `render` makes the text of them, and `kinds` the tokens that are
-- meant: the lexer may read the text otherwise, as it does for `--x`, so a statement on the text takes as
-- a hypothesis that it does not.
-- RoundTrip holds the proofs on parser and generator: Form is what is read back, Printable the trees
-- for which that holds, Bare what of a tree is compared, and each other file takes a part of the grammar.
-- Families (Clusterer): packages/core/src/adapters/clustering.js. Grouping holds the proof.
--
-- Bounds and fuel. Numbers are natural numbers: times in milliseconds, counts, addresses, state ids.
-- The decoder of literals has fuel for each code unit of the text, and the walk over blocks fuel for
-- each block of the heap; the lexer has fuel for each character. Each step
-- takes one of what its fuel counts. The parser takes one unit of fuel for each call and each round of
-- a loop, so a statement about it holds from some amount on.
--
-- Not modelled: for which programs the lexer reads the written text as meant; the transforms and the
-- analyses that read the tree, the dispatcher's graphs, the Redis queue, the artifact store, sessions, the worker's protocol,
-- and all input and output (HTTP, Discord, containers, files). Emitted events are left out, since
-- nothing of the modelled state depends on them.
pub mod Prelude
pub mod Bytes
pub mod Admission
pub mod Jobs
pub mod Queue
pub mod Gateway
pub mod Evaluator
pub mod Flow
pub mod Syntax
pub mod Families
