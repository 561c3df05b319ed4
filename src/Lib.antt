-- ===== src/Lib.antt =====
-- rune-mcp: an MCP server that captures decisions of a team as encrypted records and recalls them.
--
-- The program. internal/mcp hands each tool call to a service (internal/service). A capture parses
-- the agent's extraction (internal/domain), builds its records (internal/policy), asks how new the
-- first one is, seals the records and inserts them in enVector. A recall parses the query, embeds its
-- expansions, searches enVector, lets Vault decrypt scores and metadata, expands and assembles the
-- groups of records, filters, reranks and answers. internal/lifecycle boots the connections to Vault,
-- the embedder daemon and enVector, and keeps the state that the services wait for.
--
-- The files, one directory for each part of the program:
--   Prelude     native numbers and lists, Go's strings as lists of code points, stable sorts,
--               float64 and JSON values, permutations, loops with a `seen` map
--   Domain      internal/domain: errors.go (Errors), schema.go (Record), extraction.go (Extraction),
--               query.go (Query), capture.go and logio.go (Capture); Calendar is package time
--   Policy      internal/policy: utf8_safe.go (Truncate), pii.go (Redact), novelty.go (Novelty),
--               rerank.go (Rerank), query.go (Query), payload_text.go (Payload), record_builder.go
--               (Evidence, Draft, Builder); Regexp is package regexp
--   Adapters    internal/adapters: envector/aes_ctr.go (AesCtr), errors.go of vault, embedder and
--               envector (Grpc), config (Config), embedder/retry.go (Retry), client.go, cache.go and
--               socket.go of embedder (Embedder, Embedder/Batch), logio/capture_log.go (CaptureLog),
--               endpoint.go and client.go of vault (Vault), client.go of envector (Envector)
--   Service     internal/service: recovery.go (Recovery), recall.go (Recall: Search, Metadata,
--               Expand, Groups, Filter, Answer, Flow), capture.go (Capture: Novelty, Batch); Backend
--               has the calls that leave the program; lifecycle.go, diagnostics_classify.go and
--               search.go (Lifecycle: Configure, Activate, Watcher, Reload, Status, Diagnostics, History,
--               Delete), with an interface of what they call (Lifecycle/Host)
--   Lifecycle   internal/lifecycle/boot.go: bootOnce and RunBootLoop (Boot), Retrigger (Retrigger),
--               WaitForActive and sleepBackoff (Await); a boot after a change of the config
--               (Boot/Restart); boot_classify.go and internal/domain/boot_error.go (Classify);
--               shutdown.go (Shutdown); internal/recovery (Interceptor)
--   Mcp         internal/mcp: state.go, and MakeError of internal/domain/errors.go (State), handlers.go
--               and result.go (Handlers, Tools), tools.go (Wiring)
--   Spawn       internal/spawn: the start of the embedder daemon
--   Obs         internal/obs: the redaction of what is logged
--   Examples    a concrete outside world, and the theorems applied in it
--
-- How code is read. A struct is a record, an enum a data type, a method a function of the same name
-- in snake case. A pointer that may be nil is an Option. `(value, error)` is a Result, which also has
-- a run-time panic. A flow is an Action: a function from the outside world to a result and the world
-- after it, so calls happen in the program's order and two equal calls may differ. The daemons,
-- package regexp, the Unicode tables, float64, the clock, AES-CTR, base64 and json are interfaces:
-- records that the definitions take as arguments, with the laws that the theorems need. Where Go
-- walks a map, the order is a function that a theorem takes with the hypothesis that it permutes.
-- Loops are recursive on the list they walk, and the ticks of the bootstrap watcher are such a list.
-- The slices of a batch have as much fuel as there are texts, of which each takes one at least; the
-- waits for the boot, for Active and for the daemon's socket have one unit for each millisecond of
-- their timeout, of which each round uses a hundred, or the poll interval. The digits of `decimal`
-- have one more unit of fuel than the number's value, and the collapse of blank lines has the
-- text's length, of which each round uses at least one.
--
-- Not modelled: log lines (but their redaction is), deadlines (a deadline that expires is an error
-- of its call), the bounds of `int`, NaN and the infinities, strings that are no UTF-8, dialling
-- and the gRPC stubs, files and processes, the registration of tools. The boot loop keeps a boot
-- error as the arguments of its classifier.
pub mod Prelude
pub mod Domain
pub mod Policy
pub mod Adapters
pub mod Service
pub mod Lifecycle
pub mod Mcp
pub mod Spawn
pub mod Obs
pub mod Examples
