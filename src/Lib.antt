-- ===== src/Lib.antt =====
-- localx-llama: a model of the program and the properties it has.
--
-- The workspace launches `llama-server` for a catalog of models, filters the reasoning of a model
-- out of its replies, and keeps the settings that both rest on. The parts modelled here:
--
-- Error: crates/localx-llama-core/src/error.rs, the kinds of failure.
-- Config: config.rs, the layers of settings. `assemble_config` and `set_setting` over maps with
--   any type of values.
-- Model: model.rs, the catalog's definitions, the resolution of context and quant keys, and the
--   validation of a definition (Model.Validate).
-- Args: args.rs, the argv of a launch. `build_llama_server_args` is a chain of its sections, one
--   definition for each (Args.Build); it takes a definition of Model and the parameters of a call,
--   and fails with an error of Error.
-- Nothink: crates/localx-llama-runtime/src/nothink.rs, the filter for `<think>` spans: on a whole
--   text (Nothink.OneShot), and on a stream of chunks (Nothink.Stripper), where the state of
--   `ThinkStripper` is passed from step to step. Nothink.Request has the transforms of a request
--   and (Request.Response) of a response that is not streamed. Nothink.Sse is `SseThinkFilter`: an
--   event is transformed in stages over the state of the stripper and the open blocks, and
--   Sse.Drain takes the events from the pending bytes. Sse.Deltas, Sse.Completion and Sse.Bytes
--   follow an OpenAI completion from the server's bytes to the client's text.
-- Health: crates/localx-llama-runtime/src/health.rs and the decisions of server.rs: what to do
--   with the proxy behind a port.
-- Download: download.rs: pins, the choice of a release asset, the order of CUDA builds.
-- Capabilities, Tuner, Vram, Launcher: capabilities.rs, tuner.rs, vram.rs and launcher.rs of
--   crates/localx-llama-core/src. What a build's help lists decides how Args spells the load
--   flags, and a tuned entry becomes the launch parameters that Args takes.
-- Fit: fit.rs there: what of a server's argv the placement fitter is given, and (Fit.Output) the
--   placement that is read of its output.
-- Proxy: proxy.rs in crates/localx-llama-runtime/src. `sse_think_stream` is polled over an upstream
--   that yields chunks and errors; the filter comes in as its operations, which Proxy.Filtered fills
--   with those of Nothink.Sse. Proxy.Token and Proxy.Headers are the token check and the header
--   filter, Proxy.Handler the handler: what is forwarded, and what is answered.
-- Quant: quant.rs of crates/localx-llama-core/src: what the name of a file says (Quant.Names), the
--   candidates of a listing (Quant.Sets), the selection of one (Quant.Select), the names of a set's
--   shards (Quant.Shards), the taxonomy (Quant.Notes).
-- Gate, Judge: gate.rs and judge.rs of crates/localx-eval-core/src.
-- Check, Verify: check.rs and verify.rs there: the run of a check with its fixer, over the execution
--   of a command, and the command that verifies a workspace, over its files.
-- Scorecard: scorecard.rs there: the counts of a diff, the tests it adds and the signals of a quality
--   block.
-- Uplift: uplift.rs there: the identity of a run, its two arms, and the comparison with a request.
-- Ablation: ablation.rs there: the arms of an ablation, and the signal that each feature moves.
--
-- Prelude, Text, Maps and Json are shared: tests and results, `String` as a list of code points
-- with the width each has in UTF-8, `BTreeMap` as a list of entries in the order of their keys, and
-- `serde_json::Value`. A `Result` is `ok` or `err`, an i64 is an integer (no operation modelled
-- leaves its range), a usize that counts the bytes of a text is a natural number, and a sum of u64
-- wraps around.
--
-- Four loops run on fuel. Those of `strip_think` and of the stripper's `push` have one round more
-- than the bytes they read: each round drops a tag, or empties the buffer, or is the last. The loop
-- of the SSE filter's `push` has one round more than the bytes that are pending, since every event
-- takes two at least. The polls of the proxy's stream are three more than the upstream's items: the
-- tail, an error, and the end. `none` stands for a lack of fuel; the results below say where an
-- outcome is always returned.
--
-- f64 is a type parameter with the tests and operations that the code uses, SHA-256 a function from
-- texts to bytes, and the parsing and printing of JSON, the decoding of UTF-8, `HeaderValue::to_str`,
-- the reading of a request's body and the sending of a request are parameters too; a record of laws
-- says what a result relies on of them. Not modelled: the names that quant.rs finds by regular
-- expressions, the process control of check.rs, and the scores of localx-eval-core; and, since it is
-- code of other packages or of the operating system, serde, axum, sockets, processes and files.
pub mod Prelude
pub mod Text
pub mod Maps
pub mod Error
pub mod Config
pub mod Model
pub mod Args
pub mod Json
pub mod Nothink
pub mod Health
pub mod Download
pub mod Capabilities
pub mod Tuner
pub mod Vram
pub mod Launcher
pub mod Gate
pub mod Judge
pub mod Fit
pub mod Proxy
pub mod Quant
pub mod Check
pub mod Verify
pub mod Scorecard
pub mod Uplift
pub mod Ablation
mod Tests
