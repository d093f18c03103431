-- ===== src/Lib.antt =====
-- 3em executes SmartWeave contracts: programs whose calls are transactions on Arweave. This library
-- models its interpreter of EVM bytecode, its client of Arweave with its caches, its executor, the metering
-- of WebAssembly modules, and the calls of the JavaScript and WebAssembly runtimes.
--
-- * Evm (crates/evm): `Instruction` has the instructions and their decoding, `Storage` the accounts of
--   storage.rs, `Machine` the state of `Machine` and the actions of which `execute` is made. The arms of
--   `execute` are the functions exec_* of the modules under `Ops`, put together by `Dispatch` and
--   `Execute`. The stack has its top at the head of a list; the field `data` is `input` here.
--   `Primitives` holds the operations of U256 and of keccak256, which other crates define, as
--   parameters; `Primitives.Laws` says what is known of them, and `Primitives.Numbers` has operations
--   that satisfy it. `Invariant` and its child modules follow each arm.
-- * Arweave (crates/arweave): `Gql` has the records of gql_result.rs, `Contract` and `SortKey` the
--   functions of miscellaneous.rs and the tags, `Gateway` the queries of arweave.rs over a parameter
--   for what the network answers, `Interactions` has get_interactions with stream_interactions, `Load`
--   has load_contract. `Cache` has the trait `CacheExt` with its contract, and `Cache.Lru` the cache of
--   lru_cache.rs over the crate lru, which is a parameter; `Cache.Files` is that of cache.rs, on files.
--   `Http` has the requests behind the queries, with the host of crates/smartweave.
-- * Executor (crates/executor): `Context` has the context and the input of an interaction, `Sort` has
--   sort_interactions, `Raw` and `Raw.Loops` have raw_execute_contract, `Contracts` has
--   execute_contract and simulate_contract with LRU_CACHE. `Runtimes` has what the executor takes from
--   others: the runtimes of crates/js and crates/wasm, JSON values, the table of validity.
-- * Metering (crates/metering): `Types`, `Operators` and `Sections` have what wasmparser reads and
--   wasm_encoder writes, as far as the code matches on it; `Operators.Mapping` has map_operator, `Code`
--   the code, export and element sections, and `Inject` the two loops of `Metering::inject`, over the list
--   of payloads that the parser gives. An index of -1 is `none`.
-- * Js (crates/js): `Call` has `Runtime::call`, over the engine of `Engine`, which stands for V8. The
--   contract's state is the handle of an object in the engine.
-- * Wasm (crates/wasm): `Memory` has the exchange of memory regions, `Runtime` has `WasmRuntime::call`
--   over a guest, which is the contract, `Cost` has consumeGas with get_cost,
--   and `ReadState` has smartweave_read_state.
-- * Cli (crates/cli): `DryRun` has dry_run.rs, over the executor and the made-up interactions of
--   `Executor.Simulated` (crates/executor/utils.rs and test_util.rs); `Node` has the frames of node.rs.
-- * Napi (js/napi): the functions for Node.js, over the executor and `Arweave.Http`.
--
-- The executor loads a contract and its interactions through the client, sorts these, and runs them in
-- one of three loops; the loop of an EVM contract runs the machine once for an interaction, and the
-- machine fetches other contracts through the client again. A metered WebAssembly contract calls
-- consumeGas, which its runtime provides.
--
-- A panic is a value of its own: `panic` of an action, `panicked` of a fetched result, `none` of an
-- operation. Loops that need not end are on fuel: `run` takes one unit for a round of the machine, and
-- a nested call runs on what is left; `stream_interactions` takes one for a request; `from_raw` is given
-- one for a byte and one more, and an account takes 64 bytes. Too little fuel is `timeout` or
-- `exhausted`, a value apart from every result.
--
-- Not modelled: the transport of HTTP, the parsing of JSON and of arguments, the local server, printing;
-- V8 and the set-up of its instances; the conversions between AR and winston, which are of floating point;
-- what a JavaScript contract reads of other contracts while it runs, which is part of its runtime: its
-- calls may change the cache, and LRU_CACHE, in any way; and that the fetcher of an EVM contract caches
-- what it loads.
pub mod Base
pub mod Evm
pub mod Arweave
pub mod Executor
pub mod Metering
pub mod Js
pub mod Wasm
pub mod Cli
pub mod Napi
