-- ===== src/Lib.antt =====
-- A decentralized network for the inference of large language models: every worker serves some
-- layers of a model, workers find each other through a registry and connect as peers, and a chat
-- is carried through a chain of workers, which are paid through checkpoints that its root signs.
--
-- The parts, with the code they model (paths from the repository's root) and how they interact:
--   * Router (crates/model-router/src/table.rs): the route table of a node. `new`, `on_tick`,
--     `on_disconnected`, `create_sync`, `apply_sync`, `select_next`, `ready` are the functions of the
--     same names. Router.Invariant, Router.Best, Router.Select, Router.Expiry and Router.Exchange
--     hold the lemmas.
--   * Protocol (crates/protocol/src/lib.rs and crates/protocol/protobuf): the route sync as a
--     message, and the messages of the registry (Protocol.Registry) and of the chain (Protocol.Llm).
--   * Registry.Selection (crates/registry/src/client/layers_selection.rs): which layers a new worker
--     is to serve. Registry.Sessions (crates/registry/src/server/session_manager.rs): the nodes of one
--     model. Registry.Server (crates/registry/src/server/mod.rs, crates/registry/src/lib.rs): the main
--     loop over stream events, which owns a session manager for each model. Registry.Server.Streams
--     is the task of each web socket (`ws` there) beside the loop, with the channel between them;
--     what happens is a list of actions, in any order.
--     Registry.Client (crates/registry/src/client/mod.rs): what a worker sends to the registry.
--   * P2p.Buffer (ConnectionBuffer of crates/p2p-network/src/node/remote_conn.rs): frames as chunks;
--     P2p.Buffer.Air is about the account of the bytes in the air along a history. P2p.RemoteConn
--     (RemoteConn there): a connection with its buffer, over the WebRTC library.
--     P2p.SharedPort (crates/p2p-network/src/shared_port.rs): which connection a packet belongs to.
--     P2p.Node (crates/p2p-network/src/node.rs): the maps between connections and peers, over
--     connections that may panic.
--   * Usage (crates/usage-service/src/lib.rs): the trait that the model service calls around each
--     request, as a record of operations on a state; Contract (crates/contract/src/storage.rs,
--     validator.rs, lib.rs) fills it with the on-chain service.
--   * TensorBuf (crates/models/src/remote/mod.rs): tensors as bytes.
--   * Models (crates/models/src): chats. Models.Llama (llama/mod.rs and LlamaPre, LlamaPost of
--     llama/internal/mod.rs) and Models.Phi3 (phi3/mod.rs) are the chats of the two models over a
--     worker of the layers; Models.Chat holds what they share, Models.TokenOutputStream
--     (token_output_stream.rs) turns tokens into text, Models.Sampling and Models.RepeatPenalty
--     (logits_processor.rs, utils.rs) choose the next token, Models.Prompt renders the prompt.
--     Models.Chat.Reference is a generation of tokens without streams and positions, which the
--     chats are compared with; Models.Chat.Receiver says what the receiver of the text sees.
--     Models.Llama.Layers and Models.Phi3.Layers are the workers of the layers, which keep a cache
--     for each session; Models.Sessions specifies such a worker, and
--     Models.Phi3.Layers.Refinement compares the one of Phi-3 with it.
--   * SharedMap (crates/utils/src/shared_map.rs): a map behind a lock.
--   * OpenaiHttp (crates/openai-http/src): Reader (AsyncReadRx of api_chat.rs) gives the messages of
--     a channel as bytes, Completions (chat_completions there) passes a chat's texts on to it, Store
--     (ModelStore of lib.rs) keeps the models that chats can be asked of. Protocol.OpenAi
--     (crates/protocol/src/openai.rs) is the requests.
--   * Control (bin/openai-server/src/api_control.rs and worker.rs): the workers that a server starts
--     and stops (Control.Workers), and the layers it suggests (Control.Suggestion).
--   * Worker.Rpc (crates/worker/src/rpc.rs): numbers of requests and waiting callers.
--     Worker.ModelService, Worker.Handlers and Worker.Requests (crates/worker/src/model_service.rs,
--     crates/worker/src/virtual_model_layers.rs): the service that runs a node's layers and calls the
--     next node. Worker.Pipeline: nodes behind one another. Worker.Communication
--     (crates/worker/src/communication.rs): the main loop of a worker, one round for each event, over
--     the route table, the network node, the registry client and the calls.
--   * Base: Boolean tests, lists over the native numbers, hash maps as association lists, ordered
--     maps, and `Outcome` for code that may panic. Tests: the theorems at concrete inputs.
--
-- Conventions: a hash map is an association list in an order of its own, and nothing proved depends
-- on the order but where the code does; unsigned arithmetic wraps at its width, written out, as in a
-- release build; `usize` has 64 bits; a panic (index, expect, unwrap, assert) is `panicked`. An async
-- handler is a function from the state to the state, so handlers of one service do not interleave
-- within a call; channels hold any number of messages; a call of another node is a function on the state of the network behind it. Loops
-- are recursion on the list or the count they run over: the rounds of a chat on max_len, the reader's
-- loop on the messages in its channel, as each further round takes one. Fuel occurs four
-- times: `flush` has one unit for each queued chunk, of which each round takes one; `slices`
-- cuts a frame with its length as fuel, enough as every slice takes at least one byte off; `chain`
-- reaches as many nodes behind a node as its depth says, and the theorem asks for a depth of their
-- number; `drain` takes rounds of a loop that the code does not bound, and gives nothing where they do
-- not do. How long this loop runs is up to the WebRTC library, and no theorem says that it ends.
--
-- Parameters: candle's tensors, the tokenizer, the random generator, floats, the attention of a
-- block, bincode and prost, the signature scheme, the chain's answers, a node's own layers (for the
-- service that runs them, and for a chat), and the WebRTC library. P2p.Node takes its connections as
-- a record of operations, which may panic; P2p.RemoteConn.Connection fills it. What is assumed of the
-- parameters is named in each theorem: that they read back what they write, that the root's
-- signatures verify, that the library writes what it is given, what the tokenizer does with a longer
-- list of tokens.
--
-- Not modelled: the WebRTC library and sockets, STUN, the other handlers of the HTTP and
-- web socket servers and their json, the Aptos client, loading a model's weights and the arithmetic of
-- its attention, the fake model, the command lines and the desktop application.
mod Base
pub mod Router
pub mod Protocol
pub mod Registry
pub mod SharedMap
pub mod Models
pub mod OpenaiHttp
pub mod P2p
pub mod Usage
pub mod Contract
pub mod TensorBuf
pub mod Worker
pub mod Control
mod Tests
