-- ===== src/Lib.antt =====
-- A verification library for dlstorage, a replicated in-memory key-value store in Python.
--
-- A node (dlstorage/node/sync.py, dlstorage/node/async_.py) keeps a local store and a ring of
-- nodes. For a key it asks the ring (dlstorage/ring/rendezvous.py) for the replicas, turns each
-- into a handle, local or remote, and writes to all of them, or lets a consistency strategy
-- (dlstorage/consistency) choose a value among their answers. A remote handle sends a message
-- (dlstorage/types.py) through a connection pool (dlstorage/connection_pool), and the node that
-- gets it answers by running its dispatcher (dlstorage/node/dispatcher.py) on its own store
-- (dlstorage/store). Gossip (dlstorage/peer_comm) and discovery (dlstorage/discovery) keep the ring.
--
-- The files, and the code that each is about:
--   Base, with Base/*: natural numbers, integers, lists, text as code points, bytes. No code.
--   Dict, with Dict/Laws: a Python dictionary with text keys, as a list in insertion order.
--   Result, Action: exceptions, and methods that change a state and may raise.
--   Types, Types/Decimal, Types/Address: dlstorage/types.py, with str and int on ports.
--   Store, Store/Lww, Store/Basic and the files below them: dlstorage/store/lww.py and basic.py.
--     A method is one step, as the lock makes it; its first arguments are what the clocks
--     (time.monotonic, time.time_ns) say at the call.
--   Ring, with Ring/*: dlstorage/ring/rendezvous.py. The parameter `sha256` stands for
--     hashlib.sha256(text.encode()).digest(). Nothing is assumed of it.
--   Consistency, with Consistency/*: dlstorage/consistency/lww.py and fhw.py. The async versions
--     work on the answers that asyncio.gather hands back.
--   Handle: the interfaces of dlstorage/node/interface.py and connection_pool/interface.py.
--   Discovery, with Discovery/Hosts: dlstorage/discovery. The resolvers are parameters.
--   Gossip, with Gossip/*: dlstorage/peer_comm/gossip.py. A round is one turn of the loop; the
--     pool is a parameter, and in the async version the replies come in any order.
--     Gossip/Peers and Gossip/Departed are about several nodes, at the other ends of their pools.
--   Wire, with Wire/*: dlstorage/connection_pool/wire.py. `dumps` and `loads` stand for pickle, and
--     a stream comes in pieces of whatever sizes.
--   Pool, with Pool/*: dlstorage/connection_pool/sync.py, one call after another. `Network` stands
--     for connecting, for a request on a socket, and for closing it. Pool/Sockets makes one from the
--     sockets of the operating system and `_new_connection`, and Pool/Ledger is about it.
--   Pool/Async, with Pool/Async/Fresh: connection_pool/async_.py, on the same state and network, one
--     call after another. `is_closing` is a parameter.
--   Pool/Async/Tasks, with Pool/Async/Tasks/*: the same file with many calls at once, cut at their
--     awaits. A queue has a number there, since a call keeps its queue while it waits.
--   Mux, with Mux/*: dlstorage/connection_pool/mux.py. An operation is what one thread does between
--     two points where others may run: `acquire` and `send` are the caller's, `register` and `read`
--     those of the thread of the selector. Mux/Steps has every order of them, with whatever the
--     network does, Mux/Response and Mux/Reader the reads of one response.
--   Node/Dispatcher: dlstorage/node/dispatcher.py.
--   Node/Handles: the handles of dlstorage/node/sync.py and async_.py.
--   Node/Storage, with Node/Storage/*: get, set and delete of the nodes of dlstorage/node/sync.py and
--     async_.py.
--   Node/Cluster, with Node/Cluster/*: a cluster of nodes that all answer, where a request is the
--     dispatcher of the node that it goes to. Node/Cluster/Outage has nodes that reach only some of
--     the others, Node/Cluster/Single the single store that a cluster is compared with, and
--     Node/Cluster/Expired values with times to live. In Node/Cluster/Traced each call has its own
--     clocks, ring and peers out of reach. In Node/Cluster/Concurrent calls run at the same time:
--     what a call does at one replica is one step.
--   Node/Server, with Node/Server/*: the start of the ring and _handle_client of
--     dlstorage/node/sync.py, and that of async_.py in Node/Server/Async. What the handling of a
--     request changes is a parameter there. Node/Server/Errors is about requests that a node cannot
--     read.
--   Node/Background, with Node/Background/*: _purge_loop, between the requests of clients.
--   Node/Lifecycle, with Node/Lifecycle/Managed: start and stop of both nodes, and the `with`
--     statements of both. Whether the server's socket can be opened is a parameter.
--   Node/Accept: _accept_loop of dlstorage/node/sync.py, over the outcomes of its accept calls.
--   Node/Wired, with Node/Wired/Refine: a request that goes through the wire format and the server's
--     loop, each way in pieces, against the dispatcher that Node/Cluster calls directly.
--   Examples, with Examples/*: the handlers of examples/flask_server.py, examples/fastapi_server.py
--     and examples/docker-compose/app.py, in front of nodes and of clusters. Examples/Lifespan is the
--     start and the end of the FastAPI applications around their requests.
--   Benchmarks, with Benchmarks/*: the worker pools and the percentiles of benchmarks/framework.py,
--     and the workers of benchmarks/store/multi_thread_bench.py on the basic store.
--   Tests, with Tests/*: the code on small inputs.
--
-- Bounds: Python's integers have none, and the model's have none. The loops run over lists, but for
-- three. The fuel of the loop of `_recvexactly` is the number of bytes to read: each turn reads one
-- at least. That of `_handle_client` and that of the reads of the multiplexing pool are greater than
-- the number of bytes that the peer sends, since each turn but the last reads one at least. The
-- length of a message is bounded by the four bytes of its header. Times are integers.
--
-- Not modelled: the interleaving of the threads that the accept loop starts, but for what the
-- calls of clients do to the replicas; what the gossip thread of a sync node does after `stop`, which
-- does not end it; cancelling a task that serves a client; the five seconds
-- after which a caller gives up; the socket pair that wakes the selector; logging and the textual
-- representations. A value that a client stores is opaque but for the test against None. The locks
-- are modelled as atomic methods.
pub mod Base
pub mod Dict
pub mod Result
pub mod Types
pub mod Store
pub mod Ring
pub mod Action
pub mod Handle
pub mod Discovery
pub mod Gossip
pub mod Wire
pub mod Pool
pub mod Mux
pub mod Node
pub mod Consistency
pub mod Examples
pub mod Benchmarks
mod Tests
