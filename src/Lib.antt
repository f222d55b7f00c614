-- ===== src/Lib.antt =====
-- A verification of the core of simchain-go, a simulated proof of work chain whose nodes talk over TCP.
--
-- The program: each node keeps a tree of blocks (internal/blockchain/chain.go), a queue of transactions
-- that wait for a block (internal/mempool/mempool.go) and a table of its peers
-- (internal/peer/peermanager.go). Hashes and the proof of work test are in internal/crypto/pow.go, the
-- block and transaction types in internal/types. Messages travel over connections that the TCP
-- transport accepts and dials (internal/transport/tcp). The node takes blocks from the transport and
-- its miner to the chain, and moves transactions between the mempool and blocks. A synchroniser
-- (internal/syncer) asks the peers for the blocks that the node lacks, and a store
-- (internal/store/store.go) keeps the main chain on disk.
--
-- The files:
--   Prelude      tests, lists, byte strings and signed numbers; what the other files share
--   Map          Go maps: insert, delete and lookup, with their laws
--   Types        internal/types/block.go, transaction.go
--   Crypto       internal/crypto/pow.go
--   Chain/       internal/blockchain/chain.go: State (the records, NewBlockchain, the getters), Walk
--                (computeReorgUnlocked), Add (AddBlock and all that it calls), Query (locators and the
--                main chain). Valid has the invariant; Grown and Advance show that it is kept;
--                Ancestry and Switch are about reorgs, Report and Orphans and Settle about what AddBlock
--                returns and leaves, Start and MainChain about NewBlockchain and the queries
--   Mempool/     internal/mempool/mempool.go: Valid has the invariant, Calls and Purge the methods, Run
--                any sequence of calls
--   Peer/        internal/peer/peermanager.go: Best is about BestPeer, Reports about the updates
--   Tcp/         internal/transport/tcp: Settings and Defaults (New and its defaults), Limits (peers,
--                counts per host), Addresses (the address book), Book (when an address may be dialed),
--                Connections (the life of a connection), Frame (framing), Handshake; Admission, Release
--                and Run have the proofs about limits, and Agreement and Proven those about the
--                handshake
--   Syncer/      internal/syncer/syncer.go and metrics.go (Metrics): State (the records, New), Lanes (the
--                three queues), Dispatch (dispatchQueuedBlocks), Inflight (tickInflight, backoff),
--                Headers (catchUpIfBehind and the headers-first sync), Handlers (what the node passes
--                on). Sound has the invariant; Window, Fill, Dispatched and Sends are about
--                dispatchQueuedBlocks, Retries, Attempts, Failures, Ticked and Expiry about
--                tickInflight, Rounds, Handled and Run about all the methods together, History about
--                the counters of a peer
--   Store/       internal/store/store.go: Disk (the files, Open, LoadMainChain), Change (ApplyTipChange);
--                Saved and Persisted say what the files hold, Restart is about ApplyTipChange and the
--                next start, Reorged about a reorg of a valid tree, Begin about a first start and
--                about a lost file
--   Node/        internal/node/node.go: State (NewNode, transactions), Blocks (new blocks, reorgs, a
--                round of the miner), Messages (HandleMessage); Cleared is about the mempool after a
--                block, Sound, Answers and Run about the node as a whole
--   Bus          internal/network/bus.go, which internal/transport/inproc/inproc.go passes on;
--                Fanout is about Broadcast
--   Tests/       the theorems at concrete inputs
--
-- State and locks: a method that a lock guards is one function from the state before to the state
-- after and the result, so an interleaving of goroutines is a sequence of calls. A method that takes a
-- lock more than once (handleInbound, handleOutbound, catchUpIfBehind, drainHeaderResults, tickInflight,
-- HandleInvBlock, and methods of the node that call other components) is the composition of its parts,
-- as where no other goroutine runs between them. Tcp/Run has the calls that the first two are made of as
-- steps of their own, in any order, and Syncer/Run the main parts of catchUpIfBehind and HandleInvBlock.
-- Other theorems on such a method are about a run of it that is not interrupted. Pointers to blocks are
-- values, as the code stores copies and never changes a stored block. A Go map is a list of keys and
-- values; where the code ranges over one, the order is an argument and the theorems hold for every
-- order that visits each key, or it is the one of the list, which a theorem takes in any order.
--
-- Numbers: hashes are the 256-bit number of their bytes, big-endian; work is exact, as in math/big;
-- heights wrap at 2 ^ 64. The work that a peer says it has is an integer, as it may be below 0. Times
-- are nanoseconds, given as arguments.
--
-- Parameters: SHA-256 and JSON (Digests, Codec, Format), ed25519 and random bytes (Crypt), parsing of
-- addresses (Net), writes to disk that fail, float64 (Floats), the order of map ranges, what
-- random generators give, and what the network answers.
--
-- Fuel: a walk along parent links takes the height at which it starts and one more, the loop over
-- orphans takes the number of orphans and one more: each step of a walk lowers the height, and each
-- round of the loop that is followed by another removes an orphan.
--
-- In the synchroniser, the first loop of dispatchQueuedBlocks has a round more than the queues have
-- hashes, as each round takes one, and the loop over the batches a round for each hash of its queue.
-- LoadMainChain has a round for each height up to the one of the manifest.
--
-- JSON: a theorem on the store asks that JSON gives back the blocks that it is about, which it does
-- where their strings are valid UTF-8.
--
-- Not modelled: the JSON of message payloads, the goroutines that read and write a connection, the
-- call of the node that waits for an answer, and the search for a nonce. Logging, the HTTP server and
-- the command line tools are input and output only.
pub mod Prelude
pub mod Map
pub mod Types
pub mod Crypto
pub mod Chain
pub mod Mempool
pub mod Peer
pub mod Tcp
pub mod Syncer
pub mod Store
pub mod Node
pub mod Bus
pub mod Tests
