-- ===== src/Lib.antt =====
-- AlgoVNode: a proxy in front of a cluster of Algorand nodes, which watches the nodes, caches the
-- blocks that they send, and serves the API of a node and of an indexer.
--
-- The program and its model, file by file:
--   BlockFetcher/Wrap, Make    internal/blockfetcher/sync.go: BlockWrap, MakeBlockWrap
--   BlockCache/Heap, Cache     internal/blockcache/cache.go: BlockEntry, promiseBlock, addBlock,
--                              IsBlockPromised, IsBlockCached, getBlock
--   BlockCache/Unified         internal/blockcache/unified.go: getCacheWithPeek, AddBlock,
--                              PromiseBlock, IsBlockCached, GetBlock, New
--   Utils/Backoff, Pointers    internal/utils/utils.go (Backoff, PrintableUTF8OrEmpty), pointers.go
--   Utils/Indexer              internal/utils/indexer_block.go: the types of a block as it is served
--   Utils/Deltas, Signatures,  internal/utils/convert_stxn.go: stateDeltaToStateDelta, the local
--     Parts, Convert           deltas, the signatures, the parts of a transaction,
--                              signedTxnWithAdToTransaction with its inner transactions, and
--                              transactionAssetID
--   Utils/Blocks               internal/utils/convert_block.go: genTransactions, GenerateBlock
--   Utils/Json                 internal/utils/utils.go: LoadJSONCFromFile, EncodeJson
--   Utils/Chain, Base64        the types of go-algorand and the encoding that these read
--   Algod/State, Cluster       internal/algod/cluster.go: NodeCluster, the latest round, the genesis,
--                              the node lists
--   Algod/Blocks               internal/algod/cluster.go: LoadBlockSync, GetBlock,
--                              WaitForStatusAfter, NewCluster
--   Algod/Node, Client, Loop   internal/algod/node.go: setState, updateRTT, updateWithStatus,
--                              BlockSink, updateStatus, updateStatusAfter, fetchBlockRaw, boot, Monitor
--   Algod/MainLoop, Start      internal/algod/node.go: mainLoop, Start, String, MarshalJSON;
--                              internal/algod/cluster.go: addNode with the start of the node
--   Algod/Signals              internal/algod/cluster.go: stateChangeMonitor, updateNodeLists, StateUpdate,
--                              and setState of internal/algod/node.go, with their locks, as threads
--   Algod/Prefetch             internal/algod/prefetch.go; its loop prefetchMonitor is in
--                              Algod/World/Prefetches
--   Algod/TxnId                internal/algod/stxn.go: DecodeTxnId
--   Config, Config/File        internal/config/cfg.go
--   Httpsrv/Auth               internal/httpsrv/auth.go
--   Httpsrv/Proxy              internal/algod/proxy.go, and defaultHandler of
--                              internal/httpsrv/handlers.go
--   Httpsrv/Proxy/Request      internal/algod/proxy.go: the request to a node, and what is written of the
--                              answer; internal/algod/ua.go
--   Httpsrv/Logging            internal/httpsrv/logging.go
--   Httpsrv/Handlers           internal/httpsrv/handlers.go: the handlers for blocks and for waiting
--   Httpsrv/Routes             internal/httpsrv/handlers.go: RegisterAlgodHandlers, RegisterIdxHandlers;
--                              internal/httpsrv/auth.go: MakeAuth
--   Httpsrv/Servers            internal/httpsrv/algod.go, indexer.go: NewAlgodProxy, NewIndexerProxy
--   Main, Main/Ends            cmd/algovnode/main.go: main, up to its wait for an error and from there on
--   Main/Logging               cmd/algovnode/logging.go
-- Algod/World is the whole of the cluster and its cache, with all that goes on in them, and
-- Main/Life takes it from the start of the program on, where the nodes
-- send the blocks that they are asked for. BlockCache/Spec is the contract of one
-- cache, with no memory or channels, and BlockCache/Refines relates the cache to it. The other
-- modules hold what is shown of these, and Tests runs them at concrete inputs.
--
-- How the parts interact. The nodes (Algod) report rounds, statuses and blocks to the cluster, which
-- keeps the latest round and puts blocks into the unified cache. A handler (Httpsrv) asks the
-- cluster for a block; the cache returns it, or promises it, starts a load and waits on the channel
-- of the promise. Prefetching promises the rounds that a syncing indexer will ask for.
--
-- How state is modelled. Pointers and channels are numbers in an explicit memory (BlockCache/Heap),
-- and an operation takes the state and returns the next one. Closing a closed channel panics in Go,
-- and is `none` here. The methods that hold a lock throughout are one step; GetBlock, which waits
-- between its steps, is a machine whose steps interleave with those of all other calls. Some
-- methods that hold no lock are one step all the same: the choice of a cache and the promise in it
-- are one step of PromiseBlock, and boot and a turn of Monitor are one step each for their node. So is
-- LoadBlockSync: in the program other calls run between its fetches, the latest round can rise and
-- blocks of the round can go to the other cache before it ends; what is shown of a load is shown of
-- one that runs as a whole.
-- A change of a node's state only counts its signals to `cState` in Algod/Node, where the send never
-- blocks; in the program it blocks while that channel is full, with the lock of the node held.
-- Where the locks and a channel matter by themselves, in a change of a node's state, the threads and
-- their steps are modelled one by one (Algod/Signals), for the states alone, and there the send blocks. A send to `fatalErr` is
-- taken to be received.
-- The goroutine that PromiseBlock starts is noted in `loads`, and its work is LoadBlockSync of Algod/Blocks.
--
-- Parameters, for code outside the repository: the LRU cache (BlockCache/Lru), float32 numbers
-- (Algod/Float), the codec of blocks (BlockFetcher/Make, which takes GenerateBlock from it too, with its
-- panics), the
-- addresses, logic programs and ids of go-algorand (Utils/Chain), the router of echo
-- (Httpsrv/Routes), and the answers of a node's client, of a proxied server, of `DecodeSignedTxn`,
-- of the consensus table and of the reading of the configured file, which are inputs; so is whether a
-- client or a request can be made.
--
-- Numbers. Rounds are numbers below 2^64, and where the source adds or subtracts them the wrap is
-- written out (`add64`, `sub64`). The retries and waits of Backoff are `int64`, as their
-- bit patterns. A parsed round is
-- below 2^63.
--
-- Fuel. Backoff takes fuel for its turns; a call of a node gets one unit more than the client has
-- replies left, after which its context ends. The loops of prefetching get 30, which is the length
-- of the longest window. A decimal below 2^63 has at most 19 digits.
--
-- Maps. A map that the source ranges over is a list of its entries in the order of the run, which
-- Go leaves open. A read out of the bounds of a list panics in Go, and so does a read through
-- a nil pointer; where the source can do either, the result is `none` here.
--
-- Not modelled: signals, listening and the deadline of the shutdown (cmd/algovnode, internal/httpsrv)
-- and the middlewares of echo, which are calls of libraries; broadcastListener, which logs the
-- round of each status that is broadcast, and so panics at a nil one; the
-- types of internal/utils/indexer_block.go that no code uses.
pub mod Prelude
pub mod Config
pub mod BlockFetcher
pub mod BlockCache
pub mod Utils
pub mod Algod
pub mod Httpsrv
pub mod Main
mod Tests
