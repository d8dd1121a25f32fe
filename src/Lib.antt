-- ===== src/Lib.antt =====
-- A library about the rune indexer canister (ord_canister/src), the wallet canister (wallet/src) and
-- the proxy between the indexer and a bitcoin node (btc-rpc-proxy/src).
--
-- The indexer follows the chain. A timer fires; a round asks the node for its best block, fetches the
-- next block when there is one, indexes it if it is linked to the tip, and sets the next timer. For
-- each transaction of a block it takes the runes of the spent outputs, adds what the transaction mints
-- or premines, hands them out as the runestone's edicts say, stores what each new output holds, and
-- counts the rest as burned. Long answers of the node are read in ranges, which the proxy cuts out of
-- the whole answer. The tables live in cells of stable memory, which an upgrade stores and restores.
--
-- The wallet keeps a record of unspent outputs per address, with and without runes. A fetch brings it
-- up to date from the bitcoin canister, and asks the indexer which runes an output holds; a withdrawal
-- builds a transaction from the record, searches for the fee that fits the size of what it built, and
-- then builds, signs and sends the same transaction. The indexer asks nothing of the wallet.
--
-- Base: Boolean tests, lists, machine words, bits, texts, code that can panic, maps as association
-- lists.
-- Bitcoin, Runes: data of the crates bitcoin and ordinals. Their functions are the parameter `Ordinals`.
-- Indexer.Lot: ord_canister/src/index/lot.rs.
-- Indexer.Entry: ord_canister/src/index/entry.rs. Window has the mint window, Supply the supply.
-- Indexer.Codec: the stored forms in ord_canister/src/index/entry.rs, with the ranges in SatRange.
-- Indexer.Tables: the tables of ord_canister/src/lib.rs, one field for each.
-- Indexer.Memory: the cells, `init_storage`, `persistence` and `restore` of ord_canister/src/lib.rs.
-- Indexer.Balances, Allocation, Settlement, Updater: ord_canister/src/index/updater/rune_updater.rs, in
-- the order of `index_runes`: the maps of balances, the edicts, the default output and the storing, and
-- the whole with `mint`, `etched`, `create_rune_entry` and `update`. Held sums a table. Minting is about
-- `mint`.
-- Indexer.Blocks: ord_canister/src/index/updater.rs. Heights is about the heights it writes.
-- Indexer.Sync, Lookups: ord_canister/src/index.rs, the `sync` function and the rest.
-- Indexer.Rpc: ord_canister/src/rpc.rs, with the three calls in Calls.
-- Indexer.Canister: ord_canister/src/canister.rs.
-- Proxy: btc-rpc-proxy/src/main.rs and proxy.rs; Proxy.Cache: btc-rpc-proxy/src/cache.rs. Proxy.Fetch
-- is about the proxy and the loop of Indexer.Rpc together.
-- Wallet.Utxos: `UtxoManager` of wallet/src/state/utxo_manager.rs, over the hash sets of Wallet.Sets.
-- Wallet.Select: the loops that pick outputs, as they stand in the files of wallet/src/bitcoin.
-- Wallet.Txn, Transfer: wallet/src/bitcoin/transaction.rs.
-- Wallet.MultiSend: wallet/src/bitcoin/multi_sender_txn.rs.
-- Wallet.RuneOutputs, RuneTransfer: wallet/src/bitcoin/runestone.rs.
-- Wallet.Combined: wallet/src/bitcoin/combined_txn.rs.
-- Wallet.Signer: wallet/src/bitcoin/utils.rs and signer.rs.
-- Wallet.Kinds, Submit: wallet/src/transaction_handler.rs.
-- Wallet.Fetch: wallet/src/updater.rs.
-- Wallet.Withdraw: the withdrawals of wallet/src/lib.rs, and the fee per byte of wallet/src/bitcoin.rs.
--
-- Plain arithmetic wraps, as in a release build; `Lot` is checked and panics. A panic is a value of
-- `Outcome`, and drops all that its call wrote, also before a wait, where the platform keeps it:
-- what is said of a call is said of one that returns. A call that waits for another canister or for
-- the node runs to its end before the next call starts. What a withdrawal hands to the network is
-- kept in order. Hash maps and sets iterate in the order of insertion here; the source leaves the
-- order open, and the theorems speak of sums and counts.
--
-- A picking loop has one more fuel than there are outputs to pick, and each round takes one. A fee loop
-- takes its fuel as an argument: it ends where the fees of its rounds rise to a bound, and may not end
-- otherwise. The loop that reads an answer in ranges takes at least one byte a turn, so one turn more
-- than there are bytes is enough; a fetch takes one turn for each page of the bitcoin canister.
--
-- Parameters stand for code that is not part of the repository: `Ordinals` for runestones,
-- `Hashing` for block hashes and merkle roots, `Node` for what the node answers (always a result:
-- what Indexer.Rpc.Calls may do besides, a panic on a malformed header or reading without end, is
-- not passed on to Indexer.Sync), `Crypto` for keys, signatures, scripts, hashes and sizes of
-- transactions, and others of this kind, next to what uses them: the management canister and JSON,
-- stable memory, fixed-size forms, the linked hash map of the cache, and what the wallet asks of
-- other canisters.
--
-- Not modelled: the event handler, which no caller installs; the end of stable memory; the consensus
-- encoding in which headers and outpoints are stored; the comparison of headers that a build option
-- adds; HTTP, logs and the command line; the wallet's setup of keys and its texts of addresses; the
-- headers that the proxy does not pass on; the reorganisation file, which no module of the crate names.
pub mod Base
pub mod Bitcoin
pub mod Runes
pub mod Indexer
pub mod Proxy
pub mod Wallet
