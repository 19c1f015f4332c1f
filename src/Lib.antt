-- ===== src/Lib.antt =====
-- Verification of the index maker, a service that buys and sells the assets of an index for
-- users who pay in collateral on chain.
--
-- The program. Users' requests come in over a FIX server (libs/axum-fix-server, src/server) and
-- become index orders (src/solver/index_order.rs, kept by src/solver/index_order_manager.rs).
-- The solver (src/solver) keeps its own view of the orders with a queue for each client
-- (src/solver/solver_order), engages the collateral of the orders, asks the collateral manager
-- (src/collateral), which routes deposits over bridges (libs/index-core/src/collateral), to
-- pre-authorise and confirm payments, and sends batches of asset orders. It reads prices and
-- liquidity from the order books and the price tracker of libs/symm-core/src/market_data. Each
-- asset order goes through the inventory manager, the order tracker and the rate limits of
-- libs/symm-core to an exchange, whose fills come back as lots of inventory.
--
-- The files.
-- - Prelude: what the modules share: Boolean tests, lists, integers over the native numbers with
--   the rules that let omega read them, association lists for HashMap (Dict by numbers, Keyed by
--   any key with a test), and Action, a method on &mut self that may fail, after which what it
--   wrote before the error stays.
-- - Decimal: Amount of libs/symm-core/src/core/bits.rs, which is rust_decimal::Decimal. An
--   amount stands for an integer number of 10^-28. The checked operations that safe! of
--   proc-macros/safe-math expands to are an instance argument; IsExact says what the crate
--   documents of sums and differences that do not overflow and need no rounding, and fixed_scale
--   is an instance for which it holds.
-- - Bits: sides and orders of libs/symm-core/src/core/bits.rs; Bits/Symbols has the comparison
--   of symbols and maps by symbols.
-- - SafeUpdate: ArcSwap and safe_update of libs/symm-core/src/core/arcswaputil.rs. The loop is
--   given a schedule: for each iteration the values that other writers store between its load
--   and its compare-and-swap; after the schedule no writer interferes, so that the loop ends one
--   iteration later at the latest. A pointer stands as a version number.
-- - Limit: libs/symm-core/src/core/limit.rs: the weights of the log (LimitWeights) in
--   Limit/Weights, one limit (Limiter) in Limit/Single, several (MultiLimiter) in Limit/Multi;
--   Limit/Window, Limit/Safety and Limit/Waiting prove what they promise. A weight counts modulo
--   2^64 as usize does; instants are integers of nanoseconds.
-- - OrderSender: libs/symm-core/src/order_sender. Position models position.rs: create_lot,
--   match_lots (its loop match_loop, its body match_lot and its commit are functions of their
--   own), drain_closed_lots, assign_lots. Tracker models order_tracker.rs and the notifications
--   of order_connector.rs; what the observer is given is the published log of the state, and
--   send_order of the connector is a parameter. Inventory models the fills and batches of
--   inventory_manager.rs, and Asset models get_base_asset_symbol_workaround of
--   libs/symm-core/src/assets/asset.rs.
-- - Collateral: src/collateral/collateral_position.rs. Side models the lots and balances of one
--   side with open_lot, add_ready and preauth_payment, Confirm models confirm_payment, Account
--   models CollateralPosition with its two sides. A method that returns None, or panics, has a
--   result of its own in Stop. Collateral/Router models
--   libs/index-core/src/collateral/collateral_router.rs, whose bridges are trait objects: a
--   transfer that transfer_funds accepts is written to a log, and whether it accepts is a
--   parameter. Collateral/Manager models src/collateral/collateral_manager.rs over the accounts
--   and the router. In Collateral/Journey, travel lets the bridges complete one hop after
--   another; its fuel is the number of hops of the route, and the theorem about it shows that
--   this is enough.
-- - OrderBook: libs/symm-core/src/market_data/order_book/order_book.rs. OrderBook.antt models
--   the entries of one side (PricePointEntries), OrderBook/Book the book of two sides. The
--   red-black tree of a crate stands as the sequence of its elements in order, and its search
--   and edits are a parameter, RbTree, with IsTree for what its documentation says of an ordered
--   sequence; sorted_list in OrderBook/Sorted is an instance.
-- - MarketData: MarketData/Books models
--   libs/symm-core/src/market_data/order_book/order_book_manager.rs, MarketData/Prices models
--   libs/symm-core/src/market_data/price_tracker.rs, with the partition of a crate as a
--   parameter.
-- - Solver: src/solver/solver_order/solver_order.rs. Solver/Orders models SolverClientOrders
--   with a function for each method, Solver/Compress the lots of a SolverOrder. Solver/Runs
--   makes sequences of calls; Solver/Blocked and Solver/Starved follow the queue of waiting
--   clients.
-- - IndexOrder: src/solver/index_order.rs. Update holds the data, Matching the walks
--   match_cancel, match_engage and match_engage_one, Order the operations that users and the
--   solver call.
-- - FixServer: libs/axum-fix-server/src/plugins. FixServer/SeqNum models seq_num_plugin.rs, the
--   sequence numbers of a session, with the two locks of valid_seq_num as separate steps;
--   FixServer/RatePlugin holds the state of rate_limit_plugin.rs and FixServer/RateLimit its
--   operations over the limits of Limit, and FixServer/Served keeps account of what was accepted
--   for each user. The repetition of the cleanup is left out, and the clock is an argument.
--
-- Conventions. Identifiers and addresses are only compared and stand as numbers, and symbols are
-- lists of character codes; texts of errors are constructors; a panic is an error that no caller
-- handles, so that what was changed before it stays; logging and tracing spans are left out.
-- Every loop of the code is structural recursion over a list and takes no fuel. Locks are taken
-- for granted except where a method releases one between reading and writing.
--
-- Not modelled. The pricing and the serving of orders by the solver, its quotes, the batch,
-- index order, quote and invoice managers, and the rest of the inventory manager are left for
-- later: they build on the parts above. Exchange and chain connectors, servers, persistence,
-- telemetry and the applications are input and output around libraries.
pub mod Prelude
pub mod Decimal
pub mod Bits
pub mod SafeUpdate
pub mod Limit
pub mod OrderSender
pub mod Collateral
pub mod IndexOrder
pub mod FixServer
pub mod OrderBook
pub mod MarketData
pub mod Solver
