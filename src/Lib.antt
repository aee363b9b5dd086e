-- ===== src/Lib.antt =====
-- SUR Protocol: the off-chain services around the exchange's contracts.
--
-- The API server (api/src) accepts orders over a WebSocket, matches them in one engine for each
-- market, and submits the trades in batches to a contract; it also counts the points of a campaign. A
-- keeper (keeper/src) follows the open positions of the contract and liquidates those that are due. A
-- guardian (risk-guardian/src) defends the positions of its subscribers before that happens. A trading
-- bot (trading-bot/src) asks its circuit breaker before it opens a trade and reports each trade that
-- it has closed; its paper executor keeps the books of trades that are not real. A funding bot
-- (funding-bot/src) applies the funding of each market when it is due. The parts modelled here, and the
-- files:
--
--   Common   notation, Boolean tests, lists, signed numbers; Common/Dict the JavaScript Map
--   Types    api/src/types/index.ts: orders, trades, markets, views of the book
--   Engine   api/src/engine/matching.ts:
--     Queue      OrderQueue, one price level: push, popFront, removeById, reduceFront
--     Book       OrderBook: the two maps of levels and orderIndex, placeOrder, cancelOrder,
--                peekBestBid/Ask, fillBestBid/Ask, topBids/Asks, snapshot
--     Matching   MatchingEngine: submitOrder with validate, wouldMatch, canFillEntirely, matchOrder;
--                cancelOrder, recentTrades, createOrder
--
--   Settlement  api/src/settlement/pipeline.ts:
--     Retry      retryWithBackoff
--     Pipeline   SettlementPipeline: start, stop, cacheOrder, queueTrade, flushBatch, getStats
--
--   Guardian  risk-guardian/src/index.ts:
--     Defense    classifyRisk, executeDefense, scanAll
--     Routes     the routes that subscribe, unsubscribe, configure and sum up
--
--   Points  api/src/points/engine.ts, with its stores in memory:
--     Campaign   calculatePointsForTrade, registerReferral, getTraderPoints,
--                getLeaderboard, getCampaignStats
--
--   Nonces  api/src/nonce-manager.ts, NonceManager
--
--   FundingBot  funding-bot/src/index.ts: a cycle of the main loop
--
--   TradingBot  trading-bot/src/engines/circuit-breaker.ts:
--     CircuitBreaker  canTrade, recordTrade, getCooldownMultiplier
--     PaperExecutor  trading-bot/src/executors/paper-executor.ts: openPosition, closePosition,
--                checkCircuitBreakers; its children Updates and Reporting are updatePositions
--                and generateReport
--
--   Server  api/src/ws/server.ts:
--     RateLimiter  check, and the clean-up of stale windows
--     Messages   the messages of both directions, and what JavaScript answers about their strings
--     Sessions   connections, subscriptions, broadcasts and handleAuthenticate, split at its await
--     Requests   the checks of handleSubmitOrder
--     Orders     handleSubmitOrder, handleCancelOrder, handleMessage, getStats
--     Service    the server over a list of events
--
--   Keeper  keeper/src/tracker.ts:
--     Tracker    PositionTracker: the event handlers, syncFromEvents, verifyPosition
--     Scanner    keeper/src/scanner.ts, LiquidationScanner: its state and scan
--     Execution  executeLiquidations with its fall back to single calls, the statistics; a round of
--                the main loop of keeper/src/index.ts
--
-- State is passed explicitly: an operation takes a record (OrderQueue, OrderBook, MatchingEngine) and
-- returns the new one with its result. The code for bids and the code for asks is the same up to the
-- order of prices, so Book and Matching take the side as an argument. An order is mutated in place by
-- the source while it rests in one queue only; here the queue holds the order and an update replaces
-- it, and the order that submitOrder was called with is returned as it was mutated.
--
-- Identifiers, addresses and signatures are strings that are only compared: they are numbers here.
-- Prices are signed (ℤ): they are bigints that no check keeps positive. Sizes are naturals; every
-- subtraction of the engine takes at most what is there. What randomUUID() and Date.now() return is a
-- parameter (Env). Tick and lot sizes are taken to be positive, as in api/src/config/markets.ts.
--
-- The loop of matchOrder is recursion on fuel. The fuel is two more than the number of orders that
-- rest on the other side of the book: each round either takes an order out of the book or uses up the
-- taker, so the loop ends before the fuel does.
--
-- flushBatch is an async function. It is split at its two awaits: flush_batch runs at once and records
-- the suspended call (Flight) under the number of its batch, after_submit and after_receipt go on when
-- the retries of the submission and of the wait for the receipt have ended. A step relation lets the
-- calls go on in any order. What the network answers to each attempt is an argument of the step.
--
-- The loop of syncFromEvents is recursion on fuel, as many rounds as there are blocks; each round goes
-- on by one block at least. What the chain client's getLogs returns is an argument.
--
-- The guardian, the points engine, the paper executor and the funding bot compute with floating-point
-- numbers. These are of a parameter type F with its operations (Common/Doubles); a theorem names the
-- laws it needs, which hold of JavaScript's numbers, NaN included.
--
-- A call of verifyMessage is recorded in the server when handleAuthenticate makes it and settles in a
-- later event. What a socket sends after its close event or stop is not handled in the model; the
-- listener of the source would go on handling it. A scan of the guardian is one step: what its service
-- handles at the awaits of scanAll, and a second scan meanwhile, are not modelled. The requests that
-- the guardian sends are kept in its state.
--
-- Not modelled: the network, chain and database calls, HTTP glue, the user interface, the strategies
-- over floating-point prices, the Rust engine (a second implementation), and the contracts.
pub mod Common
pub mod Types
pub mod Engine
pub mod Settlement
pub mod Server
pub mod Guardian
pub mod Points
pub mod Nonces
pub mod FundingBot
pub mod TradingBot
pub mod Keeper
