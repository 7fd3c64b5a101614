-- ===== src/Lib.antt =====
-- Mella Dashboard, a platform for proprietary-trading challenges: a trader buys an account with rules
-- (a profit target, a drawdown limit, a daily limit), trades it against live prices, and passes to the
-- next phase or fails. This library models the TypeScript sources of that core and proves what they
-- guarantee. Paths are from the root of the repository.
--
-- The parts and how they interact:
-- - Money: `roundCurrency` of src/lib/services/calculations.ts, which all parts round with.
-- - Challenge: src/lib/services/challengeRules.ts, pure. Rules has the floors and
--   `determineChallengeTransition`, Consistency the consistency rule, Manual the moves that an
--   administrator may make.
-- - Services: the database services. Store holds the rows of prisma/schema.prisma that they read and
--   write; Reset is dailyReset.ts, Metrics is accountMetrics.ts, Engine is challengeEngine.ts (its
--   child Commands has the operations), and Ledger is tradeLedger.ts with the children Closing (a
--   close) and Marks (levels, marks, daily anchors and snapshots), all in src/lib/services/. A close
--   of the ledger runs the evaluation of the engine, and an evaluation reads the rules of Challenge.
--   Coupons is coupons.ts, Referrals is referrals.ts (Codes for the texts of the codes) and Purchases
--   is purchases.ts: an activation counts the coupon, credits the referrer and opens the account.
--   Payouts is payouts.ts: a request runs the evaluation first, and a payment debits the account.
-- - Trading: the worker process, src/trading/. Pricing is math.ts, Router is feeds/router.ts (Symbol
--   for one symbol, Table for all), Candles is candles.ts, News is news.ts, Fx is the converter of
--   fx.ts, and Engine is engine.ts: the account's reaction to a price, Market for the shared state
--   and the whole of `onTick`, Orders for the checks of `placeOrder`. The router hands prices to the
--   engine and the candles; the engine prices with Pricing and Fx, and watches the floors of
--   Challenge itself, between the evaluations of the services. Coalescing is coalesce.ts, the pacing of
--   the frames to a client.
-- A function keeps its name in snake_case, and a method takes the object's state and returns the new
-- one. The module of a part holds its definitions, the modules below it the theorems, and the modules
-- called Examples tests at concrete inputs. Base holds the integers, lists and maps that all share.
--
-- What stands for what:
-- - An amount of money is an integer number of millionths, a price and a volume of 10^-10, a contract
--   size of ten-thousandths, a percentage of hundredths of a percent, and a rate a fraction. The
--   doubles of the source are read as these exact numbers, so that rounding errors of floating point
--   are not modelled; numbers from a client may also be ones that `Number.isFinite` refuses.
-- - Identifiers, symbols and currencies are numbers, instants numbers of milliseconds since 1970, and
--   a reset zone is ahead of UTC or behind it by whole minutes.
-- - A `Map` is an association list. A transaction of the database is one step on the store. One whose
--   statement breaks a unique constraint is aborted even if the code catches the error, as
--   src/lib/services/certificates.ts says, and leaves the store as it was. Where two evaluations may
--   interleave, the read and the write are functions of their own.
-- - A loop is structural recursion on a list. The one loop with fuel is that of `buildPurchaseSnapshot`,
--   whose five rounds are proved enough.
-- - What the payment provider answers, and the random bytes of a referral code, are parameters.
-- - The queue of an account is the list of the jobs on it. The loops of `onTick` over the positions of
--   a symbol are split by account, with the order within each account kept.
--
-- Not modelled: the bodies of the engine's queue jobs, its reloads and its holding-rule sweeps; the
-- session clock of sessions.ts, which stands on the time zone data of the runtime and is a parameter
-- of the engine; `runRiskSweep`; the gateway, the feed adapters and other network clients;
-- authentication and identity checks; the pages, queries for the pages, notifications beyond their
-- record, logging, and the database itself.
pub mod Base
pub mod Money
pub mod Challenge
pub mod Trading
pub mod Services
