-- ===== src/Lib.antt =====
-- mrcoin: the coins that organizations buy in batches and hand out to their people, who spend them
-- with partners or send them to each other. Every movement of coins is an entry of a ledger.
--
-- The parts and how they interact. LedgerService (src/modules/ledger) is the only code that changes
-- a wallet's balance: each movement updates the wallet under an optimistic lock on its version and
-- appends an entry whose hash covers its fields and the hash before it. The FIFO consumption of the
-- coin batches (src/modules/distributions/fifo-batch-consumption.util.ts) takes coins from an
-- organization's stock and posts them through LedgerService. Two jobs (src/modules/jobs) read the
-- ledger page by page: one recomputes the chain of hashes, one compares balances.
--
-- The files. Base has the shared names, integers (Base.Int), strings (Base.Text) and tables with
-- the queries that the services make (Base.Table). Db has the rows of prisma/schema.prisma, the
-- database as a record of tables, the exceptions, transactions that leave nothing behind when they
-- fail, and the runtime that the code calls (Db.Runtime). Ledger.Hash is hash.util.ts; Ledger.Entry
-- is `executeEntry`; Ledger.Service is the rest of LedgerService, with its inputs in
-- Ledger.Service.Inputs; what a reversal does is in Ledger.Reversals; the other modules under
-- Ledger hold its invariant and the proofs; Stock is
-- the FIFO consumption; Jobs has the paged loop (Jobs.Pages), the chain check (Jobs.HashChain) and
-- the reconciliation (Jobs.Reconciliation). Function names are the source's in snake case. A
-- function that opens its own transaction is an `Action`, one that runs in a caller's transaction a
-- `Tx` whose name ends in `in`.
--
-- TransactionPinService (src/modules/users) guards the spending with a PIN and a counter of
-- failures in Redis: Users.Pin; the rules on new passwords are Users.Password. RedemptionsService
-- (src/modules/redemptions) marks what was bought as handed over: Redemptions.Delivery.
-- TransferService (src/modules/wallets) checks a transfer between two members, their PIN and the
-- daily limit, and has LedgerService move the coins: Wallets.Sending. Users.Pin.Accepted says when a PIN
-- is accepted, Wallets.Sending.Members who is an active member, and Redemptions.Purchase.Permitted when a
-- purchase may be made, each without the code's own checks. The user, membership and
-- wallet of a CPF that coins go to are made on demand
-- (src/modules/distributions/ensure-user-membership-wallet.util.ts): Enrolment.
--
-- The token services of auth, users, partners and platform-admin have one protocol,
-- modelled once in Sessions with what differs as a record, which Sessions.Admins, Sessions.Users,
-- Sessions.Partners and Sessions.PlatformAdmins fill. BatchesService (src/modules/batches) sells coin
-- batches at the rate of ConversionRateService (src/modules/settings) and charges for them through
-- BillingService (src/modules/billing): Batches and Batches.Billing. PlatformBatchesService
-- (src/modules/platform-admin/batches) and the webhook (src/modules/webhooks) decide on them:
-- Batches.Decisions. The purchase of an offer (`create` of RedemptionsService) is Redemptions.Purchase,
-- with the offers that are available (src/modules/offers/offer-availability.util.ts) in
-- Redemptions.Offers. DistributionsService (src/modules/distributions/distributions.service.ts) credits
-- the lines of a file: Distributions has the confirmation and Distributions.Bulk the worker of the
-- queue. SpinsAdminService and SpinsService (src/modules/spins) grant and redeem the spins of a prize
-- wheel: Spins.Grants and Spins. Each spin has the highest prize set aside in a batch, which a
-- redemption pays out in part (Spins.Payout), and gives back the rest. CourseCreditService (src/modules/courses) credits
-- the reward of a course from the stock: Courses.
--
-- Interference. `gaps n` is what other requests commit in attempt n between the read of a wallet
-- and the guarded update. From that update to the commit the wallet's row is locked, so nothing is
-- put there. A transfer has its gap at the sender's wallet only, and none between the lookup of a
-- key and the transaction. The checks before a transfer and the movement are one after the other,
-- with nothing of others between them.
--
-- In the other services an argument `gap` or `gaps` is what others commit at the place that the file's
-- comment names, and each theorem says what is assumed of it. The lines of a chunk of a
-- distribution run one after the other, and the errors of the database in a line's transaction and in the
-- updates after it are an argument, `faults`. The provider's client is an argument of each purchase of a
-- batch, so that it may answer two of them differently. A delivery has its gap between the read of the
-- redemption and the guarded update. A batch purchase has its gap between the payment and the insert;
-- a spin's redemption between the read of the candidate and its claim.
--
-- Bounds and fuel. Retries are recursion on the attempts left (MAX_RETRIES is 3). The paged loops
-- run on fuel, one round more than the table has rows: every round but the last reads a row. The worker
-- of a distribution runs on fuel, one round more than lines are left: every round but the last decides
-- one. A line has three attempts, a pickup code five. The loop of a spin's redemption runs on fuel, and
-- what is shown of it holds after any number of rounds.
-- Numbers are unbounded: the columns are 32-bit integers, where the database refuses an overflow.
--
-- Parameters. argon2 is an argument of Users.Pin. sha256, Date, toISOString and the ids of new rows
-- are fields of `Platform`, of which the theorems assume at most that the clock does not run
-- backwards (`IsMonotonic`).
--
-- Not modelled: `getEntries` and the other lists (reads), the loop of the jobs over all wallets and the
-- recording of their runs, `distributeIndividual` and the upload of a file, the notifications,
-- courses but for their credit, organizations and invites, login and its second factor, user accounts, the editing of
-- partners and offers, dashboards, controllers, mail. The payment provider's client, the signing of
-- tokens, random bytes and numbers, and the encryption and hashing of a CPF are arguments.
pub mod Base
pub mod Db
pub mod Ledger
pub mod Stock
pub mod Batches
pub mod Jobs
pub mod Users
pub mod Wallets
pub mod Enrolment
pub mod Redemptions
pub mod Distributions
pub mod Sessions
pub mod Samples
pub mod Spins
pub mod Courses
