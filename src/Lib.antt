-- ===== src/Lib.antt =====
-- The verification library of LearnVault, a learn-and-earn platform: a TypeScript server over
-- Postgres (server/src), a web client (src) and Soroban contracts (contracts). It models the parts
-- of the server that keep state and decide who gets paid.
--
-- Parts and files:
-- - Bounty: the bounty board, server/src/db/bounty-store.ts, with the transition table of
--   server/src/services/bounty.service.ts, the handlers of
--   server/src/controllers/bounty.controller.ts and the pass of
--   server/src/workers/bounty-expiry-worker.ts. Bounty/Types has the rows, Bounty/Store a function
--   for each query that changes them (createBounty is create_bounty, and so on), Bounty/Ops a
--   history of calls, and Bounty/Invariant, Bounty/Transitions and Bounty/Claims the proofs.
--   Bounty/Request has what the handlers share and the log of payments, Bounty/Handlers the ones
--   that change something (approveSubmission is approve_submission_handler), Bounty/Listing those
--   that read, Bounty/Requests a history of requests; the proofs are in Bounty/Effects,
--   Bounty/Settlement, Bounty/Payouts, Bounty/Refusals and Bounty/Paging.
-- - Admin: the decisions on milestone reports, over the stores of Milestone, Escrow, Streak and
--   Referral. Admin/Desk has the state, what the outside answers and the effects that the handlers
--   share, with server/src/services/credential.service.ts; Admin/Decisions the handlers of
--   server/src/controllers/admin-milestones.controller.ts, Admin/Appeals those of
--   milestone-appeal.controller.ts, Admin/Reports those of milestone-submit.controller.ts and
--   milestone-resubmit.controller.ts there, Admin/History a history of requests. The proofs are in
--   Admin/Accounts (the approvals of a report), Admin/Effects and Admin/Quiet (what each step does
--   to them), Admin/Guards, Admin/Batch and Admin/Kept (the handlers) and Admin/Oracle.
-- - Evidence: the check of a report's GitHub evidence,
--   server/src/services/github-oracle.service.ts. Evidence/Url is parsePullRequestUrl with its
--   expression and what it reads, Evidence/Oracle the rest of the service; Evidence/Checks has the
--   proofs, for the oracle of Admin too.
-- - Referral: the referral program, server/src/controllers/referral.controller.ts, with the
--   qualification and the rewards of server/src/controllers/admin-milestones.controller.ts
--   (Referral/Store) and the handlers (Referral/Handlers); the proofs are in Referral/Paid,
--   Referral/Rewards and Referral/Codes.
-- - Http: a request handler as a chain of steps over the state that ends at the first failure, with
--   a status and a text or a body. Http/Ends and Http/Keeps have a rule for each way to build a
--   chain: how it ends, and what it keeps.
-- - Milestone: milestone reports, server/src/db/milestone-store.ts. Milestone/Memory is the class
--   InMemoryMilestoneStore, Milestone/Sql the object milestoneStore over Postgres, Milestone/Calls
--   sequences of calls; the proofs are in Milestone/Invariant, Milestone/Agreement and
--   Milestone/Laws.
-- - Balance: the LRN balance projection, server/src/db/scholar-balance-store.ts, with the deltas of
--   server/src/lib/lrn-events.ts. Balance/Store has the queries; the proofs are in Balance/Journal,
--   Balance/Projection and Balance/Rebuild.
-- - Streak: learning streaks and their bonuses, server/src/services/streak.service.ts. Streak/Store
--   has the operations, Streak/History a history of calls; the proofs are in Streak/Days,
--   Streak/Bonus and Streak/Week. What a stored DATE reads back as is a parameter.
-- - Auth: sign-in, server/src/services/auth.service.ts, over the nonces of
--   server/src/db/nonce-store.ts. Auth/Nonce is the store in memory, Auth/Service the two ways to
--   sign in; the proofs are in Auth/Nonce, Auth/Verify and Auth/Once. The Stellar SDK is a record
--   of functions.
-- - Relayer: the fee-bump relayer, server/src/services/relayer.service.ts, over the sponsor's
--   accounts and spend log of server/src/db/sponsorship-store.ts. Relayer/Store has the queries,
--   Relayer/Service the parsing, the guards and the submission, Relayer/Sponsor the building of
--   sponsored accounts, server/src/services/sponsorship.service.ts; the proofs are in
--   Relayer/Guards, Relayer/Cap and Relayer/Onboard. What the SDK decodes and the network's answers
--   are parameters.
-- - Dispute: the read model of milestone arbitration, server/src/db/dispute-store.ts. Dispute/Store
--   has the queries; the proofs are in Dispute/Reveal and Dispute/Replay.
-- - Indexer: the indexer that feeds the balance projection,
--   server/src/services/scholar-balance-indexer.service.ts, and the decoding of its events,
--   server/src/lib/lrn-events.ts. Indexer/Decode has the decoding, Indexer/Pages the paging loop
--   and the checkpoint; the proofs are in Indexer/Published, Indexer/Whole, Indexer/Stream and
--   Indexer/Checkpoint. The RPC and the clock are parameters.
-- - Token: session tokens, server/src/services/jwt.service.ts, over the stores of revoked tokens of
--   server/src/db/token-store.ts. Token/Store has the interface with its laws and both stores,
--   Token/Service the service; the proofs are in Token/Store, Token/Rotation and Token/Issue. The
--   JWT library, the hash and the Redis client are parameters; Token/Signer is a library for the
--   tests.
-- - Escrow: escrow timeouts, server/src/services/escrow-timeout.service.ts. Escrow/Store has the
--   queries and a pass of the worker, Escrow/Status what a scholar is shown; the proofs are in
--   Escrow/Row, Escrow/Pass, Escrow/Deadlines, Escrow/Reminders, Escrow/Spare and Escrow/Once,
--   which has a history of calls. The contract, the mail service, the votes and the clock are
--   parameters of a pass; a pass reads the clock once for each row.
-- - PeerReview: peer reviews of milestone reports, server/src/db/peer-review-store.ts over
--   Postgres, with the reports of Milestone and the balances of Balance. PeerReview/Store has the
--   transaction that stores a review and the counts, PeerReview/Queue the queue of a reviewer; the
--   proofs are in PeerReview/Queue, PeerReview/Submit and PeerReview/Rewards.
-- - Prelude: Boolean tests, lists, tables of rows with UPDATE and lookups by key, stable sorting
--   and pages, and signed integers.
--
-- How code is read: a table is a list of rows beside its SERIAL counter, and a query is a function
-- from the tables to its result and the tables after it; one query, or one transaction with its row
-- locked, is one step. A moment is a number of milliseconds, a date the number of its day, read
-- where the code reads the clock. A bigint is an integer, an optional column an Option, a thrown
-- constraint violation a result of its own. toLowerCase and LOWER are a parameter of the functions
-- that use it.
--
-- A handler is one step, too: the requests of a history come one after another, and none of its
-- queries fails for want of a connection, except that the lookups of the GitHub oracle may. What
-- the outside answers is a parameter of each request. The order in which
-- the listing of bounties hands out those of one created_at is a parameter of each query; other
-- queries keep the order of the table there.
--
-- Not modelled: Express, its routes and middleware, the Stellar SDK and RPC, logging, e-mail and
-- other effects with no result, the client, and the Rust contracts; of the server, the caches, the
-- webhooks, the archive of events, quadratic funding, and the handlers that are reads of the
-- database or calls of other services. No function here needs fuel: the one loop that
-- does not follow a list, over the pages of the indexer, stops by its own count MAX_PAGES.
pub mod Prelude
pub mod Bounty
pub mod Http
pub mod Milestone
pub mod Balance
pub mod Streak
pub mod Auth
pub mod Relayer
pub mod Dispute
pub mod Indexer
pub mod Token
pub mod Escrow
pub mod Evidence
pub mod PeerReview
pub mod Referral
pub mod Admin
