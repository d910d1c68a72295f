-- ===== src/Lib.antt =====
-- The gateway of Creator First (apps/gateway/src): the server that decides who may listen to a
-- track and delivers it, and that takes participants from an application through an invitation to
-- an enrollment on a chain. Its state is a SQLite database (GatewayStore.js), the in-memory
-- accounts of the platform sessions (server.js), and the chain.
--
-- The parts and their files:
-- - Base: names that all files share; Base/Exec is a handler over a state that answers with a
--   result or a failure (`status` and `code` of the error classes), and what was written before a
--   failure stays written; Base/Table is a database table as the list of its rows with SELECT,
--   UPDATE, INSERT and the number of changes; Base/Table/Keyed is on tables with a primary key.
-- - Catalog and Account: catalog.js, `capabilityAllows` and the account objects of server.js.
-- - Playback: `createPlayback` (Create), `deliverStream` (Deliver) and DELETE of a session
--   (`close_session`) of server.js, on the playback tables of GatewayStore.js (Store). Exclusive
--   is the invariant of the store, Histories are sequences of calls, Grants and Replays are on the
--   answers of `createPlayback`, Streams on the evidence of a delivery.
-- - Participants/Rows and Participants/Store: the participant tables of GatewayStore.js and their
--   statements. The services run on this one database.
-- - Participants/Forms: the tests of e-mail addresses, names and roles.
-- - Participants/Invitations: ParticipantInvitationService.js. Service has its methods,
--   Availability its `resendAvailability`. Histories are interleavings of the handlers.
-- - Participants/Applications: ParticipantApplicationService.js, which creates, sends and resends
--   invitations through the invitation service. View is `participantView`.
-- - Participants/Enrollments: `#process` of ParticipantEnrollmentOperator.js (Operator). Chain is
--   the interface of the chain client, with the laws that the operator relies on: the contract
--   contracts/testnet/CreatorFirstTestnetParticipantRegistry.sol reports a funded participant as
--   funded from then on, and reverts a second funding of it. A transaction whose wait for a receipt
--   ends while it is pending may be mined later, between two runs (Once).
-- - SignIn: `createChallenge` and `verifyChallenge` of server.js (Challenges); Proofs is on one
--   verification, Histories are sequences of calls. The recovery of a signer is a parameter.
-- - Support: `createSupportIntent`, `submitSupport` and `supportRegistration` of server.js
--   (Intents); Tiers is the invariant of the intents, Histories are sequences of calls.
-- - DemoUsers: `registerDemoUser` of server.js (Registration), and its answer to the same form
--   again (Repeats).
-- - Trust: AccountTrustService.js on its tables (Store): the transactions, `begin` and the mock JPKI
--   assertion (Service), the passkey handlers (Passkeys) and the wallet handlers (Wallets). Trails
--   has the abstract machine of a binding and what the handlers write of it, Histories are sequences
--   of calls; Signed is what rows and objects hold of passkeys and signatures, Interleavings are
--   histories in which other handlers run at each await, Late is on one of them, Completes on a
--   verification that succeeds.
-- - Relays: `GovernanceVoteRelayer` of GovernanceVoteRelayer.js (Governance) and
--   `SupporterSbtRelayer` of SupporterSbtRelayer.js (Supporters), on a map of operations that both
--   have (Operations, Capacity). A promise is a run that goes on at each await; Votes and
--   Registrations are on histories of the two. A relay reads the registry of creators anew, so its
--   answers are an argument of each relay.
-- - Media: `parseSingleRange` of media/range.js (Range), and which bytes it serves (Served).
-- - Routes: the routes of `createGatewayServer` in server.js: patterns of paths (Patterns), the table
--   and the way to a branch (Table); Dispatch is on the order of the tests, Guarded on /v1/admin.
-- - Fees: the transaction fees of docs/.vitepress/theme/testnet-user-demo.js and of the chain clients
--   of the gateway; Agree compares them.
-- - Base/Tests has the Boolean tests on numbers and texts; the other files called Tests apply the
--   theorems at concrete inputs.
--
-- How code becomes definitions:
-- - A method keeps its name in snake case. A handler that awaits is split where it awaits
--   (`send_check` and `send_finish`, `resend_rotate` and `resend_finish`, `approve_begin` and
--   `approve_end`, `reject_begin` and `reject_end`, `deliver_check` and `deliver_open`), so that
--   other handlers can run in between; the definition with the method's own name runs the parts one
--   after the other. The operator queues its runs, so one run is one step; `submitSupport` and
--   `verifyChallenge` are taken as one step too in histories.
-- - Identifiers, digests, tokens' hashes, wallet addresses and transaction hashes are only
--   compared, so they are natural numbers; times are milliseconds, also where a column holds the
--   ISO text, which orders the same way. Each part of a handler reads the clock once; a time that the
--   source reads before an await and uses after it is an argument of the second part. Random
--   values, times and what the mailer or the media adapter came to are arguments.
-- - SHA-256 (`digest`, `request_hash`), viem's `getAddress` and the Unicode methods of texts are
--   parameters, as is the recovery of signers; no theorem needs more of them than that they are
--   functions.
-- - A JSON body is a record after the tests of `typeof` and `Number`. Columns that are constant or
--   only shown, and texts for display, are left out. A fresh random value is not tested against
--   the UNIQUE columns, except for the primary keys of sessions, enrollments, evidence and resend
--   requests, whose clashes the code handles or would be stopped by.
-- - All recursion is on lists and texts, so there is no fuel.
--
-- Not modelled: cookies (server.js), the chain clients of the two relayers with the texts of their
-- errors and `supportTargets`, the queue and the timer around the operator's runs, the media
-- adapters, mail transport, configuration, the reading of requests and the writing of answers; the
-- contracts, the player, the documentation and its scripts.
pub mod Account
pub mod Base
pub mod Catalog
pub mod DemoUsers
pub mod Fees
pub mod Media
pub mod Participants
pub mod Playback
pub mod Relays
pub mod Routes
pub mod SignIn
pub mod Support
pub mod Trust
