-- ===== src/Lib.antt =====
-- The sovereign node of CashLoom: how it pays, and what evidence it keeps.
--
-- A sovereign node (sovereign/src) holds its own keys and its own SQLite file. A payment goes through
-- one rite: it is quoted, claimed, handed to a sender for its rail, and recorded. On an EVM rail the
-- sender first reserves a nonce. Around a payment the node exchanges signed records with its peers: a
-- merchant's descriptor and request, a payer's intent and commitment, the submission and the settlement.
-- The store of these records is append-only.
--
-- The parts, their files, and the code that each is about:
--   Prelude      what the others share: exceptions as values (Results), JavaScript strings as lists of
--                their code units (Texts), SQL tables as lists of rows with the statements the code
--                runs (Tables, their laws in Rows), a sorted column (Sorting).
--   Payments     the table `payments` of sovereign/src/db.ts, with its statuses.
--   Ledger       the table `transactions` of sovereign/src/db.ts and its dedupe index, with
--                `INSERT OR IGNORE`.
--   Pay          sovereign/src/pay.ts. Quote is `quotePayment`, Claim the first half of `confirmPayment`
--                up to the transaction that claims the row, Settle its second half, from the send to
--                the ledger row. World makes the steps of concurrent rites a relation on the database
--                and the messages in flight; Rite, Once and Outcomes are its invariants, Claims what
--                a claim has checked, Recorded what an end leaves in the ledger.
--   BitcoinProfile  sovereign/src/protocol/v2/bitcoin-profile.ts: the addresses and amounts that a
--                Bitcoin Pay Link may name, and in Bounds what passes the parsers.
--   BitcoinPayLink  sovereign/src/pay/bitcoin-pay-link.ts, over Pay, Records, RecordStore and AssetTrust.
--                Asserts holds the checks on the account, the asset policy and the intent, Context is
--                `activeContext` and `historicalContext`, Review the review with its digest
--                and the binding of a draft, Stored the stored outcome, and Prepare, Confirm and Status
--                the three operations. A Node is the database with the node's key, a Moment a node with
--                the time: each stretch between two waits reads one. Kept, Confirmable and Prepared are
--                about `prepare`, Signed about the context, Admitted, Reviewed and Granted about the
--                one-time claim of Pay, Offered about `status`, Told about the result.
--   EvmNonce     sovereign/src/senders/evm-nonce.ts. Reserve is `reserveEvmNonce`, Transitions the
--                five other operations. Gap and Freshness are about one reservation, Evolution,
--                Trace, Sticky and Evidence about any sequence of calls.
--   Records      sovereign/src/protocol/v2/records.ts. Link is `assertImmediateLink` and
--                `verifyV2RecordLink`, Chain is `verifyV2RecordChain`, Agreement what a chain settles.
--   RecordStore  sovereign/src/protocol/v2/record-store.ts, over the tables of
--                sovereign/src/protocol/v2/schema.ts. Insert holds the statements with their
--                constraints, Append `append` and `appendBatch`, Reads the look-ups. Steps says what
--                an append has checked; Sound and Successors (over Edges) are its invariants, Recall,
--                Disclosure and Batch relate the operations to each other.
--   AssetTrust   sovereign/src/protocol/v2/asset-trust.ts. Parse is the parsers' checks on values of the
--                right shape, Evaluate `evaluateAssetTrust`, Compliance and Acceptance what it means to
--                meet a policy, Policies the comparison of policies and the fail-closed one.
--   AgentPay     sovereign/src/pay/agent-pay.ts. Usage is what the tables show of a capability, Reserve
--                the transaction that reserves an intent; Totals, Replay, Accounts and Epoch are about it.
--   MinorUnits   sovereign/src/utils/minor-units.ts: amounts as decimal strings and BigInts. Digits is the
--                printed text read back, Rounding the half-even rule.
--   Stripe       sovereign/src/processors/stripe-checkout.ts with sovereign/src/stripe-currency.ts.
--                Checkout is the creation up to the egress, Answer what its answer leaves, Signature the
--                check of a webhook's header, Judge its verdict, Webhook its inbox. Moves is the relation
--                that statuses keep to; Steps, Answered and Once are about any order of calls, answers and
--                webhooks, Quiet, Verdicts and Paid about who can report a collection paid.
--   Sync         sovereign/src/sync.ts: the ledger filled from a read-only connector. Resync is about a
--                second run, Bookkeeping about the counts.
--
-- Names are the code's, in snake case. A function that throws returns a Result; a transaction that throws
-- returns no state, which is its rollback. A clock is an argument: what it returns inside the call. An
-- `await` is a step of its own, so that other calls can come in between.
--
-- Recursion is on lists, so that loops need no fuel: the search of `reserveEvmNonce` for a free nonce
-- runs over the live rows in ascending order, as the loop of the code does. Only the decimal digits of a
-- number are on fuel, one more than the number, of which each digit takes one and leaves a tenth.
-- A JavaScript number is a natural number with the tests for a safe integer written out.
--
-- Parameters stand for what is not in the repository: SHA-256 and Keccak, `Date.parse` and
-- `toISOString`, `toUpperCase`, the text codecs, and the wallet package, with the parser and the signature
-- check of a single record, which rest on it.
--
-- The commitment that the local service creates for a payment link, the payload that a sender compiles
-- and the draft of its quote are values that the operations of BitcoinPayLink are given.
--
-- Not modelled: the connectors but for the shapes that they return, the HTTP routes, the transport and
-- the user interface, which do input and output; the local service, which signs and appends records on
-- request; the texts of protocol v2's payment links, which are encoded and shown; the senders, but for
-- their results, since what they build rests on third-party packages; the vault; and what ends in a
-- floating-point number.
pub mod Prelude
pub mod Payments
pub mod Ledger
pub mod Pay
pub mod EvmNonce
pub mod Records
pub mod RecordStore
pub mod AssetTrust
pub mod AgentPay
pub mod MinorUnits
pub mod Sync
pub mod BitcoinProfile
pub mod BitcoinPayLink
pub mod Stripe
