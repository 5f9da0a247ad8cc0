-- ===== src/Lib.antt =====
-- The ETH402 facilitator verifies x402 payments (EIP-3009 authorizations over USDC), and settles
-- them on Ethereum for registered merchants. This library models verification, settlement,
-- recovery, signing and the reads of the chain.
--
-- The program's parts. /verify stores a payment (internal/store, recordVerification). /settle and the
-- workers share the settlement service (internal/settlement): it admits a payment and reserves a nonce
-- in one database transaction, signs and sends the Ethereum transaction under a lease on the payment,
-- and records what the chain says of it. Recovery replaces, finds again and buries transactions. All
-- state is in PostgreSQL, and each write of internal/store is one database transaction.
--
-- The files:
-- - Settlement/State: internal/settlement/state.go, the payment state machine.
-- - Settlement/Fees: internal/settlement/fees.go.
-- - Settlement/Calldata: splitSignature of internal/settlement/calldata.go.
-- - Settlement/Errors, Settlement/Work: the sentinel errors and the values of internal/settlement.
-- - Settlement/Service: internal/settlement/service.go, estimateFees and broadcastClaimed.
-- - Settlement/Confirmation: Confirmation of service.go, and wait.go.
-- - Settlement/Settle: Settle, Broadcast and respondWithTx of service.go.
-- - Store/Schema: the tables of migrations/ as lists of rows.
-- - Store/Statements: the SQL statements that operations are made of, with the constraints that
--   PostgreSQL checks after each. A function of the source that returns an error has rolled back, so a
--   `Result Db` that is an error stands for the unchanged database.
-- - Store/Broadcast, Store/Recovery, Store/Fillers, Store/Lease, Store/Load: the writes of
--   internal/store/settlementwork.go, recovery.go and lease.go, one function for each.
-- - Store/Signer, Store/Intent, Store/Verification: internal/store/signer.go, settlement.go and
--   recordVerification of store.go.
-- - Store/Trace: any interleaving of these calls, with Evolution and Nonces, which say how one call
--   changes the database. Store/Uniqueness, Store/Finality and Store/Lease/Exclusion are about single
--   operations.
-- - Store/Admission: what CreateSettlementIntent makes sure of and writes, with Store/Nonces/Written.
-- - Store/Watch: the list queries of internal/store/recovery.go.
-- - Settlement/Recovery: internal/settlement/recovery.go, what is done for one payment. Its children
--   Backoff and Quiet are about the delay of a retry.
-- - Settlement/Sweep: the five passes of recovery.go and process. Its children are about a round:
--   Actions (what it may do), OnFile, Hashes, Listing, Runs, Payment, Items, Passes and Round.
-- - Settlement/Calldata/Transfer: Wire and TransferWithAuthorizationData of calldata.go.
-- - Signing/Policy: internal/policy/policy.go, the boundary that builds what is signed.
-- - Signing/Transaction: Validate of internal/signer/signer.go, and SignTransaction and verify of
--   policy.go.
-- - Ethereum/Agreement: callProvider and readClientAgreement of internal/ethereum/rpc.go.
-- - Ethereum/Reads: receipts, heads and eth_call of rpc.go.
-- - Ethereum/Lookups: transactions, blocks, balances and nonces of rpc.go.
-- - Verification/Request: ParseRequest of internal/verification/service.go, and PaymentID of
--   internal/x402/payment.go.
-- - Verification/Service: Verify and RecordInvalidRequest of service.go.
-- - Walletproof: NormalizeAddress of internal/walletproof/challenge.go.
-- - Base: Boolean tests, texts as lists of bytes, integers and their decimal texts, and tables as
--   lists of rows.
-- - Tests: a small database, on which the operations run and the theorems are applied.
--
-- Representation. A uuid, a time in nanoseconds and a decimal column are numbers, NULL is `none`; the
-- calldata has times in whole seconds (`unix`). The
-- uuid that the database generates is an argument, and `clock` is now(). Row locks and the advisory
-- locks make each operation one step, so that interleavings are lists of calls. No definition runs on
-- fuel: everything is structural recursion, and the polls of a wait are the list of readings of the
-- chain that its deadline leaves time for. Nonces are checked against 2 ^ 64 and a receipt's depth
-- wraps there, as in the source.
--
-- A round of recovery (process) takes, for each pass and each row that the pass visits, a `Moment`:
-- what the clock, the chain, the signer and the source of new row ids answer there. A `Network` has
-- the answers for one payment, a `World` is the database with the list of what was handed to the
-- network. `Reached` lists the actions of a round: a recovery write, a lease, or a send, which has to
-- be backed by a database of the run. The retry loop of callProvider is structural recursion on the
-- retries that are left.
--
-- Not modelled: the loops of the broadcast and confirmation workers (worker.go), the x402 scheme,
-- the KMS and development signers, the HTTP and JSON of the Ethereum client, merchants, e-mail, the
-- HTTP interface, metrics, retention and configuration. The ABI encoder, Keccak-256, go-ethereum's
-- decoding of transactions, the signer and the providers' answers are parameters (`Network`,
-- `Chain`, `Library`, `Oracle`, `Encoder`, `Codec`). Where the two halves of the program meet, a
-- hypothesis says what they rely on: that both encoders pack alike, or that the decoder reads what
-- was signed.
pub mod Base
pub mod Ethereum
pub mod Settlement
pub mod Signing
pub mod Store
pub mod Tests
pub mod Verification
pub mod Walletproof
