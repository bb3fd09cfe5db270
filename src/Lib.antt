-- ===== src/Lib.antt =====
-- MYT-Machine: payments, invoices and their verification through a wallet (src/myt_machine).
--
-- The program's parts and the files that model them:
--   amounts.py               Amounts: decimal amounts and atomic units; RoundTrip has the theorems.
--   validation.py            Validation: checks of untrusted texts and numbers.
--   errors.py                Errors: an exception is a value of `Error`, and a function that may
--                            raise returns a `Result`.
--   payment_requests.py      Payment: the immutable payment request, made, serialised and parsed.
--   invoices.py              Invoice: the local record of an invoice and its checks.
--   invoice_store.py         InvoiceStore: the methods on the table `invoices`. `Sql` has the
--                            statements and the constraints of the schema, `Decode` reads a row,
--                            `Finalize` is `_finalize`, and `Step` the store as a transition system.
--   proofs.py                Proofs: the payment-proof artifact.
--   settlement.py            Settlement: the operations on a wallet. `Payments` has the payment and
--                            the proofs, `Transfers` and `Status` have `payment_status`.
--   invoice_verification.py  Verification: the local checks of a proof, and `Verifier`, which asks
--                            the wallet; Observation is what it returns.
--   billing.py               Billing: the service that creates, verifies and gates invoices over the
--                            store and the verifier.
--   rpc.py                   Rpc: the configuration of the wallet RPC client; `Digest` has the
--                            authentication and `Client` the call.
--   identity.py, identity_artifacts.py
--                            Identity: Machine IDs, signature frames, signing and verifying;
--                            `Document` is the public identity document.
--   reputation.py            Reputation: attestations and revocations, made, parsed and verified.
--   reputation_store.py      Reputation.Evidence, the rows and how they are read, and
--                            Reputation.Store, the methods on both tables.
--   reputation_policy.py     Reputation.Policy: local counts under a policy.
--   reputation_settlement.py Reputation.Claim, the local checks and the evidence, and
--                            Reputation.Bridge, `record_verified_settlement`.
--   binding.py, binding_artifacts.py
--                            Binding: the artifact that binds a Machine ID to a wallet address;
--                            `Service` creates and verifies it over a wallet.
-- Base has what the files share, Json the dynamic values that `json` reads and writes, and Wallet
-- the wallet RPC as its callers see it. Examples has runs at concrete inputs.
--
-- How they interact: a request is made and checked (Payment), stored as a pending invoice
-- (InvoiceStore.create), and paid through a wallet (Settlement). A verifier asks its own wallet
-- about the payer's proof (Verification), and its observation lets the store mark the invoice as
-- paid (InvoiceStore.Finalize), if it has not expired meanwhile.
--
-- Beside this, machines sign opinions of each other with their identities (Reputation over
-- Identity). The evidence store keeps those that verify, and recorded settlements, and reads them
-- again for every summary that a policy makes of them. A settlement is recorded for an invoice that
-- the store holds as paid, after the wallet verified the recipient's binding and the payment again.
--
-- How the code is represented:
--   * A text is the list of its code points. A Python `dict` from `json` is its list of entries.
--   * A database is the list of its rows, the latest first. A method of the store takes it and
--     returns what it answers, an error included, and the database afterwards. `BEGIN IMMEDIATE`
--     puts the transactions of all threads and processes in one order, so a history is a list of
--     `Operation`s. What a method reads from outside, the clock, the file's status and whether
--     SQLite opens and commits, is its `Moment`.
--     A body that raises carries the rows that it had written, and `rollback` restores the table
--     as it was at BEGIN. A row has the types that the schema declares for its columns: the rows
--     that SQLite's dynamic typing would allow beside these are not modelled.
--   * A wallet is the list of its answers, and a call takes the next; the calls are recorded.
--     `Wallet.Answered` says which reply answers which call, and theorems about what a wallet
--     confirmed name the session from which the calls were made.
--   * Where the billing service asks the wallet between two transactions, a function `between`
--     is what others do to the table meanwhile.
--   * `json`, `hashlib` and `unicodedata` are the parameter `Platform`. Theorems that need it take
--     as a hypothesis what `json` is documented to do with a request: `IsFaithful`.
--   * `urllib`, `ipaddress` and MD5 are the parameter `Net`; base64, base32, SHA-256 and Ed25519 are
--     the parameter `Crypto`; what the decoder of `json` does with a text is a `Decoded`. A request
--     to the wallet's server takes what the server makes of it, as a response or a failure.
--   * A `ReputationArtifact` holds its canonical text and the document that `as_dict` reads from it.
--   * `decimal` writes a number with fuel one above the number, which is enough since each step
--     divides it by ten; other recursion is on the structure of a list or a text.
--
-- Not modelled: the constructors of the stores, which make the file and the schema; the reading and
-- writing of proof, identity, binding and reputation files; the connection of the wallet RPC below its
-- requests and responses; challenge nonces, private key files; the HTTP server of the
-- billing service; disclosure; the command line.
pub mod Base
pub mod Errors
pub mod Json
pub mod Amounts
pub mod Validation
pub mod Payment
pub mod Invoice
pub mod Observation
pub mod InvoiceStore
pub mod Rpc
pub mod Wallet
pub mod Proofs
pub mod Settlement
pub mod Verification
pub mod Billing
pub mod Identity
pub mod Reputation
pub mod Binding
mod Examples
