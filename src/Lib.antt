-- ===== src/Lib.antt =====
-- Kalyx: an engine that runs autonomous organisations under governance. Agents propose actions, a
-- policy engine decides on them and issues an authorization token, and the execution layer spends
-- credits of a double-entry ledger, calls a provider, and records each step in an audit log.
--
-- The parts and their files:
--   Base        shared tests, strings, lists, integers, dicts and the errors that the methods raise.
--   Ledger      src/economy/ledger.py, the in-memory ledger: `DoubleEntryLedger` with its methods
--               `init`, `mint`, `deposit_revenue`, `transfer`, `get_entries`,
--               `verify_conservation`. Balances are a dict, entries a list in order of time.
--   SqlLedger   src/persistence/repositories.py, the ledger on the table `ledger_entries`: the state
--               is the list of rows, the balance the sum over them. Refinement relates it to Ledger,
--               Conservation is about its `verify_conservation`.
--   Operation   src/domain/entities.py and src/domain/enums.py, the state machine of a
--               consequential operation.
--   Journal     src/security/token_consumption.py and src/security/idempotency.py, the tables that
--               make authorization tokens single-use and operations idempotent (Finality: over any calls).
--   Audit       src/audit/event_store.py and src/domain/events.py, the hash-chained log.
--
--   Entities    src/domain/entities.py, what proposals, agents, decisions and organisations carry.
--   Policy      src/governance/policy_engine.py, rules.py and crypto.py beside it. Rules: the six core
--               rules. Engine: `evaluate`, `generate_token`, `verify_token`. Decisions: what is
--               approved. Tokens, Issue: what a token is bound to, and that issued tokens verify.
--   Execution   src/execution/consequential.py and src/settlement/reconciliation.py. State: the state
--               that the methods share and write, as a monad. Manager: the three stages of an
--               operation. Proposals: creation, authorization and `execute_proposal`, with
--               src/security/capabilities.py. Reconciliation: the service. Steps, Submission, Recovery, Outcomes:
--               what the methods do. Soundness and the two beside it: what they keep.
--
--   Governance  what stops and approves, in src/governance. Admin: admin_governance.py, signed approvals
--               and the quorum that consumes them; Quorum and Replay are about it. Breaker:
--               circuit_breaker.py, the pause of an organisation; Resumption is about it. Approvals:
--               execution_approval.py; Consumption is about it. HumanGate: human_gate.py; HumanToken
--               and Escalations are about it.
--   Work        Receipts: src/domain/work_order.py and src/settlement/work_verifier.py. Repository,
--               Saving: src/persistence/work_order_repository.py. Surplus, Settlement, Revenue:
--               src/economy/surplus_accounting.py, what becomes of the revenue of verified work.
--   Economy     Allocator, Bounds: src/economy/allocator.py, the division of the treasury among agents.
--               Reputation, Lifecycle: src/economy/reputation.py, an agent's status and authority.
--   Orbio       The purchase of Orbio CREDIT. Intents, Text: src/domain/blockchain.py. Bounds, Policy:
--               src/governance/orbio_purchase_rules.py, the bounds and the human approvals; Allowed,
--               Confirming, Revocation and EarlierApproval are about them. Verifier:
--               src/settlement/orbio_purchase_verifier.py; Matching, Verified and OneReference are about it.
--               Reconciliation: orbio_purchase_reconciliation.py beside it, which works on the state of
--               Execution, asks the provider and the verifier and pays from the ledger; Soundness,
--               Pending (with Money), Settled (with Ending) and Paying (with Acceptance) are about it.
--   Orchestration  src/orchestration. Budget: budget.py, the calls that an agent adapter may make.
--               StateMachine: state_machine.py, the states of organisations and tasks.
--   Marketplace Orders, Escrows, Grants: src/domain/marketplace.py and capability.py beside it, with
--               src/persistence/marketplace_repository.py. Coordinator:
--               src/agents/b2b_marketplace_coordinator.py, settlement and refund, which write the
--               ledgers, the surplus of Work and the three tables; Publishing: of the same file, the
--               publication, which asks the engine of Policy and the breaker of Governance. Claiming,
--               Replays, Effects, Settling, Closing, Payout, Listing, Reversal: what they do.
--
-- A method is a function of its arguments and of the state, to a result and the state after it. An
-- exception is the `err` of Base/Outcome. In the ledgers and journals the state is then the one before
-- the call, as no method there writes before its last check; in Execution, where methods write and
-- then raise, the state goes on through the exception; so it does in Work, Orbio, Marketplace and
-- Governance. Times and uuids are arguments (`Stamp`). A call is one step, so calls run one
-- after another: the SQL methods run under `BEGIN IMMEDIATE` or write once, save
-- `verify_and_consume_quorum` of Governance/Admin, which reads `consumed` before the transaction that
-- writes it; calls that interleave there are not covered.
--
-- Parameters: SHA-256 and the decimal text of an int in Audit; SHA-256 and the provider's `execute` and
-- `status` in Execution; the record `Library` of Policy/Engine: HMAC, SHA-256, the texts of ints, of the
-- policy (its rules sorted, as canonical JSON) and of claims (JSON in base64); the record `Primitives` of
-- Governance/Admin: HMAC, SHA-256, `json.dumps`, the text of a time; the record `WorkLibrary` of
-- Work/Receipts; the floor of a share of an amount and the float ranking of agents in Work/Surplus and
-- Economy; the executor of work orders and the JSON texts of a new order in Marketplace; the delegate of
-- Orchestration/Budget; the record `Digests` of Orbio/Intents, the evidence found in a provider's status,
-- the hash in an operation's parameters and the texts of reasons in Orbio. No property of them is
-- assumed, save where a theorem says that two digests differ, what the provider answers, what evidence
-- is found (its extraction may raise), or that issued claims are read back. The provider's ledger and that of the reconciler that settles its revenue are one, as in the callers.
--
-- No loop needs fuel: each runs over a list of the state, and recursion is on that list.
--
-- Not modelled: the float scores of agents, tenancy, the activation and the purchase loop of Orbio, the
-- extraction of purchase evidence from a provider's JSON, which is untyped, the encoding of calldata, the
-- discovery of orders with the evolution of capabilities, and the policy rules beyond the core six, which
-- are values of the same record as those; and the HTTP API, the agents' prompts, the database drivers and
-- migrations, the blockchain bindings and the web applications, which are input and output.
pub mod Base
pub mod Ledger
pub mod SqlLedger
pub mod Operation
pub mod Journal
pub mod Audit
pub mod Entities
pub mod Policy
pub mod Execution
pub mod Governance
pub mod Work
pub mod Economy
pub mod Orbio
pub mod Orchestration
pub mod Marketplace
