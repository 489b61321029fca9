-- ===== src/Lib.antt =====
-- Privacy Layer SDK: a verification library for the TypeScript packages of this repository.
--
-- The SDK prepares private operations (deposit, transfer, withdraw), executes them, and keeps the
-- wallet's private state (packages/core, packages/state). packages/relay submits a prepared
-- operation through a protocol relay, polls it, and completes it: local finalization, delivery
-- draining and transaction persistence, each by a port of the caller.
--
-- Base.antt holds the shared names; Js.antt and its modules hold JavaScript's values, the string
-- methods and the property access that the packages call.
--
-- Core.antt and its modules model packages/core/src: Errors (intents.ts, disclosure.ts, errors.ts),
-- Operations (operations.ts), Prepare (prepare-privacy-operation.ts,
-- privacy-operation-validation.ts, adapters.ts), and under State the state tree that clients change
-- by lists of operations: State/Tree (state/json-path/tree.ts), State/Filter
-- (state/array-filter/match.ts), State/Operations (state/operations), State/Bridge (state/bridge),
-- State/Serialization (state/serialization/normalize-values.ts). State/Memory models
-- packages/state/memory/src and State/Redux models packages/state/redux/src. The tree is mutated in
-- place in the code; here a function takes a record and gives its outcome beside the record as it
-- is afterwards. A bridge checks a call and hands its operations to an adapter, which runs them on
-- a draft: over its own tree in memory, or over a branch of a Redux store, with bigints as texts.
-- Adapters of the network and the policy are the client's, and so is the Redux store: they are
-- parameters, actions on an outer world. Parameters are also zod schemas (as parsers), the sum of
-- doubles and BigInt(String(value)). A bigint's decimal text is computed with the number itself as
-- fuel, which is at least the number of its digits less one.
--
-- Relay.antt and its modules model packages/relay/src: Types (types.ts), Reasons (reasons.ts,
-- relay-api-error.ts), Config (relay-config.ts), Policy (fallback-policy.ts,
-- is-unfinalized-relay-operation.ts), Completion (complete-succeeded-operation.ts), Submission
-- (submit-prepared-private-operation.ts, submit-direct-fallback.ts), Polling
-- (poll-pending-operation.ts), Settlement (await-relay-settlement.ts), Recovery
-- (retry-and-resume.ts, protocol-relay-client-error.ts), Wire (serialize.ts) and Api
-- (relay-api.ts). Functions keep their names in snake case. An async function is a run of
-- Relay/Runtime.antt: it passes on the caller's world, the record of port calls and the map of
-- completions in flight, and returns or throws. The ports (store, relay API, direct submission and
-- the success side effects) are the caller's: they are parameters. Where a theorem depends on the
-- store, Relay/Completion/Repeat.antt states what it must do, and Relay/Tests.antt gives a store
-- that does it.
--
-- Stellar.antt and its modules model parts of packages/stellar/src: Records and Prepared
-- (state/domain/types.ts, types.ts), Selection (adapters/record-selection.ts), Outputs
-- (adapters/transfer-output-records.ts), Network (adapters/transfer-prepare.ts,
-- adapters/network.ts, transact/transfer-source/verify-private-records.ts), Policy (policy,
-- adapters/policy.ts), Execution (transact/engine/execution/submit-prepared.ts and
-- packages/core/src/events.ts), Balances and Upsert (state/service/records), Polling
-- (rpc/polling.ts, rpc/transactions.ts, transact/kyt/passage/poll.ts), and Merkle (transact/merkle),
-- whose Leaves reads the ledger in batches, Cache and Fetch hold the cached commitments and the
-- fetch, and Sessions and Trees the trees that a package keeps. Int and BigInt hold the
-- bigints and BigInt(text), Sort holds toSorted, and Effects the actions of asynchronous code with
-- try and catch. A spend selects records, an operation is prepared from them, and an execution
-- signs, submits and then changes the storage. The wallet, the storage, the engine, the server, the
-- clock and the event listener are ports; localeCompare, random identifiers and sums of doubles are
-- parameters. The wait for a confirmation recurs on fuel that counts its rounds; the registration's
-- poll recurs on the rounds that are left.
--
-- Runs follow one another: two completions of one operation that overlap in time are not modelled.
-- Attempt counts are whole numbers; the delays between polls are doubles, whose arithmetic is a
-- parameter. The polling loop recurs on the attempts that are
-- left, so it needs no fuel. Not modelled: network I/O, generated contract bindings, proof
-- generation by the WASM package, scripts and documentation, and of packages/stellar/src relay
-- layouts, fees, escrow, the state definitions with their zod schemas, and the client. Of the Merkle
-- trees, a state file goes to the package as it is, and building a withdrawal's witness from a tree
-- is not modelled. The batches are cut on fuel that is the number of keys.
pub mod Base
pub mod Js
pub mod Core
pub mod Relay
pub mod Stellar
