-- ===== src/Lib.antt =====
-- Percepta Settlement Layer: agents negotiate contracts by signed messages, wallets limit what a key
-- may spend, a sequencer settles transactions into a sparse Merkle tree of accounts and signs a chain
-- of block headers, and a light client checks balances against that chain. The contracts are programs
-- over small ternary neural networks, whose integer arithmetic every party can run again. This library
-- models the Rust crates that do this, as functions on values: a method with `&mut self` returns the new value
-- beside its result, a fallible one returns `Result` (Base/Results), and bytes are lists of numbers.
--
-- The parts, and the files that model them:
--   Base, Bytes, Dict    shared helpers: Boolean tests and lists over the native numbers, results,
--                        the fixed-width encodings of Rust's integers, `HashMap` by association lists
--   Int                  the integers, with the checked additions and subtractions of an i64
--   Crypto               crypto/src/hash.rs, signature.rs and trace_hash.rs. BLAKE3 and ed25519 are the
--                        fields of the record `Crypto`; `Laws` is what the code relies on, and
--                        Crypto/Toy an instance of both, at which the examples run
--   Account, Smt         crypto/src/account.rs and crypto/src/smt.rs. The tree has 256 levels, as in
--                        the source; its loops are recursions on the levels left
--   Protocol             agent_protocol/src: message.rs (Propose, Accept, Reject, CounterPropose,
--                        Execute), state_machine.rs (Log: `record_propose`, `apply_accept`,
--                        `apply_reject`, `apply_counter`, `apply_execute`, `expire_due`, and `run` over
--                        a sequence of events), dispute.rs (Dispute), reputation.rs (Reputation)
--                        and registry.rs (Registration)
--   Wallet               agent_wallet/src: policy.rs (Policy, Spending), revocation.rs (Revocation,
--                        RevocationSet), rotation.rs (Rotation) and slip10.rs (Slip10)
--   LightClient          light_client/src: header.rs (Header) and lib.rs (Verify: `verify_balance`)
--   Sequencer            sequencer/src: tx.rs (Tx), issuer_registry.rs (Registry), state.rs (State),
--                        mempool.rs (Mempool: `validate`, `ingress`, `drain`), trace.rs (Trace:
--                        `NativeTraceExecutor`), block.rs and node.rs (Node: `produce_block`,
--                        `register_issuer`, `lookup_issuer`, and `run_node` over events)
--   Ternary              ternary_vm/src: network.rs (Network: the kernel, `forward`, `argmax`),
--                        thermo.rs (Thermo), weights.rs (Weights: `pack_weights`; Weights/Unpack:
--                        `unpack_weights`), trace_hash.rs (TraceHash), and primitives/ (ByteAdd,
--                        ByteSub, TransferCheck, TransferFinalize, FreezeApply, FreezeSetup,
--                        MptEmit). Parallel has the two layers that adder and subtracter share
--   Contracts            agent_contracts/src: program.rs (Program), guarded.rs (Guarded), transfer.rs
--                        (Transfer), escrow.rs (Escrow), conditional.rs (Conditional), swap.rs (Swap)
--                        and inference.rs (RiskGated). Standard has the fields and the `build` that
--                        the contracts repeat; Disputes settles a dispute over a transfer
--   Agility              crypto_agility/src/codec.rs (Codec)
-- The modules below these hold what is proved of them, and the modules Tests runs and examples.
--
-- The wallet and the protocol share Crypto. The sequencer keeps accounts in the tree, and its headers
-- are those of the light client: sequencer/src/block.rs declares the same fields and encodings. The
-- contracts call the networks of the ternary VM byte by byte, and the dispute resolution of the protocol
-- calls a contract, as a parameter that Contracts/Disputes fills.
--
-- Bounds. Integers are natural numbers; a sum that wraps has its `%` written out, as in the release
-- profile, and a saturating one its `min`. `IsWire` and similar records say what the Rust types give:
-- the lengths of arrays, the ranges of integers, and lengths that fit the u32 before a vector. Every
-- loop is structural but that of `encode_varint`, which has five turns, enough for a u32. A hash is injective up to `Collision`, two different inputs
-- with one digest. A map iterates in the order of insertion. An index outside a vector, a slice outside
-- its bounds and an `expect` on none are failures of their own (Ternary/Errors), apart from the errors
-- that the code returns, so that a run that is shown to return ok does not panic.
--
-- Not modelled: the crate agent_sdk, crypto_agility but for its codec.rs, the executor of
-- sequencer/src/trace.rs that runs another program, the JSON of serde_json (the record `Json`), the
-- texts of error messages, `total_slots` of ternary_vm/src/network.rs, and the command line,
-- configuration, HTTP and timer of the sequencer, which only call what is modelled.
pub mod Base
pub mod Int
pub mod Bytes
pub mod Dict
pub mod Crypto
pub mod Account
pub mod Smt
pub mod Protocol
pub mod Wallet
pub mod LightClient
pub mod Sequencer
pub mod Ternary
pub mod Contracts
pub mod Agility
