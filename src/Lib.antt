-- ===== src/Lib.antt =====
-- adjourn: correspondence chess on Freenet. A game is a grow-only set of signed records (moves,
-- resignations, draw offers, acceptances and claims). Peers merge their sets in any order; the
-- position and the outcome are a function of the set. A contract carries the set from peer to peer,
-- and a delegate holds a player's signing key and decides what it signs.
--
-- The parts and their files, with the code that each one follows:
--   Prelude           shared names, tests on numbers, orders by a three-way comparison, lists
--   BTree             `std::collections::BTreeMap`, as a list of entries in key order
--   Types             common/src/types.rs: `GameParams`, `Body`, `Record`; Types/Crypto has the
--                     content addresses, `Record::sign` and `Record::verify`
--   State             common/src/state.rs: `absorb`, `evict`, `merge`, `filter_valid`,
--                     `apply_delta`; State/Groups the eviction groups, State/Summary `summarize`
--                     and `delta_against`, State/Wire the wire forms of a state and of a summary
--   Project           common/src/project.rs: `project`, `make_move`, `legal_moves`; Project/Chain
--                     `walk`, Project/DoubleSign `double_signed`, Project/Claims `draw_agreed`,
--                     `draw_claimed` and `resigned`
--   Policy            common/src/delegate_policy.rs and the types of common/src/delegate_api.rs:
--                     `decide_bind`, `decide_rebind`, `decide_sign`, `migrate_record`; Policy/Seed
--                     `classify_host_entropy` and `derive_seed`
--   Contract          contracts/adjourn-contract/src/lib.rs: `validate_state`, `update_state`,
--                     `summarize_state` and `get_state_delta`, bytes to bytes
--   Delegate          delegates/adjourn-delegate/src/lib.rs: `handle` and its five handlers;
--                     Delegate/Api the requests and responses of common/src/delegate_api.rs,
--                     Delegate/Secrets and Delegate/Memory delegates/adjourn-delegate/src/secrets.rs
--   Client            client/src: the replies and errors of a session; Client/Invite invite.rs,
--                     Client/Node node.rs; Client/Setup, Client/Open, Client/Migrate, Client/Play
--                     and Client/Watch session.rs; Client/Fake `FakeNode` of fake.rs, and what the
--                     session does on it; Client/Keeps what every command keeps
--   Cli               cli/src/main.rs: `run`, and the exit code of cli/src/output.rs
--   Ui                Ui/Conn the main actor of ui/src/conn.rs, Ui/Board ui/src/board.rs
--   Tests             concrete parameters, games and states, and the theorems applied to them
--
-- A byte string, an array of bytes and a string are lists of numbers. A method that changes `self`
-- returns the new state. A Rust `Option` is `Option`, a `Result` the type `Result` of Contract. The
-- name of a Rust method without a word for its type is kept (`merge`, `evict`); `id`, `ply` and
-- `kind` are `id_of`, `ply_of` and `kind_of`.
--
-- Code outside this repository is a parameter. `Crypto` has SHA-256, the CBOR of a body and
-- ed25519, with the law `IsSigning` where what is signed has to verify; `Chess` has what is called
-- of shakmaty; `Codec` has CBOR, with its round trips as the laws `IsCodec`. `SecretCodec` has the
-- CBOR of what the delegate stores, with the law `IsSecretCodec`, and `SecretStore` is the store,
-- with the law `IsStore`: a write that succeeds sets its own key, one that fails sets nothing. What
-- is relied on of SHA-256 is `IsCollisionFree` (two verified records of one id have one signer and
-- one body), `IsDigestFree` (two verified records of one signature digest have one signature) and
-- `IsWideHash` (a hash has 32 bytes). `Base58` and `Serde` have what is called of bs58 and of
-- ciborium for the two blobs, with the laws `IsBase58` and `IsSerde`; `Freenet` has the id that
-- freenet_stdlib derives of a contract; `Host` has the two draws of host randomness, which are
-- constant where the program is not WASM; and `NodeClient` is the trait of node.rs, which `FakeNode`
-- implements. Encoding does not fail, as it does not in the source into a
-- growing buffer.
--
-- The walk runs on fuel: one round more than the 4096 plies that a verified record may carry. A
-- round that goes on has found a stored move that names its ply, and the ply rises by one in each
-- round, so a state of verified records runs out of moves first. `project` returns an `Option` for
-- this reason alone; the delegate, which projects a state that it has not verified, makes nothing
-- of a walk that runs out. A `u16` ply wraps at 2 ^ 16 in `walk` and in `Status`.
--
-- A watch runs on a number of rounds, one for each update that it takes: the loop of the source has
-- no bound, and a real node may send updates for ever. On a node in memory one round more than the
-- entries of the log that are left is enough.
--
-- Not modelled: the display of a refusal, what the command line prints and how its arguments are
-- parsed, the screens of the browser, its second actor, which races a watch against the next command,
-- the websockets and the build scripts, which are input and output;
-- the conversion of runtime messages around `handle`; and the container of the delegate, whose key
-- freenet_stdlib derives.
pub mod Prelude
pub mod BTree
pub mod Types
pub mod State
pub mod Policy
pub mod Project
pub mod Contract
pub mod Delegate
pub mod Client
pub mod Cli
pub mod Ui
pub mod Tests
