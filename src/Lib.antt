-- ===== src/Lib.antt =====
-- Härdig: the on-chain program (programs/hardig) and its terminal client (crates/tui). Positions at the lending program Mayflower that
-- are used through key NFTs. Whoever holds the admin key of a position may do everything with it;
-- delegated keys carry a byte of permissions and, for the two limited ones, a token bucket and a
-- lifetime cap. A recovery key may take a position over after a lockout without recorded activity, and a
-- promotion lets anybody claim a delegated key for a deposit. The client loads a position, lets the
-- user fill in a form, and builds the instruction that the program then runs.
--
-- How the model is built. The account framework, MPL-Core, the SPL token program, Mayflower and the
-- derivation of addresses are not part of the program: they are the fields of the record `Runtime`,
-- an argument of every definition that uses them. An instruction is a function from its accounts,
-- its arguments and a store of raw accounts to a `Result`: the accounts that the program owns and
-- writes come back as new records, and calls of other programs change the store through
-- `Runtime.invoke`, about which nothing is assumed. An instruction is the constraints of its
-- `#[derive(Accounts)]` struct followed by its handler; where it fails, nothing is written, as the
-- runtime rolls back. Integers are natural numbers with the checks and casts of the source written
-- out; i64 times are integers with the saturating subtraction of the source. A public key is the
-- number of its 32 bytes in little-endian order and a text the list of its code points.
--
-- The client's calls of SHA-256, base 58, floating point and of other programs' instruction builders
-- are the record `Host`, and the answers of the RPC node the record `Rpc`; the readers of the account
-- types, which the account framework generates for both sides, are the record `Anchor`, and the
-- readers of the arguments, with the format that they read, the record `Borsh`. A method of the client
-- is a function from its state to its state; `none` is a panic.
--
-- Where what is (paths below programs/hardig/src, for Client below crates/tui/src):
--   Base, Error: numbers, bytes and lists; errors.rs, `Result` and the inversion of its steps.
--   Runtime: what the program runs on.
--   State: the accounts and permission bits of state/mod.rs and state/promo.rs.
--   RateLimit: instructions/consume_rate_limit.rs.
--   Decimal, Format: numbers as text, and the key metadata of instructions/mod.rs.
--   Permissions: validate_delegated_permissions of instructions/mod.rs.
--   KeyCheck: instructions/validate_key.rs.
--   Mayflower: mayflower/constants.rs, floor.rs and cpi_accounts.rs.
--   Trade: instructions/buy.rs, withdraw.rs, borrow.rs, repay.rs and reinvest.rs.
--   Artwork: artwork.rs.
--   Keys: instructions/authorize_key.rs and revoke_key.rs.
--   Recovery: instructions/heartbeat.rs, configure_recovery.rs, execute_recovery.rs and
--     set_position_artwork.rs.
--   Promo: instructions/promo/.
--   Protocol: instructions/initialize_protocol.rs, transfer_admin.rs, accept_admin.rs,
--     create_collection.rs, create_market_config.rs, add_trusted_provider.rs,
--     remove_trusted_provider.rs and migrate_config.rs.
--   Position: instructions/create_position.rs, and every instruction that writes a position as a
--     step of a state machine.
--   Anchor, Entry: the entry points of lib.rs for the five trades, and how they take their accounts
--     and arguments from an instruction.
--   Mock: the stand-in for Mayflower of the tests, test-programs/mock-mayflower/src/lib.rs from the
--     repository's root.
--   Client: app.rs, and the markets of main.rs. Client is the state; Texts the helpers; Attempt the early returns; Build the
--     builders of instructions; Chain and Select what is read of the chain; Form the form; Enter how the
--     forms, the list of promotions and the picker of a market open; Amounts compares its texts
--     with the program's.
--   Tests: the theorems applied to a small concrete world.
--
-- How the parts interact: every handler that acts on a position calls `validate_key` first; withdraw
-- and borrow then charge what was really sold or borrowed, the difference of Mayflower's account
-- before and after the call, to the limits of a limited key; the instructions that manage keys mint
-- and burn through MPL-Core and build the metadata with Format; authorize_key, configure_recovery and
-- set_position_artwork ask Artwork for the image. The client and the program meet at the instruction:
-- Entry reads the account list and the bytes that Client.Build writes.
--
-- Bounds and fuel: decimal text is written with as many rounds as the type has digits (3 for u8, 20
-- for u64), and the decimal decoder runs its 12 rounds, so no result is cut short.
--
-- Not modelled: the other entry points of lib.rs, which only forward; the client's refresh and
-- discovery of positions, its list of positions, the confirmation and what the dashboard does
-- besides opening forms; the reading of the markets file, the command line (main.rs) and the
-- drawing (ui.rs); the web client in web-lite; scripts and tests; rent paid by
-- the account framework. The clock of the last refresh and the verbosity of the client are left out.
-- The order in which the account framework tests constraints matters only for which error
-- comes first; it is the order of the fields, with `init` first.
pub mod Base
pub mod Error
pub mod Runtime
pub mod State
pub mod RateLimit
pub mod Decimal
pub mod Permissions
pub mod Format
pub mod KeyCheck
pub mod Mayflower
pub mod Trade
pub mod Artwork
pub mod Keys
pub mod Recovery
pub mod Promo
pub mod Protocol
pub mod Position
pub mod Anchor
pub mod Client
pub mod Entry
pub mod Mock
pub mod Tests
