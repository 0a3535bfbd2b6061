-- ===== src/Program/Args.antt =====
-- The instructions of web/src/solana/program.ts and sdk/src/program.ts, as the on-chain handlers
-- read their arguments: one module for each kind of instruction.
pub mod Register
pub mod Checks
pub mod Mint
pub mod Risk
pub mod Encumbrance
