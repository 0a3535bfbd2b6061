-- ===== src/Sdk.antt =====
-- The SDK: sdk/src/program.ts and sdk/src/accounts.ts, which repeat the code of web/src/solana with
-- the endpoint as an argument. Its kit types and its account interfaces are those of the web client.
pub mod Addresses
pub mod Encoders
pub mod Terra
pub mod Lien
pub mod Readers
pub mod Decoders
pub mod Fetch
pub mod Agrees
pub mod Reads
