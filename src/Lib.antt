-- ===== src/Lib.antt =====
-- The client side of terra-ledger: how the web application and the SDK build Solana instructions for
-- the programs terra_token and lien_registry, read the programs' accounts back, send transactions and
-- report their errors, what the pages make of all this, and what the programs do with the
-- instructions.
--
-- The pages and steps (Pages, LienPage, Wizard) call the hooks (Hooks, SignAndSend, Deeplink); these
-- call the REST client (Api) and the wallet, to which they give the instructions of the builders
-- (Program); the accounts that the programs (Chain) leave are fetched (Rpc) and decoded (Accounts).
--
-- Files, and the code that each is about:
--   Platform             what comes from outside the repository: the text codecs of the browser and
--                        the functions of @solana/kit, as the functions of a record `Kit`, with
--                        `Laws` for what the theorems need of them. Platform/Sample is a concrete
--                        one, with its laws proved.
--   Program              web/src/solana/program.ts: constants, addresses, writers and builders
--                        (`encodeU64LE` is `encode_u64_le`, `buildMintCertificateInstruction` is
--                        `build_mint_certificate_instruction`, and so on). Program/Lien has the
--                        builders for lien_registry, Program/Risk the builder that only
--                        sdk/src/program.ts has, Program/Transaction `serializeTransactionB58`, and
--                        Program/Carries what it serializes.
--   Program/Wire         the arguments as the handlers of contracts/programs/*/src/lib.rs read them;
--                        Program/Structs the accounts that their `#[derive(Accounts)]` structs list,
--                        with the addresses that these fix, and Program/Roles those that the
--                        builders name.
--   Accounts             web/src/solana/accounts.ts: readers and decoders. Accounts/Layout is the
--                        accounts as contracts/programs/*/src/state stores them.
--   Rpc                  the fetch functions of web/src/solana/accounts.ts and `accountExists`.
--                        Rpc/Ledger is a ledger and what it means that a node serves it (`Serves`).
--   Sdk                  sdk/src/program.ts and sdk/src/accounts.ts: the SDK's own copies of the builders,
--                        decoders and fetch functions, under the names that the web client's have,
--                        with the endpoint of the node as an argument.
--   Chain                what the handlers of contracts/programs do to the accounts: Chain/Terra those
--                        of terra_token, Chain/Lien those of lien_registry, Chain/Transfer the hook of
--                        transfer_hook. A `Store` is the parcels by their address, the liens by the
--                        addresses of parcel and lender, and the indices by that of the parcel; a
--                        handler is an `Attempt`, which returns the store that a transaction leaves
--                        or fails with an Anchor error.
--                        Chain/Execute is an instruction of the client as lien_registry runs it, with
--                        the accounts that it asks for,
--                        Chain/Reach the stores that transactions reach, Chain/Risk, Chain/Pledges and
--                        Chain/Exclusive what follows of risk and of double pledges.
--   Seed                 contracts/scripts/seed.ts: its seeds and the three steps of `main`.
--   Errors               `extractErrorString` and `parseTransactionError` of
--                        web/src/solana/transaction.ts; Errors/Messages the table of messages.
--   SignAndSend          the hook `useSignAndSend` of the same file.
--   Deeplink             web/src/solana/phantom-deeplink.ts; what it takes from tweetnacl and the
--                        browser is the record `Browser`. Deeplink/Connect is the connection half of
--                        the hook of web/src/solana/usePhantomDeeplink.ts, with localStorage and the
--                        live intervals in its state, Deeplink/Sign one call of
--                        `signAndSendTransaction`, Deeplink/Polling its interval run by run.
--   Api                  web/src/api/client.ts; Api/Sdk the calls of sdk/src/client.ts, Api/Paths the
--                        routes that their paths take.
--   Hooks                web/src/hooks: useParcel, useCreditProfile, useLien (Hooks/Liens) and the
--                        hooks without an error state (Hooks/Lists).
--   Wizard               web/src/pages/WizardFlow/WizardFlow.tsx, the reducer, and `handleSubmit` of
--                        steps/RegisterParcelStep.tsx; Wizard/Walk the moves that its steps offer.
--   LienPage             `handleRegister` and `handleRelease` of
--                        web/src/pages/LienManagement/LienManagement.tsx.
--   Pages                the other pages, steps and components with state, each in a file of its name:
--                        Pages/Farmer (FarmerPortal), Pages/Consent (ConsentDashboard),
--                        Pages/LienStep, CreditScore, WalletSetup and SearchParcel (steps of the
--                        wizard), Pages/Toasts and WalletButton (components).
--   Base, Bytes          what the modules share: tests, lists, results, strings; byte arrays with
--                        `DataView`'s and `Uint8Array`'s reads and writes.
--   Examples             concrete inputs, and the theorems applied to them.
--
-- Conventions. A byte is a number below 256; reads and writes of a `DataView` out of range throw a
-- RangeError (`range_error`), reads of a `Uint8Array` give undefined, and `slice` stops at the end.
-- An unsigned w-bit integer is written modulo 2 ^ w, as `setUint32` and `BigInt.asUintN` do. A
-- JavaScript string is its list of UTF-16 code units. A promise that is awaited is an `Outcome`,
-- which returns or throws; `SignAndSend` and `Deeplink` also say what happens while one is pending,
-- by one function for each part between two `await`s. `for` loops over arrays are recursion on the
-- list. The fuel of the decimal digits of an error code is 20, enough for every number below 10 ^
-- 20 (Base/Decimal); codes from 2 ^ 53 on, which JavaScript rounds, are left out, and those of
-- programs are below 2 ^ 32. An Anchor error named like a property of `Object.prototype`, for which
-- the table of messages gives no text, is left out (`inherited_names` of Errors/Messages). The interval of a signature is run
-- at most 151 times, every two seconds for five minutes (Deeplink/Polling). The effects of the
-- credit score step make at most four requests, one and three retries (Pages/Retries).
--
-- The chain. An account is found by what its address is derived from, as if no two seeds gave one
-- address. A transaction is one call of a handler, which leaves the accounts as they were where it
-- fails. The seed script's transactions are all executed before the next is sent.
--
-- Not modelled: the network itself (a node is the function `Rpc`), wallets, rendering and the
-- backend. On chain, the calls of Token-2022 in mint_certificate are a parameter, and events, rent
-- and the number of compute units are left out, and with the events the optional lien index of
-- seasonal_check. The addresses of program-derived accounts are what `find_pda` says they are.
-- Numbers are natural: a builder's argument that is negative or not a whole number is outside the
-- model, except for the amount of Pages/LienStep. The pages that only render, the charts, and
-- SatelliteStep, which works on fractions, are left out, since the model has whole numbers only.
pub mod Base
pub mod Bytes
pub mod Platform
pub mod Program
pub mod Accounts
pub mod Rpc
pub mod Sdk
pub mod Chain
pub mod Seed
pub mod Errors
pub mod SignAndSend
pub mod Deeplink
pub mod Api
pub mod Hooks
pub mod Wizard
pub mod LienPage
pub mod Pages
pub mod Examples
