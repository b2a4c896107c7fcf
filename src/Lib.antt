-- ===== src/Lib.antt =====
-- The wPOKT validator: the services that mint wrapped POKT for what is paid to the vault on the
-- Pocket network, and send POKT from the vault for what is burnt on Ethereum.
--
-- Six services run side by side, on every validator, and meet only in the database: one stores
-- documents, others sign them, and others submit them or mark their end. A document's status
-- tells whose turn it is.
--
--   Base           numbers, Go strings, decimal texts (strconv, math/big) and sorting
--   Models         models/*.go: the documents, their status and the configuration; Models.Chain
--                  has the types that the two chains hand over
--   Effect         a service as a program of requests to the database, the locks and the chains;
--                  Effect.Run runs it, Effect.Ensures and Effect.Traces say what holds of all its
--                  requests
--   External       the functions of third-party packages, as parameters
--   Common         common/hex.go, common/cosmos.go, common/ethereum.go
--   Confirmations  cosmos/util/signer.go and UpdateStatusAndConfirmationsForMint of
--                  eth/util/signer.go
--   Events, Memo, ValidateTx
--                  cosmos/util/events.go, cosmos/util/memo.go, cosmos/util/validate_tx.go
--   MintMonitor    cosmos/monitor.go (MintMonitorRunner) and cosmos/util/monitor.go
--   BurnMonitor    eth/monitor.go (BurnMonitorRunner) and eth/util/monitor.go
--   MintSigner     eth/signer.go (MintSignerRunner) and eth/util/signer.go
--   MintExecutor   eth/executor.go (MintExecutorRunner)
--   Sequence       cosmos/sequence.go and FindMaxSequence of cosmos/signer.go
--   SignTx         cosmos/tx_sign.go, cosmos/util/tx.go, cosmos/util/signature.go
--   BurnSigner     cosmos/signer.go (BurnSignerRunner)
--   BurnExecutor   cosmos/executor.go (BurnExecutorRunner)
--   Sync           the loops over documents and over ranges of blocks that the services share
--   Settings       app/config.go, app/env.go, app/gsm.go, app/signer.go: the settings that the
--                  process starts with, and their validation
--   Keys           common/gcp_kms_signer.go and common/mnemonic_signer.go
--   Client         cosmos/client/client.go and cosmos/client/helpers.go
--   Setup          the constructors of the six runners: NewMintMonitor, NewBurnMonitor,
--                  NewMintSigner, NewMintExecutor, NewBurnSigner and NewBurnExecutor
--   Runner         app/runner.go and app/service.go; Runner.System is main.go with the goroutines
--                  of the services
--   Health         app/health.go, and what main.go reads of the last report at a start
--   Lifecycle      the changes that a document may undergo; Lifecycle.Services joins the services
--   Examples       a small world in which the services run
--
-- A handler is a `Program`: `fail` is a return with an error or with `false` where that is the
-- error, `panic` is Go's panic, and `call` asks the world for an answer, of which nothing is
-- assumed. The exception is a search, whose documents match its filter, where a statement says
-- so. A filter document is the test that it makes, and a `$set` the change that it makes. Runner
-- state is a record that an operation takes and returns.
--
-- An int64 is an integer with the wrap of two's complement written out, a uint64 a number below
-- 2 ^ 64, and a Go string a list of bytes, of which ASCII letters are folded. Two loops are on
-- fuel. That over chunks of 499 blocks has the number of chunks and two more; that over the pages
-- of a search has 500, the depth at which the code stops by itself.
--
-- The goroutines of the services and the main one are a state machine: an action is one step of
-- one of them, and any order of actions may happen. A run of a service is one such step, which
-- brings the status that the service reports. The services meet only in the database, so that
-- what they do in a run is stated apart, of their programs.
--
-- Not modelled: the driver of the database (app/database.go) and the client of Ethereum
-- (eth/client), which pass calls on to packages that are not in the repository, the generated
-- bindings (eth/autogen), the level of the logs (app/logger.go), and common/array.go, which has no
-- caller. Creation and update times of
-- documents other than the health report, which no code reads, and log messages are left out.
pub mod Base
pub mod Models
pub mod Effect
pub mod External
pub mod Common
pub mod Confirmations
pub mod Events
pub mod Memo
pub mod ValidateTx
pub mod MintMonitor
pub mod Sync
pub mod BurnMonitor
pub mod MintExecutor
pub mod Keys
pub mod Settings
pub mod Client
pub mod Runner
pub mod Health
pub mod Sequence
pub mod SignTx
pub mod BurnSigner
pub mod BurnExecutor
pub mod MintSigner
pub mod Lifecycle
pub mod Setup
pub mod Examples
