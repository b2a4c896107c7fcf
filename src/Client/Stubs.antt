-- ===== src/Client/Stubs.antt =====
-- The stubs that cosmos/client calls: the gRPC services of cosmos-sdk, CometBFT's RPC, and the
-- decoding of transactions. `none` is an error.
use wpokt_validator.Base.{ℕ, ℤ, Option, List}
use wpokt_validator.Base.Bytes.{Bytes}
use wpokt_validator.Models.Chain.{TxResponse, Account}

-- `rpctypes.ResultTx`
pub record ResultTx : Type 0 where
  pub hash : Bytes
  pub height : ℤ
  pub tx : Bytes

pub record Page : Type 0 where
  pub txs : List TxResponse
  pub total : ℕ

-- `rpctypes.ResultTxSearch`
pub record SearchResult : Type 0 where
  pub txs : List ResultTx
  pub total_count : ℤ

-- The head of the chain, as the latest block and as the status tell it.
pub record Head : Type 0 where
  pub height : ℤ
  pub chain_id : Bytes

-- An answer with a code, which is zero for success.
pub record Answered : Type 0 where
  pub code : ℕ
  pub value : Bytes

pub record GasInfo : Type 0 where
  pub gas_wanted : ℕ
  pub gas_used : ℕ

-- `abci.ResponseCheckTx`
pub record CheckResult : Type 0 where
  pub code : ℕ
  pub gas_wanted : ℤ
  pub gas_used : ℤ

-- A query is asked for a page of a limit.
pub record Node : Type 0 where
  -- gRPC: `GetLatestBlock`, `GetTxsEvent`, `GetTx`, `Account`, `BroadcastTx` and `Simulate`
  pub get_latest_block : Option Head
  pub get_txs_event : Bytes → ℕ → ℕ → Option Page
  pub get_tx : Bytes → Option TxResponse
  pub account : Bytes → Option Bytes
  pub broadcast_tx : Bytes → Option Answered
  pub simulate : Bytes → Option GasInfo
  -- RPC: `Status`, `TxSearch`, `Block` (its time), `Tx`, `ABCIQuery` of an account,
  -- `BroadcastTxSync` and `CheckTx`
  pub status : Option Head
  pub tx_search : Bytes → ℤ → ℕ → Option SearchResult
  -- The time of the block, unless the result has no block.
  pub block : ℤ → Option (Option Bytes)
  pub tx : Bytes → Option ResultTx
  pub abci_query_account : Bytes → Option Answered
  pub broadcast_tx_sync : Bytes → Option Answered
  pub check_tx : Bytes → Option CheckResult
  -- The decoder of transactions with `AsAny`, and `NewResponseResultTx` with the block's time
  pub decode_any : Bytes → Bytes → Option Bytes
  pub new_response : ResultTx → Bytes → Bytes → TxResponse
  -- `Unmarshal` of an account's query response, and of an account
  pub unmarshal_response : Bytes → Option Bytes
  pub unmarshal_account : Bytes → Option Account
