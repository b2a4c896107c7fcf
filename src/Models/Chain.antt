-- ===== src/Models/Chain.antt =====
-- What the two chains hand to the validator: the types of cosmos-sdk, CometBFT, go-ethereum and
-- the contract bindings, with the fields that the code reads.
use wpokt_validator.Base.{ℕ, ℤ, Bool, Option, List}
use wpokt_validator.Base.Bytes.{Bytes}

-- `sdk.Coin`
pub record Coin : Type 0 where
  pub denom : Bytes
  pub amount : ℤ

-- `abci.EventAttribute` and `abci.Event`
pub record Attribute : Type 0 where
  pub key : Bytes
  pub value : Bytes

pub record Event : Type 0 where
  pub kind : Bytes
  pub attributes : List Attribute

-- `sdk.TxResponse`; `tx_value` is the encoded transaction.
pub record TxResponse : Type 0 where
  pub tx_hash : Bytes
  pub height : ℤ
  pub code : ℕ
  pub events : List Event
  pub tx_value : Bytes

-- `tx.Tx`: the memo of its body, if it has a body.
pub record Tx : Type 0 where
  pub body_memo : Option Bytes

-- `authtypes.BaseAccount`
pub record Account : Type 0 where
  pub account_number : ℕ
  pub sequence : ℕ

-- `types.Log`
pub record Log : Type 0 where
  pub index : ℕ
  pub payload : Bytes

pub record RawLog : Type 0 where
  pub removed : Bool
  pub block_number : ℕ
  pub tx_hash : Bytes
  pub index : ℕ
  pub address : Bytes

-- `autogen.WrappedPocketBurnAndBridge`; the two addresses are their twenty bytes.
pub record BurnEvent : Type 0 where
  pub amount : ℤ
  pub from_address : Bytes
  pub pokt_address : Bytes
  pub raw : RawLog

-- `autogen.WrappedPocketMinted`
pub record MintedEvent : Type 0 where
  pub recipient : Bytes
  pub amount : ℤ
  pub nonce : ℤ
  pub raw : RawLog

-- An iterator of the contract bindings, by what `Next`, `Error` and `Event` answer: at an end
-- (with an error or without), at an error inside the loop, or at an event that may be nil.
pub data Iterator (E : Type 0) : Type 0 where
  done : Bool → Iterator E
  broken : Iterator E
  item : Option E → Iterator E → Iterator E
