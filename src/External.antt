-- ===== src/External.antt =====
-- The pure functions of third-party packages that the services call (go-ethereum, cosmos-sdk,
-- the contract bindings and `encoding/json`). They are parameters of the services that use them.
pub mod Sdk
use wpokt_validator.Base.{Bool, ℕ, ℤ, Option}
use wpokt_validator.Base.Bytes.{Bytes}
use wpokt_validator.Models.{MintMemo}
use wpokt_validator.Models.Chain.{Coin, Tx, Log, BurnEvent}

pub record External : Type 0 where
  -- `sdk.ParseCoinNormalized`
  pub parse_coin : Bytes → Option Coin
  -- `math.NewIntFromString`
  pub new_int_from_string : Bytes → Option ℤ
  -- `sdk.ValidateDenom`
  pub is_valid_denom : Bytes → Bool
  -- What `sdk.Coin{}.Amount.String()` prints.
  pub nil_amount : Bytes
  -- `(*tx.Tx).Unmarshal`
  pub unmarshal_tx : Bytes → Option Tx
  -- `json.Unmarshal` into a `MintMemo`
  pub unmarshal_memo : Bytes → Option MintMemo
  -- `math.ParseUint64`
  pub parse_uint64 : Bytes → Option ℕ
  -- `addresscodec.NewBech32Codec(prefix).StringToBytes` and `bech32.ConvertAndEncode`
  pub bech32_to_bytes : Bytes → Bytes → Option Bytes
  pub bech32_encode : Bytes → Bytes → Option Bytes
  -- `common.HexToAddress`, `Address.Hex` and `Hash.String` of go-ethereum
  pub hex_to_address : Bytes → Bytes
  pub address_hex : Bytes → Bytes
  pub hash_hex : Bytes → Bytes
  -- `ParseBurnAndBridge` of the WrappedPocket binding
  pub parse_burn_and_bridge : Log → Option BurnEvent
