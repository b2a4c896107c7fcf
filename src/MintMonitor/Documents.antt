-- ===== src/MintMonitor/Documents.antt =====
-- cosmos/util/monitor.go: the documents that the monitor stores.
use wpokt_validator.Base.{Option, none, some, []}
use wpokt_validator.Base.Bytes.{Bytes, bytes, to_lower}
use wpokt_validator.Base.Decimal.{format_int}
use wpokt_validator.Models.{Mint, InvalidMint, pending, failed}
use wpokt_validator.Models.Config.{Config}
use wpokt_validator.Models.Chain.{Coin, Tx, TxResponse}
use wpokt_validator.External.{External}
use wpokt_validator.Common.{ensure_0x_prefix}
use wpokt_validator.ValidateTx.{ValidateTxResult}

module _ (ext : External) where
  -- `result.Amount.Amount.String()`
  unfoldable pub amount_string : Option Coin → Bytes
  amount_string none = ext.nil_amount
  amount_string (some coin) = format_int coin.amount

  unfoldable pub memo_or_empty : Option Bytes → Bytes
  memo_or_empty none = []
  memo_or_empty (some memo) = memo

  -- The memo of the transaction's body, if there are both.
  unfoldable pub memo_of : Option Tx → Bytes
  unfolding memo_or_empty
  memo_of none = []
  memo_of (some tx) = memo_or_empty tx.body_memo

module _ (ext : External) (cfg : Config) (tx : TxResponse) (result : ValidateTxResult) where
  unfoldable pub create_mint : Bytes → Bytes → Mint
  create_mint wpokt_address vault_address = record {
    id = [];
    transaction_hash = ensure_0x_prefix tx.tx_hash;
    height = format_int tx.height;
    confirmations = bytes "0";
    sender_address = result.sender_address;
    sender_chain_id = cfg.pocket.chain_id;
    recipient_address = to_lower result.memo.address;
    recipient_chain_id = result.memo.chain_id;
    wpokt_address = to_lower wpokt_address;
    vault_address = to_lower vault_address;
    amount = amount_string ext result.amount;
    nonce = [];
    memo = some result.memo;
    status = pending;
    mint_data = none;
    signers = [];
    signatures = [];
    mint_transaction_hash = [];
  }

module _ (ext : External) (cfg : Config) (tx : TxResponse) (result : ValidateTxResult) where
  unfoldable pub create_invalid_mint : Bytes → InvalidMint
  create_invalid_mint vault_address = record {
    id = [];
    transaction_hash = ensure_0x_prefix tx.tx_hash;
    height = format_int tx.height;
    confirmations = bytes "0";
    sender_address = result.sender_address;
    sender_chain_id = cfg.pocket.chain_id;
    vault_address = to_lower vault_address;
    amount = amount_string ext result.amount;
    status = pending;
    memo = memo_of ext result.tx;
    return_transaction_body = [];
    signatures = [];
    sequence = none;
    return_transaction_hash = [];
  }

  unfoldable pub create_failed_mint : Bytes → InvalidMint
  create_failed_mint vault_address = record {
    id = [];
    transaction_hash = ensure_0x_prefix tx.tx_hash;
    height = format_int tx.height;
    confirmations = bytes "0";
    sender_address = result.sender_address;
    sender_chain_id = cfg.pocket.chain_id;
    vault_address = to_lower vault_address;
    amount = amount_string ext result.amount;
    status = failed;
    memo = memo_of ext result.tx;
    return_transaction_body = [];
    signatures = [];
    sequence = none;
    return_transaction_hash = [];
  }
