-- ===== src/BurnSigner.antt =====
-- cosmos/signer.go: the service that signs the transactions from the vault for burns and invalid
-- mints.
pub mod Validation
pub mod Documents
pub mod Lifecycle
use wpokt_validator.Base.{
  ℕ, ℤ, pos, Bool, true, false, not, ◌&&◌, ◌||◌, Option, none, some, List, [], ◌∷◌, ◌++◌, length,
  leb, leb_ℤ, eqb_ℤ, to_word64, int64, any, if◌then◌else◌,
}
use wpokt_validator.Base.Bytes.{Bytes, bytes, eqb, equal_fold}
use wpokt_validator.Models.{
  Status, confirmed, signed, failed, is_confirmed, is_open, Signature, Burn, InvalidMint,
}
use wpokt_validator.Models.Config.{Config}
use wpokt_validator.Models.Chain.{Coin}
use wpokt_validator.External.{External}
use wpokt_validator.External.Sdk.{Sdk}
use wpokt_validator.Common.{address_bytes_from_bech32, address_hex_from_bytes}
use wpokt_validator.Confirmations.{
  update_status_and_confirmations_for_burn, update_status_and_confirmations_for_invalid_mint,
}
use wpokt_validator.Effect.{
  get_latest_block_height, get_block_number, find_burns, find_invalid_mints, update_burn,
  update_invalid_mint, max_mint_limit, Program, ret, fail, panic, ◌>>=◌, ◌>>◌, ask, lift, require,
  settle,
}
use wpokt_validator.Sequence.{find_sequence, with_write_lock}
use wpokt_validator.SignTx.{SignRequest, new_coin, sign_tx, or_empty}
use wpokt_validator.Sync.{sync_found}
use wpokt_validator.BurnMonitor.{int64_of}
use wpokt_validator.BurnSigner.Validation.{BurnSignerRunner, validate_burn, validate_invalid_mint}
use wpokt_validator.BurnSigner.Documents.{
  Signing, set_of, Update, mark_failed, set_status, set_signed, update_of_burn,
  update_of_invalid_mint,
}

abbrev set_cosmos_height : BurnSignerRunner → ℤ → BurnSignerRunner
set_cosmos_height x height = record x { cosmos_height = height }

abbrev set_eth_block : BurnSignerRunner → Option ℕ → BurnSignerRunner
set_eth_block x none = x
set_eth_block x (some n) = record x { eth_block_number = int64_of n }

after_height : BurnSignerRunner → Option ℤ → Program BurnSignerRunner
after_height x none = ret x
after_height x (some height) = do
  block ← ask get_block_number
  ret (set_eth_block (set_cosmos_height x height) block)

-- The Ethereum block is asked for only if the height was answered.
unfoldable pub update_blocks : BurnSignerRunner → Program BurnSignerRunner
unfolding after_height
update_blocks x = do height ← ask get_latest_block_height; after_height x height

module _ (ext : External) (sdk : Sdk) (cfg : Config) (x : BurnSignerRunner) where
  -- The sequence of the document, or a new one.
  unfoldable pub sequence_of : Option ℕ → Program ℕ
  sequence_of none = find_sequence cfg x.multisig_address
  sequence_of (some n) = ret n

  -- `Sign`: the fields that are set.
  unfoldable pub sign : Option ℕ → List Signature → Bytes → Bytes → Coin → Bytes → Program Signing
  sign sequence signatures body to_address amount memo = do
    n ← sequence_of sequence
    result ← sign_tx ext sdk cfg.pocket x.public_key (record {
      sequence = n;
      signatures = signatures;
      transaction_body = body;
      to_address = to_address;
      amount = amount;
      memo = memo;
    })
    ret (set_of cfg.pocket.multisig_threshold n result.0 result.1)

  -- `amount, _ := math.NewIntFromString(…)`, which leaves a nil amount at an error, and `NewCoin`.
  unfoldable pub amount_coin : Option ℤ → Program Coin
  amount_coin none = panic
  amount_coin (some amount) = new_coin ext cfg.pocket.coin_denom amount

  unfoldable pub sign_burn : Burn → Program Update
  sign_burn doc = do
    coin ← amount_coin (ext.new_int_from_string doc.amount)
    to_address ← lift (address_bytes_from_bech32 ext cfg.pocket.bech32_prefix doc.recipient_address)
    signing ←
        sign doc.sequence doc.signatures doc.return_transaction_body to_address coin
          (bytes "Burn: " ++ doc.transaction_hash)
    ret (set_signed signing)

  unfoldable pub sign_invalid_mint : InvalidMint → Program Update
  sign_invalid_mint doc = do
    coin ← amount_coin (ext.new_int_from_string doc.amount)
    to_address ← lift (address_bytes_from_bech32 ext cfg.pocket.bech32_prefix doc.sender_address)
    signing ←
        sign doc.sequence doc.signatures doc.return_transaction_body to_address coin
          (bytes "InvalidMint: " ++ doc.transaction_hash)
    ret (set_signed signing)

  unfoldable pub decide_burn : Burn → Bool → Program Update
  decide_burn doc valid =
      if not valid
      then (if eqb doc.confirmations (bytes "0") then fail else ret mark_failed)
      else if is_confirmed doc.status
      then sign_burn doc
      else ret (set_status doc.status doc.confirmations)

  unfoldable pub decide_invalid_mint : InvalidMint → Bool → Program Update
  decide_invalid_mint doc valid =
      if not valid
      then (if eqb doc.confirmations (bytes "0") then fail else ret mark_failed)
      else if is_confirmed doc.status
      then sign_invalid_mint doc
      else ret (set_status doc.status doc.confirmations)

  -- The sequences are locked only when one is written.
  abbrev pub locked_if_signed : Update → Program Bool → Program Bool
  locked_if_signed mark_failed write = write
  locked_if_signed (set_status status confirmations) write = write
  locked_if_signed (set_signed signing) write = with_write_lock write

  abbrev pub burn_filter : Burn → Burn → Bool
  burn_filter doc b = eqb b.id doc.id && is_open b.status

  abbrev pub invalid_mint_filter : InvalidMint → InvalidMint → Bool
  invalid_mint_filter doc d = eqb d.id doc.id && is_open d.status

  unfoldable pub write_burn : Burn → Update → Program Bool
  write_burn doc update = locked_if_signed update (do
    updated ← ask (update_burn (burn_filter doc) (update_of_burn update))
    require updated
    ret true)

  unfoldable pub write_invalid_mint : InvalidMint → Update → Program Bool
  write_invalid_mint doc update = locked_if_signed update (do
    updated ← ask (update_invalid_mint (invalid_mint_filter doc) (update_of_invalid_mint update))
    require updated
    ret true)

  unfoldable pub process_burn : Burn → Program Bool
  process_burn burn = do
    doc ← lift (
        update_status_and_confirmations_for_burn cfg.ethereum.confirmations burn x.eth_block_number)
    valid ← validate_burn ext cfg x doc
    update ← decide_burn doc valid
    write_burn doc update

  unfoldable pub process_invalid_mint : InvalidMint → Program Bool
  process_invalid_mint invalid_mint = do
    doc ← lift (
        update_status_and_confirmations_for_invalid_mint cfg.pocket.confirmations invalid_mint
          x.cosmos_height)
    valid ← validate_invalid_mint ext cfg x doc
    update ← decide_invalid_mint doc valid
    write_invalid_mint doc update

  unfoldable pub handle_burn : Option Burn → Program Bool
  handle_burn none = ret false
  handle_burn (some burn) = settle (process_burn burn)

  unfoldable pub handle_invalid_mint : Option InvalidMint → Program Bool
  handle_invalid_mint none = ret false
  handle_invalid_mint (some doc) = settle (process_invalid_mint doc)

  -- The signatures that this validator already gave: `{"$elemMatch": {"signer": addressHex}}`.
  abbrev pub signed_by : Bytes → List Signature → Bool
  signed_by address signatures = any (λ (s : Signature). eqb s.signer address) signatures

  abbrev pub address_text : Bytes
  address_text = or_empty (address_hex_from_bytes (sdk.key_address x.public_key))

  abbrev pub unsigned_invalid_mints : InvalidMint → Bool
  unsigned_invalid_mints d =
      eqb d.vault_address x.vault_address
      && is_open d.status
      && not (signed_by address_text d.signatures)

  abbrev pub unsigned_burns : Burn → Bool
  unsigned_burns b =
      eqb b.wpokt_address x.wpokt_address
      && is_open b.status
      && not (signed_by address_text b.signatures)

  unfoldable pub sync_invalid_mints : Program Bool
  sync_invalid_mints = do
    found ← ask (find_invalid_mints unsigned_invalid_mints)
    sync_found (λ (d : InvalidMint). bytes "invalidMints/" ++ d.id)
        (λ d. handle_invalid_mint (some d)) found

  unfoldable pub sync_burns : Program Bool
  sync_burns = do
    found ← ask (find_burns unsigned_burns)
    sync_found (λ (b : Burn). bytes "burns/" ++ b.id) (λ b. handle_burn (some b)) found

  unfoldable pub sync_txs : Program Bool
  sync_txs = do first ← sync_invalid_mints; second ← sync_burns; ret (second && first)

abbrev set_limit : BurnSignerRunner → Option ℤ → BurnSignerRunner
set_limit x none = x
set_limit x (some n) = record x { maximum_amount = n }

unfoldable pub update_max_mint_limit : BurnSignerRunner → Program BurnSignerRunner
update_max_mint_limit x = do n ← ask max_mint_limit; ret (set_limit x n)

unfoldable pub run_signer :
    External → Sdk → Config → BurnSignerRunner → Program (BurnSignerRunner × Bool)
run_signer ext sdk cfg x = do
  x' ← update_blocks x
  synced ← sync_txs ext sdk cfg x'
  ret (x', synced)
