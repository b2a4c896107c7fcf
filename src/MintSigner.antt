-- ===== src/MintSigner.antt =====
-- eth/signer.go: the service that signs mints.
pub mod Signing
pub mod Nonce
pub mod Validation
pub mod Lifecycle
use wpokt_validator.Base.{
  ℕ, ℤ, pos, Bool, true, false, not, ◌&&◌, Option, none, some, List, [], ◌∷◌, ◌++◌, eqb_ℤ, any,
  if◌then◌else◌, int64,
}
use wpokt_validator.Base.Bytes.{Bytes, bytes, eqb, to_lower}
use wpokt_validator.Base.Decimal.{set_string, format_int}
use wpokt_validator.Models.{Status, failed, is_confirmed, is_open, Mint, MintData}
use wpokt_validator.Models.Config.{Config}
use wpokt_validator.External.{External}
use wpokt_validator.Confirmations.{update_status_and_confirmations_for_mint}
use wpokt_validator.Effect.{
  find_mints, update_mint, get_latest_block_height, validator_count, max_mint_limit, Program, ret,
  fail, panic, ◌>>=◌, ◌>>◌, ask, lift, require, settle, signer_threshold,
}
use wpokt_validator.Sync.{sync_found}
use wpokt_validator.MintSigner.Signing.{SigningKey, sign_mint}
use wpokt_validator.MintSigner.Nonce.{MintSignerRunner, find_nonce}
use wpokt_validator.MintSigner.Validation.{validate_mint}

-- The `$set` document, by the branch that builds it; the mint is the one in memory.
pub data Update : Type 0 where
  mark_failed : Update
  set_status : Mint → Update
  set_signed : MintData → Mint → Update

unfoldable pub update_of_mint : Update → Mint → Mint
update_of_mint mark_failed m = record m { status = failed }
update_of_mint (set_status mint) m = record m {
  status = mint.status;
  confirmations = mint.confirmations;
}
update_of_mint (set_signed minted mint) m = record m {
  confirmations = mint.confirmations;
  nonce = minted.nonce;
  status = mint.status;
  mint_data = some minted;
  signers = mint.signers;
  signatures = mint.signatures;
}

module _ (ext : External) (key : SigningKey) (cfg : Config) (x : MintSignerRunner) where
  abbrev pub mint_filter : Mint → Mint → Bool
  mint_filter mint m = eqb m.id mint.id && is_open m.status

  unfoldable pub write_mint : Mint → Update → Program Bool
  write_mint mint update = do
    updated ← ask (update_mint (mint_filter mint) (update_of_mint update))
    require updated
    ret true

  unfoldable pub sign_confirmed : Mint → ℤ → ℤ → Program Update
  sign_confirmed mint amount nonce = do
    signed ←
        sign_mint key x.signer_threshold mint (ext.hex_to_address mint.recipient_address) amount
          nonce
    ret (
        set_signed
          (record {
            recipient = to_lower (ext.address_hex (ext.hex_to_address mint.recipient_address));
            amount = format_int amount;
            nonce = format_int nonce;
          })
          signed)

  unfoldable pub decide : Mint → ℤ → ℤ → Bool → Program Update
  decide mint amount nonce valid =
      if not valid
      then ret mark_failed
      else if is_confirmed mint.status
      then sign_confirmed mint amount nonce
      else ret (set_status mint)

  unfoldable pub process_mint : Mint → Program Bool
  process_mint stored = do
    amount ← lift (set_string stored.amount)
    nonce ← find_nonce ext x stored
    require (not (eqb_ℤ nonce (pos 0)))
    mint ←
        lift
          (update_status_and_confirmations_for_mint cfg.pocket.confirmations stored x.cosmos_height)
    valid ← validate_mint ext cfg x mint
    update ← decide mint amount nonce valid
    write_mint mint update

  unfoldable pub handle_mint : Option Mint → Program Bool
  handle_mint none = ret false
  handle_mint (some mint) = settle (process_mint mint)

  abbrev pub unsigned_mints : Mint → Bool
  unsigned_mints m =
      eqb m.wpokt_address x.wpokt_address
      && eqb m.vault_address x.vault_address
      && is_open m.status
      && not (any (λ (s : Bytes). eqb s x.address) m.signers)

  unfoldable pub sync_txs : Program Bool
  sync_txs = do
    found ← ask (find_mints unsigned_mints)
    sync_found (λ (m : Mint). bytes "mints/" ++ to_lower m.recipient_address)
        (λ m. handle_mint (some m)) found

abbrev set_height : MintSignerRunner → Option ℤ → MintSignerRunner
set_height x none = x
set_height x (some height) = record x { cosmos_height = height }

abbrev pub set_count : MintSignerRunner → Option ℤ → MintSignerRunner
set_count x none = x
set_count x (some n) = record x { validator_count = int64 n }

abbrev set_limit : MintSignerRunner → Option ℤ → MintSignerRunner
set_limit x none = x
set_limit x (some n) = record x { maximum_amount = n }

unfoldable pub update_blocks : MintSignerRunner → Program MintSignerRunner
update_blocks x = do height ← ask get_latest_block_height; ret (set_height x height)

unfoldable pub update_validator_count : MintSignerRunner → Program MintSignerRunner
update_validator_count x = do n ← ask validator_count; ret (set_count x n)

unfoldable pub update_max_mint_limit : MintSignerRunner → Program MintSignerRunner
update_max_mint_limit x = do n ← ask max_mint_limit; ret (set_limit x n)

abbrev pub set_threshold : MintSignerRunner → Option ℤ → MintSignerRunner
set_threshold x none = x
set_threshold x (some n) = record x { signer_threshold = int64 n }

unfoldable pub update_signer_threshold : MintSignerRunner → Program MintSignerRunner
update_signer_threshold x = do n ← ask signer_threshold; ret (set_threshold x n)

unfoldable pub run_signer :
    External → SigningKey → Config → MintSignerRunner → Program (MintSignerRunner × Bool)
run_signer ext key cfg x = do
  x₁ ← update_blocks x
  x₂ ← update_validator_count x₁
  x₃ ← update_max_mint_limit x₂
  synced ← sync_txs ext key cfg x₃
  ret (x₃, synced)
