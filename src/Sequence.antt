-- ===== src/Sequence.antt =====
-- cosmos/sequence.go, and `FindMaxSequence` of cosmos/signer.go: the account sequence of the next
-- transaction from the vault.
pub mod Next
pub mod Reads
use wpokt_validator.Base.{
  ℕ, ◌+◌, ◌%◌, ◌^◌, Bool, true, false, ◌&&◌, Option, none, some, ltb, if◌then◌else◌,
}
use wpokt_validator.Base.Bytes.{Bytes, bytes, eqb}
use wpokt_validator.Models.{Burn, InvalidMint}
use wpokt_validator.Models.Config.{Config}
use wpokt_validator.Models.Chain.{Account}
use wpokt_validator.Effect.{
  MaxAnswer, max_sequence, no_documents, not_aggregated, max_burn_sequence,
  max_invalid_mint_sequence, s_lock, x_lock, unlock, get_account, Program, ret, fail, ◌>>=◌, ask,
  lift, defer,
}

abbrev pub sequence_resource_id : Bytes
sequence_resource_id = bytes "comsos_sequence"

-- `{"sequence": {"$ne": nil}}`
abbrev pub is_set : Option ℕ → Bool
is_set none = false
is_set (some n) = true

-- `{field: value}`: a document without the field does not match a text.
abbrev pub field_is : Bytes → Option Bytes → Bool
field_is value none = false
field_is value (some v) = eqb v value

-- The `vault_address` of a document: burn.go has no such field.
abbrev pub burn_vault_address : Burn → Option Bytes
burn_vault_address b = none

abbrev pub invalid_mint_vault_address : InvalidMint → Option Bytes
invalid_mint_vault_address d = some d.vault_address

unfoldable pub sequence_answer : MaxAnswer → Program (Option ℕ)
sequence_answer (max_sequence n) = ret (some n)
sequence_answer no_documents = ret none
sequence_answer not_aggregated = fail

module _ (cfg : Config) where
  unfoldable pub invalid_mint_sequence_filter : InvalidMint → Bool
  invalid_mint_sequence_filter d =
      is_set d.sequence && field_is cfg.pocket.multisig_address (invalid_mint_vault_address d)

  unfoldable pub find_max_sequence_from_invalid_mints : Program (Option ℕ)
  find_max_sequence_from_invalid_mints = do
    answer ← ask (max_invalid_mint_sequence invalid_mint_sequence_filter)
    sequence_answer answer

  unfoldable pub burn_sequence_filter : Burn → Bool
  burn_sequence_filter b =
      is_set b.sequence && field_is cfg.pocket.multisig_address (burn_vault_address b)

  unfoldable pub find_max_sequence_from_burns : Program (Option ℕ)
  find_max_sequence_from_burns = do
    answer ← ask (max_burn_sequence burn_sequence_filter)
    sequence_answer answer

  unfoldable pub larger : Option ℕ → Option ℕ → Option ℕ
  larger none burns = burns
  larger (some i) none = some i
  larger (some i) (some b) = if ltb b i then some i else some b

  unfoldable pub find_max_sequence : Program (Option ℕ)
  find_max_sequence = do
    invalid_mints ← find_max_sequence_from_invalid_mints
    burns ← find_max_sequence_from_burns
    ret (larger invalid_mints burns)

  -- `*maxSequence + 1` is a uint64.
  unfoldable pub next_sequence : Option ℕ → Account → ℕ
  next_sequence none account = account.sequence
  next_sequence (some n) account =
      let next = (n + 1) % 2 ^ 64 in if ltb account.sequence next then next else account.sequence

  unfoldable pub read_sequence : Bytes → Program ℕ
  read_sequence multisig_address = do
    found ← find_max_sequence
    answer ← ask (get_account multisig_address)
    account ← lift answer
    ret (next_sequence found account)

  -- `BurnSignerRunner.FindMaxSequence`
  unfoldable pub find_sequence : Bytes → Program ℕ
  find_sequence multisig_address = do
    lock ← ask (s_lock sequence_resource_id)
    lock_id ← lift lock
    defer (unlock lock_id) (read_sequence multisig_address)

-- A write under the exclusive lock of the sequences, which is released when the write returns.
unfoldable pub with_write_lock : Program Bool → Program Bool
with_write_lock write = do
  lock ← ask (x_lock sequence_resource_id)
  lock_id ← lift lock
  defer (unlock lock_id) write
