-- ===== src/Sequence/Reads.antt =====
-- The requests of FindMaxSequence of cosmos/signer.go.
use wpokt_validator.Base.Bytes.{Bytes}
use wpokt_validator.Models.Config.{Config}
use wpokt_validator.Effect.{
  Request, MaxAnswer, max_sequence, no_documents, not_aggregated, max_burn_sequence,
  max_invalid_mint_sequence, s_lock, x_lock, unlock, get_account, Program,
}
use wpokt_validator.Effect.Ensures.{Issues}
use wpokt_validator.Lifecycle.Rules.{rules}
use wpokt_validator.Sequence.{
  sequence_answer, find_max_sequence, find_max_sequence_from_burns,
  find_max_sequence_from_invalid_mints, read_sequence, find_sequence, sequence_resource_id,
  burn_sequence_filter, invalid_mint_sequence_filter, with_write_lock,
}

module _ {P : Request → Type 0} where
  sequence_answer-Issues : (a : MaxAnswer) → Issues P (sequence_answer a)
  unfolding sequence_answer
  sequence_answer-Issues (max_sequence n) = search rules
  sequence_answer-Issues no_documents = search rules
  sequence_answer-Issues not_aggregated = search rules

  pub with_write_lock-Issues :
      P (x_lock sequence_resource_id)
      → ((l : Bytes) → P (unlock l))
      → (m : Program _) → Issues P m
      → Issues P (with_write_lock m)
  unfolding with_write_lock
  with_write_lock-Issues p q m h = search rules depth 8

  module _ (cfg : Config) (account : (address : Bytes) → P (get_account address))
      (burns : P (max_burn_sequence (burn_sequence_filter cfg)))
      (invalid_mints : P (max_invalid_mint_sequence (invalid_mint_sequence_filter cfg)))
      (locked : P (s_lock sequence_resource_id)) (unlocked : (l : Bytes) → P (unlock l)) where
    from_burns-Issues : Issues P (find_max_sequence_from_burns cfg)
    unfolding find_max_sequence_from_burns
    from_burns-Issues = search (rules, sequence_answer-Issues)

    from_invalid_mints-Issues : Issues P (find_max_sequence_from_invalid_mints cfg)
    unfolding find_max_sequence_from_invalid_mints
    from_invalid_mints-Issues = search (rules, sequence_answer-Issues)

    find_max_sequence-Issues : Issues P (find_max_sequence cfg)
    unfolding find_max_sequence
    find_max_sequence-Issues = search (rules, from_burns-Issues, from_invalid_mints-Issues) depth 7

    read_sequence-Issues : (address : Bytes) → Issues P (read_sequence cfg address)
    unfolding read_sequence
    read_sequence-Issues address = search (rules, find_max_sequence-Issues) depth 8

    pub find_sequence-Issues : (address : Bytes) → Issues P (find_sequence cfg address)
    unfolding find_sequence
    find_sequence-Issues address = search (rules, read_sequence-Issues) depth 8
