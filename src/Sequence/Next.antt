-- ===== src/Sequence/Next.antt =====
-- FindMaxSequence of cosmos/signer.go and findMaxSequenceFromBurns of cosmos/sequence.go: the
-- number chosen.
use wpokt_validator.Base.{ℕ, ◌+◌, ◌<◌, ◌≤◌, ◌^◌, ◌≡◌, Option, none, some, arith, sym}
use wpokt_validator.Base.Bytes.{Bytes}
use wpokt_validator.Models.Config.{Config}
use wpokt_validator.Models.Chain.{Account}
use wpokt_validator.Effect.{
  MaxAnswer, max_sequence, no_documents, not_aggregated, max_burn_sequence,
  max_invalid_mint_sequence, get_account,
}
use wpokt_validator.Effect.Run.{
  Environment, returned, run, runs, run-ret, run-bind-returned, returned-inj,
}
use wpokt_validator.Sequence.{
  sequence_answer, larger, next_sequence, find_max_sequence, find_max_sequence_from_burns,
  find_max_sequence_from_invalid_mints, read_sequence, burn_sequence_filter,
  invalid_mint_sequence_filter,
}

-- What an aggregation answered.
abbrev answered : MaxAnswer → Option ℕ
answered (max_sequence n) = some n
answered no_documents = none
answered not_aggregated = none

-- The number is below the bound, if there is one.
abbrev pub IsBelow : ℕ → MaxAnswer → Type 0
IsBelow bound (max_sequence n) = n < bound
IsBelow bound no_documents = Unit
IsBelow bound not_aggregated = Unit

-- A sequence that is no uint64's last.
abbrev pub HasNext : MaxAnswer → Type 0
HasNext (max_sequence n) = n + 1 < 2 ^ 64
HasNext no_documents = Unit
HasNext not_aggregated = Unit

module _ (cfg : Config) where
  next_sequence-bounds :
      (i b : MaxAnswer) (account : Account)
      → HasNext i
      → HasNext b
      → (account.sequence ≤ next_sequence cfg (larger cfg (answered i) (answered b)) account)
        × IsBelow (next_sequence cfg (larger cfg (answered i) (answered b)) account) i
        × IsBelow (next_sequence cfg (larger cfg (answered i) (answered b)) account) b
  unfolding next_sequence larger
  next_sequence-bounds (max_sequence i) (max_sequence b) account hi hb =
      (ground arith, ground arith, ground arith)
  next_sequence-bounds (max_sequence i) no_documents account hi hb =
      (ground arith, ground arith, tt)
  next_sequence-bounds (max_sequence i) not_aggregated account hi hb =
      (ground arith, ground arith, tt)
  next_sequence-bounds no_documents (max_sequence b) account hi hb =
      (ground arith, tt, ground arith)
  next_sequence-bounds no_documents no_documents account hi hb = (ground arith, tt, tt)
  next_sequence-bounds no_documents not_aggregated account hi hb = (ground arith, tt, tt)
  next_sequence-bounds not_aggregated (max_sequence b) account hi hb =
      (ground arith, tt, ground arith)
  next_sequence-bounds not_aggregated no_documents account hi hb = (ground arith, tt, tt)
  next_sequence-bounds not_aggregated not_aggregated account hi hb = (ground arith, tt, tt)

  module _ (env : Environment) where
    sequence_answer-run :
        (a : MaxAnswer) (o : Option ℕ) → run env (sequence_answer a) ≡ returned o → o ≡ answered a
    unfolding sequence_answer run
    sequence_answer-run (max_sequence n) o h = ground arith
    sequence_answer-run no_documents o h = ground arith
    sequence_answer-run not_aggregated o h = ground arith

    from_burns-run :
        (o : Option ℕ)
        → run env (find_max_sequence_from_burns cfg) ≡ returned o
        → o ≡ answered (env (max_burn_sequence (burn_sequence_filter cfg)))
    unfolding find_max_sequence_from_burns
    from_burns-run o h = sequence_answer-run _ o (simp runs at h)

    from_invalid_mints-run :
        (o : Option ℕ)
        → run env (find_max_sequence_from_invalid_mints cfg) ≡ returned o
        → o ≡ answered (env (max_invalid_mint_sequence (invalid_mint_sequence_filter cfg)))
    unfolding find_max_sequence_from_invalid_mints
    from_invalid_mints-run o h = sequence_answer-run _ o (simp runs at h)

    find_max_sequence-run :
        (o : Option ℕ)
        → run env (find_max_sequence cfg) ≡ returned o
        → o
          ≡ larger cfg
              (answered (env (max_invalid_mint_sequence (invalid_mint_sequence_filter cfg))))
              (answered (env (max_burn_sequence (burn_sequence_filter cfg))))
    unfolding find_max_sequence
    find_max_sequence-run o h =
        let (i, ei, ki) = run-bind-returned env _ _ h in
        let (b, eb, kb) = run-bind-returned env _ _ ki in
        let e : larger cfg i b ≡ o = returned-inj (rw run-ret at kb) in
        rw (from_invalid_mints-run i ei, from_burns-run b eb) at (sym e)

    -- A sequence that is found is not below the account's, and above the largest that the database
    -- answers for the invalid mints and for the burns, if those are not the last of a uint64.
    pub read_sequence-IsFresh :
        (address : Bytes) (account : Account) (n : ℕ)
        → env (get_account address) ≡ some account
        → HasNext (env (max_invalid_mint_sequence (invalid_mint_sequence_filter cfg)))
        → HasNext (env (max_burn_sequence (burn_sequence_filter cfg)))
        → run env (read_sequence cfg address) ≡ returned n
        → (account.sequence ≤ n)
          × IsBelow n (env (max_invalid_mint_sequence (invalid_mint_sequence_filter cfg)))
          × IsBelow n (env (max_burn_sequence (burn_sequence_filter cfg)))
    unfolding read_sequence
    read_sequence-IsFresh address account n ha hi hb h =
        let (o, eo, k) = run-bind-returned env _ _ h in
        let e : next_sequence cfg o account ≡ n = returned-inj (simp (runs, ha) at k) in
        let f = find_max_sequence-run o eo in rw (← e, f) (next_sequence-bounds _ _ account hi hb)
