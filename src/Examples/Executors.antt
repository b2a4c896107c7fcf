-- ===== src/Examples/Executors.antt =====
-- The burn executor in the small world.
use wpokt_validator.Base.{
  ℕ, ℤ, pos, ◌≡◌, ◌≢◌, refl, Bool, true, Option, none, some, List, [], ◌∷◌, inr, arith,
}
use wpokt_validator.Base.Bytes.{Bytes, bytes}
use wpokt_validator.Models.{Burn, signed}
use wpokt_validator.Models.Chain.{Account}
use wpokt_validator.External.Sdk.{SignatureV2, single}
use wpokt_validator.Effect.{get_account}
use wpokt_validator.Effect.Run.{run}
use wpokt_validator.Effect.Ensures.{Issues}
use wpokt_validator.Lifecycle.Actors.{IsBurnExecutorRequest}
use wpokt_validator.BurnExecutor
use wpokt_validator.BurnExecutor.Signatures.{BurnExecutorRunner, add_multisignature}
use wpokt_validator.BurnExecutor.Signatures.Threshold.{IsQuorum, add_multisignature-IsQuorum}
use wpokt_validator.BurnExecutor.Lifecycle.{burn_executor-IsBurnExecutorRequest}
use wpokt_validator.Examples.{sdk, cfg, env, burn}

abbrev runner : BurnExecutorRunner
runner = record {
  multisig_address = bytes "pokt1vault0000000000";
  multisig_threshold = 2;
  multisig_keys = (1 ∷ []) ∷ (2 ∷ []) ∷ (3 ∷ []) ∷ [];
  wpokt_address = bytes "0xaa";
  vault_address = bytes "pokt1vault0000000000";
}

abbrev first_signature : SignatureV2
first_signature = record {
  pub_key = some (1 ∷ []);
  signature_data = single (bytes "a");
  sequence = 7;
}

abbrev second_signature : SignatureV2
second_signature = record {
  pub_key = some (3 ∷ []);
  signature_data = single (bytes "b");
  sequence = 7;
}

burn_executor-IsBurnExecutorRequest_example :
    Issues IsBurnExecutorRequest (BurnExecutor.sync_txs sdk cfg runner)
burn_executor-IsBurnExecutorRequest_example = burn_executor-IsBurnExecutorRequest sdk cfg runner

add_multisignature-IsQuorum_example :
    (a : Account) × (sigs : List SignatureV2) × (env (get_account (bytes "pokt1vault0000000000"))
      ≡ some a)
    × IsQuorum env sdk cfg runner a.account_number 7 (first_signature ∷ second_signature ∷ []) sigs
unfolding add_multisignature run wpokt_validator.Effect.◌>>=◌ wpokt_validator.Effect.lift
    wpokt_validator.Effect.require wpokt_validator.Effect.ask
    wpokt_validator.BurnExecutor.Signatures.collect wpokt_validator.BurnExecutor.Signatures.contains
    wpokt_validator.Base.Bytes.eqb wpokt_validator.BurnExecutor.Signatures.validate_signature
    wpokt_validator.BurnExecutor.Signatures.key_of
add_multisignature-IsQuorum_example =
    add_multisignature-IsQuorum env sdk cfg runner 7 (first_signature ∷ second_signature ∷ [])
      (second_signature ∷ first_signature ∷ []) refl

abbrev signed_burn : Burn
signed_burn = record burn {
  status = signed;
  sequence = some 7;
  return_transaction_body = bytes "{}";
}
