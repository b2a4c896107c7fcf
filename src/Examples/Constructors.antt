-- ===== src/Examples/Constructors.antt =====
-- The start of the mint signer in the small world: three validators, of which two sign.
use wpokt_validator.Base.{pos, true, some, ◌∷◌, [], ◌≡◌, refl, ◌≢◌, false, arith}
use wpokt_validator.Base.Bytes.{bytes, eqb, to_lower, equal_fold}
use wpokt_validator.Models.Config.{Config}
use wpokt_validator.MintSigner.Nonce.{MintSignerRunner}
use wpokt_validator.Setup.{Links, Built, serve, new_mint_signer}
use wpokt_validator.Setup.Checks.{IsBuilt}
use wpokt_validator.Setup.Signer.{Agrees, new_mint_signer-Agrees}
use wpokt_validator.Examples.{ext, cfg, validator, env}
use wpokt_validator.Examples.Monitors.{env-IsMatching}
use wpokt_validator.Examples.Node.{accounts, node}

thousand : pos 1000 ≢ pos 0
thousand e = ground arith

abbrev three : Config
three = record cfg {
  ethereum = record cfg.ethereum { validator_addresses = validator ∷ validator ∷ validator ∷ [] };
}

abbrev links : Links
links = record {
  eth_client = true;
  wrapped_pocket = true;
  mint_controller = true;
  mint_controller_abi = true;
  pokt =
      some (record node { status = some (record { height = pos 3; chain_id = bytes "poktroll" }) });
  domain = some (record { chain_id = pos 1; verifying_contract = bytes "0xBB" });
}

abbrev started : MintSignerRunner
started = record {
  address = validator;
  wpokt_address = bytes "0xaa";
  vault_address = bytes "pokt1vault0000000000";
  validator_count = pos 3;
  signer_threshold = pos 2;
  cosmos_height = pos 3;
  minimum_amount = pos 10;
  maximum_amount = pos 9000;
}

abbrev built : Built MintSignerRunner
built = serve (bytes "MINT SIGNER") (pos 1000) started

new_mint_signer-Agrees_example : IsBuilt built × Agrees links three (some started)
unfolding new_mint_signer serve eqb to_lower equal_fold wpokt_validator.Effect.◌>>=◌
    wpokt_validator.Effect.require wpokt_validator.Effect.lift wpokt_validator.Effect.ask
    wpokt_validator.Settings.Signers.get_ethereum_signer wpokt_validator.Client.new_client
    wpokt_validator.Effect.Run.run wpokt_validator.MintSigner.update_blocks
    wpokt_validator.MintSigner.update_validator_count
    wpokt_validator.MintSigner.update_signer_threshold wpokt_validator.Base.int64
    wpokt_validator.Base.Decimal.set_string
new_mint_signer-Agrees_example =
    new_mint_signer-Agrees ext accounts links three env built env-IsMatching (λ on e. thousand e)
      (omega arith, omega arith) refl
