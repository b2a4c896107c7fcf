-- ===== src/Settings/Secrets.antt =====
-- app/gsm.go: the secrets that Google's secret manager keeps.
use wpokt_validator.Base.{Bool, not, ◌&&◌, Option, if◌then◌else◌, []}
use wpokt_validator.Base.Bytes.{Bytes, eqb}
use wpokt_validator.Models.Config.{Config}
use wpokt_validator.Effect.{Program, ret, ◌>>=◌, ◌>>◌, lift, require}

-- Whether the client can be made, and `AccessSecretVersion`.
pub record SecretManager : Type 0 where
  pub is_connected : Bool
  pub access_secret_version : Bytes → Option Bytes

-- One of the three secrets: the setting as it is, or the secret where one is named; a fatal error
-- where the setting is missing and no secret is named, or the secret cannot be read.
unfoldable pub read_secret : SecretManager → Bool → Bytes → Bytes → Program Bytes
read_secret secrets is_missing secret_name setting = do
  require (not (is_missing && eqb secret_name []))
  if eqb secret_name [] then ret setting else lift (secrets.access_secret_version secret_name)

unfoldable pub read_keys : SecretManager → Config → Program Config
unfolding read_secret
read_keys secrets c = do
  let g = c.google_secret_manager
  require secrets.is_connected
  uri ← read_secret secrets (eqb c.mongo_db.uri []) g.mongo_secret_name c.mongo_db.uri
  key ← read_secret secrets (eqb c.ethereum.private_key []) g.eth_secret_name c.ethereum.private_key
  let no_key = eqb c.pocket.mnemonic [] && eqb c.pocket.gcp_kms_key_name []
  mnemonic ← read_secret secrets no_key g.pokt_secret_name c.pocket.mnemonic
  ret (record c {
    mongo_db = record c.mongo_db { uri = uri };
    ethereum = record c.ethereum { private_key = key };
    pocket = record c.pocket { mnemonic = mnemonic };
  })

unfoldable pub read_keys_from_gsm : SecretManager → Config → Program Config
unfolding read_keys
read_keys_from_gsm secrets c =
    if c.google_secret_manager.enabled then read_keys secrets c else ret c
