-- ===== src/Settings.antt =====
-- app/config.go: the settings of the process, from the file, the environment and the secrets, and
-- their validation. `log.Fatal` ends the process: it is the failure of the program.
pub mod Env
pub mod Secrets
pub mod Signers
pub mod Valid
use wpokt_validator.Base.{
  ℕ, ℤ, pos, Bool, true, false, not, ◌&&◌, ◌||◌, Option, none, some, List, [], ◌∷◌, length, leb,
  ◌==◌, eqb_ℤ, if◌then◌else◌,
}
use wpokt_validator.Base.Bytes.{Bytes, eqb, equal_fold, trim_0x}
use wpokt_validator.Models.Config.{
  Config, EthereumConfig, CosmosConfig, MongoConfig, ServiceConfig, HealthCheckConfig,
}
use wpokt_validator.Common.{is_valid_ethereum_address, is_valid_bech32_address}
use wpokt_validator.External.{External}
use wpokt_validator.Effect.{Program, ret, fail, panic, ◌>>=◌, ◌>>◌, lift, require}
use wpokt_validator.Settings.Env.{read_config_from_env}
use wpokt_validator.Settings.Secrets.{SecretManager, read_keys_from_gsm}
use wpokt_validator.Settings.Signers.{Accounts, get_ethereum_signer, get_pocket_signer_and_multisig}

-- `if value == "" { log.Fatal(…) }`, and for numbers
unfoldable pub need : Bytes → Program (Unit {0})
need s = require (not (eqb s []))

unfoldable pub need_int : ℤ → Program (Unit {0})
need_int z = require (not (eqb_ℤ z (pos 0)))

unfoldable pub validate_mongo : MongoConfig → Program (Unit {0})
unfolding need need_int
validate_mongo c = do need c.uri; need c.database; need_int c.timeout_millis

-- The loop over the validators' addresses: each is valid, and whether one is the signer's.
unfoldable pub find_validator : Bytes → List Bytes → Bool → Program Bool
find_validator address [] found = ret found
find_validator address (v ∷ validators) found = do
  require (is_valid_ethereum_address v)
  find_validator address validators (if equal_fold v address then true else found)

-- The private key is left without its prefix.
unfoldable pub validate_ethereum : Accounts → EthereumConfig → Program EthereumConfig
unfolding need need_int find_validator
validate_ethereum accounts c = do
  need c.rpc_url
  need c.chain_id
  need_int c.rpc_timeout_millis
  need c.private_key
  let trimmed = record c { private_key = trim_0x c.private_key }
  need c.wrapped_pocket_address
  need c.mint_controller_address
  require (not (length c.validator_addresses == 0))
  address ← get_ethereum_signer accounts trimmed
  found ← find_validator address c.validator_addresses false
  require found
  ret trimmed

unfoldable pub validate_endpoint : CosmosConfig → Program (Unit {0})
unfolding need
validate_endpoint c =
    if c.grpc_enabled
    then (do need c.grpc_host; require (not (c.grpc_port == 0)))
    else need c.rpc_url

unfoldable pub validate_pocket : External → Accounts → CosmosConfig → Program (Unit {0})
unfolding need need_int validate_endpoint
validate_pocket ext accounts c = do
  validate_endpoint c
  need_int c.rpc_timeout_millis
  need c.chain_id
  need c.bech32_prefix
  need c.coin_denom
  require (is_valid_bech32_address ext c.bech32_prefix c.multisig_address)
  require (leb 2 (length c.multisig_public_keys))
  require (not (eqb c.mnemonic [] && eqb c.gcp_kms_key_name []))
  signer ← get_pocket_signer_and_multisig ext accounts c
  ret tt

unfoldable pub validate_service : ServiceConfig → Program (Unit {0})
validate_service c = require (not (c.enabled && eqb_ℤ c.interval_millis (pos 0)))

unfoldable pub validate_services : Config → Program (Unit {0})
unfolding validate_service
validate_services c = do
  validate_service c.mint_monitor
  validate_service c.mint_signer
  validate_service c.mint_executor
  validate_service c.burn_monitor
  validate_service c.burn_signer
  validate_service c.burn_executor

unfoldable pub validate_config : External → Accounts → Config → Program Config
unfolding validate_mongo validate_ethereum validate_pocket validate_services need_int
validate_config ext accounts c = do
  validate_mongo c.mongo_db
  ethereum ← validate_ethereum accounts c.ethereum
  validate_pocket ext accounts c.pocket
  validate_services c
  need_int c.health_check.interval_millis
  ret (record c { ethereum = ethereum })

-- The bytes of the file, and `yaml.Unmarshal` of them into the settings: no file is named, or it
-- is read or not.
unfoldable pub read_config_from_config_file :
    (Bytes → Option Bytes) → (Bytes → Config → Option Config) → Bytes → Config → Program Config
read_config_from_config_file read_file unmarshal [] c = ret c
read_config_from_config_file read_file unmarshal (p ∷ path) c = do
  yaml ← lift (read_file (p ∷ path))
  lift (unmarshal yaml c)

-- `InitConfig`, in an environment that has the variables of the env file.
unfoldable pub init_config :
    External
    → Accounts
    → SecretManager
    → (Bytes → Option Bytes)
    → (Bytes → Config → Option Config)
    → (Bytes → Bytes)
    → Bytes
    → Config
    → Program Config
unfolding read_config_from_config_file validate_config
init_config ext accounts secrets read_file unmarshal getenv config_file c = do
  from_file ← read_config_from_config_file read_file unmarshal config_file c
  let from_env = read_config_from_env getenv from_file
  with_keys ← read_keys_from_gsm secrets from_env
  validate_config ext accounts with_keys
