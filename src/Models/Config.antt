-- ===== src/Models/Config.antt =====
-- models/config.go: the settings, of the services and of the process.
use wpokt_validator.Base.{ℕ, ℤ, Bool, List}
use wpokt_validator.Base.Bytes.{Bytes}

pub record GoogleSecretManagerConfig : Type 0 where
  pub enabled : Bool
  pub mongo_secret_name : Bytes
  pub pokt_secret_name : Bytes
  pub eth_secret_name : Bytes

pub record HealthCheckConfig : Type 0 where
  pub interval_millis : ℤ
  pub read_last_health : Bool

pub record LoggerConfig : Type 0 where
  pub level : Bytes

pub record MongoConfig : Type 0 where
  pub uri : Bytes
  pub database : Bytes
  pub timeout_millis : ℤ

pub record EthereumConfig : Type 0 where
  pub start_block_number : ℤ
  pub confirmations : ℤ
  pub private_key : Bytes
  pub rpc_url : Bytes
  pub rpc_timeout_millis : ℤ
  pub chain_id : Bytes
  pub wrapped_pocket_address : Bytes
  pub mint_controller_address : Bytes
  pub validator_addresses : List Bytes

pub record CosmosConfig : Type 0 where
  pub start_height : ℤ
  pub confirmations : ℤ
  pub mnemonic : Bytes
  pub gcp_kms_key_name : Bytes
  pub rpc_url : Bytes
  pub grpc_enabled : Bool
  pub grpc_host : Bytes
  pub grpc_port : ℕ
  pub rpc_timeout_millis : ℤ
  pub chain_id : Bytes
  pub tx_fee : ℤ
  pub bech32_prefix : Bytes
  pub coin_denom : Bytes
  pub multisig_address : Bytes
  pub multisig_public_keys : List Bytes
  pub multisig_threshold : ℕ
  pub mint_disabled : Bool

pub record ServiceConfig : Type 0 where
  pub enabled : Bool
  pub interval_millis : ℤ

pub record Config : Type 0 where
  pub google_secret_manager : GoogleSecretManagerConfig
  pub health_check : HealthCheckConfig
  pub logger : LoggerConfig
  pub mongo_db : MongoConfig
  pub ethereum : EthereumConfig
  pub pocket : CosmosConfig
  pub mint_monitor : ServiceConfig
  pub mint_signer : ServiceConfig
  pub mint_executor : ServiceConfig
  pub burn_monitor : ServiceConfig
  pub burn_signer : ServiceConfig
  pub burn_executor : ServiceConfig
