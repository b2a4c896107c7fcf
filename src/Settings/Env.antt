-- ===== src/Settings/Env.antt =====
-- app/env.go: the environment's variables over the settings.
use wpokt_validator.Base.{
  ℕ, ◌^◌, Bool, true, false, Option, none, some, List, [], ◌∷◌, ltb, ◌==◌, if◌then◌else◌,
}
use wpokt_validator.Base.Bytes.{Bytes, bytes, eqb}
use wpokt_validator.Base.Decimal.{parse_int, scan_all}
use wpokt_validator.Models.Config.{
  Config, EthereumConfig, CosmosConfig, MongoConfig, ServiceConfig, HealthCheckConfig, LoggerConfig,
  GoogleSecretManagerConfig,
}

-- `strconv.ParseUint(s, 10, 64)`
unfoldable pub in_uint64 : Option ℕ → Option ℕ
in_uint64 none = none
in_uint64 (some n) = if ltb n (2 ^ 64) then some n else none

unfoldable pub parse_uint : Bytes → Option ℕ
unfolding in_uint64
parse_uint s = in_uint64 (scan_all s)

unfoldable pub is_one_of : Bytes → List Bytes → Bool
is_one_of s [] = false
is_one_of s (t ∷ ts) = if eqb s t then true else is_one_of s ts

-- `strconv.ParseBool`
unfoldable pub parse_bool : Bytes → Option Bool
unfolding is_one_of
parse_bool s =
    if is_one_of s
      (bytes "1" ∷ bytes "t" ∷ bytes "T" ∷ bytes "true" ∷ bytes "TRUE" ∷ bytes "True" ∷ [])
    then some true
    else if is_one_of s
        (bytes "0" ∷ bytes "f" ∷ bytes "F" ∷ bytes "false" ∷ bytes "FALSE" ∷ bytes "False" ∷ [])
    then some false
    else none

-- `strings.Split(s, ",")`: the pieces, of which there is at least one.
unfoldable pub add_to_head : ℕ → List Bytes → List Bytes
add_to_head c [] = (c ∷ []) ∷ []
add_to_head c (p ∷ pieces) = (c ∷ p) ∷ pieces

unfoldable pub split : Bytes → List Bytes
unfolding add_to_head
split [] = [] ∷ []
split (c ∷ s) = let rest = split s in if c == b',' then [] ∷ rest else add_to_head c rest

-- A setting, of the variable's value: an empty value, or one that does not parse, leaves it.
unfoldable pub text_or : Bytes → Bytes → Bytes
text_or value setting = if eqb value [] then setting else value

unfoldable pub parsed_or {ℓ} : {A : Type ℓ} → (Bytes → Option A) → Bytes → A → A
parsed_or parse value setting =
    if eqb value [] then setting else elim (parse value) [ none ↦ setting | some a ↦ a ]

unfoldable pub split_or : Bytes → List Bytes → List Bytes
unfolding split
split_or value setting = if eqb value [] then setting else split value

module _ (getenv : Bytes → Bytes) where
  unfoldable pub mongo_db_from_env : MongoConfig → MongoConfig
  unfolding text_or parsed_or split_or parse_uint parse_bool
  mongo_db_from_env c = record c {
    uri = text_or (getenv (bytes "MONGODB_URI")) c.uri;
    database = text_or (getenv (bytes "MONGODB_DATABASE")) c.database;
    timeout_millis = parsed_or parse_int (getenv (bytes "MONGODB_TIMEOUT_MS")) c.timeout_millis;
  }

  unfoldable pub ethereum_from_env : EthereumConfig → EthereumConfig
  unfolding text_or parsed_or split_or parse_uint parse_bool
  ethereum_from_env c = record c {
    rpc_url = text_or (getenv (bytes "ETH_RPC_URL")) c.rpc_url;
    chain_id = text_or (getenv (bytes "ETH_CHAIN_ID")) c.chain_id;
    private_key = text_or (getenv (bytes "ETH_PRIVATE_KEY")) c.private_key;
    start_block_number =
        parsed_or parse_int (getenv (bytes "ETH_START_BLOCK_NUMBER")) c.start_block_number;
    confirmations = parsed_or parse_int (getenv (bytes "ETH_CONFIRMATIONS")) c.confirmations;
    rpc_timeout_millis =
        parsed_or parse_int (getenv (bytes "ETH_RPC_TIMEOUT_MS")) c.rpc_timeout_millis;
    wrapped_pocket_address =
        text_or (getenv (bytes "ETH_WRAPPED_POCKET_ADDRESS")) c.wrapped_pocket_address;
    mint_controller_address =
        text_or (getenv (bytes "ETH_MINT_CONTROLLER_ADDRESS")) c.mint_controller_address;
    validator_addresses = split_or (getenv (bytes "ETH_VALIDATOR_ADDRESSES")) c.validator_addresses;
  }

  unfoldable pub pocket_from_env : CosmosConfig → CosmosConfig
  unfolding text_or parsed_or split_or parse_uint parse_bool
  pocket_from_env c = record c {
    rpc_url = text_or (getenv (bytes "POKT_RPC_URL")) c.rpc_url;
    grpc_enabled = parsed_or parse_bool (getenv (bytes "POKT_GRPC_ENABLED")) c.grpc_enabled;
    grpc_host = text_or (getenv (bytes "POKT_GRPC_HOST")) c.grpc_host;
    grpc_port = parsed_or parse_uint (getenv (bytes "POKT_GRPC_PORT")) c.grpc_port;
    chain_id = text_or (getenv (bytes "POKT_CHAIN_ID")) c.chain_id;
    mnemonic = text_or (getenv (bytes "POKT_MNEMONIC")) c.mnemonic;
    gcp_kms_key_name = text_or (getenv (bytes "POKT_GCP_KMS_KEY_NAME")) c.gcp_kms_key_name;
    start_height = parsed_or parse_int (getenv (bytes "POKT_START_HEIGHT")) c.start_height;
    confirmations = parsed_or parse_int (getenv (bytes "POKT_CONFIRMATIONS")) c.confirmations;
    rpc_timeout_millis =
        parsed_or parse_int (getenv (bytes "POKT_RPC_TIMEOUT_MS")) c.rpc_timeout_millis;
    tx_fee = parsed_or parse_int (getenv (bytes "POKT_TX_FEE")) c.tx_fee;
    coin_denom = text_or (getenv (bytes "POKT_COIN_DENOM")) c.coin_denom;
    bech32_prefix = text_or (getenv (bytes "POKT_BECH32_PREFIX")) c.bech32_prefix;
    multisig_address = text_or (getenv (bytes "POKT_MULTISIG_ADDRESS")) c.multisig_address;
    multisig_threshold =
        parsed_or parse_uint (getenv (bytes "POKT_MULTISIG_THRESHOLD")) c.multisig_threshold;
    mint_disabled = parsed_or parse_bool (getenv (bytes "POKT_MINT_DISABLED")) c.mint_disabled;
    multisig_public_keys =
        split_or (getenv (bytes "POKT_MULTISIG_PUBLIC_KEYS")) c.multisig_public_keys;
  }

  unfoldable pub health_check_from_env : HealthCheckConfig → HealthCheckConfig
  unfolding text_or parsed_or split_or parse_uint parse_bool
  health_check_from_env c = record c {
    interval_millis =
        parsed_or parse_int (getenv (bytes "HEALTH_CHECK_INTERVAL_MS")) c.interval_millis;
    read_last_health =
        parsed_or parse_bool (getenv (bytes "HEALTH_CHECK_READ_LAST_HEALTH")) c.read_last_health;
  }

  unfoldable pub logger_from_env : LoggerConfig → LoggerConfig
  unfolding text_or parsed_or split_or parse_uint parse_bool
  logger_from_env c = record c { level = text_or (getenv (bytes "LOG_LEVEL")) c.level }

  unfoldable pub google_secret_manager_from_env :
      GoogleSecretManagerConfig → GoogleSecretManagerConfig
  unfolding text_or parsed_or split_or parse_uint parse_bool
  google_secret_manager_from_env c = record c {
    enabled = parsed_or parse_bool (getenv (bytes "GOOGLE_SECRET_MANAGER_ENABLED")) c.enabled;
    mongo_secret_name = text_or (getenv (bytes "GOOGLE_MONGO_SECRET_NAME")) c.mongo_secret_name;
    pokt_secret_name = text_or (getenv (bytes "GOOGLE_POKT_SECRET_NAME")) c.pokt_secret_name;
    eth_secret_name = text_or (getenv (bytes "GOOGLE_ETH_SECRET_NAME")) c.eth_secret_name;
  }

  -- The two variables of a service, by their names.
  unfoldable pub service_from_env : Bytes → Bytes → ServiceConfig → ServiceConfig
  unfolding parsed_or parse_bool
  service_from_env enabled interval c = record c {
    enabled = parsed_or parse_bool (getenv enabled) c.enabled;
    interval_millis = parsed_or parse_int (getenv interval) c.interval_millis;
  }

  unfoldable pub read_config_from_env : Config → Config
  unfolding service_from_env mongo_db_from_env ethereum_from_env pocket_from_env
      health_check_from_env logger_from_env google_secret_manager_from_env
  read_config_from_env c = record c {
    mongo_db = mongo_db_from_env c.mongo_db;
    ethereum = ethereum_from_env c.ethereum;
    pocket = pocket_from_env c.pocket;
    health_check = health_check_from_env c.health_check;
    logger = logger_from_env c.logger;
    google_secret_manager = google_secret_manager_from_env c.google_secret_manager;
    mint_monitor =
        service_from_env (bytes "MINT_MONITOR_ENABLED") (bytes "MINT_MONITOR_INTERVAL_MS")
          c.mint_monitor;
    mint_signer =
        service_from_env (bytes "MINT_SIGNER_ENABLED") (bytes "MINT_SIGNER_INTERVAL_MS")
          c.mint_signer;
    mint_executor =
        service_from_env (bytes "MINT_EXECUTOR_ENABLED") (bytes "MINT_EXECUTOR_INTERVAL_MS")
          c.mint_executor;
    burn_monitor =
        service_from_env (bytes "BURN_MONITOR_ENABLED") (bytes "BURN_MONITOR_INTERVAL_MS")
          c.burn_monitor;
    burn_signer =
        service_from_env (bytes "BURN_SIGNER_ENABLED") (bytes "BURN_SIGNER_INTERVAL_MS")
          c.burn_signer;
    burn_executor =
        service_from_env (bytes "BURN_EXECUTOR_ENABLED") (bytes "BURN_EXECUTOR_INTERVAL_MS")
          c.burn_executor;
  }
