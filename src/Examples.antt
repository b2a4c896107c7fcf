-- ===== src/Examples.antt =====
-- A small world for the examples: a configuration, the packages' functions, and the answers of the
-- database and the chains.
mod Monitors
mod Process
mod Node
mod Constructors
mod Start
mod Signers
mod Executors
mod Texts
use wpokt_validator.Base.{ℕ, ℤ, pos, Bool, true, false, Option, none, some, List, [], ◌∷◌}
use wpokt_validator.Base.Bytes.{Bytes, bytes}
use wpokt_validator.Base.Decimal.{set_string}
use wpokt_validator.Models.{Burn, Mint, InvalidMint, pending, confirmed, signed}
use wpokt_validator.Models.Config.{Config, ServiceConfig}
use wpokt_validator.Models.Chain.{
  TxResponse, Account, Log, BurnEvent, MintedEvent, Iterator, done, item,
}
use wpokt_validator.External.{External}
use wpokt_validator.External.Sdk.{Sdk, SignatureV2}
use wpokt_validator.Effect.{
  Request, inserted, max_sequence, MaxAnswer, insert_burn, insert_mint, insert_invalid_mint,
  find_mint, find_invalid_mint, find_burns, find_mints, find_invalid_mints, update_burn,
  update_mint, update_invalid_mint, max_burn_sequence, max_invalid_mint_sequence, x_lock, s_lock,
  unlock, get_latest_block_height, get_tx, get_account, get_txs_sent_to_address_after_height,
  broadcast_tx, get_block_number, get_transaction_receipt, filter_burn_and_bridge, filter_minted,
  get_user_nonce, validator_count, signer_threshold, max_mint_limit,
}
use wpokt_validator.Effect.Run.{Environment}

abbrev pub payee : Bytes
payee = bytes "0x1111111111111111111111111111111111111111"

abbrev pub validator : Bytes
validator = bytes "0x1111111111111111111111111111111111111111"

abbrev every_second : ServiceConfig
every_second = record { enabled = true; interval_millis = pos 1000 }

abbrev pub cfg : Config
cfg = record {
  ethereum = record {
    start_block_number = pos 0;
    confirmations = pos 2;
    private_key = bytes "0x11";
    rpc_url = bytes "http://eth";
    rpc_timeout_millis = pos 1000;
    chain_id = bytes "1";
    wrapped_pocket_address = bytes "0xaa";
    mint_controller_address = bytes "0xbb";
    validator_addresses = validator ∷ [];
  };
  pocket = record {
    start_height = pos 0;
    confirmations = pos 2;
    mnemonic = bytes "test junk";
    gcp_kms_key_name = [];
    rpc_url = bytes "http://pokt";
    grpc_enabled = false;
    grpc_host = [];
    grpc_port = 0;
    rpc_timeout_millis = pos 1000;
    chain_id = bytes "poktroll";
    tx_fee = pos 10;
    bech32_prefix = bytes "pokt";
    coin_denom = bytes "upokt";
    multisig_address = bytes "pokt1vault0000000000";
    multisig_public_keys = (1 ∷ []) ∷ (2 ∷ []) ∷ [];
    multisig_threshold = 2;
    mint_disabled = false;
  };
  google_secret_manager = record {
    enabled = false;
    mongo_secret_name = [];
    pokt_secret_name = [];
    eth_secret_name = [];
  };
  health_check = record { interval_millis = pos 1000; read_last_health = true };
  logger = record { level = [] };
  mongo_db = record { uri = bytes "mongodb"; database = bytes "wpokt"; timeout_millis = pos 1000 };
  mint_monitor = every_second;
  mint_signer = every_second;
  mint_executor = every_second;
  burn_monitor = every_second;
  burn_signer = every_second;
  burn_executor = record { enabled = false; interval_millis = pos 0 };
}

abbrev pub burn_event : BurnEvent
burn_event = record {
  amount = pos 5000;
  from_address = bytes "0xcc";
  pokt_address = bytes "pokt1recipient000000";
  raw = record {
    removed = false;
    block_number = 2;
    tx_hash = bytes "0xdd";
    index = 4;
    address = bytes "0xaa";
  };
}

abbrev pub minted_event : MintedEvent
minted_event = record {
  recipient = payee;
  amount = pos 5000;
  nonce = pos 1;
  raw = record {
    removed = false;
    block_number = 2;
    tx_hash = bytes "0xee";
    index = 0;
    address = bytes "0xaa";
  };
}

abbrev pub ext : External
ext = record {
  parse_coin = λ s. some (record { denom = bytes "upokt"; amount = pos 5000 });
  new_int_from_string = set_string;
  is_valid_denom = λ d. true;
  nil_amount = bytes "<nil>";
  unmarshal_tx = λ v. some (record { body_memo = some v });
  unmarshal_memo = λ s. some (record { address = payee; chain_id = bytes "1" });
  parse_uint64 = λ s. some 1;
  bech32_to_bytes = λ p s. some s;
  bech32_encode = λ p s. some s;
  hex_to_address = λ s. s;
  address_hex = λ s. s;
  hash_hex = λ s. s;
  parse_burn_and_bridge = λ l. some burn_event;
}

-- A builder is the list of its signatures.
abbrev pub sdk : Sdk
sdk = record {
  TxBuilder = List SignatureV2;
  encode_send = λ p m. some (bytes "{}");
  wrap_tx_builder = λ p b. some [];
  get_signers = λ b. some (bytes "pokt1vault0000000000" ∷ []);
  get_signatures = λ b. some b;
  set_signatures = λ s b. some s;
  set_multisig = λ s n b. some s;
  tx_json = λ b. some (bytes "{}");
  tx_bytes = λ b. some (bytes "tx");
  get_sign_bytes = λ d b. some (bytes "msg");
  cosmos_sign = λ m. some (bytes "sig");
  verify_signature = λ s d b. some tt;
  add_signature = λ s m. some (s ∷ m);
  key_address = λ k. k;
}

-- A transaction that pays the vault.
abbrev pub payment : TxResponse
payment = record {
  tx_hash = bytes "0xff";
  height = pos 2;
  code = 0;
  events =
      record {
        kind = bytes "transfer";
        attributes =
            record { key = bytes "sender"; value = bytes "pokt1sender" }
            ∷ record { key = bytes "recipient"; value = bytes "pokt1vault0000000000" }
            ∷ record { key = bytes "amount"; value = bytes "5000upokt" }
            ∷ [];
      }
      ∷ [];
  tx_value = bytes "memo";
}

abbrev pub mint : Mint
mint = record {
  id = bytes "m";
  transaction_hash = bytes "0xff";
  height = bytes "2";
  confirmations = bytes "0";
  sender_address = bytes "pokt1sender";
  sender_chain_id = bytes "poktroll";
  recipient_address = payee;
  recipient_chain_id = bytes "1";
  wpokt_address = bytes "0xaa";
  vault_address = bytes "pokt1vault0000000000";
  amount = bytes "5000";
  nonce = [];
  memo = none;
  status = pending;
  mint_data = none;
  signers = [];
  signatures = [];
  mint_transaction_hash = [];
}

abbrev pub pending_mint : Mint
pending_mint = record mint {
  id = bytes "n";
  status = signed;
  mint_data = some (record { recipient = payee; amount = bytes "7"; nonce = bytes "9" });
}

abbrev pub burn : Burn
burn = record {
  id = bytes "b";
  transaction_hash = bytes "0xdd";
  log_index = bytes "4";
  block_number = bytes "2";
  confirmations = bytes "0";
  sender_address = bytes "0xcc";
  sender_chain_id = bytes "1";
  recipient_address = bytes "pokt1recipient000000";
  recipient_chain_id = bytes "poktroll";
  wpokt_address = bytes "0xaa";
  amount = bytes "5000";
  status = pending;
  return_transaction_body = [];
  signatures = [];
  sequence = none;
  return_transaction_hash = [];
}

abbrev pub invalid_mint : InvalidMint
invalid_mint = record {
  id = bytes "i";
  transaction_hash = bytes "0xff";
  height = bytes "2";
  confirmations = bytes "0";
  sender_address = bytes "pokt1sender";
  sender_chain_id = bytes "poktroll";
  vault_address = bytes "pokt1vault0000000000";
  amount = bytes "5000";
  status = pending;
  memo = bytes "memo";
  return_transaction_body = [];
  signatures = [];
  sequence = none;
  return_transaction_hash = [];
}

abbrev pub account : Account
account = record { account_number = 3; sequence = 7 }

-- The answers, given the mints that a search finds.
abbrev pub world : Option (List Mint) → Environment
world mints (insert_burn b) = inserted
world mints (insert_mint m) = inserted
world mints (insert_invalid_mint d) = inserted
world mints (find_mint f) = false
world mints (find_invalid_mint f) = false
world mints (find_burns f) = none
world mints (find_mints f) = mints
world mints (find_invalid_mints f) = none
world mints (update_burn f u) = true
world mints (update_mint f u) = true
world mints (update_invalid_mint f u) = true
world mints (max_burn_sequence f) = max_sequence 11
world mints (max_invalid_mint_sequence f) = max_sequence 12
world mints (x_lock r) = some (bytes "lock")
world mints (s_lock r) = some (bytes "lock")
world mints (unlock l) = true
world mints get_latest_block_height = some (pos 3)
world mints (get_tx h) = some (some payment)
world mints (get_account a) = some account
world mints (get_txs_sent_to_address_after_height a n) = some (payment ∷ [])
world mints (broadcast_tx t) = some (bytes "0xff")
world mints get_block_number = some 3
world mints (get_transaction_receipt h) = some (record { index = 4; payload = [] } ∷ [])
world mints (filter_burn_and_bridge i j) = some (item (some burn_event) (done false))
world mints (filter_minted i j) = some (item (some minted_event) (done false))
world mints (get_user_nonce a) = some (pos 4)
world mints validator_count = some (pos 3)
world mints signer_threshold = some (pos 2)
world mints max_mint_limit = some (pos 9000)

abbrev pub env : Environment
env = world none
