-- ===== src/Examples/Node.antt =====
-- The keys, the settings and the client of the pocket chain, in the small world.
use wpokt_validator.Base.{
  ℕ, ℤ, pos, ◌+◌, ◌-◌, ◌*◌, ◌<◌, Bool, true, false, Option, none, some, List, [], ◌∷◌, ◌++◌, take,
  drop, length, ◌≡◌, ◌⊎◌, refl, inl, inr, arith, to_word64, All, ◌≢◌,
}
use wpokt_validator.Base.Bytes.{Bytes, bytes, eqb, trim_0x}
use wpokt_validator.Models.Config.{Config}
use wpokt_validator.Models.Chain.{TxResponse}
use wpokt_validator.Effect.{Program, ret, fail, panic}
use wpokt_validator.Keys.Packages.{Crypto, KmsClient}
use wpokt_validator.Keys.{
  GcpKmsSigner, MnemonicSigner, digest_of, fill_bytes, zeros, eth_sign_kms, cosmos_sign_kms,
}
use wpokt_validator.Keys.Bounds.{
  IsEthSignature, eth_sign_kms-IsEthSignature, cosmos_sign_kms-IsCosmosSignature,
}
use wpokt_validator.Settings.{validate_config}
use wpokt_validator.Settings.Signers.{Accounts}
use wpokt_validator.Settings.Valid.{
  IsReadyEthereum, IsReadyPocket, ArePaced, validate_config-IsReady,
}
use wpokt_validator.Client.Stubs.{Node, SearchResult}
use wpokt_validator.Client.{
  CosmosClient, get_txs_by_events, get_txs_by_events_per_page, get_txs_by_events_per_page_rpc,
}
use wpokt_validator.Client.Paging.{IsPaging, get_txs_by_events-IsComplete}
use wpokt_validator.Client.Blocks.{AreResponses, LacksBlock, page_rpc-AreResponses}
use wpokt_validator.Examples.{ext, cfg, validator, payment}

abbrev address : Bytes
address = 0 ∷ 0 ∷ 0 ∷ 0 ∷ 0 ∷ 0 ∷ 0 ∷ 0 ∷ 0 ∷ 0 ∷ 0 ∷ 0 ∷ 0 ∷ 0 ∷ 0 ∷ 0 ∷ 0 ∷ 0 ∷ 0 ∷ 0 ∷ []

-- Packages that hash everything to zeros, and know one key.
abbrev crypto : Crypto
crypto = record {
  keccak256 = λ b. zeros 32;
  sha256 = λ b. zeros 32;
  sign = λ h k. none;
  ecrecover = λ h s. some (4 ∷ []);
  unmarshal_pubkey = λ k. some (4 ∷ []);
  pubkey_to_address = λ k. address;
  recover_compact = λ s h. some (4 ∷ []);
  unmarshal_signature = λ s. some (record { r = some (pos 258); s = some (pos 3) });
  is_over_half_order = λ s. false;
  verify = λ s h k. true;
  parse_pub_key = λ k. some k;
  ethereum_private_key = λ m. some m;
  cosmos_private_key = λ m. some m;
  eth_public_key = λ k. k;
  cosmos_public_key = λ k. 2 ∷ zeros 32;
  cosmos_sign = λ b k. some b;
  pem_decode = λ p. some p;
  unmarshal_key = λ k. some (true, k);
}

abbrev kms : KmsClient
kms = record {
  is_secp256k1_sha256 = λ k. some true;
  get_public_key = λ k. some k;
  asymmetric_sign = λ k h. some [];
}

abbrev signer : GcpKmsSigner
signer = record {
  client = kms;
  key_name = bytes "key";
  eth_address = address;
  cosmos_pub_key = 2 ∷ [];
}

abbrev numbers : Bytes
numbers = fill_bytes 32 258 ++ fill_bytes 32 3

eth_sign_kms-IsEthSignature_example :
    IsEthSignature crypto
      (digest_of crypto.keccak256 (bytes "hello"))
      address
      (numbers ++ (27 ∷ []))
unfolding eth_sign_kms wpokt_validator.Effect.◌>>=◌ wpokt_validator.Effect.lift
    wpokt_validator.Effect.require eqb zeros
eth_sign_kms-IsEthSignature_example =
    eth_sign_kms-IsEthSignature crypto signer (bytes "hello") (numbers ++ (27 ∷ [])) refl

cosmos_sign_kms-IsCosmosSignature_example :
    (length numbers ≡ 64) × All (λ b. b < 256) numbers × (false ≡ false) × (true ≡ true)
unfolding cosmos_sign_kms wpokt_validator.Effect.◌>>=◌ wpokt_validator.Effect.lift
    wpokt_validator.Effect.require
cosmos_sign_kms-IsCosmosSignature_example =
    cosmos_sign_kms-IsCosmosSignature crypto signer (bytes "hello") numbers refl

abbrev pub accounts : Accounts
accounts = record {
  crypto = crypto;
  kms = none;
  private_key_address = λ k. some validator;
  key_address = λ k. address;
  unmarshal_amino = λ b. some b;
  threshold_address = λ n keys. bytes "pokt1vault0000000000";
}

abbrev other_key : Bytes
other_key = bytes "030000000000000000000000000000000000000000000000000000000000000000"

abbrev own_key : Bytes
own_key = bytes "020000000000000000000000000000000000000000000000000000000000000000"

abbrev settings : Config
settings = record cfg {
  pocket = record cfg.pocket { multisig_public_keys = other_key ∷ own_key ∷ [] };
}

abbrev validated : Config
validated = record settings { ethereum = record settings.ethereum { private_key = bytes "11" } }

validate_config-IsReady_example :
    (validated ≡ record settings {
      ethereum = record settings.ethereum { private_key = trim_0x (bytes "0x11") };
    })
    × IsReadyEthereum accounts validated.ethereum
    × IsReadyPocket ext accounts validated.pocket
    × ArePaced validated
    × (validated.health_check.interval_millis ≢ pos 0)
unfolding validate_config wpokt_validator.Effect.◌>>=◌ wpokt_validator.Effect.require eqb
    wpokt_validator.Settings.Signers.get_ethereum_signer wpokt_validator.Effect.lift
    wpokt_validator.Common.is_valid_ethereum_address wpokt_validator.Base.Bytes.to_lower trim_0x
    wpokt_validator.Base.Bytes.equal_fold wpokt_validator.Common.is_valid_bech32_address
    wpokt_validator.Settings.Signers.get_pocket_signer_and_multisig
    wpokt_validator.Keys.new_mnemonic_signer wpokt_validator.Common.bech32_from_bytes zeros
validate_config-IsReady_example = validate_config-IsReady ext accounts settings validated refl

abbrev all_txs : List TxResponse
all_txs = payment ∷ record payment { height = pos 3 } ∷ []

abbrev found : SearchResult
found = record {
  txs =
      record { hash = bytes "a"; height = pos 2; tx = bytes "tx" }
      ∷ record { hash = bytes "b"; height = pos 2; tx = bytes "tx" }
      ∷ [];
  total_count = pos 2;
}

abbrev pub node : Node
node = record {
  get_latest_block = none;
  get_txs_event = λ query page limit.
      some (record { txs = take limit (drop ((page - 1) * limit) all_txs); total = 2 });
  get_tx = λ h. none;
  account = λ a. none;
  broadcast_tx = λ b. none;
  simulate = λ b. none;
  status = none;
  tx_search = λ query page limit. some found;
  block = λ h. some (some (bytes "noon"));
  tx = λ h. none;
  abci_query_account = λ a. none;
  broadcast_tx_sync = λ b. none;
  check_tx = λ b. none;
  decode_any = λ p b. some b;
  new_response = λ t any_tx time. record payment { tx_hash = t.hash; height = t.height };
  unmarshal_response = λ b. none;
  unmarshal_account = λ b. none;
}

abbrev client : CosmosClient
client = record { grpc_enabled = true; config = cfg.pocket; node = node }

client-IsPaging : IsPaging (get_txs_by_events_per_page client (bytes "q")) all_txs 50
unfolding get_txs_by_events_per_page wpokt_validator.Effect.lift
client-IsPaging k here = let e : k + 1 - 1 ≡ k = omega arith in rw e refl

get_txs_by_events-IsComplete_example :
    get_txs_by_events client (bytes "q") ≡ ret (take (500 * 50) all_txs)
get_txs_by_events-IsComplete_example =
    get_txs_by_events-IsComplete client (bytes "q") all_txs 49 client-IsPaging (omega arith)

page_rpc-AreResponses_example :
    (get_txs_by_events_per_page_rpc client (bytes "q") 1 ≡ fail)
    ⊎ ((get_txs_by_events_per_page_rpc client (bytes "q") 1 ≡ panic) × LacksBlock node found.txs)
    ⊎ ((responses : List TxResponse) × (get_txs_by_events_per_page_rpc client (bytes "q") 1
          ≡ ret (record { txs = responses; total = to_word64 (pos 2) }))
        × AreResponses node cfg.pocket.bech32_prefix found.txs responses)
page_rpc-AreResponses_example = page_rpc-AreResponses client (bytes "q") 1 found refl
