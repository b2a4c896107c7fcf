-- ===== src/Setup.antt =====
-- The constructors of the six runners, in cosmos/monitor.go, cosmos/signer.go, cosmos/executor.go,
-- eth/monitor.go, eth/signer.go and eth/executor.go: the checks at the start, and the services.
pub mod Checks
pub mod Signer
use wpokt_validator.Base.{
  ℕ, ℤ, pos, negsuc, ◌-◌, ◌*◌, ◌+◌, Bool, true, false, not, ◌||◌, Option, none, some, List, [], ◌∷◌,
  length, eqb_ℤ, ltb_ℤ, int64, to_word64, if◌then◌else◌,
}
use wpokt_validator.Base.Bytes.{Bytes, bytes, to_lower, equal_fold}
use wpokt_validator.Base.Decimal.{set_string}
use wpokt_validator.Models.Config.{Config}
use wpokt_validator.External.{External}
use wpokt_validator.Effect.{
  Program, ret, fail, panic, ◌>>=◌, ◌>>◌, ask, lift, require, max_mint_limit,
}
use wpokt_validator.Settings.Signers.{
  Accounts, PocketSigner, cosmos_public_key, get_ethereum_signer, get_pocket_signer_and_multisig,
}
use wpokt_validator.Client.Stubs.{Node}
use wpokt_validator.Client.{new_client}
use wpokt_validator.Runner.{Service, empty_service, new_runner_service}
use wpokt_validator.MintMonitor
use wpokt_validator.MintMonitor.{MintMonitorRunner}
use wpokt_validator.BurnMonitor
use wpokt_validator.BurnMonitor.{BurnMonitorRunner}
use wpokt_validator.MintSigner
use wpokt_validator.MintSigner.Nonce.{MintSignerRunner}
use wpokt_validator.MintExecutor
use wpokt_validator.MintExecutor.{MintExecutorRunner}
use wpokt_validator.BurnSigner
use wpokt_validator.BurnSigner.Validation.{BurnSignerRunner}
use wpokt_validator.BurnExecutor.Signatures.{BurnExecutorRunner}

-- `eth.DomainData`, with the text of the contract's address.
pub record DomainData : Type 0 where
  pub chain_id : ℤ
  pub verifying_contract : Bytes

-- What connecting comes to: the client of Ethereum, the two contracts and the ABI are there or
-- not; the stubs of the pocket chain; and the domain data that the mint controller answers.
pub record Links : Type 0 where
  pub eth_client : Bool
  pub wrapped_pocket : Bool
  pub mint_controller : Bool
  pub mint_controller_abi : Bool
  pub pokt : Option Node
  pub domain : Option DomainData

-- A runner, if the service is turned on, and its service.
pub record Built (A : Type 0) : Type 0 where
  pub runner : Option A
  pub service : Option Service

-- `time.Duration(millis) * time.Millisecond`
unfoldable pub nanoseconds : ℤ → ℤ
nanoseconds (pos n) = pos (n * 1000000)
nanoseconds (negsuc n) = negsuc ((n + 1) * 1000000 - 1)

unfoldable pub duration_of : ℤ → ℤ
unfolding nanoseconds
duration_of millis = int64 (nanoseconds millis)

abbrev pub turned_off : {A : Type 0} → Built A
turned_off = record { runner = none; service = some empty_service }

unfoldable pub serve : {A : Type 0} → Bytes → ℤ → A → Built A
unfolding duration_of
serve name millis x = record {
  runner = some x;
  service = new_runner_service name true true (duration_of millis);
}

-- The limit is read once, and compared; where the read fails it is a nil number, and the
-- comparison panics.
unfoldable pub check_limit : ℤ → Option ℤ → Program ℤ
check_limit minimum none = panic
check_limit minimum (some limit) = do require (not (ltb_ℤ limit minimum)); ret limit

-- The text of the chain's number, and the domain; a domain that was not read has a nil number.
unfoldable pub check_domain : Config → Option ℤ → Option DomainData → Program (Unit {0})
check_domain cfg none domain = fail
check_domain cfg (some chain_id) none = panic
check_domain cfg (some chain_id) (some domain) = do
  require (eqb_ℤ domain.chain_id chain_id)
  require (equal_fold domain.verifying_contract cfg.ethereum.mint_controller_address)

module _ (ext : External) (accounts : Accounts) (links : Links) (cfg : Config) where
  unfoldable pub new_mint_monitor : Bytes → Program (Built MintMonitorRunner)
  unfolding check_limit serve
  new_mint_monitor last_pokt_height = if not cfg.mint_monitor.enabled then ret turned_off else do
    signer ← get_pocket_signer_and_multisig ext accounts cfg.pocket
    client ← new_client links.pokt cfg.pocket
    require links.eth_client
    require links.mint_controller
    x ← MintMonitor.update_current_height (record {
      vault_address = signer.multisig_address;
      wpokt_address = to_lower cfg.ethereum.wrapped_pocket_address;
      start_height = pos 0;
      current_height = pos 0;
      minimum_amount = pos (to_word64 cfg.pocket.tx_fee);
      maximum_amount = pos 0;
    })
    let started = MintMonitor.init_start_height cfg x last_pokt_height
    answer ← ask max_mint_limit
    limit ← check_limit started.minimum_amount answer
    ret (
        serve (bytes "MINT MONITOR") cfg.mint_monitor.interval_millis
          (record started { maximum_amount = limit }))

  unfoldable pub new_burn_monitor : Bytes → Program (Built BurnMonitorRunner)
  unfolding serve
  new_burn_monitor last_block_number = if not cfg.burn_monitor.enabled then ret turned_off else do
    require links.eth_client
    require links.wrapped_pocket
    x ← BurnMonitor.update_current_block_number (record {
      start_block_number = pos 0;
      current_block_number = pos 0;
      minimum_amount = cfg.pocket.tx_fee;
    })
    ret (
        serve (bytes "BURN MONITOR") cfg.burn_monitor.interval_millis
          (BurnMonitor.init_start_block_number cfg x last_block_number))

  unfoldable pub new_mint_executor : Bytes → Program (Built MintExecutorRunner)
  unfolding serve
  new_mint_executor last_block_number =
      if not cfg.mint_executor.enabled || cfg.pocket.mint_disabled then ret turned_off else do
        require links.eth_client
        require links.wrapped_pocket
        require links.mint_controller_abi
        x ← MintExecutor.update_current_block_number (record {
          start_block_number = pos 0;
          current_block_number = pos 0;
          wpokt_address = to_lower cfg.ethereum.wrapped_pocket_address;
          vault_address = to_lower cfg.pocket.multisig_address;
        })
        ret (
            serve (bytes "MINT EXECUTOR") cfg.mint_executor.interval_millis
              (MintExecutor.init_start_block_number cfg x last_block_number))

  unfoldable pub new_mint_signer : Program (Built MintSignerRunner)
  unfolding check_limit check_domain serve
  new_mint_signer =
      if not cfg.mint_signer.enabled || cfg.pocket.mint_disabled then ret turned_off else do
        address ← get_ethereum_signer accounts cfg.ethereum
        require links.eth_client
        require links.wrapped_pocket
        require links.mint_controller
        client ← new_client links.pokt cfg.pocket
        seen ← MintSigner.update_blocks (record {
          address = to_lower address;
          wpokt_address = to_lower cfg.ethereum.wrapped_pocket_address;
          vault_address = to_lower cfg.pocket.multisig_address;
          validator_count = pos 0;
          signer_threshold = pos 0;
          cosmos_height = pos 0;
          minimum_amount = pos (to_word64 cfg.pocket.tx_fee);
          maximum_amount = pos 0;
        })
        require (not (eqb_ℤ seen.cosmos_height (pos 0)))
        counted ← MintSigner.update_validator_count seen
        x ← MintSigner.update_signer_threshold counted
        require (eqb_ℤ x.validator_count (pos (length cfg.ethereum.validator_addresses)))
        require (not (ltb_ℤ x.validator_count x.signer_threshold))
        check_domain cfg (set_string cfg.ethereum.chain_id) links.domain
        answer ← ask max_mint_limit
        limit ← check_limit x.minimum_amount answer
        ret (
            serve (bytes "MINT SIGNER") cfg.mint_signer.interval_millis
              (record x { maximum_amount = limit }))

  unfoldable pub new_burn_signer : Program (Built BurnSignerRunner)
  unfolding check_limit serve
  new_burn_signer = if not cfg.burn_signer.enabled then ret turned_off else do
    signer ← get_pocket_signer_and_multisig ext accounts cfg.pocket
    require links.eth_client
    require links.wrapped_pocket
    require links.mint_controller
    client ← new_client links.pokt cfg.pocket
    x ← BurnSigner.update_blocks (record {
      public_key = cosmos_public_key signer.signer;
      multisig_address = signer.multisig_address;
      cosmos_height = pos 0;
      eth_block_number = pos 0;
      vault_address = signer.multisig_address;
      wpokt_address = to_lower cfg.ethereum.wrapped_pocket_address;
      minimum_amount = pos (to_word64 cfg.pocket.tx_fee);
      maximum_amount = pos 0;
    })
    answer ← ask max_mint_limit
    limit ← check_limit x.minimum_amount answer
    ret (
        serve (bytes "BURN SIGNER") cfg.burn_signer.interval_millis
          (record x { maximum_amount = limit }))

  unfoldable pub new_burn_executor : Program (Built BurnExecutorRunner)
  unfolding serve
  new_burn_executor = if not cfg.burn_executor.enabled then ret turned_off else do
    signer ← get_pocket_signer_and_multisig ext accounts cfg.pocket
    client ← new_client links.pokt cfg.pocket
    ret (
        serve (bytes "BURN EXECUTOR") cfg.burn_executor.interval_millis (record {
          multisig_address = signer.multisig_address;
          multisig_threshold = cfg.pocket.multisig_threshold;
          multisig_keys = signer.multisig;
          wpokt_address = to_lower cfg.ethereum.wrapped_pocket_address;
          vault_address = signer.multisig_address;
        }))
