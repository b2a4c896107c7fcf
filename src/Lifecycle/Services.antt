-- ===== src/Lifecycle/Services.antt =====
-- The requests of all the services, and what the stored documents satisfy under them.
use wpokt_validator.Base.{refl, inl, inr, List, [], ◌∷◌, map, All}
use wpokt_validator.Models.{Burn, Mint, InvalidMint}
use wpokt_validator.Models.Config.{Config}
use wpokt_validator.External.{External}
use wpokt_validator.External.Sdk.{Sdk}
use wpokt_validator.Effect.{Request}
use wpokt_validator.Effect.Run.{Environment, trace}
use wpokt_validator.Effect.Ensures.{Ensures-mono}
use wpokt_validator.Effect.Traces.{IsMatching, Issues-trace}
use wpokt_validator.Lifecycle.{IsLawful}
use wpokt_validator.Lifecycle.Actors.{
  burn_signer-IsLawful, burn_executor-IsLawful, mint_signer-IsLawful, mint_executor-IsLawful,
}
use wpokt_validator.Lifecycle.Store.{
  BurnsReach, MintsReach, IsSequenced, IsNumbered, burns-AreSequenced, mints-AreNumbered,
}
use wpokt_validator.Lifecycle.Ledger.{LedgerReach, entry_of, burns-refine}
use wpokt_validator.Lifecycle.Refunds.{
  InvalidMintsReach, IsSequencedRefund, invalid_mints-AreSequenced,
}
use wpokt_validator.MintMonitor
use wpokt_validator.MintMonitor.{MintMonitorRunner}
use wpokt_validator.MintMonitor.Documents.{create_mint, create_invalid_mint, create_failed_mint}
use wpokt_validator.MintMonitor.Requests.{
  IsWarranted, mint, failed_mint, invalid_mint, looked_for_mint, looked_for_invalid_mint, listed,
  mint_monitor-IsWarranted,
}
use wpokt_validator.BurnMonitor
use wpokt_validator.BurnMonitor.{BurnMonitorRunner}
use wpokt_validator.BurnMonitor.Requests.{
  IsBurnOfEvent, stored, filtered, burn_monitor-IsBurnOfEvent,
}
use wpokt_validator.MintSigner
use wpokt_validator.MintSigner.Signing.{SigningKey}
use wpokt_validator.MintSigner.Nonce.{MintSignerRunner}
use wpokt_validator.MintSigner.Lifecycle.{mint_signer-IsMintSignerRequest}
use wpokt_validator.MintExecutor
use wpokt_validator.MintExecutor.{MintExecutorRunner}
use wpokt_validator.MintExecutor.Requests.{mint_executor-IsMintExecutorRequest}
use wpokt_validator.BurnSigner
use wpokt_validator.BurnSigner.Validation.{BurnSignerRunner}
use wpokt_validator.BurnSigner.Lifecycle.{burn_signer-IsBurnSignerRequest}
use wpokt_validator.BurnExecutor
use wpokt_validator.BurnExecutor.Signatures.{BurnExecutorRunner}
use wpokt_validator.BurnExecutor.Lifecycle.{burn_executor-IsBurnExecutorRequest}
use mathlib.Core.List.{Memᴰ}

module _ (ext : External) (sdk : Sdk) where
  -- The sync of a service of some validator, whatever its configuration and its state.
  pub data Service : Type 0 where
    mint_monitor : Config → MintMonitorRunner → Service
    mint_signer : SigningKey → Config → MintSignerRunner → Service
    mint_executor : MintExecutorRunner → Service
    burn_monitor : Config → BurnMonitorRunner → Service
    burn_signer : Config → BurnSignerRunner → Service
    burn_executor : Config → BurnExecutorRunner → Service

  abbrev pub requests : Environment → Service → List Request
  requests env (mint_monitor cfg x) = trace env (MintMonitor.sync_txs ext cfg x)
  requests env (mint_signer key cfg x) = trace env (MintSigner.sync_txs ext key cfg x)
  requests env (mint_executor x) = trace env (MintExecutor.sync_txs ext x)
  requests env (burn_monitor cfg x) = trace env (BurnMonitor.sync_txs ext cfg x)
  requests env (burn_signer cfg x) = trace env (BurnSigner.sync_txs ext sdk cfg x)
  requests env (burn_executor cfg x) = trace env (BurnExecutor.sync_txs sdk cfg x)

  -- A request that some service makes, with some answers, in which documents found match.
  pub data IsServiceRequest (r : Request) : Type 0 where
    made :
        (env : Environment) (s : Service)
        → IsMatching env
        → Memᴰ r (requests env s)
        → IsServiceRequest r

  warranted-IsLawful :
      (cfg : Config) (x : MintMonitorRunner) (r : Request) → IsWarranted ext cfg x r → IsLawful r
  unfolding create_mint create_invalid_mint create_failed_mint
  warranted-IsLawful cfg x r (mint tx result j a b c) = record {
    waiting = refl;
    unsigned = refl;
    unnumbered = refl;
  }
  warranted-IsLawful cfg x r (failed_mint tx result j a) = record {
    waiting = inr refl;
    unsigned = refl;
    unsequenced = refl;
    unwritten = refl;
  }
  warranted-IsLawful cfg x r (invalid_mint tx result j a b) = record {
    waiting = inl refl;
    unsigned = refl;
    unsequenced = refl;
    unwritten = refl;
  }
  warranted-IsLawful cfg x r (looked_for_mint f) = tt
  warranted-IsLawful cfg x r (looked_for_invalid_mint f) = tt
  warranted-IsLawful cfg x r (listed n) = tt

  of_event-IsLawful :
      (cfg : Config) (x : BurnMonitorRunner) (r : Request) → IsBurnOfEvent ext cfg x r → IsLawful r
  of_event-IsLawful cfg x r (stored e a b h) = h
  of_event-IsLawful cfg x r (filtered i j) = tt

  requests-AreLawful :
      (env : Environment) (s : Service) → IsMatching env → All IsLawful (requests env s)
  requests-AreLawful env (mint_monitor cfg x) m =
      Issues-trace env _ m
        (Ensures-mono _ (warranted-IsLawful cfg x) (mint_monitor-IsWarranted ext cfg x))
  requests-AreLawful env (mint_signer key cfg x) m =
      Issues-trace env _ m
        (Ensures-mono _ mint_signer-IsLawful (mint_signer-IsMintSignerRequest ext key cfg x))
  requests-AreLawful env (mint_executor x) m =
      Issues-trace env _ m
        (Ensures-mono _ (mint_executor-IsLawful ext) (mint_executor-IsMintExecutorRequest ext x))
  requests-AreLawful env (burn_monitor cfg x) m =
      Issues-trace env _ m
        (Ensures-mono _ (of_event-IsLawful cfg x) (burn_monitor-IsBurnOfEvent ext cfg x))
  requests-AreLawful env (burn_signer cfg x) m =
      Issues-trace env _ m
        (Ensures-mono _ burn_signer-IsLawful (burn_signer-IsBurnSignerRequest ext sdk cfg x))
  requests-AreLawful env (burn_executor cfg x) m =
      Issues-trace env _ m
        (Ensures-mono _ burn_executor-IsLawful (burn_executor-IsBurnExecutorRequest sdk cfg x))

  IsLawful-member : (r : Request) (rs : List Request) → All IsLawful rs → Memᴰ r rs → IsLawful r
  IsLawful-member r _ h (Memᴰ.head e) = coe 1 0 (i. IsLawful (e i)) h.0
  IsLawful-member r _ h (Memᴰ.tail m) = IsLawful-member r _ h.1 m

  service_request-IsLawful : (r : Request) → IsServiceRequest r → IsLawful r
  service_request-IsLawful r (made env s m i) = IsLawful-member r _ (requests-AreLawful env s m) i

  All-AreLawful : (rs : List Request) → All IsServiceRequest rs → All IsLawful rs
  All-AreLawful [] h = tt
  All-AreLawful (r ∷ rs) h = (service_request-IsLawful r h.0, All-AreLawful rs h.1)

  -- However the requests of the six services of any number of validators are interleaved, and
  -- whichever of them the database refuses, every stored burn that is signed, submitted or a
  -- success has a sequence, as long as the documents that the database finds match the search.
  pub services-AreSequenced :
      (rs : List Request) (bs : List Burn)
      → All IsServiceRequest rs
      → BurnsReach rs bs
      → All IsSequenced bs
  services-AreSequenced rs bs h reach = burns-AreSequenced rs bs (All-AreLawful rs h) reach

  -- However the requests of the six services of any number of validators are interleaved, and
  -- whichever of them the database refuses, every stored mint that is signed has mint data, its
  -- nonce is that of the data, and it has as many signatures as signers, as long as the
  -- documents that the database finds match the search.
  pub services-AreNumbered :
      (rs : List Request) (ms : List Mint)
      → All IsServiceRequest rs
      → MintsReach rs ms
      → All IsNumbered ms
  services-AreNumbered rs ms h reach = mints-AreNumbered rs ms (All-AreLawful rs h) reach

  -- The stored burns refine a ledger of payments. However the requests of the six services of any
  -- number of validators are interleaved, and whichever of them the database refuses, the payments
  -- that the burns stand for, with their stages, are what some steps of the ledger lead to, as long
  -- as the documents that the database finds match the search. In the ledger a payment is recorded
  -- as owed and never changes; it becomes ready and is sent before it is paid; what was sent may
  -- be owed again; and what is paid or dropped stays so.
  pub services-refine :
      (rs : List Request) (bs : List Burn)
      → All IsServiceRequest rs
      → BurnsReach rs bs
      → LedgerReach (map entry_of bs)
  services-refine rs bs h reach = burns-refine rs bs (All-AreLawful rs h) reach

  -- However the requests of the six services of any number of validators are interleaved, and
  -- whichever of them the database refuses, every stored invalid mint that is signed, submitted or
  -- a success has a sequence, as long as the documents that the database finds match the search.
  pub services-AreSequencedRefunds :
      (rs : List Request) (ds : List InvalidMint)
      → All IsServiceRequest rs
      → InvalidMintsReach rs ds
      → All IsSequencedRefund ds
  services-AreSequencedRefunds rs ds h reach =
      invalid_mints-AreSequenced rs ds (All-AreLawful rs h) reach
