-- ===== src/Client.antt =====
-- cosmos/client/client.go and helpers.go: the client of the pocket chain, over gRPC or over the
-- node's RPC. The stubs of the two are parameters.
pub mod Stubs
pub mod Paging
pub mod Blocks
use Prim.Native.Nat.{zero, suc}
use wpokt_validator.Base.{
  ℕ, ℤ, pos, ◌+◌, Bool, true, false, ◌||◌, not, Option, none, some, List, [], ◌∷◌, ◌++◌, length,
  leb, leb_ℤ, ◌==◌, eqb_ℤ, int64, to_word64, if◌then◌else◌,
}
use wpokt_validator.Base.Bytes.{Bytes, bytes, eqb, trim_0x}
use wpokt_validator.Base.Decimal.{format_int}
use wpokt_validator.Models.Config.{CosmosConfig}
use wpokt_validator.Models.Chain.{TxResponse, Account}
use wpokt_validator.Common.{decode_string, is_valid_bech32_address}
use wpokt_validator.External.{External}
use wpokt_validator.Effect.{Program, ret, fail, panic, ◌>>=◌, ◌>>◌, lift, require}
use wpokt_validator.Client.Stubs.{Node, ResultTx, Page, GasInfo, Answered, Head}

abbrev pub max_page_depth : ℕ
max_page_depth = 500

abbrev pub grpc_page_limit : ℕ
grpc_page_limit = 50

abbrev pub rpc_page_limit : ℕ
rpc_page_limit = 100

-- `resBlocks`: the block results by their heights, each with the time of its block, if it has one.
unfoldable pub find_block : ℤ → List (ℤ × Option Bytes) → Option (Option Bytes)
find_block height [] = none
find_block height (b ∷ blocks) = if eqb_ℤ b.0 height then some b.1 else find_block height blocks

-- A page of transactions and the total that the node answers.
unfoldable pub is_last_page : ℕ → List TxResponse → List TxResponse → ℕ → Bool
is_last_page page resp_txs txs total =
    length resp_txs == 0 || leb_ℤ (int64 (pos total)) (pos (length txs)) || leb max_page_depth page

-- The loop of `getTxsByEvents` from a page on, with the transactions so far. Out of fuel, the
-- result is a failure that the loop has no other way to.
unfoldable pub get_pages : (ℕ → Program Page) → ℕ → ℕ → List TxResponse → Program (List TxResponse)
unfolding is_last_page
get_pages fetch zero page txs = fail
get_pages fetch (suc fuel) page txs = do
  answer ← fetch page
  let all_txs = txs ++ answer.txs
  elim (is_last_page page answer.txs all_txs answer.total) [
    | true ↦ ret all_txs
    | false ↦ get_pages fetch fuel (page + 1) all_txs
  ]

-- `cosmosClient`, with the stubs in place of the connections.
pub record CosmosClient : Type 0 where
  pub grpc_enabled : Bool
  pub config : CosmosConfig
  pub node : Node

-- The blocks of the transactions, one request for each height.
unfoldable pub get_blocks_for_tx_results :
    Node → List ResultTx → List (ℤ × Option Bytes) → Program (List (ℤ × Option Bytes))
unfolding find_block
get_blocks_for_tx_results node [] blocks = ret blocks
get_blocks_for_tx_results node (t ∷ txs) blocks = elim (find_block t.height blocks) [
  | some time ↦ get_blocks_for_tx_results node txs blocks
  | none ↦ (do
    time ← lift (node.block t.height)
    get_blocks_for_tx_results node txs ((t.height, time) ∷ blocks))
]

-- `resBlock.Block.Time`: a result that the map lacks is nil, and so may be its block.
unfoldable pub time_of : Option (Option Bytes) → Program Bytes
time_of none = panic
time_of (some none) = panic
time_of (some (some time)) = ret time

unfoldable pub mk_tx_result : Node → Bytes → ResultTx → Option (Option Bytes) → Program TxResponse
unfolding time_of
mk_tx_result node prefix t block = do
  any_tx ← lift (node.decode_any prefix t.tx)
  time ← time_of block
  ret (node.new_response t any_tx time)

unfoldable pub format_tx_results :
    Node → Bytes → List ResultTx → List (ℤ × Option Bytes) → Program (List TxResponse)
unfolding mk_tx_result find_block
format_tx_results node prefix [] blocks = ret []
format_tx_results node prefix (t ∷ txs) blocks = do
  first ← mk_tx_result node prefix t (find_block t.height blocks)
  rest ← format_tx_results node prefix txs blocks
  ret (first ∷ rest)

unfoldable pub get_txs_by_events_per_page_grpc : CosmosClient → Bytes → ℕ → Program Page
get_txs_by_events_per_page_grpc c query page =
    lift (c.node.get_txs_event query page grpc_page_limit)

unfoldable pub get_txs_by_events_per_page_rpc : CosmosClient → Bytes → ℕ → Program Page
unfolding get_blocks_for_tx_results format_tx_results
get_txs_by_events_per_page_rpc c query page = do
  found ← lift (c.node.tx_search query (int64 (pos page)) rpc_page_limit)
  blocks ← get_blocks_for_tx_results c.node found.txs []
  txs ← format_tx_results c.node c.config.bech32_prefix found.txs blocks
  ret (record { txs = txs; total = to_word64 found.total_count })

unfoldable pub get_txs_by_events_per_page : CosmosClient → Bytes → ℕ → Program Page
unfolding get_txs_by_events_per_page_grpc get_txs_by_events_per_page_rpc
get_txs_by_events_per_page c query page =
    if c.grpc_enabled
    then get_txs_by_events_per_page_grpc c query page
    else get_txs_by_events_per_page_rpc c query page

unfoldable pub get_txs_by_events : CosmosClient → Bytes → Program (List TxResponse)
unfolding get_pages get_txs_by_events_per_page
get_txs_by_events c query = get_pages (get_txs_by_events_per_page c query) max_page_depth 1 []

-- `fmt.Sprintf("transfer.recipient='%s' AND tx.height>=%d", address, height)`, and of the sender
unfoldable pub transfer_query : Bytes → Bytes → ℕ → Bytes
transfer_query side address height =
    bytes "transfer."
    ++ side
    ++ bytes "='"
    ++ address
    ++ bytes "' AND tx.height>="
    ++ format_int (pos height)

module _ (ext : External) where
  unfoldable pub get_txs_sent_to_address_after_height :
      CosmosClient → Bytes → ℕ → Program (List TxResponse)
  unfolding get_txs_by_events transfer_query
  get_txs_sent_to_address_after_height c address height = do
    require (is_valid_bech32_address ext c.config.bech32_prefix address)
    get_txs_by_events c (transfer_query (bytes "recipient") address height)

  unfoldable pub get_txs_sent_from_address_after_height :
      CosmosClient → Bytes → ℕ → Program (List TxResponse)
  unfolding get_txs_by_events transfer_query
  get_txs_sent_from_address_after_height c address height = do
    require (is_valid_bech32_address ext c.config.bech32_prefix address)
    get_txs_by_events c (transfer_query (bytes "sender") address height)

  unfoldable pub get_account_grpc : CosmosClient → Bytes → Program Account
  get_account_grpc c address = do
    value ← lift (c.node.account address)
    lift (c.node.unmarshal_account value)

  unfoldable pub get_account_rpc : CosmosClient → Bytes → Program Account
  get_account_rpc c address = do
    res ← lift (c.node.abci_query_account address)
    require (res.code == 0)
    value ← lift (c.node.unmarshal_response res.value)
    lift (c.node.unmarshal_account value)

  unfoldable pub get_account : CosmosClient → Bytes → Program Account
  unfolding get_account_grpc get_account_rpc
  get_account c address = do
    require (is_valid_bech32_address ext c.config.bech32_prefix address)
    if c.grpc_enabled then get_account_grpc c address else get_account_rpc c address

-- `GetLatestBlock` or `Status`
unfoldable pub get_head : CosmosClient → Program Head
get_head c = lift (if c.grpc_enabled then c.node.get_latest_block else c.node.status)

unfoldable pub get_latest_block_height : CosmosClient → Program ℤ
unfolding get_head
get_latest_block_height c = do head ← get_head c; ret head.height

unfoldable pub get_chain_id : CosmosClient → Program Bytes
unfolding get_head
get_chain_id c = do head ← get_head c; ret head.chain_id

unfoldable pub validate_network : CosmosClient → Program (Unit {0})
unfolding get_chain_id
validate_network c = do chain_id ← get_chain_id c; require (eqb chain_id c.config.chain_id)

unfoldable pub get_tx_rpc : CosmosClient → Bytes → Program TxResponse
unfolding get_blocks_for_tx_results mk_tx_result find_block
get_tx_rpc c hash = do
  hash_bytes ← lift (decode_string hash)
  res_tx ← lift (c.node.tx hash_bytes)
  blocks ← get_blocks_for_tx_results c.node (res_tx ∷ []) []
  mk_tx_result c.node c.config.bech32_prefix res_tx (find_block res_tx.height blocks)

unfoldable pub get_tx : CosmosClient → Bytes → Program TxResponse
unfolding get_tx_rpc
get_tx c hash =
    let bare = trim_0x hash in
    if c.grpc_enabled then lift (c.node.get_tx bare) else get_tx_rpc c bare

-- The hash of a transaction that the node took: its code is zero.
unfoldable pub broadcast_tx : CosmosClient → Bytes → Program Bytes
broadcast_tx c tx_bytes = do
  res ←
      lift
        (if c.grpc_enabled then c.node.broadcast_tx tx_bytes else c.node.broadcast_tx_sync tx_bytes)
  require (res.code == 0)
  ret res.value

unfoldable pub simulate_rpc : CosmosClient → Bytes → Program GasInfo
simulate_rpc c tx_bytes = do
  res ← lift (c.node.check_tx tx_bytes)
  require (res.code == 0)
  ret (record { gas_wanted = to_word64 res.gas_wanted; gas_used = to_word64 res.gas_used })

unfoldable pub simulate : CosmosClient → Bytes → Program GasInfo
unfolding simulate_rpc
simulate c tx_bytes =
    if c.grpc_enabled then lift (c.node.simulate tx_bytes) else simulate_rpc c tx_bytes

-- `NewClient`, with the stubs if a connection can be made.
unfoldable pub new_client : Option Node → CosmosConfig → Program CosmosClient
unfolding validate_network
new_client connect config = do
  node ← lift connect
  let c : CosmosClient = record { grpc_enabled = config.grpc_enabled; config = config; node = node }
  validate_network c
  ret c
