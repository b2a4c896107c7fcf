-- ===== src/Client/Blocks.antt =====
-- A page of transactions over RPC: cosmos/client/helpers.go and its use in client.go.
use mathlib.Core.List.{Memᴰ}
use wpokt_validator.Base.{
  some, Option, ℕ, ℤ, none, List, [], ◌∷◌, eqb_ℤ, ◌≡◌, ◌⊎◌, inl, inr, refl, All, sym, Bool-cases,
  Option-cases, ◌∙◌, none≢some, eqb_ℤ_refl, eqb_ℤ→eq, ap, int64, pos, to_word64,
}
use wpokt_validator.Base.Bytes.{Bytes}
use wpokt_validator.Models.Chain.{TxResponse}
use wpokt_validator.Effect.{Program, ret, fail, panic, ◌>>=◌, lift}
use wpokt_validator.Client.Stubs.{Node, ResultTx, SearchResult}
use wpokt_validator.Client.{
  CosmosClient, find_block, time_of, get_blocks_for_tx_results, mk_tx_result, format_tx_results,
  get_txs_by_events_per_page_rpc, rpc_page_limit,
}

module _ (node : Node) where
  -- The map has the node's blocks.
  abbrev AreBlocks : List (ℤ × Option Bytes) → Type 0
  AreBlocks blocks =
      (h : ℤ) (time : Option Bytes) → find_block h blocks ≡ some time → node.block h ≡ some time

  -- Another map has the blocks of one.
  abbrev Extends : List (ℤ × Option Bytes) → List (ℤ × Option Bytes) → Type 0
  Extends blocks more =
      (h : ℤ) (time : Option Bytes)
      → find_block h blocks ≡ some time
      → find_block h more ≡ some time

  abbrev Covers : List (ℤ × Option Bytes) → ResultTx → Type 0
  Covers blocks t = (time : Option Bytes) × (find_block t.height blocks ≡ some time)

  find_block-add :
      (h k : ℤ) (time : Option Bytes) (blocks : List (ℤ × Option Bytes))
      → ((k ≡ h) × (find_block h ((k, time) ∷ blocks) ≡ some time))
        ⊎ (find_block h ((k, time) ∷ blocks) ≡ find_block h blocks)
  unfolding find_block
  find_block-add h k time blocks = elim (Bool-cases (eqb_ℤ k h)) [
    | inl e ↦ inl (eqb_ℤ→eq k h e, rw e refl)
    | inr e ↦ inr (rw e refl)
  ]

  add-AreBlocks :
      (k : ℤ) (time : Option Bytes) (blocks : List (ℤ × Option Bytes))
      → AreBlocks blocks
      → node.block k ≡ some time
      → AreBlocks ((k, time) ∷ blocks)
  add-AreBlocks k time blocks right here h t e = elim (find_block-add h k time blocks) [
    | inl same ↦ rw (sym same.0) (here ∙ sym same.1 ∙ e)
    | inr other ↦ right h t (sym other ∙ e)
  ]

  add-Extends :
      (k : ℤ) (time : Option Bytes) (blocks : List (ℤ × Option Bytes))
      → find_block k blocks ≡ none
      → Extends blocks ((k, time) ∷ blocks)
  add-Extends k time blocks missing h t e = elim (find_block-add h k time blocks) [
    | inl same ↦ absurd (none≢some (sym missing ∙ ap (λ z. find_block z blocks) same.0 ∙ e))
    | inr other ↦ other ∙ e
  ]

  add-found :
      (k : ℤ) (time : Option Bytes) (blocks : List (ℤ × Option Bytes))
      → find_block k ((k, time) ∷ blocks) ≡ some time
  unfolding find_block
  add-found k time blocks = rw (eqb_ℤ_refl k) refl

  []-AreBlocks : AreBlocks []
  unfolding find_block
  []-AreBlocks h time e = absurd (none≢some e)

  get_blocks-known :
      (t : ResultTx) (txs : List ResultTx) (blocks : List (ℤ × Option Bytes)) (time : Option Bytes)
      → find_block t.height blocks ≡ some time
      → get_blocks_for_tx_results node (t ∷ txs) blocks ≡ get_blocks_for_tx_results node txs blocks
  unfolding get_blocks_for_tx_results
  get_blocks-known t txs blocks time e = rw (get_blocks_for_tx_results, e) refl

  get_blocks-missing :
      (t : ResultTx) (txs : List ResultTx) (blocks : List (ℤ × Option Bytes))
      → find_block t.height blocks ≡ none
      → get_blocks_for_tx_results node (t ∷ txs) blocks ≡ (
          lift (node.block t.height) >>= λ time.
          get_blocks_for_tx_results node txs ((t.height, time) ∷ blocks))
  unfolding get_blocks_for_tx_results
  get_blocks-missing t txs blocks e = rw (get_blocks_for_tx_results, e) refl

  -- The blocks of all transactions are found, or the node fails.
  abbrev IsFetched :
      Program (List (ℤ × Option Bytes)) → List ResultTx → List (ℤ × Option Bytes) → Type 0
  IsFetched got txs blocks =
      (got ≡ fail)
      ⊎ ((more : List (ℤ × Option Bytes)) × (got ≡ ret more)
          × AreBlocks more
          × Extends blocks more
          × All (Covers more) txs)

  get_blocks-IsFetched :
      (txs : List ResultTx) (blocks : List (ℤ × Option Bytes))
      → AreBlocks blocks
      → IsFetched (get_blocks_for_tx_results node txs blocks) txs blocks
  unfolding get_blocks_for_tx_results lift ◌>>=◌
  get_blocks-IsFetched [] blocks right = inr (blocks, refl, right, (λ h t e. e), tt)
  get_blocks-IsFetched (t ∷ txs) blocks right = elim (Option-cases (find_block t.height blocks)) [
    | inr known ↦
        rw (get_blocks-known t txs blocks known.0 known.1)
          (cover blocks known.0 known.1 (get_blocks-IsFetched txs blocks right))
    | inl missing ↦
        rw (get_blocks-missing t txs blocks missing) (elim (Option-cases (node.block t.height)) [
          | inl broken ↦ rw broken (inl refl)
          | inr here ↦ rw here.1 (
              widen here.0 missing (
                cover ((t.height, here.0) ∷ blocks) here.0 (add-found t.height here.0 blocks) (
                  get_blocks-IsFetched txs ((t.height, here.0) ∷ blocks)
                    (add-AreBlocks t.height here.0 blocks right here.1))))
        ])
  ]
    where
      cover :
          {got : Program (List (ℤ × Option Bytes))} (bs : List (ℤ × Option Bytes))
          (time : Option Bytes)
          → find_block t.height bs ≡ some time
          → IsFetched got txs bs
          → IsFetched got (t ∷ txs) bs
      cover bs time e (inl broken) = inl broken
      cover bs time e (inr (more, r, b, x, c)) = inr (more, r, b, x, ((time, x t.height time e), c))

      widen :
          {got : Program (List (ℤ × Option Bytes))} (time : Option Bytes)
          → find_block t.height blocks ≡ none
          → IsFetched got (t ∷ txs) ((t.height, time) ∷ blocks)
          → IsFetched got (t ∷ txs) blocks
      widen time e (inl broken) = inl broken
      widen time e (inr (more, r, b, x, c)) =
          inr (more, r, b, (λ h s k. x h s (add-Extends t.height time blocks e h s k)), c)

  -- One response for each transaction, of its decoding and of the block at its height.
  abbrev pub AreResponses : Bytes → List ResultTx → List TxResponse → Type 0
  AreResponses prefix [] [] = Unit
  AreResponses prefix [] (r ∷ responses) = ⊥
  AreResponses prefix (t ∷ txs) [] = ⊥
  AreResponses prefix (t ∷ txs) (r ∷ responses) =
      ((any_tx : Bytes) × (time : Bytes) × (node.decode_any prefix t.tx ≡ some any_tx)
        × (node.block t.height ≡ some (some time))
        × (r ≡ node.new_response t any_tx time))
      × AreResponses prefix txs responses

  -- For one of the transactions the node answered a result without a block.
  abbrev pub LacksBlock : List ResultTx → Type 0
  LacksBlock txs = (t : ResultTx) × Memᴰ t txs × (node.block t.height ≡ some none)

  abbrev IsFormatted : Program (List TxResponse) → Bytes → List ResultTx → Type 0
  IsFormatted got prefix txs =
      (got ≡ fail)
      ⊎ ((got ≡ panic) × LacksBlock txs)
      ⊎ ((responses : List TxResponse) × (got ≡ ret responses) × AreResponses prefix txs responses)

  format-IsFormatted :
      (prefix : Bytes) (txs : List ResultTx) (blocks : List (ℤ × Option Bytes))
      → AreBlocks blocks
      → All (Covers blocks) txs
      → IsFormatted (format_tx_results node prefix txs blocks) prefix txs
  unfolding format_tx_results mk_tx_result time_of lift ◌>>=◌
  format-IsFormatted prefix [] blocks right c = inr (inr ([], refl, tt))
  format-IsFormatted prefix (t ∷ txs) blocks right c =
      elim (Option-cases (node.decode_any prefix t.tx)) [
        | inl broken ↦ rw broken (inl refl)
        | inr decoded ↦ elim (Option-cases c.0.0) [
          | inl empty ↦
              let found : find_block t.height blocks ≡ some none = c.0.1 ∙ ap some empty in
              rw (decoded.1, found)
                (inr (inl (refl, (t, Memᴰ.head refl, right t.height none found))))
          | inr here ↦
              let found : find_block t.height blocks ≡ some (some here.0) =
                c.0.1 ∙ ap some here.1 in
              rw (decoded.1, found)
                (elim (format-IsFormatted prefix txs blocks right c.1) [
                  | inl broken ↦ rw broken (inl refl)
                  | inr (inl (panicked, (u, m, lacks))) ↦
                      rw panicked (inr (inl (refl, (u, Memᴰ.tail m, lacks))))
                  | inr (inr (responses, e, are)) ↦ rw e (
                      inr (
                        inr (
                          _,
                          refl,
                          (
                            (
                              decoded.0,
                              here.0,
                              decoded.1,
                              right t.height (some here.0) found,
                              refl,
                            ),
                            are,
                          ),
                        )))
                ])
        ]
      ]

-- A page over RPC, of a search that the node answers: the client fails; or it panics, and for one
-- of the transactions found the node answered a block result without a block; or it returns one
-- response for each transaction found, in their order, with the decoding of its bytes and the time
-- of the node's block at its height, and with the node's total.
pub page_rpc-AreResponses :
    (c : CosmosClient) (query : Bytes) (page : ℕ) (found : SearchResult)
    → c.node.tx_search query (int64 (pos page)) rpc_page_limit ≡ some found
    → (get_txs_by_events_per_page_rpc c query page ≡ fail)
      ⊎ ((get_txs_by_events_per_page_rpc c query page ≡ panic) × LacksBlock c.node found.txs)
      ⊎ ((responses : List TxResponse) × (get_txs_by_events_per_page_rpc c query page
            ≡ ret (record { txs = responses; total = to_word64 found.total_count }))
          × AreResponses c.node c.config.bech32_prefix found.txs responses)
unfolding get_txs_by_events_per_page_rpc lift ◌>>=◌ find_block
page_rpc-AreResponses c query page found e =
    rw e (elim (get_blocks-IsFetched c.node found.txs [] ([]-AreBlocks c.node)) [
      | inl broken ↦ rw broken (inl refl)
      | inr got ↦
          rw got.1
            (elim (format-IsFormatted c.node c.config.bech32_prefix found.txs got.0 got.2 got.4) [
              | inl broken ↦ rw broken (inl refl)
              | inr (inl (panicked, lacks)) ↦ rw panicked (inr (inl (refl, lacks)))
              | inr (inr (responses, made, are)) ↦ rw made (inr (inr (responses, refl, are)))
            ])
    ])
