-- ===== src/Effect.antt =====
-- The services' dealings with the world outside: the database (app/database.go's interface), the
-- two chains and the locks. Their code is not in the repository, so a service is a program of
-- requests, and whatever answers come back is the environment's choice.
pub mod Run
pub mod Ensures
pub mod Traces
pub mod Pure
use wpokt_validator.Base.{ℕ, ℤ, Bool, true, false, Option, none, some, List}
use wpokt_validator.Base.Bytes.{Bytes}
use wpokt_validator.Models.{Burn, InvalidMint, Mint}
use wpokt_validator.Models.Chain.{TxResponse, Account, Log, BurnEvent, MintedEvent, Iterator}

-- `InsertOne`: stored, refused for a duplicate key, or another error.
pub data InsertAnswer : Type 0 where
  inserted duplicate not_inserted : InsertAnswer

-- `AggregateOne` with a `$max` group: the maximum, no document, or another error.
pub data MaxAnswer : Type 0 where
  max_sequence : ℕ → MaxAnswer
  no_documents not_aggregated : MaxAnswer

-- A filter document is the test that it makes, and `$set` the change that it makes.
pub data Request : Type 0 where
  insert_burn : Burn → Request
  insert_mint : Mint → Request
  insert_invalid_mint : InvalidMint → Request
  find_mint : (Mint → Bool) → Request
  find_invalid_mint : (InvalidMint → Bool) → Request
  find_burns : (Burn → Bool) → Request
  find_mints : (Mint → Bool) → Request
  find_invalid_mints : (InvalidMint → Bool) → Request
  update_burn : (Burn → Bool) → (Burn → Burn) → Request
  update_mint : (Mint → Bool) → (Mint → Mint) → Request
  update_invalid_mint : (InvalidMint → Bool) → (InvalidMint → InvalidMint) → Request
  max_burn_sequence : (Burn → Bool) → Request
  max_invalid_mint_sequence : (InvalidMint → Bool) → Request
  x_lock : Bytes → Request
  s_lock : Bytes → Request
  unlock : Bytes → Request
  get_latest_block_height : Request
  get_tx : Bytes → Request
  get_account : Bytes → Request
  get_txs_sent_to_address_after_height : Bytes → ℕ → Request
  broadcast_tx : Bytes → Request
  get_block_number : Request
  get_transaction_receipt : Bytes → Request
  filter_burn_and_bridge : ℕ → ℕ → Request
  filter_minted : ℕ → ℕ → Request
  get_user_nonce : Bytes → Request
  validator_count : Request
  signer_threshold : Request
  max_mint_limit : Request

-- Of a call that may fail, `none` is the error.
abbrev pub Answer : Request → Type 0
Answer (insert_burn b) = InsertAnswer
Answer (insert_mint m) = InsertAnswer
Answer (insert_invalid_mint m) = InsertAnswer
Answer (find_mint f) = Bool
Answer (find_invalid_mint f) = Bool
Answer (find_burns f) = Option (List Burn)
Answer (find_mints f) = Option (List Mint)
Answer (find_invalid_mints f) = Option (List InvalidMint)
Answer (update_burn f u) = Bool
Answer (update_mint f u) = Bool
Answer (update_invalid_mint f u) = Bool
Answer (max_burn_sequence f) = MaxAnswer
Answer (max_invalid_mint_sequence f) = MaxAnswer
Answer (x_lock resource) = Option Bytes
Answer (s_lock resource) = Option Bytes
Answer (unlock lock_id) = Bool
Answer get_latest_block_height = Option ℤ
Answer (get_tx hash) = Option (Option TxResponse)
Answer (get_account address) = Option Account
Answer (get_txs_sent_to_address_after_height address height) = Option (List TxResponse)
Answer (broadcast_tx tx) = Option Bytes
Answer get_block_number = Option ℕ
Answer (get_transaction_receipt hash) = Option (List Log)
Answer (filter_burn_and_bridge start end) = Option (Iterator BurnEvent)
Answer (filter_minted start end) = Option (Iterator MintedEvent)
Answer (get_user_nonce address) = Option ℤ
Answer validator_count = Option ℤ
Answer signer_threshold = Option ℤ
Answer max_mint_limit = Option ℤ

-- `fail` is a return with an error, or with `false` where that is the error; `panic` is Go's.
pub data Program (A : Type 0) : Type 0 where
  ret : A → Program A
  fail : Program A
  panic : Program A
  call : (r : Request) → (Answer r → Program A) → Program A

infixl 10 ◌>>=◌ ◌>>◌
unfoldable pub ◌>>=◌ : {A B : Type 0} → Program A → (A → Program B) → Program B
ret a >>= f = f a
fail >>= f = fail
panic >>= f = panic
call r k >>= f = call r (λ a. k a >>= f)

abbrev pub ◌>>◌ : {A B : Type 0} → Program A → Program B → Program B
m >> n = m >>= λ _. n

unfoldable pub ask : (r : Request) → Program (Answer r)
ask r = call r ret

-- `if err != nil { return …, err }`
unfoldable pub lift : {A : Type 0} → Option A → Program A
lift none = fail
lift (some a) = ret a

unfoldable pub require : Bool → Program (Unit {0})
require true = ret tt
require false = fail

-- A handler that answers `false` on each error, and else the value given.
unfoldable pub settle : Program Bool → Program Bool
settle (ret b) = ret b
settle fail = ret false
settle panic = panic
settle (call r k) = call r (λ a. settle (k a))

-- `defer`: the request is made when the rest returns, fails or panics, and its answer is dropped.
unfoldable pub defer : {A : Type 0} → Request → Program A → Program A
defer d (ret a) = call d (λ _. ret a)
defer d fail = call d (λ _. fail)
defer d panic = call d (λ _. panic)
defer d (call r k) = call r (λ a. defer d (k a))
