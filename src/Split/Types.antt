-- ===== src/Split/Types.antt =====
-- split/exec.go and eip712.go: the parameters of a payment, its answer, and the message that is signed.
use bundler_go.Base.{ℕ, ℤ, Option, Text}
use bundler_go.Evm.Client.{Address}

-- `Params`; nil is none.
pub record Params : Type 0 where
  pub chain_id : ℤ
  pub erc20_token : Address
  pub recipient0 : Address
  pub recipient1 : Address
  pub native_amount0 : ℤ
  pub native_amount1 : ℤ
  pub erc20_amount0 : ℤ
  pub erc20_amount1 : ℤ
  pub payer_key : Text
  pub permit_deadline : Option ℤ
  pub permit_amount : Option ℤ
  pub permit_v : ℕ
  pub permit_r : Text
  pub permit_s : Text

-- `Result`
pub record SplitResult : Type 0 where
  pub tx_hash : Text
  pub from : Text
  pub payer : Text
  pub router_address : Text
  pub nonce_used : Text
  pub approve_tx_hash : Text

-- `payerSplitMessage`
pub record PayerSplitMessage : Type 0 where
  pub payer : Address
  pub erc20_token : Address
  pub recipient0 : Address
  pub recipient1 : Address
  pub native_amt0 : ℤ
  pub native_amt1 : ℤ
  pub erc20_amt0 : ℤ
  pub erc20_amt1 : ℤ
  pub signer_epoch : ℤ
  pub nonce : ℤ
