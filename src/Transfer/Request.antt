-- ===== src/Transfer/Request.antt =====
-- transfer/transfer.go: the handler. The validation touches nothing outside, so it is a function of the
-- body alone; what it lets pass is an order.
use bundler_go.Base.{
  ℤ, ◌++◌, Text, codes, Bool, true, false, not, ◌||◌, ◌&&◌, Option, none, some, Result, ok, err, M,
  if◌then◌else◌, text_eq, to_lower, trim_space, is_neg, is_zero,
}
use bundler_go.Chain.{resolve_chain_id}
use bundler_go.Core.{Deps}
use bundler_go.Evm.Client.{Geth, Address}
use bundler_go.Httpx.{Outcome, responds, write_validation_error, finish}
use bundler_go.Evm.Number.{Float, Value, nil, to_big_int}
use bundler_go.Transfer.Account.{send_via_account_native, send_via_account_erc20}
use bundler_go.Transfer.Gas.{ParseGwei}
use bundler_go.Transfer.Send.{Sent, send_native, send_erc20}
use bundler_go.Userop.Types.{PackedUserOp}

-- `transferBody`
pub record TransferBody (F : Type 0) : Type 0 where
  pub chain_id : ℤ
  pub kind : Text
  pub source : Text
  pub from : Text
  pub to : Text
  pub value_wei : Value F
  pub token_address : Text
  pub amount : Value F

pub data Source : Type 0 where
  wallet : Source
  account : Source

-- A transfer that has passed the validation.
pub data Order : Type 0 where
  native : Source → Address → Address → ℤ → Order
  -- the sender, the token, the receiver and the amount
  erc20 : Source → Address → Address → Address → ℤ → Order

-- A refusal with its message, or what was read.
pub data Checked (A : Type 0) : Type 0 where
  refused : Text → Checked A
  passed : A → Checked A

module _ {F : Type 0} (fl : Float F) where
  unfoldable pub check_sign : ℤ → Bool → Checked ℤ
  check_sign n positive =
      if is_neg n
      then refused (codes "amount must be >= 0")
      else if positive && is_zero n
      then refused (codes "amount must be positive")
      else passed n

  unfoldable pub read_amount : Value F → Bool → Checked ℤ
  unfolding check_sign
  read_amount v positive = elim (to_big_int fl v) [
    | err e ↦ refused (codes "invalid amount: " ++ e.message)
    | ok n ↦ check_sign n positive
  ]

  -- `parseBig`
  unfoldable pub parse_big : Value F → Bool → Checked ℤ
  unfolding read_amount
  parse_big nil positive = refused (codes "value required")
  parse_big v positive = read_amount v positive

  module _ {Key Signed : Type 0} (geth : Geth Key Signed) where
    unfoldable pub native_order : Source → Address → Address → TransferBody F → Checked Order
    unfolding parse_big
    native_order source from to body = elim (parse_big body.value_wei false) [
      | refused m ↦ refused m
      | passed value ↦ passed (native source from to value)
    ]

    unfoldable pub erc20_order : Source → Address → Address → TransferBody F → Checked Order
    unfolding parse_big
    erc20_order source from to body =
        let token = trim_space body.token_address in
        if not (geth.is_hex_address token)
        then refused (codes "valid 'tokenAddress' required")
        else elim (parse_big body.amount true) [
          | refused m ↦ refused m
          | passed amount ↦ passed (erc20 source from (geth.hex_to_address token) to amount)
        ]

    unfoldable pub hint : Source → Text
    hint wallet =
        codes "source=wallet requires valid 'from' (must equal server_key1 or server_key2 EOA)"
    hint account = codes "source=account requires valid 'from' (Account address)"

    -- The addresses, then the amount.
    unfoldable pub check_addresses : Bool → Source → TransferBody F → Checked Order
    unfolding native_order erc20_order hint
    check_addresses is_native source body =
        let to = trim_space body.to in
        let from = trim_space body.from in
        if not (geth.is_hex_address to)
        then refused (codes "valid 'to' required")
        else if not (geth.is_hex_address from)
        then refused (hint source)
        else if is_native
        then native_order source (geth.hex_to_address from) (geth.hex_to_address to) body
        else erc20_order source (geth.hex_to_address from) (geth.hex_to_address to) body

    -- The type and the source.
    unfoldable pub check_body : TransferBody F → Checked Order
    unfolding check_addresses
    check_body body =
        let kind = to_lower (trim_space body.kind) in
        let source = to_lower (trim_space body.source) in
        if not (text_eq kind (codes "native") || text_eq kind (codes "erc20"))
        then refused (codes "type required: 'native' or 'erc20'")
        else if text_eq source (codes "wallet")
        then check_addresses (text_eq kind (codes "native")) wallet body
        else if text_eq source (codes "account")
        then check_addresses (text_eq kind (codes "native")) account body
        else refused (codes "source required: 'wallet' or 'account'")

    module _ {S : Type 0} (deps : Deps S Key Signed) (parse : ParseGwei F)
        (enqueue : ℤ → PackedUserOp → M S Text) where
      -- The wallet's transfers do not panic.
      unfoldable pub sent : Result Sent × S → Result (Option Sent) × S
      sent (err e, s) = (err e, s)
      sent (ok r, s) = (ok (some r), s)

      unfoldable pub run_order : ℤ → Order → M S (Option Sent)
      unfolding sent
      run_order c (native wallet from to value) s = sent (send_native geth deps c from to value s)
      run_order c (native account from to value) s =
          send_via_account_native geth deps parse enqueue c from to value s
      run_order c (erc20 wallet from token to amount) s =
          sent (send_erc20 geth deps c from token to amount s)
      run_order c (erc20 account from token to amount) s =
          send_via_account_erc20 geth deps parse enqueue c from token to amount s

      -- With `respond` behind the service
      unfoldable pub perform : ℤ → Checked Order → S → Outcome Sent × S
      unfolding run_order finish write_validation_error
      perform c (refused m) s = (responds (write_validation_error m), s)
      perform c (passed order) s = let (r, s') = run_order c order s in (finish geth r, s')

      -- `Transfer`, on the body as it decodes.
      unfoldable pub transfer : Option (TransferBody F) → S → Outcome Sent × S
      unfolding perform check_body
      transfer none s = (responds (write_validation_error (codes "invalid JSON body")), s)
      transfer (some body) s = elim (resolve_chain_id deps.getenv body.chain_id) [
        | err e ↦ (responds (write_validation_error (codes "chainId required")), s)
        | ok c ↦ perform c (check_body body) s
      ]
