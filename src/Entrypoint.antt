-- ===== src/Entrypoint.antt =====
-- internal/entrypoint/entrypoint.go: deposits into the entry point's gas pool and withdrawals from it.
-- `now` is the time of the answer, as it is formatted there.
pub mod Laws
use bundler_go.Base.{
  ℕ, ℤ, pos, negsuc, suc, neg, ◌*◌, List, [], ◌∷◌, Text, codes, Bool, not, ◌||◌, Option, none, some,
  Result, ok, err, GoError, M, ◌>>=◌, ◌>>◌, return, if◌then◌else◌, text_eq, trim_space, to_upper,
  is_neg, format_int,
}
use bundler_go.Chain.{resolve_chain_id}
use bundler_go.Core.{Deps, Sent, both, send_managed_tx}
use bundler_go.Evm.Client.{Geth, Address, Arg, Receipt, address, uint256}
use bundler_go.Evm.Number.{Float, str, to_big_int}
use bundler_go.Httpx.{Outcome, responds, write_validation_error, finish}
use bundler_go.Signer.Account.{Account}
use bundler_go.Transfer.Request.{Checked, refused, passed}

-- `body`
pub record GasPoolBody : Type 0 where
  pub chain_id : ℤ
  pub action : Text
  pub entrypoint_address : Text
  pub amount : Text
  pub to_address : Text

-- `response`
pub record GasPoolResponse : Type 0 where
  pub status : Text
  pub tx_hash : Text
  pub gas_fee : Text
  pub complete_datetime : Text
  pub message : Text

pub data Action : Type 0 where
  deposit withdraw : Action

-- What has passed the validation; `to` is the text of the request, trimmed.
pub record Order : Type 0 where
  pub chain_id : ℤ
  pub action : Action
  pub ep : Address
  pub amount : ℤ
  pub to : Text

-- `big.Int.Mul` by a uint64
abbrev pub scale : ℕ → ℤ → ℤ
scale g (pos n) = pos (g * n)
scale g (negsuc n) = neg (pos (g * suc n))

-- `gasFeeOf`
unfoldable pub gas_fee_of : ℕ → Option ℤ → Text
gas_fee_of gas_used none = codes "0"
gas_fee_of gas_used (some price) = format_int (scale gas_used price)

unfoldable pub message_of : Action → Text
message_of deposit = codes "deposit completed"
message_of withdraw = codes "withdraw completed"

unfoldable pub read_action : Text → Option Action
read_action text =
    let action = to_upper (trim_space text) in
    if text_eq action (codes "DEPOSIT")
    then some deposit
    else if text_eq action (codes "WITHDRAW")
    then some withdraw
    else none

module _ {F Key Signed : Type 0} (fl : Float F) (geth : Geth Key Signed) where
  unfoldable pub check_amount : ℤ → Action → GasPoolBody → Result ℤ → Checked Order
  check_amount c action body (err e) = refused (codes "valid amount (wei integer string) required")
  check_amount c action body (ok amount) =
      if is_neg amount
      then refused (codes "valid amount (wei integer string) required")
      else passed (record {
        chain_id = c;
        action = action;
        ep = geth.hex_to_address (trim_space body.entrypoint_address);
        amount = amount;
        to = trim_space body.to_address;
      })

  unfoldable pub check_body : ℤ → GasPoolBody → Checked Order
  unfolding read_action check_amount to_big_int
  check_body c body = elim (read_action body.action) [
    | none ↦ refused (codes "action required: 'DEPOSIT' or 'WITHDRAW'")
    | some action ↦
        if not (geth.is_hex_address (trim_space body.entrypoint_address))
        then refused (codes "valid entrypointAddress required")
        else check_amount c action body (to_big_int fl (str (trim_space body.amount)))
  ]

  -- Where a withdrawal goes: to the wallet itself, if the request names no address.
  unfoldable pub withdraw_to : Text → Account Key → Address
  withdraw_to to owner = if geth.is_hex_address to then geth.hex_to_address to else owner.addr

  unfoldable pub value_of : Order → Option ℤ
  value_of o = elim o.action [ deposit ↦ some o.amount | withdraw ↦ none ]

  unfoldable pub method_of : Order → Text
  method_of o = elim o.action [
    | deposit ↦ codes "depositGlobalGasPool"
    | withdraw ↦ codes "withdrawGlobalGasPool"
  ]

  unfoldable pub args_of : Order → Account Key → List Arg
  unfolding withdraw_to
  args_of o owner = elim o.action [
    | deposit ↦ []
    | withdraw ↦ address (withdraw_to o.to owner) ∷ uint256 o.amount ∷ []
  ]

  unfoldable pub read_sent : Sent × Option GoError → Result (Option (Text × Receipt))
  read_sent (sent, some e) = err e
  read_sent (sent, none) = ok (both sent)

  unfoldable pub response : Action → Text → Option (Text × Receipt) → Option GasPoolResponse
  unfolding gas_fee_of message_of
  response action time none = none
  response action time (some (hash, receipt)) = some (record {
    status = codes "SUCCESS";
    tx_hash = hash;
    gas_fee = gas_fee_of receipt.gas_used receipt.effective_gas_price;
    complete_datetime = time;
    message = message_of action;
  })

  module _ {S : Type 0} (deps : Deps S Key Signed) (now : S → Text) where
    -- The transaction of either action
    unfoldable pub send : Order → Account Key → M S (Option (Text × Receipt))
    unfolding read_sent value_of method_of args_of send_managed_tx
    send o owner s =
        let (out, s') =
          send_managed_tx geth deps o.chain_id owner o.ep (value_of o) (method_of o)
            (args_of o owner) s in
        (read_sent out, s')

    unfoldable pub run_order : Order → M S (Option GasPoolResponse)
    unfolding send response
    run_order o = do
      owner ← deps.primary_bundler o.chain_id
      sent ← send o owner
      λ s. (ok (response o.action (now s) sent), s)

    unfoldable pub perform : Checked Order → S → Outcome GasPoolResponse × S
    unfolding run_order finish write_validation_error
    perform (refused m) s = (responds (write_validation_error m), s)
    perform (passed o) s = let (r, s') = run_order o s in (finish geth r, s')

    -- The handler `Transfer`, on the body as it decodes.
    unfoldable pub handle_transfer : Option GasPoolBody → S → Outcome GasPoolResponse × S
    unfolding perform check_body
    handle_transfer none s = (responds (write_validation_error (codes "invalid JSON body")), s)
    handle_transfer (some body) s = elim (resolve_chain_id deps.getenv body.chain_id) [
      | err e ↦ (responds (write_validation_error (codes "chainId required")), s)
      | ok c ↦ perform (check_body c body) s
    ]
