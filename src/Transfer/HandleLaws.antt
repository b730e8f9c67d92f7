-- ===== src/Transfer/HandleLaws.antt =====
-- transfer/transfer.go: what a request that is answered with a transfer has passed.
use bundler_go.Base.{
  ℤ, Text, codes, Option, none, some, Result, ok, err, M, ◌≡◌, ◌≢◌, ◌∙◌, err-ne-ok, some-ne-none,
  ok_inj, refl, ap, subst, inl, inr, Result-cases,
}
use bundler_go.Chain.{resolve_chain_id}
use bundler_go.Core.{Deps}
use bundler_go.Evm.Client.{Geth}
use bundler_go.Evm.Number.{Float}
use bundler_go.Httpx.{Response, result, responds}
use bundler_go.Httpx.Contract.{
  Ends, write_validation_error-Allowed, write_validation_error-ne-result, finish-Ends,
  finish-result,
}
use bundler_go.Transfer.AccountLaws.{send_via_account_native-some, send_via_account_erc20-some}
use bundler_go.Transfer.GasLaws.{NoNan}
use bundler_go.Transfer.Gas.{ParseGwei}
use bundler_go.Transfer.Request.{
  TransferBody, Order, Checked, refused, passed, native, erc20, wallet, account, check_body, sent,
  run_order, perform, transfer,
}
use bundler_go.Transfer.RequestLaws.{ValidOrder, Passes, check_body-Passes}
use bundler_go.Transfer.Send.{Sent, send_native, send_erc20}
use bundler_go.Userop.Types.{PackedUserOp}

module _ {F S Key Signed : Type 0} (fl : Float F) (geth : Geth Key Signed)
    (deps : Deps S Key Signed) (parse : ParseGwei F) (enqueue : ℤ → PackedUserOp → M S Text) where
  perform-result :
      (c : ℤ) (o : Checked Order) (s : S) {r : Sent} {out : Response Sent}
      → (perform fl geth deps parse enqueue c o s).0 ≡ responds out
      → out.body ≡ result r
      → (order : Order) × (o ≡ passed order)
        × ((run_order fl geth deps parse enqueue c order s).0 ≡ ok (some r))
        × (out.status ≡ 200)
  unfolding perform
  perform-result c (refused m) s h k = absurd (write_validation_error-ne-result m h k)
  perform-result c (passed order) s h k =
      let q = finish-result Sent geth (run_order fl geth deps parse enqueue c order s).0 h k in
      (order, refl, q.0, q.1)

  -- A request that is answered with a transfer is answered with status 200, and the transfer is one that
  -- the service made on the chain that was resolved, for an order that was read from the request. The
  -- order's sender, receiver and, for tokens, token were written as addresses, and its amount is not
  -- below zero, and above it for tokens.
  pub transfer-Valid :
      (b : TransferBody F) (s : S) {r : Sent} {out : Response Sent}
      → (transfer fl geth deps parse enqueue (some b) s).0 ≡ responds out
      → out.body ≡ result r
      → (c : ℤ) × (order : Order) × (resolve_chain_id deps.getenv b.chain_id ≡ ok c)
        × (check_body fl geth b ≡ passed order)
        × ValidOrder fl geth order
        × ((run_order fl geth deps parse enqueue c order s).0 ≡ ok (some r))
        × (out.status ≡ 200)
  unfolding transfer
  transfer-Valid b s h k = elim (Result-cases (resolve_chain_id deps.getenv b.chain_id)) [
    | inr (x, e) ↦
        absurd
          (write_validation_error-ne-result (codes "chainId required") (rw (e, transfer) at h) k)
    | inl (c, e) ↦
        let (order, pass, run, status) =
          perform-result c (check_body fl geth b) s (rw (e, transfer) at h) k in
        (c, order, e, pass, subst (Passes fl geth) pass (check_body-Passes fl geth b), run, status)
  ]

  sent-some : (out : Result Sent × S) → (sent fl geth deps parse enqueue out).0 ≢ ok none
  unfolding sent
  sent-some (err e, s) h = err-ne-ok h
  sent-some (ok r, s) h = some-ne-none (ok_inj h)

  module _ (good : NoNan parse deps.getenv) where
    run_order-some :
        (c : ℤ) (order : Order) (s : S)
        → (run_order fl geth deps parse enqueue c order s).0 ≢ ok none
    unfolding run_order
    run_order-some c (native wallet from to value) s =
        sent-some (send_native geth deps c from to value s)
    run_order-some c (native account from to value) s =
        send_via_account_native-some geth deps parse enqueue good c from to value s
    run_order-some c (erc20 wallet from token to amount) s =
        sent-some (send_erc20 geth deps c from token to amount s)
    run_order-some c (erc20 account from token to amount) s =
        send_via_account_erc20-some geth deps parse enqueue good c from token to amount s

    perform-Ends :
        (c : ℤ) (o : Checked Order) (s : S) → Ends (perform fl geth deps parse enqueue c o s).0
    unfolding perform
    perform-Ends c (refused m) s = write_validation_error-Allowed Sent m
    perform-Ends c (passed order) s =
        finish-Ends Sent geth _ (λ out h z. run_order-some c order s (h ∙ ap ok z))

    -- Where no setting of the fees is NaN, the handler answers every request by the contract.
    pub transfer-Ends :
        (body : Option (TransferBody F)) (s : S)
        → Ends (transfer fl geth deps parse enqueue body s).0
    unfolding transfer
    transfer-Ends none s = write_validation_error-Allowed Sent (codes "invalid JSON body")
    transfer-Ends (some b) s = elim (Result-cases (resolve_chain_id deps.getenv b.chain_id)) [
      | inr (x, e) ↦
          rw (e, transfer) (write_validation_error-Allowed Sent (codes "chainId required"))
      | inl (c, e) ↦ rw (e, transfer) (perform-Ends c (check_body fl geth b) s)
    ]
