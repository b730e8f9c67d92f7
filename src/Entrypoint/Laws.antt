-- ===== src/Entrypoint/Laws.antt =====
-- entrypoint.go: what an answered deposit or withdrawal reports.
use bundler_go.Base.{
  ℕ, ℤ, pos, [], ◌∷◌, Text, codes, Option, none, some, ok, GoError, ◌≡◌, ◌≢◌, refl, sym, ap, ◌∙◌,
  inl, inr, if◌then◌else◌, >>=-ok, ok_inj, err-ne-ok, Result-cases, format_int,
}
use bundler_go.Chain.{resolve_chain_id}
use bundler_go.Core.{Deps, Sent, both, send_managed_tx}
use bundler_go.Core.Sending.{send_managed_tx-Complete}
use bundler_go.Evm.Client.{Geth, Receipt, address, uint256}
use bundler_go.Evm.Number.{Float, str, to_big_int}
use bundler_go.Evm.NumberLaws.{to_big_int-format_int}
use bundler_go.Httpx.Contract.{Ends, write_validation_error-Allowed, finish-Ends}
use bundler_go.Signer.Account.{Account}
use bundler_go.Transfer.Request.{Checked, refused, passed}
use bundler_go.Entrypoint.{
  GasPoolBody, GasPoolResponse, Order, deposit, withdraw, scale, gas_fee_of, message_of,
  withdraw_to, value_of, method_of, args_of, read_sent, response, send, run_order, check_body,
  perform, handle_transfer,
}

-- The fee that is answered is read back, by the reader of the program's own requests, as the gas used
-- times the price, and as 0 where the receipt has no price.
gas_fee_of-read :
    {F : Type 0} (fl : Float F) (gas_used : ℕ) (price : Option ℤ)
    → to_big_int fl (str (gas_fee_of gas_used price))
      ≡ ok (elim price [ none ↦ pos 0 | some p ↦ scale gas_used p ])
unfolding gas_fee_of format_int
gas_fee_of-read fl gas_used none = to_big_int-format_int fl (pos 0)
gas_fee_of-read fl gas_used (some p) = to_big_int-format_int fl (scale gas_used p)

module _ {F S Key Signed : Type 0} (fl : Float F) (geth : Geth Key Signed)
    (deps : Deps S Key Signed) (now : S → Text) where
  read_sent-both :
      (out : Sent × Option GoError) {d : Option (Text × Receipt)}
      → (out.1 ≡ none
          → (h : Text) × (r : Receipt) × (out.0 ≡ record { tx = some h; receipt = some r }))
      → read_sent fl geth out ≡ ok d
      → (h : Text) × (r : Receipt) × (out ≡ (record { tx = some h; receipt = some r }, none))
        × (d ≡ some (h, r))
  unfolding read_sent
  read_sent-both (sent, some e) complete h = absurd (err-ne-ok h)
  read_sent-both (sent, none) complete h =
      let (hash, r, e) = complete refl in
      (hash, r, ap (λ (x : Sent). (x, none)) e, ok_inj (sym h ∙ ap (λ (x : Sent). ok (both x)) e))

  -- A deposit or withdrawal that is answered was sent by the first wallet of the pool to the entry point
  -- and mined. A deposit carries the amount; a withdrawal carries nothing and names the amount and
  -- the receiver, which is the address of the request if it is one, or else the wallet. The answer has
  -- the hash of that transaction and as the fee its gas times its price, or 0 where the receipt has no
  -- price.
  pub run_order-Sent :
      (o : Order) (s : S) {out : Option GasPoolResponse}
      → (run_order fl geth deps now o s).0 ≡ ok out
      → (owner : Account Key) × (hash : Text) × (receipt : Receipt) × (v w : S)
        × ((deps.primary_bundler o.chain_id s).0 ≡ ok owner)
        × ((send_managed_tx geth deps o.chain_id owner o.ep
              (elim o.action [ deposit ↦ some o.amount | withdraw ↦ none ])
              (elim o.action [
                | deposit ↦ codes "depositGlobalGasPool"
                | withdraw ↦ codes "withdrawGlobalGasPool"
              ])
              (elim o.action [
                | deposit ↦ []
                | withdraw ↦
                    address
                      (if geth.is_hex_address o.to then geth.hex_to_address o.to else owner.addr)
                    ∷ uint256 o.amount
                    ∷ []
              ])
              v).0
            ≡ (record { tx = some hash; receipt = some receipt }, none))
        × (out
            ≡ some (record {
              status = codes "SUCCESS";
              tx_hash = hash;
              gas_fee = elim receipt.effective_gas_price [
                | none ↦ codes "0"
                | some price ↦ format_int (scale receipt.gas_used price)
              ];
              complete_datetime = now w;
              message = elim o.action [
                | deposit ↦ codes "deposit completed"
                | withdraw ↦ codes "withdraw completed"
              ];
            }))
  unfolding run_order send value_of method_of args_of response gas_fee_of message_of withdraw_to
  run_order-Sent o s h =
      let (owner, e1, h1) = >>=-ok (deps.primary_bundler o.chain_id) _ s h in
      let v = (deps.primary_bundler o.chain_id s).1 in
      let (d, e2, h2) = >>=-ok (send fl geth deps now o owner) _ v h1 in
      let (hash, receipt, sent, read) =
        read_sent-both _
          (send_managed_tx-Complete geth deps o.chain_id owner o.ep (value_of fl geth o)
            (method_of fl geth o) (args_of fl geth o owner) v)
          e2 in
      let w = (send fl geth deps now o owner v).1 in
      (
        owner,
        hash,
        receipt,
        v,
        w,
        e1,
        sent,
        ok_inj (sym h2 ∙ ap (λ x. ok (response fl geth o.action (now w) x)) read),
      )

  run_order-some :
      (o : Order) (s : S) (out : Option GasPoolResponse)
      → (run_order fl geth deps now o s).0 ≡ ok out
      → out ≢ none
  run_order-some o s out h k =
      let (owner, hash, receipt, v, w, e1, sent, read) = run_order-Sent o s h in cc

  perform-Ends : (o : Checked Order) (s : S) → Ends (perform fl geth deps now o s).0
  unfolding perform
  perform-Ends (refused m) s = write_validation_error-Allowed GasPoolResponse m
  perform-Ends (passed o) s = finish-Ends GasPoolResponse geth _ (run_order-some o s)

  -- The handler ends every request with an answer of the contract: it never reads a transaction or a
  -- receipt that is nil.
  pub handle_transfer-Ends :
      (body : Option GasPoolBody) (s : S) → Ends (handle_transfer fl geth deps now body s).0
  unfolding handle_transfer
  handle_transfer-Ends none s =
      write_validation_error-Allowed GasPoolResponse (codes "invalid JSON body")
  handle_transfer-Ends (some body) s =
      elim (Result-cases (resolve_chain_id deps.getenv body.chain_id)) [
        | inr (e, z) ↦
            rw (z, handle_transfer)
              (write_validation_error-Allowed GasPoolResponse (codes "chainId required"))
        | inl (c, z) ↦ rw (z, handle_transfer) (perform-Ends (check_body fl geth c body) s)
      ]
