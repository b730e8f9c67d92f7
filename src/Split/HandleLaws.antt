-- ===== src/Split/HandleLaws.antt =====
-- split/split.go: what a request that is answered with a payment has passed.
use bundler_go.Base.{ℕ, ℤ, pos, Text, some, ok, ◌≡◌, refl, ap, ◌∙◌, inl, inr, Result-cases}
use bundler_go.Evm.Client.{Geth}
use bundler_go.Evm.Number.{Float}
use bundler_go.Base.{◌<ℤ◌}
use bundler_go.Chain.{resolve_chain_id}
use bundler_go.Core.{Deps}
use bundler_go.Evm.Send.{End}
use bundler_go.Httpx.{Response, result, responds}
use bundler_go.Split.Execute.{total, execute}
use bundler_go.Split.ExecuteLaws.{execute-Sends, execute-some}
use bundler_go.Split.Types.{SplitResult}
use bundler_go.Split.Request.{perform, handle_execute}
use bundler_go.Split.Request.{ExecBody, check_body}
use bundler_go.Split.Types.{Params}
use bundler_go.Transfer.Request.{Checked, refused, passed}
use bundler_go.Httpx.Contract.{
  Ends, write_validation_error-Allowed, write_validation_error-ne-result, finish-Ends,
  finish-result,
}
use bundler_go.Base.{codes, Option, none}
use bundler_go.Split.RequestLaws.{FitsCall, check_body-FitsCall}

module _ {F S Key Signed : Type 0} (fl : Float F) (geth : Geth Key Signed)
    (clock : Text → S → End × ℕ) (pause : S → S) (deps : Deps S Key Signed) where
  perform-result :
      (o : Checked Params) (s : S) {r : SplitResult} {out : Response SplitResult}
      → (perform fl geth clock pause deps o s).0 ≡ responds out
      → out.body ≡ result r
      → (p : Params) × (o ≡ passed p)
        × ((execute geth clock pause deps p s).0 ≡ ok (some r))
        × (out.status ≡ 200)
  unfolding perform
  perform-result (refused m) s h k = absurd (write_validation_error-ne-result m h k)
  perform-result (passed p) s h k =
      let q = finish-result SplitResult geth (execute geth clock pause deps p s).0 h k in
      (p, refl, q.0, q.1)

  -- A request that is answered with a payment is answered with status 200, and the payment is one that
  -- the service executed, for the chain that was resolved. None of its four amounts is negative, its
  -- `permitV` fits a byte, both parts of its permit's signature have 32 bytes, and its sum of
  -- amounts is positive.
  pub handle_execute-FitsCall :
      (b : ExecBody F) (s : S) {r : SplitResult} {out : Response SplitResult}
      → (handle_execute fl geth clock pause deps (some b) s).0 ≡ responds out
      → out.body ≡ result r
      → (c : ℤ) × (p : Params) × (resolve_chain_id deps.getenv b.chain_id ≡ ok c)
        × ((execute geth clock pause deps p s).0 ≡ ok (some r))
        × (out.status ≡ 200)
        × (p.chain_id ≡ c)
        × FitsCall fl geth p
        × (pos 0 <ℤ total p)
  unfolding handle_execute
  handle_execute-FitsCall b s h k = elim (Result-cases (resolve_chain_id deps.getenv b.chain_id)) [
    | inr (x, e) ↦ absurd (
        write_validation_error-ne-result (codes "chainId required") (rw (e, handle_execute) at h) k)
    | inl (c, e) ↦
        let (p, pass, run, status) =
          perform-result (check_body fl geth c b) s (rw (e, handle_execute) at h) k in
        let fit = check_body-FitsCall fl geth c b pass in
        (c, p, e, run, status, fit.3, fit.4, (execute-Sends geth clock pause deps p s run).0)
  ]

  perform-Ends : (o : Checked Params) (s : S) → Ends (perform fl geth clock pause deps o s).0
  unfolding perform
  perform-Ends (refused m) s = write_validation_error-Allowed SplitResult m
  perform-Ends (passed p) s =
      finish-Ends SplitResult geth _
        (λ out h z. execute-some geth clock pause deps p s (h ∙ ap ok z))

  -- The handler answers every request by the contract, and reads no nil pointer.
  pub handle_execute-Ends :
      (body : Option (ExecBody F)) (s : S) → Ends (handle_execute fl geth clock pause deps body s).0
  unfolding handle_execute
  handle_execute-Ends none s =
      write_validation_error-Allowed SplitResult (codes "invalid JSON body")
  handle_execute-Ends (some b) s = elim (Result-cases (resolve_chain_id deps.getenv b.chain_id)) [
    | inr (x, e) ↦
        rw (e, handle_execute)
          (write_validation_error-Allowed SplitResult (codes "chainId required"))
    | inl (c, e) ↦ rw (e, handle_execute) (perform-Ends (check_body fl geth c b) s)
  ]
