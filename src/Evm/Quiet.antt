-- ===== src/Evm/Quiet.antt =====
-- evm/gas.go: what the questions for the fees and for a gas limit leave as it is.
use bundler_go.Base.{ℕ, ◌≡◌, ◌∙◌, inl, inr, Option-cases, Result-cases}
use bundler_go.Evm.Client.{Ethclient, CallMsg}
use bundler_go.Evm.Gas.{fee_from_provider, estimate_gas, dynamic_fees, positive}

-- The node's questions about fees and gas do not change what `f` reads of the world.
pub record Quiet {S Key Signed V : Type 0} (client : Ethclient S Key Signed) (f : S → V)
    : Type 0 where
  pub tip : (s : S) → f (client.suggest_gas_tip_cap s).1 ≡ f s
  pub head : (s : S) → f (client.header_by_number s).1 ≡ f s
  pub price : (s : S) → f (client.suggest_gas_price s).1 ≡ f s
  pub estimate : (m : CallMsg) (s : S) → f (client.estimate_gas m s).1 ≡ f s

module _ {S Key Signed V : Type 0} (client : Ethclient S Key Signed) (f : S → V)
    (quiet : Quiet client f) where
  pub fee_from_provider-same : (s : S) → f (fee_from_provider client s).1 ≡ f s
  unfolding fee_from_provider
  fee_from_provider-same s =
      let a = quiet.tip s in
      let b = quiet.head (client.suggest_gas_tip_cap s).1 in
      let c = quiet.price (client.header_by_number (client.suggest_gas_tip_cap s).1).1 in
      elim (Option-cases (
        dynamic_fees (positive (client.suggest_gas_tip_cap s).0)
          (positive (client.header_by_number (client.suggest_gas_tip_cap s).1).0))) [
            | inl e ↦ rw (e, fee_from_provider) (c ∙ (b ∙ a))
            | inr (fees, e) ↦ rw (e, fee_from_provider) (b ∙ a)
          ]

  pub estimate_gas-same :
      (m : CallMsg) (min max_cap fallback : ℕ) (s : S)
      → f (estimate_gas client m min max_cap fallback s).1 ≡ f s
  unfolding estimate_gas
  estimate_gas-same m min max_cap fallback s = elim (Result-cases (client.estimate_gas m s).0) [
    | inl (n, e) ↦ rw (e, estimate_gas) (quiet.estimate m s)
    | inr (x, e) ↦ rw (e, estimate_gas) (quiet.estimate m s)
  ]
