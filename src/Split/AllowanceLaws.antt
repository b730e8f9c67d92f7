-- ===== src/Split/AllowanceLaws.antt =====
-- split/exec.go: `ensureAllowance` where the first approval was mined and reverted: the relayer's nonce
-- is used then, and the reset is sent at that nonce again.
use bundler_go.Base.{
  ℕ, ℤ, pos, ◌≤◌, ◌<◌, ◌∷◌, [], Text, codes, false, none, ok, err, GoError, ◌≡◌, ◌≢◌, inl, inr,
  err-ne-ok, arith, >>=-ok, Result-cases, Option-cases,
}
use bundler_go.Evm.Client.{Geth, Ethclient, Address, CallMsg, Tx, Output, address, uint256}
use bundler_go.Evm.Gas.{Fees, fee_from_provider, estimate_gas, dynamic_fees, positive}
use bundler_go.Evm.Send.{End, build_tx, sign_and_send}
use bundler_go.Signer.Account.{Account}
use bundler_go.Split.Allowance.{
  sufficient, approve, reset_and_approve, after_approve, ensure_allowance,
}
use bundler_go.Split.Build.{send_call}
use bundler_go.Transfer.Send.{hash_of}

-- A node counts the relayer's mined transactions, never down, and takes none whose nonce is below the
-- count. A signed transaction has the nonce that it was built with.
pub record NodeLaws {S Key Signed : Type 0} (geth : Geth Key Signed)
    (client : Ethclient S Key Signed) : Type 0 where
  pub mined : S → ℕ
  pub nonce_of : Signed → ℕ
  pub signed_nonce :
      (t : Tx) (k : Key) {x : Signed} → geth.sign_tx t k ≡ ok x → nonce_of x ≡ t.nonce
  pub refused :
      (x : Signed) (s : S)
      → nonce_of x < mined s
      → (e : GoError) × ((client.send_transaction x s).0 ≡ err e)
  pub tip_mined : (s : S) → mined s ≤ mined (client.suggest_gas_tip_cap s).1
  pub head_mined : (s : S) → mined s ≤ mined (client.header_by_number s).1
  pub price_mined : (s : S) → mined s ≤ mined (client.suggest_gas_price s).1
  pub estimate_mined : (m : CallMsg) (s : S) → mined s ≤ mined (client.estimate_gas m s).1

module _ {S Key Signed : Type 0} (geth : Geth Key Signed) (client : Ethclient S Key Signed)
    (laws : NodeLaws geth client) where
  fees_mined : (s : S) → laws.mined s ≤ laws.mined (fee_from_provider client s).1
  unfolding fee_from_provider
  fees_mined s =
      let a = laws.tip_mined s in
      let b = laws.head_mined (client.suggest_gas_tip_cap s).1 in
      let c = laws.price_mined (client.header_by_number (client.suggest_gas_tip_cap s).1).1 in
      elim (Option-cases (
        dynamic_fees (positive (client.suggest_gas_tip_cap s).0)
          (positive (client.header_by_number (client.suggest_gas_tip_cap s).1).0))) [
            | inl e ↦ rw (e, fee_from_provider) ground (arith, a, b, c)
            | inr (f, e) ↦ rw (e, fee_from_provider) ground (arith, a, b)
          ]

  limit_mined :
      (m : CallMsg) (a b c : ℕ) (s : S)
      → laws.mined s ≤ laws.mined (estimate_gas client m a b c s).1
  unfolding estimate_gas
  limit_mined m a b c s = elim (Result-cases (client.estimate_gas m s).0) [
    | inl (n, e) ↦ rw (e, estimate_gas) (laws.estimate_mined m s)
    | inr (x, e) ↦ rw (e, estimate_gas) (laws.estimate_mined m s)
  ]

  sign_and_send-used :
      (c : ℤ) (k : Key) (nonce : ℕ) (to : Address) (value : ℤ) (input : Text) (gas : ℕ)
      (fees : Fees) (s : S) {hash : Text}
      → nonce < laws.mined s
      → hash_of (sign_and_send geth client c k nonce to value input gas fees s).0 ≢ ok hash
  unfolding sign_and_send hash_of
  sign_and_send-used c k nonce to value input gas fees s used h =
      elim (Result-cases (geth.sign_tx (build_tx c nonce to value input gas fees) k)) [
        | inr (x, e) ↦ err-ne-ok (rw (e, sign_and_send) at h)
        | inl (x, e) ↦
            let n : laws.nonce_of x ≡ nonce = laws.signed_nonce _ k e in
            let (y, refusal) = laws.refused x s (ground (arith, n, used)) in
            err-ne-ok (rw (e, refusal, sign_and_send, hash_of) at h)
      ]

  send_call-used :
      (c : ℤ) (acc : Account Key) (nonce : ℕ) (m : CallMsg) (value : ℤ) (min max_cap fallback : ℕ)
      (s : S) {hash : Text}
      → nonce < laws.mined s
      → (send_call geth client c acc nonce m value min max_cap fallback s).0 ≢ ok hash
  unfolding send_call
  send_call-used c acc nonce m value min max_cap fallback s used h =
      let (fees, e1, h1) = >>=-ok (fee_from_provider client) _ s h in
      let s1 = (fee_from_provider client s).1 in
      let (gas, e2, h2) = >>=-ok (estimate_gas client m min max_cap fallback) _ s1 h1 in
      let a = fees_mined s in
      let b = limit_mined m min max_cap fallback s1 in
      sign_and_send-used c acc.priv nonce m.to value m.input gas fees
        (estimate_gas client m min max_cap fallback s1).1 (ground (arith, a, b, used)) h2

  module _ (clock : Text → S → End × ℕ) (c : ℤ) (relayer : Account Key)
      (token router owner : Address) where
    approve-used :
        (amount : ℤ) (nonce : ℕ) (s : S) {hash : Text}
        → nonce < laws.mined s
        → (approve geth client clock c relayer token router owner amount nonce s).0 ≢ ok hash
    unfolding approve
    approve-used amount nonce s used h =
        let (input, e1, h1) =
          >>=-ok
            (λ (v : S). (geth.pack (codes "approve") (address router ∷ uint256 amount ∷ []), v)) _ s
            h in
        let (hash', e2, h2) =
          >>=-ok
            (send_call geth client c relayer nonce
              (record { from = owner; to = token; value = none; input = input }) (pos 0) 45_000
              200_000 120_000)
            _ s h1 in
        send_call-used c relayer nonce _ (pos 0) 45_000 200_000 120_000 s used e2

    reset_and_approve-used :
        (needed : ℤ) (nonce : ℕ) (s : S) {out : Text × ℕ}
        → nonce < laws.mined s
        → (reset_and_approve geth client clock c relayer token router owner needed nonce s).0
          ≢ ok out
    unfolding reset_and_approve
    reset_and_approve-used needed nonce s used h =
        elim (Result-cases
          (approve geth client clock c relayer token router owner (pos 0) nonce s).0) [
            | inl (hash, e) ↦ approve-used (pos 0) nonce s used e
            | inr (x, e) ↦ err-ne-ok (rw (e, reset_and_approve) at h)
          ]

    -- Where the first approval failed although the node has taken its nonce, as it does where the token
    -- reverts, the reset comes too late: it is sent at the used nonce, and the whole call fails.
    pub ensure_allowance-used :
        (needed : ℤ) (nonce : ℕ) (s : S) {o : Output} {x : GoError} {out : Text × ℕ}
        → (client.call token (codes "allowance") (address owner ∷ address router ∷ []) s).0 ≡ ok o
        → sufficient needed o ≡ false
        → (approve geth client clock c relayer token router owner needed nonce
            (client.call token (codes "allowance") (address owner ∷ address router ∷ []) s).1).0
          ≡ err x
        → nonce
          < laws.mined
              (approve geth client clock c relayer token router owner needed nonce
                (client.call token (codes "allowance") (address owner ∷ address router ∷ []) s).1).1
        → (ensure_allowance geth client clock c relayer token router owner needed nonce s).0
          ≢ ok out
    unfolding ensure_allowance after_approve
    ensure_allowance-used needed nonce s asked short failed used h =
        reset_and_approve-used needed nonce _ used
          (rw (asked, short, failed, ensure_allowance, after_approve) at h)
