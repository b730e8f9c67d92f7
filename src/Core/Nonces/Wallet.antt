-- ===== src/Core/Nonces/Wallet.antt =====
-- evm/gas.go: a transaction that `SignAndSend` signs and sends, in the steps of `Nonces`. A signed
-- transaction has the nonce that it was built with.
use bundler_go.Base.{ℕ, ℤ, ◌≡◌, subst, Text, ok, Result-cases, inl, inr}
use bundler_go.Core.Nonces.{Work, waiting}
use bundler_go.Core.Nonces.Body.{Node, Honest, Handled, Run, unsent, handled, after_nonce}
use bundler_go.Evm.Client.{Geth, Ethclient, Address, Tx}
use bundler_go.Evm.Gas.{Fees}
use bundler_go.Evm.Quiet.{Quiet}
use bundler_go.Evm.Send.{build_tx, sign_and_send}
use bundler_go.Redis.Exclusion
use bundler_go.Signer.Account.{Account}

-- What go-ethereum documents of a node, for signed transactions of a wallet in a call `c`.
pub record Signing {S Key Signed : Type 0} (geth : Geth Key Signed)
    (client : Ethclient S Key Signed) (view : S → Node) (acc : Account Key) (c : ℕ) : Type 0 where
  pub honest : Honest geth client view acc c
  pub quiet : Quiet client view
  pub nonce_of : Signed → ℕ
  pub signed_nonce :
      (t : Tx) (k : Key) {x : Signed} → geth.sign_tx t k ≡ ok x → nonce_of x ≡ t.nonce
  pub handling :
      (x : Signed) (s : S)
      → Handled c
          (nonce_of x)
          (view s)
          (client.send_transaction x s).0
          (view (client.send_transaction x s).1)

module _ {S Key Signed : Type 0} (geth : Geth Key Signed) (client : Ethclient S Key Signed)
    (view : S → Node) (acc : Account Key) (process : ℕ → ℕ) (ttl : ℕ) (lock : Exclusion.State)
    (work : ℕ → Work) (c : ℕ) (signing : Signing geth client view acc c)
    (runs : (e : ℕ) × (lock.pc c ≡ Exclusion.critical e)) (fresh : work c ≡ waiting) (s : S) where
  pub sign_and_send-Run :
      (chain_id : ℤ) (nonce : ℕ) (to : Address) (value : ℤ) (input : Text) (gas : ℕ) (fees : Fees)
      → (client.pending_nonce_at acc.addr s).0 ≡ ok nonce
      → Run geth client view acc process ttl lock work c signing.honest s
          (sign_and_send geth client chain_id acc.priv nonce to value input gas fees (
            after_nonce geth client view acc process ttl lock work c signing.honest runs fresh s)).1
  unfolding sign_and_send
  sign_and_send-Run chain_id nonce to value input gas fees e =
      let s1 = (client.pending_nonce_at acc.addr s).1 in
      elim (Result-cases
        (geth.sign_tx (build_tx chain_id nonce to value input gas fees) acc.priv)) [
          | inr (x, k) ↦
              rw (k, sign_and_send)
                (unsent geth client view acc process ttl lock work c signing.honest runs fresh s)
          | inl (x, k) ↦
              let t = client.send_transaction x s1 in
              let r =
                handled geth client view acc process ttl lock work c signing.honest runs fresh s
                  nonce t e
                  (subst (λ n. Handled c n (view s1) t.0 (view t.1))
                    (signing.signed_nonce _ acc.priv k) (signing.handling x s1)) in
              elim (Result-cases t.0) [
                | inl (u, m) ↦ rw (k, m, sign_and_send) r
                | inr (y, m) ↦ rw (k, m, sign_and_send) r
              ]
        ]
