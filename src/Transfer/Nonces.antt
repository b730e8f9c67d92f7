-- ===== src/Transfer/Nonces.antt =====
-- transfer/send.go: the body of a transfer out of a server's wallet, in the steps of `Core.Nonces`, and
-- with it those of core/tx.go and userop/batcher.go.
use bundler_go.Base.{ℕ, ℤ, ◌≡◌, ◌∙◌, subst, Text, Option, Result-cases, inl, inr, List, some}
use bundler_go.Core.{Deps, managed_body}
use bundler_go.Core.Nonces.{Work, waiting}
use bundler_go.Core.Nonces.Body.{Node, HasRun, Run, idle, unasked, managed_body-HasRun}
use bundler_go.Core.Nonces.Wallet.{Signing, sign_and_send-Run}
use bundler_go.Evm.Client.{Geth, Ethclient, Address, Arg, CallMsg}
use bundler_go.Evm.Gas.{Fees, fee_from_provider, estimate_gas}
use bundler_go.Evm.Quiet.{fee_from_provider-same, estimate_gas-same}
use bundler_go.Redis.Exclusion
use bundler_go.Signer.Account.{Account}
use bundler_go.Userop.Batcher.{submit_to}
use bundler_go.Userop.Nonces.{submit_to-HasRun}
use bundler_go.Userop.Types.{PackedUserOp}
use bundler_go.Transfer.Send.{sign_and_send_wallet, wallet_body}

module _ {S Key Signed : Type 0} (geth : Geth Key Signed) (deps : Deps S Key Signed)
    (client : Ethclient S Key Signed) (view : S → Node) (acc : Account Key) (process : ℕ → ℕ)
    (ttl : ℕ) (lock : Exclusion.State) (work : ℕ → Work) (c : ℕ)
    (signing : Signing geth client view acc c) (runs : (e : ℕ) × (lock.pc c ≡ Exclusion.critical e))
    (fresh : work c ≡ waiting) where
  abbrev Ran : S → S → Type 0
  Ran = Run geth client view acc process ttl lock work c signing.honest

  sign_and_send_wallet-Run :
      (chain_id : ℤ) (to : Address) (value : Option ℤ) (input : Text) (gas : ℕ) (fees : Fees)
      (s : S)
      → Ran s (sign_and_send_wallet geth deps client chain_id acc to value input gas fees s).1
  unfolding sign_and_send_wallet
  sign_and_send_wallet-Run chain_id to value input gas fees s =
      elim (Result-cases (client.pending_nonce_at acc.addr s).0) [
        | inr (x, e) ↦
            rw (e, sign_and_send_wallet)
              (unasked geth client view acc process ttl lock work c signing.honest runs fresh s)
        | inl (nonce, e) ↦
            rw (e, sign_and_send_wallet)
              (sign_and_send-Run geth client view acc process ttl lock work c signing runs fresh s
                chain_id nonce to _ input gas fees e)
      ]

  -- Questions about fees and gas come before the nonce.
  later : {s t u : S} → view t ≡ view s → Ran t u → Ran s u
  later {u = u} same = subst (λ v. HasRun process ttl lock work c v (view u)) same

  wallet_body-Run :
      (chain_id : ℤ) (msg : CallMsg) (value : ℤ) (min fallback : ℕ) (s : S)
      → Ran s (wallet_body geth deps client chain_id acc msg value min fallback s).1
  unfolding wallet_body
  wallet_body-Run chain_id msg value min fallback s =
      let s1 = (fee_from_provider client s).1 in
      let asked = fee_from_provider-same client view signing.quiet s in
      let idle_at = idle geth client view acc process ttl lock work c signing.honest runs in
      elim (Result-cases (fee_from_provider client s).0) [
        | inr (x, e) ↦ rw (e, wallet_body) (later asked (idle_at s1))
        | inl (fees, e) ↦
            let s2 = (estimate_gas client msg min 2_000_000 fallback s1).1 in
            let same = estimate_gas-same client view signing.quiet msg min 2_000_000 fallback s1 in
            elim (Result-cases (estimate_gas client msg min 2_000_000 fallback s1).0) [
              | inr (x, k) ↦ rw (e, k, wallet_body) (later (same ∙ asked) (idle_at s2))
              | inl (gas, k) ↦
                  rw (e, k, wallet_body)
                    (later (same ∙ asked)
                      (sign_and_send_wallet-Run chain_id msg.to (some value) msg.input gas fees s2))
            ]
      ]

  -- At a node that answers as go-ethereum documents it, and whatever the client answers, the body of
  -- `SendManagedTx`, the submission of a batch and a transfer out of a server's wallet run as steps of a
  -- call that holds the wallet's lock, and leave the node and the other calls as those steps do.
  pub bodies-HasRun :
      (chain_id : ℤ) (to : Address) (value : Option ℤ) (method : Text) (args : List Arg) (ep : Text)
      (ops : List PackedUserOp) (msg : CallMsg) (amount : ℤ) (min fallback : ℕ) (s : S)
      → HasRun process ttl lock work c
          (view s)
          (view (managed_body geth client chain_id acc to value method args s).1)
        × HasRun process ttl lock work c
            (view s)
            (view (submit_to geth deps client ep chain_id acc ops s).1)
        × HasRun process ttl lock work c
            (view s)
            (view (wallet_body geth deps client chain_id acc msg amount min fallback s).1)
  bodies-HasRun chain_id to value method args ep ops msg amount min fallback s = (
    managed_body-HasRun geth client view acc process ttl lock work c signing.honest runs fresh s
        chain_id to value method args,
    submit_to-HasRun geth deps client view acc process ttl lock work c signing.honest runs fresh s
        chain_id ep ops,
    wallet_body-Run chain_id msg amount min fallback s,
  )
