-- ===== src/Userop/Nonces.antt =====
-- userop/batcher.go: the submission of a batch, in the steps of `Core.Nonces`.
use bundler_go.Base.{ℕ, ℤ, ◌≡◌, List, [], ◌∷◌, Text, codes, none, inl, inr, Result-cases}
use bundler_go.Core.{Deps, options}
use bundler_go.Core.Nonces.{Work, waiting}
use bundler_go.Core.Nonces.Body.{Node, Honest, HasRun, from, unasked, unsent, sent}
use bundler_go.Evm.Client.{Geth, Ethclient, user_ops, address}
use bundler_go.Redis.Exclusion
use bundler_go.Signer.Account.{Account}
use bundler_go.Userop.Batcher.{await_mined, submit_to}
use bundler_go.Userop.Types.{PackedUserOp}

module _ {S Key Signed : Type 0} (geth : Geth Key Signed) (deps : Deps S Key Signed)
    (client : Ethclient S Key Signed) (view : S → Node) (wallet : Account Key) (process : ℕ → ℕ)
    (ttl : ℕ) (lock : Exclusion.State) (work : ℕ → Work) (c : ℕ)
    (honest : Honest geth client view wallet c) where
  await_mined-view : (hash : Text) (s : S) → view (await_mined geth deps client hash s).1 ≡ view s
  unfolding await_mined
  await_mined-view hash s = elim (Result-cases (client.wait_mined hash s).0) [
    | inl (r, e) ↦ rw (e, await_mined) (honest.mining hash s)
    | inr (x, e) ↦ rw (e, await_mined) (honest.mining hash s)
  ]

  module _ (runs : (e : ℕ) × (lock.pc c ≡ Exclusion.critical e)) (fresh : work c ≡ waiting)
      (s : S) where
    pub submit_to-HasRun :
        (chain_id : ℤ) (ep : Text) (ops : List PackedUserOp)
        → HasRun process ttl lock work c
            (view s)
            (view (submit_to geth deps client ep chain_id wallet ops s).1)
    unfolding submit_to
    submit_to-HasRun chain_id ep ops =
        elim (Result-cases (client.pending_nonce_at wallet.addr s).0) [
          | inr (x, e) ↦
              rw (e, submit_to)
                (unasked geth client view wallet process ttl lock work c honest runs fresh s)
          | inl (nonce, e) ↦ elim (Result-cases (geth.transactor wallet.priv chain_id)) [
            | inr (x, k) ↦
                rw (e, submit_to)
                  (rw (k, submit_to)
                    (unsent geth client view wallet process ttl lock work c honest runs fresh s))
            | inl (u, k) ↦
                let o = options wallet chain_id nonce none in
                let to = geth.hex_to_address ep in
                let args = user_ops ops ∷ address 0 ∷ [] in
                let t =
                  client.transact o to (codes "handleOps") args
                    (client.pending_nonce_at wallet.addr s).1 in
                let r =
                  sent geth client view wallet process ttl lock work c honest runs fresh s o to
                    (codes "handleOps") args e in
                elim (Result-cases t.0) [
                  | inr (x, m) ↦ rw (e, submit_to) (rw (k, submit_to) (rw (m, submit_to) r))
                  | inl (tx, m) ↦
                      rw (e, submit_to)
                        (rw (k, submit_to)
                          (rw (m, submit_to)
                            (from geth client view wallet process ttl lock work c honest (view s)
                              (await_mined-view (geth.tx_hash tx) t.1) r)))
                ]
          ]
        ]
