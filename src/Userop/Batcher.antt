-- ===== src/Userop/Batcher.antt =====
-- userop/batcher.go: the submission of one batch. The dispatcher's loop is in `Dispatch`.
use bundler_go.Base.{
  ℕ, ℤ, ◌++◌, List, [], ◌∷◌, Text, codes, none, some, ok, err, wrap_error, M, length, replicate,
  if◌then◌else◌, ltb,
}
use bundler_go.Chain.{entry_point}
use bundler_go.Evm.Client.{Geth, Ethclient, user_ops, address}
use bundler_go.Evm.Send.{Outcome}
use bundler_go.Redis.Lock.{with_nonce_lock}
use bundler_go.Signer.Account.{Account}
use bundler_go.Core.{Deps, nonce_lock_key, options}
use bundler_go.Userop.Types.{PackedUserOp}

abbrev pub max_batch_size : ℕ
max_batch_size = 50

-- `submitFunc`: the hash of the transaction, and the error.
abbrev pub Submit : Type 0 → Type 0 → Type 0
Submit S Key = ℤ → Account Key → List PackedUserOp → S → Outcome × S

module _ {S Key Signed : Type 0} (geth : Geth Key Signed) (deps : Deps S Key Signed) where
  -- The wait for the receipt; the hash stays beside an error.
  unfoldable pub await_mined : Ethclient S Key Signed → Text → S → Outcome × S
  await_mined client hash s =
      let (r, s') = client.wait_mined hash s in
      elim r [
        | err e ↦
            ((hash, some (wrap_error (codes "tx.wait (txHash " ++ (hash ++ codes "): ")) e)), s')
        | ok receipt ↦ ((hash, none), s')
      ]

  -- The nonce, the call of `handleOps` with no beneficiary, and the wait.
  unfoldable pub submit_to : Ethclient S Key Signed → Text → Submit S Key
  unfolding await_mined
  submit_to client ep chain_id wallet ops s =
      let (n, s1) = client.pending_nonce_at wallet.addr s in
      elim n [
        | err e ↦ ((codes "", some e), s1)
        | ok nonce ↦ elim (geth.transactor wallet.priv chain_id) [
          | err e ↦ ((codes "", some e), s1)
          | ok u ↦
              let (t, s2) =
                client.transact (options wallet chain_id nonce none) (geth.hex_to_address ep)
                  (codes "handleOps") (user_ops ops ∷ address 0 ∷ []) s1 in
              elim t [
                | err e ↦ ((codes "", some e), s2)
                | ok tx ↦ await_mined client (geth.tx_hash tx) s2
              ]
        ]
      ]

  -- `onchainSubmit`
  unfoldable pub onchain_submit : Submit S Key
  unfolding submit_to
  onchain_submit chain_id wallet ops s =
      let (c, s1) = deps.client chain_id s in
      elim c [
        | err e ↦ ((codes "", some e), s1)
        | ok client ↦ elim (entry_point deps.getenv) [
          | err e ↦ ((codes "", some e), s1)
          | ok ep ↦ submit_to client ep chain_id wallet ops s1
        ]
      ]

  module _ (submit : Submit S Key) where
    unfoldable pub submit_body : ℤ → Account Key → List PackedUserOp → M S Outcome
    submit_body chain_id wallet ops s = let (out, s') = submit chain_id wallet ops s in (ok out, s')

    -- `sendUnderLock`
    unfoldable pub send_under_lock : ℤ → Account Key → List PackedUserOp → S → Outcome × S
    unfolding submit_body
    send_under_lock chain_id wallet ops s =
        let (r, s') =
          with_nonce_lock deps.rdb (nonce_lock_key chain_id (geth.address_hex wallet.addr))
            (submit_body chain_id wallet ops) s in
        elim r [ err e ↦ ((codes "", some e), s') | ok out ↦ (out, s') ]

    -- The retries of a batch that failed, each operation alone.
    unfoldable pub retry_each : ℤ → Account Key → List PackedUserOp → S → List Outcome × S
    unfolding send_under_lock
    retry_each chain_id wallet [] s = ([], s)
    retry_each chain_id wallet (op ∷ ops) s =
        let (out, s1) = send_under_lock chain_id wallet (op ∷ []) s in
        let (rest, s2) = retry_each chain_id wallet ops s1 in (out ∷ rest, s2)

    -- The answers of `flush`, from the batch's transaction: they stand in the batch's order.
    unfoldable pub answer : ℤ → Account Key → List PackedUserOp → Outcome × S → List Outcome × S
    unfolding retry_each
    answer chain_id wallet batch ((hash, none), s) = (replicate (length batch) (hash, none), s)
    answer chain_id wallet batch ((hash, some e), s) =
        let retried = retry_each chain_id wallet batch s in
        if ltb 1 (length batch) then retried else ((codes "", some e) ∷ [], s)

    -- `flush`, on a batch that is not empty.
    unfoldable pub flush : ℤ → Account Key → List PackedUserOp → S → List Outcome × S
    unfolding send_under_lock answer
    flush chain_id wallet batch s =
        answer chain_id wallet batch (send_under_lock chain_id wallet batch s)
