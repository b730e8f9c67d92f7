-- ===== src/Core/Sending.antt =====
-- core/tx.go: what `SendManagedTx` returns where it returns no error.
use bundler_go.Base.{
  ℤ, ◌≡◌, refl, List, Text, Option, none, some, inl, inr, Result, ok, err, GoError, M, Result-cases,
  subst, some-ne-none,
}
use bundler_go.Evm.Client.{Geth, Ethclient, Address, Arg, Receipt}
use bundler_go.Redis.Lock.{Rdb, with_nonce_lock, under_lock, take_lock}
use bundler_go.Signer.Account.{Account}
use bundler_go.Core.{Deps, Sent, options, await, managed_body, send_managed_tx, nonce_lock_key}

-- An outcome that carries no error has both a transaction and a receipt.
abbrev pub Complete : Sent × Option GoError → Type 0
Complete (sent, some e) = Unit
Complete (sent, none) =
    (h : Text) × (r : Receipt) × (sent ≡ record { tx = some h; receipt = some r })

abbrev BodyComplete : Result (Sent × Option GoError) → Type 0
BodyComplete (err e) = Unit
BodyComplete (ok out) = Complete out

Complete-read :
    (out : Sent × Option GoError)
    → Complete out
    → out.1 ≡ none
    → (h : Text) × (r : Receipt) × (out.0 ≡ record { tx = some h; receipt = some r })
Complete-read (sent, none) c e = c
Complete-read (sent, some x) c e = absurd (some-ne-none e)

module _ {S Key Signed : Type 0} (geth : Geth Key Signed) where
  await-Complete :
      (client : Ethclient S Key Signed) (hash : Text) (s : S)
      → Complete (await geth client hash s).0
  unfolding await
  await-Complete client hash s = elim (Result-cases (client.wait_mined hash s).0) [
    | inl (r, e) ↦ rw (e, await) (hash, r, refl)
    | inr (x, e) ↦ rw (e, await) tt
  ]

  managed_body-Complete :
      (client : Ethclient S Key Signed) (chain_id : ℤ) (acc : Account Key) (to : Address)
      (value : Option ℤ) (method : Text) (args : List Arg) (s : S)
      → BodyComplete (managed_body geth client chain_id acc to value method args s).0
  unfolding managed_body
  managed_body-Complete client chain_id acc to value method args s =
      elim (Result-cases (client.pending_nonce_at acc.addr s).0) [
        | inr (x, e) ↦ rw (e, managed_body) tt
        | inl (nonce, e) ↦ elim (Result-cases (geth.transactor acc.priv chain_id)) [
          | inr (x, k) ↦ rw (e, managed_body) (rw (k, managed_body) tt)
          | inl (u, k) ↦
              let s1 = (client.pending_nonce_at acc.addr s).1 in
              elim (Result-cases
                (client.transact (options acc chain_id nonce value) to method args s1).0) [
                  | inr (x, m) ↦
                      rw (e, managed_body) (rw (k, managed_body) (rw (m, managed_body) tt))
                  | inl (tx, m) ↦
                      rw (e, managed_body)
                        (rw (k, managed_body)
                          (rw (m, managed_body) (await-Complete client (geth.tx_hash tx) _)))
                ]
        ]
      ]

  with_nonce_lock-result :
      (rdb : Option (Rdb S)) (key : Text) (body : M S (Sent × Option GoError)) (s : S)
      → ((v : S) → BodyComplete (body v).0)
      → BodyComplete (with_nonce_lock rdb key body s).0
  unfolding with_nonce_lock
  with_nonce_lock-result none key body s h = h s
  with_nonce_lock-result (some rdb) key body s h = go (take_lock rdb key s)
    where
      go : (t : Result Text × S) → BodyComplete (under_lock rdb key body t).0
      go (err e, v) = unfold under_lock in tt
      go (ok token, v) = unfold under_lock in (h v)

  managed_Complete :
      (deps : Deps S Key Signed) (chain_id : ℤ) (acc : Account Key) (to : Address)
      (value : Option ℤ) (method : Text) (args : List Arg) (s : S)
      → Complete (send_managed_tx geth deps chain_id acc to value method args s).0
  unfolding send_managed_tx
  managed_Complete deps chain_id acc to value method args s =
      elim (Result-cases (deps.client chain_id s).0) [
        | inr (x, e) ↦ rw (e, send_managed_tx) tt
        | inl (client, e) ↦
            let s1 = (deps.client chain_id s).1 in
            let body = managed_body geth client chain_id acc to value method args in
            let key = nonce_lock_key chain_id (geth.address_hex acc.addr) in
            let b =
              with_nonce_lock-result deps.rdb key body s1
                (managed_body-Complete client chain_id acc to value method args) in
            elim (Result-cases (with_nonce_lock deps.rdb key body s1).0) [
              | inr (x, k) ↦ rw (e, send_managed_tx) (rw (k, send_managed_tx) tt)
              | inl (out, k) ↦
                  rw (e, send_managed_tx) (rw (k, send_managed_tx) (subst BodyComplete k b))
            ]
      ]

  -- Where `SendManagedTx` returns no error, it returns a transaction and its receipt, so that the
  -- handlers may read both: on no path is one of them nil.
  pub send_managed_tx-Complete :
      (deps : Deps S Key Signed) (chain_id : ℤ) (acc : Account Key) (to : Address)
      (value : Option ℤ) (method : Text) (args : List Arg) (s : S)
      → (send_managed_tx geth deps chain_id acc to value method args s).0.1 ≡ none
      → (h : Text) × (r : Receipt) × ((send_managed_tx geth deps chain_id acc to value method args
            s).0.0
          ≡ record { tx = some h; receipt = some r })
  send_managed_tx-Complete deps chain_id acc to value method args s e =
      Complete-read _ (managed_Complete deps chain_id acc to value method args s) e
