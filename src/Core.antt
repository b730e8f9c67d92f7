-- ===== src/Core.antt =====
-- internal/core: what the handlers share. `Deps` is the interface to the other components, over the
-- state `S` of the process and the world outside.
pub mod LockKey
pub mod Sending
pub mod Nonces
use bundler_go.Base.{
  ℕ, ℤ, ◌++◌, List, [], ◌∷◌, Text, codes, Option, none, some, Result, ok, err, GoError, M,
  format_int,
}
use bundler_go.Chain.{Env}
use bundler_go.Evm.Client.{Geth, Ethclient, Address, Arg, TransactOpts, Receipt}
use bundler_go.Redis.Lock.{Rdb, with_nonce_lock}
use bundler_go.Signer.Account.{Account}

-- `Deps`: the registry's environment, the clients, the signers and the locker.
pub record Deps (S Key Signed : Type 0) : Type 0 where
  pub getenv : Env
  pub client : ℤ → M S (Ethclient S Key Signed)
  pub bundler_pool : ℤ → M S (List (Account Key))
  pub primary_bundler : ℤ → M S (Account Key)
  pub server_key1 : M S (Account Key)
  pub server_key2 : M S (Account Key)
  pub rdb : Option (Rdb S)

-- `NonceLockKey`
unfoldable pub nonce_lock_key : ℤ → Text → Text
nonce_lock_key chain_id address = codes "nonce:" ++ (format_int chain_id ++ (codes ":" ++ address))

-- What `SendManagedTx` returns beside its error: the hash and the receipt as far as it got.
pub record Sent : Type 0 where
  pub tx : Option Text
  pub receipt : Option Receipt

abbrev pub nothing_sent : Sent
nothing_sent = record { tx = none; receipt = none }

-- The transaction's hash and the receipt, where neither is nil.
abbrev pub both : Sent → Option (Text × Receipt)
both sent = elim sent.tx [
  | none ↦ none
  | some h ↦ elim sent.receipt [ none ↦ none | some r ↦ some (h, r) ]
]

-- `opts.Nonce`, `opts.Value`
abbrev pub options : {Key : Type 0} → Account Key → ℤ → ℕ → Option ℤ → TransactOpts Key
options acc chain_id nonce value = record {
  key = acc.priv;
  chain_id = chain_id;
  nonce = nonce;
  value = value;
}

module _ {S Key Signed : Type 0} (geth : Geth Key Signed) where
  -- The wait for the receipt, 90 seconds at most.
  unfoldable pub await : Ethclient S Key Signed → Text → S → (Sent × Option GoError) × S
  await client hash s =
      let (r, s') = client.wait_mined hash s in
      elim r [
        | err e ↦ ((record { tx = some hash; receipt = none }, some e), s')
        | ok receipt ↦ ((record { tx = some hash; receipt = some receipt }, none), s')
      ]

  -- The body under the lock: the pending nonce, the transaction, the wait.
  unfoldable pub managed_body :
      Ethclient S Key Signed
      → ℤ
      → Account Key
      → Address
      → Option ℤ
      → Text
      → List Arg
      → M S (Sent × Option GoError)
  unfolding await
  managed_body client chain_id acc to value method args s =
      let (r, s1) = client.pending_nonce_at acc.addr s in
      elim r [
        | err e ↦ (ok (nothing_sent, some e), s1)
        | ok nonce ↦ elim (geth.transactor acc.priv chain_id) [
          | err e ↦ (ok (nothing_sent, some e), s1)
          | ok u ↦
              let (t, s2) = client.transact (options acc chain_id nonce value) to method args s1 in
              elim t [
                | err e ↦ (ok (nothing_sent, some e), s2)
                | ok tx ↦ let (out, s3) = await client (geth.tx_hash tx) s2 in (ok out, s3)
              ]
        ]
      ]

  -- `SendManagedTx`
  unfoldable pub send_managed_tx :
      Deps S Key Signed
      → ℤ
      → Account Key
      → Address
      → Option ℤ
      → Text
      → List Arg
      → S
      → (Sent × Option GoError) × S
  unfolding managed_body
  send_managed_tx deps chain_id acc to value method args s =
      let (c, s1) = deps.client chain_id s in
      elim c [
        | err e ↦ ((nothing_sent, some e), s1)
        | ok client ↦
            let (r, s2) =
              with_nonce_lock deps.rdb (nonce_lock_key chain_id (geth.address_hex acc.addr))
                (managed_body client chain_id acc to value method args) s1 in
            elim r [ err e ↦ ((nothing_sent, some e), s2) | ok out ↦ (out, s2) ]
      ]
