-- ===== src/Transfer/Send.antt =====
-- transfer/send.go: a transfer that a server key signs.
use bundler_go.Base.{
  ℕ, ℤ, pos, ◌++◌, [], ◌∷◌, Text, codes, Option, none, some, Result, ok, err, new_error, M,
  if◌then◌else◌, ◌==◌,
}
use bundler_go.Core.{Deps, nonce_lock_key}
use bundler_go.Evm.Client.{Geth, Ethclient, Address, address, uint256, CallMsg}
use bundler_go.Evm.Gas.{Fees, fee_from_provider, estimate_gas}
use bundler_go.Evm.Send.{Outcome, sign_and_send}
use bundler_go.Redis.Lock.{with_nonce_lock}
use bundler_go.Signer.Account.{Account}

-- `Result`
pub record Sent : Type 0 where
  pub tx_hash : Text
  pub from : Text

-- A hash beside an error is dropped by the callers.
unfoldable pub hash_of : Outcome → Result Text
hash_of (hash, none) = ok hash
hash_of (hash, some e) = err e

module _ {S Key Signed : Type 0} (geth : Geth Key Signed) (deps : Deps S Key Signed) where
  -- `resolveSourceWallet`: both keys are loaded before either is compared.
  unfoldable pub resolve_source_wallet : Address → Text → M S (Account Key)
  resolve_source_wallet from method s =
      let (r1, t1) = deps.server_key1 s in
      elim r1 [
        | err e ↦ (err e, t1)
        | ok k1 ↦
            let (r2, t2) = deps.server_key2 t1 in
            elim r2 [
              | err e ↦ (err e, t2)
              | ok k2 ↦
                  let missing = err (
                    new_error
                      (method ++ codes ": from must match server_key1 or server_key2 EOA")) in
                  (
                    if from == k1.addr then ok k1 else if from == k2.addr then ok k2 else missing,
                    t2,
                  )
            ]
      ]

  -- `signAndSend`, with 0 where the value is nil.
  unfoldable pub sign_and_send_wallet :
      Ethclient S Key Signed → ℤ → Account Key → Address → Option ℤ → Text → ℕ → Fees → M S Text
  unfolding hash_of
  sign_and_send_wallet client chain_id acc to value data_bytes gas_limit fees s =
      let (n, s1) = client.pending_nonce_at acc.addr s in
      elim n [
        | err e ↦ (err e, s1)
        | ok nonce ↦
            let v : ℤ = elim value [ none ↦ pos 0 | some x ↦ x ] in
            let (out, s2) =
              sign_and_send geth client chain_id acc.priv nonce to v data_bytes gas_limit fees s1 in
            (hash_of out, s2)
      ]

  -- The body under the lock of `SendNative` and `SendErc20`, which differ in the call and the limits.
  unfoldable pub wallet_body :
      Ethclient S Key Signed → ℤ → Account Key → CallMsg → ℤ → ℕ → ℕ → M S Text
  unfolding sign_and_send_wallet
  wallet_body client chain_id acc msg value min fallback s =
      let (f, s1) = fee_from_provider client s in
      elim f [
        | err e ↦ (err e, s1)
        | ok fees ↦
            let (g, s2) = estimate_gas client msg min 2_000_000 fallback s1 in
            elim g [
              | err e ↦ (err e, s2)
              | ok gas_limit ↦
                  sign_and_send_wallet client chain_id acc msg.to (some value) msg.input gas_limit
                    fees s2
            ]
      ]

  unfoldable pub send_under_lock : Account Key → ℤ → M S Text → M S Sent
  send_under_lock acc chain_id body s =
      let (r, s') =
        with_nonce_lock deps.rdb (nonce_lock_key chain_id (geth.address_hex acc.addr)) body s in
      elim r [
        | err e ↦ (err e, s')
        | ok hash ↦ (ok (record { tx_hash = hash; from = geth.address_hex acc.addr }), s')
      ]

  -- `SendNative`
  unfoldable pub send_native : ℤ → Address → Address → ℤ → M S Sent
  unfolding resolve_source_wallet wallet_body send_under_lock
  send_native chain_id from to value s =
      let (a, s1) = resolve_source_wallet from (codes "sendNative") s in
      elim a [
        | err e ↦ (err e, s1)
        | ok acc ↦
            let (c, s2) = deps.client chain_id s1 in
            elim c [
              | err e ↦ (err e, s2)
              | ok client ↦
                  send_under_lock acc chain_id
                    (wallet_body client chain_id acc
                      (record { from = acc.addr; to = to; value = some value; input = [] }) value
                      21_000 200_000)
                    s2
            ]
      ]

  -- `SendErc20`
  unfoldable pub send_erc20 : ℤ → Address → Address → Address → ℤ → M S Sent
  unfolding resolve_source_wallet wallet_body send_under_lock
  send_erc20 chain_id from token to amount s =
      let (a, s1) = resolve_source_wallet from (codes "sendErc20") s in
      elim a [
        | err e ↦ (err e, s1)
        | ok acc ↦
            let (c, s2) = deps.client chain_id s1 in
            elim c [
              | err e ↦ (err e, s2)
              | ok client ↦ elim (geth.pack (codes "transfer") (address to ∷ uint256 amount ∷ [])) [
                | err e ↦ (err e, s2)
                | ok call_data ↦
                    send_under_lock acc chain_id
                      (wallet_body client chain_id acc
                        (record { from = acc.addr; to = token; value = none; input = call_data })
                        (pos 0) 55_000 250_000)
                      s2
              ]
            ]
      ]
