-- ===== src/Transfer/SendLaws.antt =====
-- transfer/send.go: who signs a transfer, and which locks it holds at once.
use bundler_go.Base.{
  ℤ, ◌≡◌, ◌≢◌, refl, sym, ap, subst, ◌∙◌, ◌++◌, Text, codes, true, false, has_prefix, inl, inr, ok,
  M, ◌==◌, Bool-cases, Result-cases, ok_inj, err-ne-ok, arith,
}
use bundler_go.Core.{Deps, nonce_lock_key}
use bundler_go.Core.LockKey.{nonce_lock_key-inj}
use bundler_go.Evm.Client.{Geth, Address}
use bundler_go.Redis.Lock.{with_nonce_lock}
use bundler_go.Signer.Account.{Account}
use bundler_go.Transfer.Send.{Sent, resolve_source_wallet, send_under_lock, send_native}
use bundler_go.Transfer.Account.{account_lock_key}

module _ {S Key Signed : Type 0} (geth : Geth Key Signed) (deps : Deps S Key Signed) where
  resolve_source_wallet-from :
      (from : Address) (method : Text) (s : S) (acc : Account Key)
      → (resolve_source_wallet geth deps from method s).0 ≡ ok acc
      → acc.addr ≡ from
  unfolding resolve_source_wallet
  resolve_source_wallet-from from method s acc h = elim (Result-cases (deps.server_key1 s).0) [
    | inr (x, e) ↦ absurd (err-ne-ok (rw (e, resolve_source_wallet) at h))
    | inl (k1, e) ↦ elim (Result-cases (deps.server_key2 (deps.server_key1 s).1).0) [
      | inr (x, k) ↦ absurd (err-ne-ok (rw (e, k, resolve_source_wallet) at h))
      | inl (k2, k) ↦ elim (Bool-cases (from == k1.addr)) [
        | inl m ↦
            let q : k1 ≡ acc = ok_inj (rw (e, k, m, resolve_source_wallet) at h) in
            ap (λ (x : Account Key). x.addr) (sym q) ∙ ground (arith, m)
        | inr m ↦ elim (Bool-cases (from == k2.addr)) [
          | inl n ↦
              let q : k2 ≡ acc = ok_inj (rw (e, k, m, n, resolve_source_wallet) at h) in
              ap (λ (x : Account Key). x.addr) (sym q) ∙ ground (arith, n)
          | inr n ↦ absurd (err-ne-ok (rw (e, k, m, n, resolve_source_wallet) at h))
        ]
      ]
    ]
  ]

  send_under_lock-from :
      (acc : Account Key) (c : ℤ) (body : M S Text) (s : S) (r : Sent)
      → (send_under_lock geth deps acc c body s).0 ≡ ok r
      → r.from ≡ geth.address_hex acc.addr
  unfolding send_under_lock
  send_under_lock-from acc c body s r h =
      elim (Result-cases
        (with_nonce_lock deps.rdb (nonce_lock_key c (geth.address_hex acc.addr)) body s).0) [
          | inr (x, e) ↦ absurd (err-ne-ok (rw (e, send_under_lock) at h))
          | inl (hash, e) ↦ ap (λ (x : Sent). x.from) (sym (ok_inj (rw (e, send_under_lock) at h)))
        ]

  -- A native transfer that succeeds has found a server key whose address is the sender that was asked
  -- for, and its answer names that address.
  send_native-from :
      (c : ℤ) (from to : Address) (value : ℤ) (s : S) (r : Sent)
      → (send_native geth deps c from to value s).0 ≡ ok r
      → (acc : Account Key) × ((resolve_source_wallet geth deps from (codes "sendNative") s).0
          ≡ ok acc)
        × (acc.addr ≡ from)
        × (r.from ≡ geth.address_hex from)
  unfolding send_native
  send_native-from c from to value s r h =
      elim (Result-cases (resolve_source_wallet geth deps from (codes "sendNative") s).0) [
        | inr (x, e) ↦ absurd (err-ne-ok (rw (e, send_native) at h))
        | inl (acc, e) ↦
            let same = resolve_source_wallet-from from (codes "sendNative") s acc e in
            elim (Result-cases
              (deps.client c (resolve_source_wallet geth deps from (codes "sendNative") s).1).0) [
                | inr (x, k) ↦ absurd (err-ne-ok (rw (e, k, send_native) at h))
                | inl (client, k) ↦ (
                  acc,
                  e,
                  same,
                  send_under_lock-from acc c _ _ r (rw (e, k, send_native) at h)
                      ∙ ap geth.address_hex same,
                )
              ]
      ]

account-no_hex : (a s : Text) → codes "account:" ++ s ≡ a → has_prefix a (codes "0x") ≡ false
account-no_hex a s e = subst (λ t. has_prefix t (codes "0x") ≡ false) e refl

module _ {Key Signed : Type 0} (geth : Geth Key Signed) where
  account_lock_key-shape :
      (c : ℤ) (account : Address)
      → account_lock_key geth c account
        ≡ nonce_lock_key c (codes "account:" ++ geth.address_hex account)
  unfolding account_lock_key nonce_lock_key
  account_lock_key-shape c account = refl

  -- Where addresses are written with "0x", the lock of an account is never the lock of a wallet: a
  -- transfer that holds its account's lock while the batch takes a wallet's does not wait for itself.
  account_lock_key-ne :
      (c d : ℤ) (account wallet : Address)
      → ((a : Address) → has_prefix (geth.address_hex a) (codes "0x") ≡ true)
      → account_lock_key geth c account ≢ nonce_lock_key d (geth.address_hex wallet)
  account_lock_key-ne c d account wallet h e =
      let same =
        nonce_lock_key-inj c d (codes "account:" ++ geth.address_hex account)
          (geth.address_hex wallet) (sym (account_lock_key-shape c account) ∙ e) in
      let no = account-no_hex (geth.address_hex wallet) (geth.address_hex account) same.1 in
      ground (arith, h wallet, no)
