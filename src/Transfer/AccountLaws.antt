-- ===== src/Transfer/AccountLaws.antt =====
-- transfer/send.go and account.go: where a transfer out of an account can panic.
use bundler_go.Base.{
  ℤ, pos, Text, codes, none, some, Option-cases, Result-cases, ok, M, ◌∷◌, [], ◌≢◌, ap, ◌∙◌, inl,
  inr, ok_inj, err-ne-ok, some-ne-none,
}
use bundler_go.Core.{Deps}
use bundler_go.Evm.Client.{Geth, Ethclient, Address, address, uint256}
use bundler_go.Redis.Lock.{with_nonce_lock}
use bundler_go.Redis.Returns.{with_nonce_lock-ok}
use bundler_go.Transfer.Account.{
  read_nonce, account_call, account_op, account_lock_key, submit_account_op, account_body,
  account_under_lock, send_via_account, send_via_account_native, send_via_account_erc20,
}
use bundler_go.Transfer.Gas.{ParseGwei, MaxFees, user_op_max_fee_fields}
use bundler_go.Transfer.GasLaws.{NoNan, user_op_max_fee_fields-some}
use bundler_go.Userop.Types.{PackedUserOp}

module _ {F S Key Signed : Type 0} (geth : Geth Key Signed) (deps : Deps S Key Signed)
    (parse : ParseGwei F) (enqueue : ℤ → PackedUserOp → M S Text) where
  submit_account_op-some :
      (c : ℤ) (k1 k2 : Key) (from : Address) (nonce : ℤ) (to : Address) (value : ℤ) (input : Text)
      (fees : MaxFees) (s : S)
      → (submit_account_op geth deps parse enqueue c k1 k2 from nonce to value input
          (some fees)
          s).0
        ≢ ok none
  unfolding submit_account_op
  submit_account_op-some c k1 k2 from nonce to value input fees s h =
      elim (Result-cases (account_call geth k1 k2 from nonce to value input)) [
        | inr (x, e) ↦ err-ne-ok (rw (e, submit_account_op) at h)
        | inl (call_data, e) ↦
            elim (Result-cases (enqueue c (account_op from nonce call_data fees) s).0) [
              | inr (x, k) ↦ err-ne-ok (rw (e, k, submit_account_op) at h)
              | inl (hash, k) ↦ some-ne-none (ok_inj (rw (e, k, submit_account_op) at h))
            ]
      ]

  module _ (good : NoNan parse deps.getenv) where
    account_body-some :
        (client : Ethclient S Key Signed) (c : ℤ) (k1 k2 : Key) (from to : Address) (value : ℤ)
        (input : Text) (s : S)
        → (account_body geth deps parse enqueue client c k1 k2 from to value input s).0 ≢ ok none
    unfolding account_body
    account_body-some client c k1 k2 from to value input s h =
        let s1 = (client.call from (codes "nonce") [] s).1 in
        elim (Result-cases (client.call from (codes "nonce") [] s).0) [
          | inr (x, e) ↦ err-ne-ok (rw (e, account_body) at h)
          | inl (out, e) ↦ elim (Result-cases (read_nonce out)) [
            | inr (x, k) ↦ err-ne-ok (rw (e, k, account_body) at h)
            | inl (nonce, k) ↦
                let fees = user_op_max_fee_fields parse deps.getenv client c s1 in
                elim (Result-cases fees.0) [
                  | inr (x, m) ↦ err-ne-ok (rw (e, k, m, account_body) at h)
                  | inl (o, m) ↦ elim (Option-cases o) [
                    | inl z ↦
                        user_op_max_fee_fields-some parse deps.getenv client c s1 good (m ∙ ap ok z)
                    | inr (f, z) ↦
                        submit_account_op-some c k1 k2 from nonce to value input f fees.1
                          (rw (e, k, m, z, account_body) at h)
                  ]
                ]
          ]
        ]

    account_under_lock-some :
        (client : Ethclient S Key Signed) (c : ℤ) (k1 k2 : Key) (from to : Address) (value : ℤ)
        (input : Text) (s : S)
        → (account_under_lock geth deps parse enqueue client c k1 k2 from to value input s).0
          ≢ ok none
    unfolding account_under_lock
    account_under_lock-some client c k1 k2 from to value input s h =
        let body = account_body geth deps parse enqueue client c k1 k2 from to value input in
        elim (Result-cases (with_nonce_lock deps.rdb (account_lock_key geth c from) body s).0) [
          | inr (x, e) ↦ err-ne-ok (rw (e, account_under_lock) at h)
          | inl (o, e) ↦ elim (Option-cases o) [
            | inl z ↦
                let (v, k) =
                  with_nonce_lock-ok deps.rdb (account_lock_key geth c from) body s (e ∙ ap ok z) in
                account_body-some client c k1 k2 from to value input v k
            | inr (hash, z) ↦ some-ne-none (ok_inj (rw (e, z, account_under_lock) at h))
          ]
        ]

    send_via_account-some :
        (c : ℤ) (from to : Address) (value : ℤ) (input : Text) (s : S)
        → (send_via_account geth deps parse enqueue c from to value input s).0 ≢ ok none
    unfolding send_via_account
    send_via_account-some c from to value input s h =
        let s1 = (deps.client c s).1 in
        elim (Result-cases (deps.client c s).0) [
          | inr (x, e) ↦ err-ne-ok (rw (e, send_via_account) at h)
          | inl (client, e) ↦ elim (Result-cases (deps.server_key1 s1).0) [
            | inr (x, k) ↦ err-ne-ok (rw (e, k, send_via_account) at h)
            | inl (k1, k) ↦ elim (Result-cases (deps.server_key2 (deps.server_key1 s1).1).0) [
              | inr (x, m) ↦ err-ne-ok (rw (e, k, m, send_via_account) at h)
              | inl (k2, m) ↦
                  account_under_lock-some client c k1.priv k2.priv from to value input
                    (deps.server_key2 (deps.server_key1 s1).1).1
                    (rw (e, k, m, send_via_account) at h)
            ]
          ]
        ]

    -- Where no setting of the fees is NaN, no transfer out of an account panics.
    pub send_via_account_native-some :
        (c : ℤ) (from to : Address) (value : ℤ) (s : S)
        → (send_via_account_native geth deps parse enqueue c from to value s).0 ≢ ok none
    unfolding send_via_account_native
    send_via_account_native-some c from to value s = send_via_account-some c from to value [] s

    pub send_via_account_erc20-some :
        (c : ℤ) (from token to : Address) (amount : ℤ) (s : S)
        → (send_via_account_erc20 geth deps parse enqueue c from token to amount s).0 ≢ ok none
    unfolding send_via_account_erc20
    send_via_account_erc20-some c from token to amount s h =
        elim (Result-cases (geth.pack (codes "transfer") (address to ∷ uint256 amount ∷ []))) [
          | inr (x, e) ↦ err-ne-ok (rw (e, send_via_account_erc20) at h)
          | inl (call_data, e) ↦
              send_via_account-some c from token (pos 0) call_data s
                (rw (e, send_via_account_erc20) at h)
        ]
