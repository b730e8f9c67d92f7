-- ===== src/Transfer/Account.antt =====
-- transfer/send.go and account.go: a transfer out of an account, as a user operation with a call that
-- both server keys sign. The batcher's `Enqueue` is a parameter.
use bundler_go.Base.{
  ℤ, pos, ◌++◌, [], ◌∷◌, Text, codes, Option, none, some, Result, ok, err, new_error, M, format_int,
}
use bundler_go.Core.{Deps}
use bundler_go.Evm.Client.{
  Geth, Ethclient, Address, address, uint256, bytes, bytes_list, bytes32, Output, big, addr, word,
  other, type_name,
}
use bundler_go.Evm.Number.{copy32, sign65}
use bundler_go.Redis.Lock.{with_nonce_lock}
use bundler_go.Transfer.Gas.{ParseGwei, MaxFees, user_op_max_fee_fields}
use bundler_go.Userop.Types.{PackedUserOp}
use bundler_go.Transfer.Send.{Sent}

unfoldable pub read_nonce : Output → Result ℤ
unfolding type_name
read_nonce (big n) = ok n
read_nonce (addr a) =
    err (new_error (codes "account nonce: unexpected type " ++ type_name (addr a)))
read_nonce (word w) =
    err (new_error (codes "account nonce: unexpected type " ++ type_name (word w)))
read_nonce (other t) = err (new_error (codes "account nonce: unexpected type " ++ t))

module _ {Key Signed : Type 0} (geth : Geth Key Signed) where
  -- `nonce:<chain>:account:<address>`
  unfoldable pub account_lock_key : ℤ → Address → Text
  account_lock_key chain_id from =
      codes "nonce:" ++ (format_int chain_id ++ (codes ":account:" ++ geth.address_hex from))

  -- `getDigest`
  unfoldable pub get_digest : Address → ℤ → Address → ℤ → Text → Result Text
  get_digest account nonce to value data_bytes =
      elim (geth.encode (
        address account
        ∷ uint256 nonce
        ∷ address to
        ∷ uint256 value
        ∷ bytes32 (copy32 geth (geth.keccak256 data_bytes))
        ∷ [])) [ err e ↦ err e | ok enc ↦ ok (geth.text_hash (geth.keccak256 enc)) ]

  -- The two signatures, server_key1's first, and the call that carries them.
  unfoldable pub signed_call : Key → Key → Text → Address → ℤ → Text → Result Text
  unfolding sign65
  signed_call k1 k2 digest to value data_bytes = elim (sign65 geth digest k1) [
    | err e ↦ err e
    | ok sig1 ↦ elim (sign65 geth digest k2) [
      | err e ↦ err e
      | ok sig2 ↦
          geth.pack (codes "executeWithSignatures")
            (address to ∷ uint256 value ∷ bytes data_bytes ∷ bytes_list (sig1 ∷ sig2 ∷ []) ∷ [])
    ]
  ]

  unfoldable pub account_call : Key → Key → Address → ℤ → Address → ℤ → Text → Result Text
  unfolding get_digest signed_call
  account_call k1 k2 account nonce to value data_bytes =
      elim (get_digest account nonce to value data_bytes) [
        | err e ↦ err e
        | ok digest ↦ signed_call k1 k2 digest to value data_bytes
      ]

-- The operation of a transfer out of an account.
unfoldable pub account_op : Address → ℤ → Text → MaxFees → PackedUserOp
account_op from nonce call_data (max_fee, max_priority) = record {
  sender = from;
  nonce = nonce;
  init_code = [];
  call_data = call_data;
  call_gas_limit = pos 1_200_000;
  verification_gas_limit = pos 400_000;
  pre_verification_gas = pos 100_000;
  max_fee_per_gas = pos max_fee;
  max_priority_fee_per_gas = pos max_priority;
  paymaster_and_data = [];
  signature = [];
}

module _ {F S Key Signed : Type 0} (geth : Geth Key Signed) (deps : Deps S Key Signed)
    (parse : ParseGwei F) (enqueue : ℤ → PackedUserOp → M S Text) where
  -- The operation, from the account's nonce and the fees, is enqueued; none is a panic.
  unfoldable pub submit_account_op :
      ℤ → Key → Key → Address → ℤ → Address → ℤ → Text → Option MaxFees → M S (Option Text)
  unfolding account_call account_op
  submit_account_op chain_id k1 k2 from nonce to value data_bytes none s = (ok none, s)
  submit_account_op chain_id k1 k2 from nonce to value data_bytes (some fees) s =
      elim (account_call geth k1 k2 from nonce to value data_bytes) [
        | err e ↦ (err e, s)
        | ok call_data ↦
            let (r, s') = enqueue chain_id (account_op from nonce call_data fees) s in
            elim r [ err e ↦ (err e, s') | ok hash ↦ (ok (some hash), s') ]
      ]

  -- The body under the account's lock: the nonce on chain, the fees, the signatures, the queue.
  unfoldable pub account_body :
      Ethclient S Key Signed → ℤ → Key → Key → Address → Address → ℤ → Text → M S (Option Text)
  unfolding read_nonce submit_account_op
  account_body client chain_id k1 k2 from to value data_bytes s =
      let (o, s1) = client.call from (codes "nonce") [] s in
      elim o [
        | err e ↦ (err e, s1)
        | ok out ↦ elim (read_nonce out) [
          | err e ↦ (err e, s1)
          | ok nonce ↦
              let (f, s2) = user_op_max_fee_fields parse deps.getenv client chain_id s1 in
              elim f [
                | err e ↦ (err e, s2)
                | ok fees ↦ submit_account_op chain_id k1 k2 from nonce to value data_bytes fees s2
              ]
        ]
      ]

  unfoldable pub account_under_lock :
      Ethclient S Key Signed → ℤ → Key → Key → Address → Address → ℤ → Text → M S (Option Sent)
  unfolding account_body account_lock_key
  account_under_lock client chain_id k1 k2 from to value data_bytes s =
      let (r, s') =
        with_nonce_lock deps.rdb (account_lock_key geth chain_id from)
          (account_body client chain_id k1 k2 from to value data_bytes) s in
      elim r [
        | err e ↦ (err e, s')
        | ok none ↦ (ok none, s')
        | ok (some hash) ↦ (ok (some (record { tx_hash = hash; from = geth.address_hex from })), s')
      ]

  -- `sendViaAccount`
  unfoldable pub send_via_account : ℤ → Address → Address → ℤ → Text → M S (Option Sent)
  unfolding account_under_lock
  send_via_account chain_id from to value data_bytes s =
      let (c, s1) = deps.client chain_id s in
      elim c [
        | err e ↦ (err e, s1)
        | ok client ↦
            let (r1, s2) = deps.server_key1 s1 in
            elim r1 [
              | err e ↦ (err e, s2)
              | ok k1 ↦
                  let (r2, s3) = deps.server_key2 s2 in
                  elim r2 [
                    | err e ↦ (err e, s3)
                    | ok k2 ↦
                        account_under_lock client chain_id k1.priv k2.priv from to value data_bytes
                          s3
                  ]
            ]
      ]

  -- `SendViaAccountNative`
  unfoldable pub send_via_account_native : ℤ → Address → Address → ℤ → M S (Option Sent)
  unfolding send_via_account
  send_via_account_native chain_id from to value s = send_via_account chain_id from to value [] s

  -- `SendViaAccountErc20`
  unfoldable pub send_via_account_erc20 : ℤ → Address → Address → Address → ℤ → M S (Option Sent)
  unfolding send_via_account
  send_via_account_erc20 chain_id from token to amount s =
      elim (geth.pack (codes "transfer") (address to ∷ uint256 amount ∷ [])) [
        | err e ↦ (err e, s)
        | ok call_data ↦ send_via_account chain_id from token (pos 0) call_data s
      ]
