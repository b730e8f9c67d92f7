-- ===== src/Split/Build.antt =====
-- split/exec.go: `callBig` and `buildAndSend`. An error comes with no hash here: both callers drop it.
use bundler_go.Base.{
  ℕ, ℤ, ◌+ℤ◌, ◌++◌, List, [], ◌∷◌, Text, codes, text_eq, some, Result, ok, err, new_error, M, ◌>>=◌,
  ◌>>◌, lift, check,
}
use bundler_go.Evm.Client.{
  Geth, Ethclient, Address, Arg, address, uint256, big_ptr, uint8, bytes, bytes32, CallMsg, Output,
  big, addr, word, other, type_name,
}
use bundler_go.Evm.Gas.{fee_from_provider, estimate_gas}
use bundler_go.Evm.Number.{sign65}
use bundler_go.Evm.Send.{sign_and_send}
use bundler_go.Transfer.Send.{hash_of}
use bundler_go.Signer.Account.{Account}
use bundler_go.Split.TypedData.{typed_data_hash}
use bundler_go.Split.Types.{Params, PayerSplitMessage}

unfoldable pub read_big : Text → Output → Result ℤ
unfolding type_name
read_big method (big n) = ok n
read_big method (addr a) =
    err (new_error (method ++ (codes ": unexpected type " ++ type_name (addr a))))
read_big method (word w) =
    err (new_error (method ++ (codes ": unexpected type " ++ type_name (word w))))
read_big method (other t) = err (new_error (method ++ (codes ": unexpected type " ++ t)))

unfoldable pub read_digest : Output → Result Text
unfolding type_name
read_digest (word w) = ok w
read_digest (big n) =
    err (new_error (codes "hashTypedDataPayerSplit: unexpected type " ++ type_name (big n)))
read_digest (addr a) =
    err (new_error (codes "hashTypedDataPayerSplit: unexpected type " ++ type_name (addr a)))
read_digest (other t) = err (new_error (codes "hashTypedDataPayerSplit: unexpected type " ++ t))

unfoldable pub split_message : Params → Address → ℤ → ℤ → PayerSplitMessage
split_message p payer epoch nonce = record {
  payer = payer;
  erc20_token = p.erc20_token;
  recipient0 = p.recipient0;
  recipient1 = p.recipient1;
  native_amt0 = p.native_amount0;
  native_amt1 = p.native_amount1;
  erc20_amt0 = p.erc20_amount0;
  erc20_amt1 = p.erc20_amount1;
  signer_epoch = epoch;
  nonce = nonce;
}

-- The arguments that the two methods of the router share.
unfoldable pub hash_args : Params → Address → ℤ → List Arg
hash_args p payer nonce =
    address payer
    ∷ address p.erc20_token
    ∷ address p.recipient0
    ∷ address p.recipient1
    ∷ uint256 p.native_amount0
    ∷ uint256 p.native_amount1
    ∷ uint256 p.erc20_amount0
    ∷ uint256 p.erc20_amount1
    ∷ uint256 nonce
    ∷ []

unfoldable pub execute_args : Params → Address → ℤ → Text → Text → List Arg
unfolding hash_args
execute_args p payer nonce sig0 sig1 =
    hash_args p payer nonce
    ++ (bytes sig0
        ∷ bytes sig1
        ∷ big_ptr p.permit_deadline
        ∷ big_ptr p.permit_amount
        ∷ uint8 p.permit_v
        ∷ bytes32 p.permit_r
        ∷ bytes32 p.permit_s
        ∷ [])

module _ {S Key Signed : Type 0} (geth : Geth Key Signed) (client : Ethclient S Key Signed) where
  -- `callBig`
  unfoldable pub call_big : Address → Text → List Arg → M S ℤ
  unfolding read_big
  call_big contract method args = do
    out ← client.call contract method args
    lift (read_big method out)

  -- A transaction that calls a contract, with the node's fees and an estimated limit.
  unfoldable pub send_call : ℤ → Account Key → ℕ → CallMsg → ℤ → ℕ → ℕ → ℕ → M S Text
  unfolding hash_of
  send_call chain_id acc nonce msg value min max_cap fallback = do
    fees ← fee_from_provider client
    gas_limit ← estimate_gas client msg min max_cap fallback
    λ s.
        let (out, s') =
          sign_and_send geth client chain_id acc.priv nonce msg.to value msg.input gas_limit fees
            s in
        (hash_of out, s')

  -- The two signatures, server_key1's first, and the call that carries them.
  unfoldable pub split_call : Params → Address → ℤ → Text → Account Key → Account Key → Result Text
  unfolding execute_args sign65
  split_call p payer nonce digest s1 s2 = elim (sign65 geth digest s1.priv) [
    | err e ↦ err e
    | ok sig0 ↦ elim (sign65 geth digest s2.priv) [
      | err e ↦ err e
      | ok sig1 ↦ geth.pack (codes "executeWithSignatures") (execute_args p payer nonce sig0 sig1)
    ]
  ]

  -- `buildAndSend`
  unfoldable pub build_and_send :
      Params → Address → Address → Account Key → Account Key → Account Key → ℤ → ℤ → ℕ → M S Text
  unfolding typed_data_hash split_message read_digest split_call send_call
  build_and_send p router payer relayer s1 s2 epoch nonce eoa_nonce = do
    digest ← lift (typed_data_hash geth p.chain_id router (split_message p payer epoch nonce))
    out ← client.call router (codes "hashTypedDataPayerSplit") (hash_args p payer nonce)
    on_chain ← lift (read_digest out)
    check (text_eq digest on_chain)
        (new_error (codes "EIP-712 digest mismatch (check chainId / router / signerEpoch)"))
    call_data ← lift (split_call p payer nonce digest s1 s2)
    let total = p.native_amount0 +ℤ p.native_amount1
    send_call p.chain_id relayer eoa_nonce
        (record { from = payer; to = router; value = some total; input = call_data }) total 180_000
        3_000_000 300_000
