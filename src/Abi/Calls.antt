-- ===== src/Abi/Calls.antt =====
-- The calls that the program makes are in the ABIs: a library and a node that check every call turn
-- none of them down.
use bundler_go.Base.{ℕ, ℤ, ◌≡◌, ◌++◌, List, [], ◌∷◌, Text, codes, Option, some, ok, err, M, GoError}
use bundler_go.Abi.{
  Abi, router_abi, erc20_allowance_abi, factory_abi, entry_point_abi, account_abi, erc20_abi,
  digest_types, guard_geth, guard_client, guard_deps,
}
use bundler_go.Core.{Deps, Sent, nothing_sent, managed_body, nonce_lock_key}
use bundler_go.Redis.Lock.{with_nonce_lock}
use bundler_go.Transfer.Gas.{ParseGwei}
use bundler_go.Transfer.Account.{account_body, send_via_account_erc20}
use bundler_go.Transfer.Send.{send_erc20}
use bundler_go.Evm.Client.{Geth, Ethclient, Address, Arg, address}
use bundler_go.Evm.Number.{Float}
use bundler_go.Deploy.{deploy, compute_address}
use bundler_go.Entrypoint.{Order, send}
use bundler_go.Evm.Send.{End}
use bundler_go.Signer.Account.{Account}
use bundler_go.Split.Allowance.{ensure_allowance}
use bundler_go.Split.Build.{build_and_send, call_big}
use bundler_go.Split.Types.{Params}
use bundler_go.Userop.Batcher.{submit_to}
use bundler_go.Userop.Types.{PackedUserOp}

abbrev pub account_or_erc20_abi : Abi
account_or_erc20_abi = account_abi ++ erc20_abi

module _ {S Key Signed : Type 0} (geth : Geth Key Signed) (client : Ethclient S Key Signed) where
  abbrev pub SplitTyped : Type 0
  SplitTyped =
      (p : Params) (router payer : Address) (relayer s1 s2 : Account Key) (epoch nonce : ℤ)
      (eoa_nonce : ℕ) (s : S)
      → build_and_send (guard_geth router_abi [] geth) (guard_client router_abi client) p router
          payer relayer s1 s2 epoch nonce eoa_nonce s
        ≡ build_and_send geth client p router payer relayer s1 s2 epoch nonce eoa_nonce s

  abbrev pub AllowanceTyped : Type 0
  AllowanceTyped =
      (clock : Text → S → End × ℕ) (c : ℤ) (relayer : Account Key) (token router owner : Address)
      (needed : ℤ) (nonce : ℕ) (s : S)
      → ensure_allowance (guard_geth erc20_allowance_abi [] geth)
          (guard_client erc20_allowance_abi client) clock c relayer token router owner needed nonce
          s
        ≡ ensure_allowance geth client clock c relayer token router owner needed nonce s

  abbrev pub BatchTyped : Type 0
  BatchTyped =
      (deps : Deps S Key Signed) (ep : Text) (c : ℤ) (wallet : Account Key)
      (ops : List PackedUserOp) (s : S)
      → submit_to geth deps (guard_client entry_point_abi client) ep c wallet ops s
        ≡ submit_to geth deps client ep c wallet ops s

  abbrev pub ViewsTyped : Type 0
  ViewsTyped =
      (router payer : Address) (s : S)
      → (call_big (guard_geth router_abi [] geth) (guard_client router_abi client) router
            (codes "payerNonce") (address payer ∷ []) s
          ≡ call_big geth client router (codes "payerNonce") (address payer ∷ []) s)
        × (call_big (guard_geth router_abi [] geth) (guard_client router_abi client) router
              (codes "signerEpoch") [] s
            ≡ call_big geth client router (codes "signerEpoch") [] s)

  abbrev pub AccountTyped : Type 0 → Type 0
  AccountTyped F =
      (deps : Deps S Key Signed) (parse : ParseGwei F) (enqueue : ℤ → PackedUserOp → M S Text)
      (c : ℤ) (k1 k2 : Key) (from to : Address) (value : ℤ) (input : Text) (s : S)
      → account_body (guard_geth account_abi digest_types geth) deps parse enqueue
          (guard_client account_abi client) c k1 k2 from to value input s
        ≡ account_body geth deps parse enqueue client c k1 k2 from to value input s

module _ {S Key Signed : Type 0} (geth : Geth Key Signed) (deps : Deps S Key Signed) where
  -- A transfer of a token out of an account packs a call of the token, and then one of the account.
  abbrev pub AccountErc20Typed : Type 0 → Type 0
  AccountErc20Typed F =
      (parse : ParseGwei F) (enqueue : ℤ → PackedUserOp → M S Text) (c : ℤ)
      (from token to : Address) (amount : ℤ) (s : S)
      → send_via_account_erc20 (guard_geth account_or_erc20_abi digest_types geth) deps parse
          enqueue c from token to amount s
        ≡ send_via_account_erc20 geth deps parse enqueue c from token to amount s

  abbrev pub TransferTyped : Type 0
  TransferTyped =
      (c : ℤ) (from token to : Address) (amount : ℤ) (s : S)
      → send_erc20 (guard_geth erc20_abi [] geth) deps c from token to amount s
        ≡ send_erc20 geth deps c from token to amount s

  -- The body under the lock is the same at both clients.
  Same : Abi → ℤ → Account Key → Address → Option ℤ → Text → List Arg → Type 0
  Same abi c acc to value name args =
      (client : Ethclient S Key Signed) (s : S)
      → managed_body geth (guard_client abi client) c acc to value name args s
        ≡ managed_body geth client c acc to value name args s

  -- What `SendManagedTx` makes of the body.
  abbrev after_lock :
      ℤ → Account Key → S → M S (Sent × Option GoError) → (Sent × Option GoError) × S
  after_lock c acc s1 body =
      let (r, s2) =
        with_nonce_lock deps.rdb (nonce_lock_key c (geth.address_hex acc.addr)) body s1 in
      elim r [ err e ↦ ((nothing_sent, some e), s2) | ok out ↦ (out, s2) ]

  abbrev pub DeployTyped : Type 0
  DeployTyped =
      (id : ℕ) (c : ℤ) (acc : Account Key) (factory : Address) (bytecode salt : Text) (s : S)
      → deploy geth id (guard_deps factory_abi deps) c acc factory bytecode salt s
        ≡ deploy geth id deps c acc factory bytecode salt s

  abbrev pub PredictTyped : Type 0
  PredictTyped =
      (id : ℕ) (c : ℤ) (factory deployer : Address) (salt hash : Text) (s : S)
      → compute_address geth id (guard_deps factory_abi deps) c factory deployer salt hash s
        ≡ compute_address geth id deps c factory deployer salt hash s

  abbrev pub GasPoolTyped : {F : Type 0} → Float F → Type 0
  GasPoolTyped fl =
      (now : S → Text) (o : Order) (owner : Account Key) (s : S)
      → send fl geth (guard_deps entry_point_abi deps) now o owner s
        ≡ send fl geth deps now o owner s
