-- ===== src/Split/Execute.antt =====
-- split/exec.go: `Execute`, `relayer` and `isNonceErr`.
use bundler_go.Base.{
  ℕ, ℤ, ◌+ℤ◌, [], ◌∷◌, Text, codes, Bool, true, false, Option, none, some, not, ◌&&◌, ◌||◌, ◌==◌,
  Result, ok, err, GoError, new_error, M, ◌>>=◌, ◌>>◌, return, lift, check, is_zero, is_positive,
  contains, to_lower, trim_space, equal_fold, format_int, if◌then◌else◌,
}
use bundler_go.Chain.{eofs_proxy}
use bundler_go.Core.{Deps, nonce_lock_key}
use bundler_go.Evm.Client.{Geth, Ethclient, Address, address}
use bundler_go.Evm.Send.{End}
use bundler_go.Redis.Lock.{with_nonce_lock}
use bundler_go.Signer.Account.{Account}
use bundler_go.Split.Allowance.{ensure_allowance, next_nonce}
use bundler_go.Split.Build.{call_big, build_and_send}
use bundler_go.Split.Permit.{erc20_total, validate_permit}
use bundler_go.Split.Types.{Params, SplitResult}

-- `isNonceErr`
unfoldable pub is_nonce_err : GoError → Bool
is_nonce_err e =
    let m = to_lower e.message in contains m (codes "efs024") || contains m (codes "nonce")

-- Whether the payment needs an allowance from the token; none is the panic at a deadline that is nil,
-- which is read only where the rest of the condition holds.
unfoldable pub needs_allowance : Params → Option Bool
unfolding erc20_total
needs_allowance p =
    if not (p.erc20_token == 0) && is_positive (erc20_total p)
    then elim p.permit_deadline [ none ↦ none | some deadline ↦ some (is_zero deadline) ]
    else some false

unfoldable pub total : Params → ℤ
unfolding erc20_total
total p = p.native_amount0 +ℤ p.native_amount1 +ℤ erc20_total p

-- A payment in the chain's currency alone names no token amount.
unfoldable pub amounts_fit : Params → Bool
amounts_fit p = not (p.erc20_token == 0) || (is_zero p.erc20_amount0 && is_zero p.erc20_amount1)

module _ {S Key Signed : Type 0} (geth : Geth Key Signed) (clock : Text → S → End × ℕ)
    (pause : S → S) where
  -- The body under the lock.
  module _ (client : Ethclient S Key Signed) (p : Params) (router : Address)
      (relayer s1 s2 : Account Key) where
    abbrev payer_nonce : M S ℤ
    payer_nonce = call_big geth client router (codes "payerNonce") (address relayer.addr ∷ [])

    abbrev send : ℤ → ℤ → ℕ → M S Text
    send epoch nonce eoa_nonce =
        build_and_send geth client p router relayer.addr relayer s1 s2 epoch nonce eoa_nonce

    -- What was sent, and the payer's nonce that it used: one more try where the nonce was at fault, at
    -- the payer's nonce of then and the relayer's next.
    unfoldable pub after_send : ℤ → ℤ → ℕ → Result Text × S → Result (Text × ℤ) × S
    unfolding is_nonce_err build_and_send call_big next_nonce
    after_send epoch nonce eoa_nonce (ok hash, s) = (ok (hash, nonce), s)
    after_send epoch nonce eoa_nonce (err e, s) =
        if not (is_nonce_err e)
        then (err e, s)
        else (payer_nonce >>= λ fresh.
              send epoch fresh (next_nonce eoa_nonce) >>= λ hash. return (hash, fresh))
            (pause s)

    -- As far as the allowance is needed: the hash of its approval, and the next nonce.
    unfoldable pub allowance_if : Option Bool → ℕ → M S (Option (Text × ℕ))
    unfolding ensure_allowance erc20_total
    allowance_if none eoa_nonce = return none
    allowance_if (some false) eoa_nonce = return (some ([], eoa_nonce))
    allowance_if (some true) eoa_nonce = do
      allowance ←
          ensure_allowance geth client clock p.chain_id relayer p.erc20_token router relayer.addr
            (erc20_total p) eoa_nonce
      return (some allowance)

    unfoldable pub allowance_step : ℕ → M S (Option (Text × ℕ))
    unfolding needs_allowance allowance_if
    allowance_step eoa_nonce = allowance_if (needs_allowance p) eoa_nonce

    unfoldable pub answer : Text → Text × ℤ → SplitResult
    answer approve_hash (hash, used) = record {
      tx_hash = hash;
      from = geth.address_hex relayer.addr;
      payer = geth.address_hex relayer.addr;
      router_address = geth.address_hex router;
      nonce_used = format_int used;
      approve_tx_hash = approve_hash;
    }

    -- Both attempts, behind the allowance; none is a panic before.
    unfoldable pub send_payment : ℤ → ℤ → Option (Text × ℕ) → M S (Option SplitResult)
    unfolding after_send answer
    send_payment epoch nonce none = return none
    send_payment epoch nonce (some (approve_hash, eoa_nonce)) = do
      sent ← λ s. after_send epoch nonce eoa_nonce (send epoch nonce eoa_nonce s)
      return (some (answer approve_hash sent))

    unfoldable pub execute_body : M S (Option SplitResult)
    unfolding allowance_step send_payment call_big
    execute_body = do
      epoch ← call_big geth client router (codes "signerEpoch") []
      nonce ← payer_nonce
      eoa_nonce ← client.pending_nonce_at relayer.addr
      allowance ← allowance_step eoa_nonce
      send_payment epoch nonce allowance

  module _ (deps : Deps S Key Signed) where
    -- `relayer`
    unfoldable pub find_relayer : Text → M S (Account Key)
    find_relayer payer_key =
        if equal_fold (trim_space payer_key) (codes "server_key2")
        then deps.server_key2
        else deps.server_key1

    -- What follows the validation.
    unfoldable pub execute_valid :
        Address → Account Key → Account Key → Account Key → Option Params → M S (Option SplitResult)
    unfolding execute_body
    execute_valid router relayer s1 s2 none = return none
    execute_valid router relayer s1 s2 (some p) = do
      client ← deps.client p.chain_id
      with_nonce_lock deps.rdb (nonce_lock_key p.chain_id (geth.address_hex relayer.addr))
          (execute_body client p router relayer s1 s2)

    -- `Execute`, whose answer is none where it reads a nil pointer
    unfoldable pub execute : Params → M S (Option SplitResult)
    unfolding amounts_fit total find_relayer validate_permit execute_valid
    execute p = do
      router_text ← lift (eofs_proxy deps.getenv p.chain_id)
      check (geth.is_hex_address router_text) (new_error (codes "invalid EOFS proxy address"))
      check (amounts_fit p)
          (new_error (codes "erc20Token is zero address: erc20 amounts must be 0"))
      check (is_positive (total p)) (new_error (codes "sum of amounts must be positive"))
      relayer ← find_relayer p.payer_key
      s1 ← deps.server_key1
      s2 ← deps.server_key2
      filled ← lift (validate_permit p)
      execute_valid (geth.hex_to_address router_text) relayer s1 s2 filled
