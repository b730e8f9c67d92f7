-- ===== src/Split/Allowance.antt =====
-- split/exec.go: `ensureAllowance`. `clock` says how long the wait for a receipt lasts: why it ends and
-- how often the ticker fires before.
use bundler_go.Base.{
  ℕ, ℤ, pos, ◌+◌, ◌%◌, ◌^◌, [], ◌∷◌, Text, codes, Bool, false, Result, ok, err, wrap_error, M,
  ◌>>=◌, return, lift, leb_ℤ, none, if◌then◌else◌,
}
use bundler_go.Evm.Client.{
  Geth, Ethclient, Address, address, uint256, Output, big, addr, word, other, Receipt,
}
use bundler_go.Evm.Send.{End, wait_receipt}
use bundler_go.Signer.Account.{Account}
use bundler_go.Split.Build.{send_call}

-- `cur != nil && cur.Cmp(needed) >= 0`, where `cur` is nil for an answer of another type.
unfoldable pub sufficient : ℤ → Output → Bool
sufficient needed (big n) = leb_ℤ needed n
sufficient needed (addr a) = false
sufficient needed (word w) = false
sufficient needed (other t) = false

unfoldable pub next_nonce : ℕ → ℕ
next_nonce n = (n + 1) % 2 ^ 64

module _ {S Key Signed : Type 0} (geth : Geth Key Signed) (client : Ethclient S Key Signed)
    (clock : Text → S → End × ℕ) where
  abbrev pub wait_mined_at_most : Text → M S Receipt
  wait_mined_at_most hash s =
      let (why, ticks) = clock hash s in wait_receipt geth client hash why ticks s

  module _ (chain_id : ℤ) (relayer : Account Key) (token router owner : Address) where
    -- The closure `approve`
    unfoldable pub approve : ℤ → ℕ → M S Text
    unfolding send_call
    approve amount nonce = do
      call_data ← lift (geth.pack (codes "approve") (address router ∷ uint256 amount ∷ []))
      hash ←
          send_call geth client chain_id relayer nonce
            (record { from = owner; to = token; value = none; input = call_data }) (pos 0) 45_000
            200_000 120_000
      receipt ← wait_mined_at_most hash
      return hash

    -- The allowance is set to zero at the same nonce, then to the amount at the next.
    unfoldable pub reset_and_approve : ℤ → ℕ → M S (Text × ℕ)
    unfolding approve next_nonce
    reset_and_approve needed nonce s =
        let (r, s1) = approve (pos 0) nonce s in
        elim r [
          | err e ↦ (err (wrap_error (codes "ERC20 approve(0) reset failed: ") e), s1)
          | ok reset ↦
              let (again, s2) = approve needed (next_nonce nonce) s1 in
              elim again [
                | err e ↦ (err e, s2)
                | ok hash ↦ (ok (hash, next_nonce (next_nonce nonce)), s2)
              ]
        ]

    unfoldable pub after_approve : ℤ → ℕ → Result Text × S → Result (Text × ℕ) × S
    unfolding reset_and_approve next_nonce
    after_approve needed nonce (ok hash, s) = (ok (hash, next_nonce nonce), s)
    after_approve needed nonce (err e, s) = reset_and_approve needed nonce s

    -- `ensureAllowance`: the hash of the approval, empty where none was needed, and the next nonce.
    unfoldable pub ensure_allowance : ℤ → ℕ → M S (Text × ℕ)
    unfolding sufficient after_approve
    ensure_allowance needed nonce = do
      out ← client.call token (codes "allowance") (address owner ∷ address router ∷ [])
      if sufficient needed out then return ([], nonce) else λ s.
          after_approve needed nonce (approve needed nonce s)
