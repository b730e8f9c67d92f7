-- ===== src/Split/Retry.antt =====
-- split/exec.go: the nonce of the transaction that an answer of `Execute` names, where a failure at the
-- nonce is followed by a second attempt.
use bundler_go.Base.{
  ℕ, ℤ, ◌∷◌, [], Text, codes, none, true, List, ok, err, Result, GoError, ◌≡◌, refl, sym, ap, subst,
  ◌∙◌, inl, inr, ◌⊎◌, ok_inj, err-ne-ok, >>=-ok, check_passed, new_error, text_eq, Result-cases,
  Bool-cases, M, ◌+ℤ◌,
}
use bundler_go.Evm.Client.{Geth, Ethclient, Address, Arg, CallMsg, Tx, address}
use bundler_go.Evm.Gas.{Fees, fee_from_provider, estimate_gas}
use bundler_go.Evm.Quiet.{Quiet, fee_from_provider-same, estimate_gas-same}
use bundler_go.Evm.Send.{End, build_tx, sign_and_send}
use bundler_go.Signer.Account.{Account}
use bundler_go.Split.Allowance.{next_nonce}
use bundler_go.Split.Build.{
  call_big, send_call, split_call, split_message, hash_args, read_digest, build_and_send,
}
use bundler_go.Split.Execute.{is_nonce_err, after_send}
use bundler_go.Split.TypedData.{typed_data_hash}
use bundler_go.Split.Types.{Params}
use bundler_go.Transfer.Send.{hash_of}

-- The relayer's pending nonce at a node, while nobody else sends out of its wallet: questions and time
-- do not change it. A signed transaction has the nonce that it was built with.
pub record Alone {S Key Signed : Type 0} (geth : Geth Key Signed) (client : Ethclient S Key Signed)
    (pause : S → S) : Type 0 where
  pub pending : S → ℕ
  pub nonce_of : Signed → ℕ
  pub signed_nonce :
      (t : Tx) (k : Key) {x : Signed} → geth.sign_tx t k ≡ ok x → nonce_of x ≡ t.nonce
  pub calling :
      (to : Address) (method : Text) (args : List Arg) (s : S)
      → pending (client.call to method args s).1 ≡ pending s
  pub quiet : Quiet client pending
  pub pausing : (s : S) → pending (pause s) ≡ pending s

module _ {S Key Signed : Type 0} (geth : Geth Key Signed) (client : Ethclient S Key Signed)
    (pause : S → S) (alone : Alone geth client pause) where
  -- A transaction with the nonce `n` that the node took, with this hash, when the wallet's pending
  -- nonce was `v`.
  abbrev pub TookAt : Text → ℕ → ℕ → Type 0
  TookAt hash n v =
      (x : Signed) × (s : S) × ((client.send_transaction x s).0 ≡ ok tt)
      × (hash ≡ geth.tx_hash x)
      × (alone.nonce_of x ≡ n)
      × (alone.pending s ≡ v)

  sign_and_send-TookAt :
      (c : ℤ) (k : Key) (nonce : ℕ) (to : Address) (value : ℤ) (input : Text) (gas : ℕ)
      (fees : Fees) (s : S) {hash : Text}
      → hash_of (sign_and_send geth client c k nonce to value input gas fees s).0 ≡ ok hash
      → TookAt hash nonce (alone.pending s)
  unfolding sign_and_send hash_of
  sign_and_send-TookAt c k nonce to value input gas fees s h =
      elim (Result-cases (geth.sign_tx (build_tx c nonce to value input gas fees) k)) [
        | inr (x, e) ↦ absurd (err-ne-ok (rw (e, sign_and_send) at h))
        | inl (x, e) ↦ elim (Result-cases (client.send_transaction x s).0) [
          | inr (y, k') ↦ absurd (err-ne-ok (rw (e, k', sign_and_send, hash_of) at h))
          | inl (u, k') ↦
              let sent : (sign_and_send geth client c k nonce to value input gas fees s).0
                  ≡ (geth.tx_hash x, none) =
                rw (e, k', sign_and_send) refl in
              (x, s, k', ok_inj (sym h ∙ ap hash_of sent), alone.signed_nonce _ k e, refl)
        ]
      ]

  send_call-TookAt :
      (c : ℤ) (acc : Account Key) (nonce : ℕ) (m : CallMsg) (value : ℤ) (min max_cap fallback : ℕ)
      (s : S) {hash : Text}
      → (send_call geth client c acc nonce m value min max_cap fallback s).0 ≡ ok hash
      → TookAt hash nonce (alone.pending s)
  unfolding send_call
  send_call-TookAt c acc nonce m value min max_cap fallback s {hash = hash} h =
      let (fees, e1, h1) = >>=-ok (fee_from_provider client) _ s h in
      let s1 = (fee_from_provider client s).1 in
      let (gas, e2, h2) = >>=-ok (estimate_gas client m min max_cap fallback) _ s1 h1 in
      subst (TookAt hash nonce)
        (estimate_gas-same client alone.pending alone.quiet m min max_cap fallback s1
          ∙ fee_from_provider-same client alone.pending alone.quiet s)
        (sign_and_send-TookAt c acc.priv nonce m.to value m.input gas fees
          (estimate_gas client m min max_cap fallback s1).1 h2)

  module _ (p : Params) (router : Address) (relayer s1 s2 : Account Key) (epoch : ℤ) where
    abbrev pub send : ℤ → ℕ → M S Text
    send nonce n = build_and_send geth client p router relayer.addr relayer s1 s2 epoch nonce n

    send-TookAt :
        (nonce : ℤ) (n : ℕ) (s : S) {hash : Text}
        → (send nonce n s).0 ≡ ok hash
        → TookAt hash n (alone.pending s)
    unfolding build_and_send
    send-TookAt nonce n s {hash = hash} h =
        let payer = relayer.addr in
        let message = split_message p payer epoch nonce in
        let (digest, e1, h1) =
          >>=-ok (λ (v : S). (typed_data_hash geth p.chain_id router message, v)) _ s h in
        let hashing = client.call router (codes "hashTypedDataPayerSplit") in
        let (out, e2, h2) = >>=-ok (hashing (hash_args p payer nonce)) _ s h1 in
        let v = (hashing (hash_args p payer nonce) s).1 in
        let (on_chain, e3, h3) = >>=-ok (λ (u : S). (read_digest out, u)) _ v h2 in
        let (same, h4) =
          check_passed (text_eq digest on_chain)
            (new_error (codes "EIP-712 digest mismatch (check chainId / router / signerEpoch)")) _ v
            h3 in
        let (input, e5, h5) =
          >>=-ok (λ (u : S). (split_call geth client p payer nonce digest s1 s2, u)) _ v h4 in
        subst (TookAt hash n) (alone.calling router _ _ s) (
          send_call-TookAt p.chain_id relayer n _ (p.native_amount0 +ℤ p.native_amount1) 180_000
            3_000_000 300_000 v h5)

    abbrev payer_nonce : M S ℤ
    payer_nonce = call_big geth client router (codes "payerNonce") (address relayer.addr ∷ [])

    payer_nonce-pending : (s : S) → alone.pending (payer_nonce s).1 ≡ alone.pending s
    unfolding call_big
    payer_nonce-pending s =
        let (r, t) = client.call router (codes "payerNonce") (address relayer.addr ∷ []) s in
        elim (Result-cases
          (client.call router (codes "payerNonce") (address relayer.addr ∷ []) s).0) [
            | inl (o, e) ↦ rw (e, call_big) (alone.calling router _ _ s)
            | inr (x, e) ↦ rw (e, call_big) (alone.calling router _ _ s)
          ]

    -- What stands after the first attempt came to `t`.
    abbrev pub Named : Text → ℕ → ℕ → Result Text × S → Type 0
    Named hash n v t =
        ((t.0 ≡ ok hash) × TookAt hash n v)
        ⊎ ((e : GoError) × (t.0 ≡ err e)
            × (is_nonce_err e ≡ true)
            × TookAt hash (next_nonce n) (alone.pending t.1))

    ended-nonce :
        (clock : Text → S → End × ℕ) (nonce : ℤ) (n v : ℕ) (t : Result Text × S) {hash : Text}
        {used : ℤ}
        → ((first : Text) → t.0 ≡ ok first → TookAt first n v)
        → (after_send geth clock pause client p router relayer s1 s2 epoch nonce n t).0
          ≡ ok (hash, used)
        → Named hash n v t
    unfolding after_send
    ended-nonce clock nonce n v (ok first, t) {hash = hash} took h =
        let q = ap ok (ap (λ (x : Text × ℤ). x.0) (ok_inj h)) in inl (q, took hash q)
    ended-nonce clock nonce n v (err x, t) {hash = hash} took h =
        elim (Bool-cases (is_nonce_err x)) [
          | inr b ↦ absurd (err-ne-ok (rw (b, after_send) at h))
          | inl b ↦
              let (fresh, e1, h1) = >>=-ok payer_nonce _ (pause t) (rw (b, after_send) at h) in
              let u = (payer_nonce (pause t)).1 in
              let (second, e2, h2) = >>=-ok (send fresh (next_nonce n)) _ u h1 in
              let q = ap ok (ap (λ (y : Text × ℤ). y.0) (ok_inj h2)) in
              inr (
                x,
                refl,
                b,
                subst (TookAt hash (next_nonce n)) (payer_nonce-pending (pause t) ∙ alone.pausing t)
                    (send-TookAt fresh (next_nonce n) u (e2 ∙ q)),
              )
        ]

    -- The transaction that a payment's answer names was taken by the node. Either the first attempt
    -- succeeded, and it has the nonce of this attempt; or the first attempt failed at a nonce, and it
    -- has the next one, whatever the node took of the first: the pending nonce was then the one that the
    -- first attempt had left. So where the node had turned that one down, it leaves a gap.
    pub after_send-nonce :
        (clock : Text → S → End × ℕ) (nonce : ℤ) (n : ℕ) (s : S) {hash : Text} {used : ℤ}
        → (after_send geth clock pause client p router relayer s1 s2 epoch nonce n
            (send nonce n s)).0
          ≡ ok (hash, used)
        → Named hash n (alone.pending s) (send nonce n s)
    after_send-nonce clock nonce n s h =
        ended-nonce clock nonce n (alone.pending s) (send nonce n s)
          (λ first. send-TookAt nonce n s) h
