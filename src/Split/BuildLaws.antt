-- ===== src/Split/BuildLaws.antt =====
-- split/exec.go: what has been checked where `buildAndSend` has sent a payment.
use bundler_go.Base.{
  ℕ, ℤ, ◌+◌, ◌%◌, ◌+ℤ◌, ◌++◌, [], ◌∷◌, Text, codes, none, ok, inl, inr, Result-cases, >>=-ok,
  check_passed, new_error, ◌≡◌, refl, sym, ap, subst, ◌∙◌, text_eq, text_eq_sound, err-ne-ok,
  ok_inj,
}
use bundler_go.Evm.Client.{Geth, Ethclient, Address, CallMsg, Tx, Output, big, addr, word, other}
use bundler_go.Evm.Gas.{Fees, fee_from_provider, estimate_gas}
use bundler_go.Evm.Number.{sign65}
use bundler_go.Evm.Send.{build_tx, sign_and_send}
use bundler_go.Transfer.Send.{hash_of}
use bundler_go.Signer.Account.{Account}
use bundler_go.Split.Build.{
  read_digest, split_message, hash_args, execute_args, split_call, send_call, build_and_send,
}
use bundler_go.Split.TypedData.{typed_data_hash}
use bundler_go.Split.Types.{Params}

read_digest-word : (o : Output) {d : Text} → read_digest o ≡ ok d → o ≡ word d
unfolding read_digest
read_digest-word (word w) h = ap word (ok_inj h)
read_digest-word (big n) h = absurd (err-ne-ok h)
read_digest-word (addr a) h = absurd (err-ne-ok h)
read_digest-word (other t) h = absurd (err-ne-ok h)

module _ {S Key Signed : Type 0} (geth : Geth Key Signed) (client : Ethclient S Key Signed) where
  -- The call carries two signatures of the digest, server_key1's first, with 27 added to the last byte.
  abbrev pub SignedCall : Params → Address → ℤ → Text → Account Key → Account Key → Text → Type 0
  SignedCall p payer nonce digest s1 s2 input =
      (a b : Text) × (v w : ℕ) × (geth.sign digest s1.priv ≡ ok (a, v))
      × (geth.sign digest s2.priv ≡ ok (b, w))
      × (geth.pack (codes "executeWithSignatures")
            (execute_args p payer nonce (a ++ ((v + 27) % 256 ∷ [])) (b ++ ((w + 27) % 256 ∷ [])))
          ≡ ok input)

  -- A transaction with this call, signed by the relayer, was taken by the node under this hash.
  abbrev pub Broadcast : Account Key → Address → Text → Text → Type 0
  Broadcast relayer router input hash =
      (t : Tx) × (x : Signed) × (v : S) × (t.to ≡ router)
      × (t.input ≡ input)
      × (geth.sign_tx t relayer.priv ≡ ok x)
      × ((client.send_transaction x v).0 ≡ ok tt)
      × (hash ≡ geth.tx_hash x)

  sign65-sign :
      (digest : Text) (k : Key) {sig : Text}
      → sign65 geth digest k ≡ ok sig
      → (a : Text) × (v : ℕ) × (geth.sign digest k ≡ ok (a, v)) × (sig ≡ a ++ ((v + 27) % 256 ∷ []))
  unfolding sign65
  sign65-sign digest k h = elim (Result-cases (geth.sign digest k)) [
    | inr (x, e) ↦ absurd (err-ne-ok (rw (e, sign65) at h))
    | inl ((a, v), e) ↦ (a, v, e, sym (ok_inj (rw (e, sign65) at h)))
  ]

  split_call-SignedCall :
      (p : Params) (payer : Address) (nonce : ℤ) (digest : Text) (s1 s2 : Account Key)
      {input : Text}
      → split_call geth client p payer nonce digest s1 s2 ≡ ok input
      → SignedCall p payer nonce digest s1 s2 input
  unfolding split_call
  split_call-SignedCall p payer nonce digest s1 s2 {input = input} h =
      elim (Result-cases (sign65 geth digest s1.priv)) [
        | inr (x, e) ↦ absurd (err-ne-ok (rw (e, split_call) at h))
        | inl (sig0, e) ↦ elim (Result-cases (sign65 geth digest s2.priv)) [
          | inr (x, k) ↦ absurd (err-ne-ok (rw (e, k, split_call) at h))
          | inl (sig1, k) ↦
              let (a, v, first, same0) = sign65-sign digest s1.priv e in
              let (b, w, second, same1) = sign65-sign digest s2.priv k in
              let packed : Text → Text → Type 0 = λ x y.
                geth.pack (codes "executeWithSignatures") (execute_args p payer nonce x y)
                ≡ ok input in
              (
                a,
                b,
                v,
                w,
                first,
                second,
                subst (packed (a ++ ((v + 27) % 256 ∷ []))) same1
                    (subst (λ x. packed x sig1) same0 (rw (e, k, split_call) at h)),
              )
        ]
      ]

  sign_and_send-Broadcast :
      (c : ℤ) (relayer : Account Key) (nonce : ℕ) (to : Address) (value : ℤ) (input : Text)
      (gas : ℕ) (fees : Fees) (s : S) {hash : Text}
      → hash_of (sign_and_send geth client c relayer.priv nonce to value input gas fees s).0
        ≡ ok hash
      → Broadcast relayer to input hash
  unfolding sign_and_send hash_of build_tx
  sign_and_send-Broadcast c relayer nonce to value input gas fees s h =
      let t = build_tx c nonce to value input gas fees in
      elim (Result-cases (geth.sign_tx t relayer.priv)) [
        | inr (x, e) ↦ absurd (err-ne-ok (rw (e, sign_and_send) at h))
        | inl (x, e) ↦ elim (Result-cases (client.send_transaction x s).0) [
          | inr (y, k) ↦ absurd (err-ne-ok (rw (e, k, sign_and_send, hash_of) at h))
          | inl (u, k) ↦
              let sent : (sign_and_send geth client c relayer.priv nonce to value input gas fees
                    s).0
                  ≡ (geth.tx_hash x, none) =
                rw (e, k, sign_and_send) refl in
              (t, x, s, refl, refl, e, k, ok_inj (sym h ∙ ap hash_of sent))
        ]
      ]

  send_call-Broadcast :
      (c : ℤ) (relayer : Account Key) (nonce : ℕ) (m : CallMsg) (value : ℤ)
      (min max_cap fallback : ℕ) (s : S) {hash : Text}
      → (send_call geth client c relayer nonce m value min max_cap fallback s).0 ≡ ok hash
      → Broadcast relayer m.to m.input hash
  unfolding send_call
  send_call-Broadcast c relayer nonce m value min max_cap fallback s h =
      let (fees, e1, h1) = >>=-ok (fee_from_provider client) _ s h in
      let s1 = (fee_from_provider client s).1 in
      let (gas, e2, h2) = >>=-ok (estimate_gas client m min max_cap fallback) _ s1 h1 in
      sign_and_send-Broadcast c relayer nonce m.to value m.input gas fees
        (estimate_gas client m min max_cap fallback s1).1 h2

  -- A payment that was sent was signed over a digest that the router itself computed for the same
  -- payment and nonce: it is the hash of the typed data here, and the answer of the contract there. Both
  -- server keys signed this digest, and the transaction that the node took under the answered hash is
  -- signed by the relayer and calls the router with the payment and these two signatures.
  pub build_and_send-digest :
      (p : Params) (router payer : Address) (relayer s1 s2 : Account Key) (epoch nonce : ℤ)
      (eoa_nonce : ℕ) (s : S) {hash : Text}
      → (build_and_send geth client p router payer relayer s1 s2 epoch nonce eoa_nonce s).0
        ≡ ok hash
      → (digest input : Text) × (typed_data_hash geth p.chain_id router
            (split_message p payer epoch nonce)
          ≡ ok digest)
        × ((client.call router (codes "hashTypedDataPayerSplit") (hash_args p payer nonce) s).0
            ≡ ok (word digest))
        × SignedCall p payer nonce digest s1 s2 input
        × Broadcast relayer router input hash
  unfolding build_and_send
  build_and_send-digest p router payer relayer s1 s2 epoch nonce eoa_nonce s h =
      let message = split_message p payer epoch nonce in
      let (digest, e1, h1) =
        >>=-ok (λ (v : S). (typed_data_hash geth p.chain_id router message, v)) _ s h in
      let hashing = client.call router (codes "hashTypedDataPayerSplit") in
      let (out, e2, h2) = >>=-ok (hashing (hash_args p payer nonce)) _ s h1 in
      let v = (hashing (hash_args p payer nonce) s).1 in
      let (on_chain, e3, h3) = >>=-ok (λ (u : S). (read_digest out, u)) _ v h2 in
      let (agree, h4) =
        check_passed (text_eq digest on_chain)
          (new_error (codes "EIP-712 digest mismatch (check chainId / router / signerEpoch)")) _ v
          h3 in
      let (input, e5, h5) =
        >>=-ok (λ (u : S). (split_call geth client p payer nonce digest s1 s2, u)) _ v h4 in
      let same = text_eq_sound digest on_chain agree in
      (
        digest,
        input,
        e1,
        e2 ∙ ap ok (read_digest-word out e3 ∙ ap word (sym same)),
        split_call-SignedCall p payer nonce digest s1 s2 e5,
        send_call-Broadcast p.chain_id relayer eoa_nonce _ (p.native_amount0 +ℤ p.native_amount1)
            180_000 3_000_000 300_000 v h5,
      )
