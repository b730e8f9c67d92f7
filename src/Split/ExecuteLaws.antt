-- ===== src/Split/ExecuteLaws.antt =====
-- split/exec.go: what `Execute` has established where it answers.
use bundler_go.Base.{
  ℕ, ℤ, pos, negsuc, ◌<ℤ◌, [], ◌∷◌, Text, codes, Bool, true, false, not, ◌&&◌, ◌==◌, ◌≢◌, some_inj,
  some-ne-none, Option-cases, Option, none, some, Result, ok, err, M, check_passed, new_error,
  >>=-ok, ◌≡◌, refl, sym, ap, subst, ◌∙◌, inl, inr, ◌⊎◌, ok_inj, err-ne-ok, is_zero, is_positive,
  format_int, arith, Bool-cases,
}
use bundler_go.Chain.{eofs_proxy}
use bundler_go.Core.{Deps, nonce_lock_key}
use bundler_go.Evm.Client.{Geth, Ethclient, Address, address}
use bundler_go.Evm.Send.{End}
use bundler_go.Redis.Returns.{with_nonce_lock-ok}
use bundler_go.Signer.Account.{Account}
use bundler_go.Split.Allowance.{next_nonce, ensure_allowance}
use bundler_go.Split.Build.{call_big, build_and_send}
use bundler_go.Split.Execute.{
  is_nonce_err, total, amounts_fit, after_send, needs_allowance, allowance_if, allowance_step,
  answer, send_payment, execute_body, execute_valid, find_relayer, execute,
}
use bundler_go.Split.Permit.{
  fill_nil, deadline_of, CoveringPermit, erc20_total, validate_permit, validate_permit_iff,
  validate_permit-fill_nil,
}
use bundler_go.Split.Types.{Params, SplitResult}

zero_of : (n : ℤ) → is_zero n ≡ true → n ≡ pos 0
zero_of (pos n) h = ground (arith, h)
zero_of (negsuc n) h = cc

positive_of : (n : ℤ) → is_positive n ≡ true → pos 0 <ℤ n
positive_of n h = ground (arith, h)

amounts_fit-zero :
    (p : Params)
    → amounts_fit p ≡ true
    → p.erc20_token ≡ 0
    → (p.erc20_amount0 ≡ pos 0) × (p.erc20_amount1 ≡ pos 0)
unfolding amounts_fit
amounts_fit-zero p h z =
    (zero_of p.erc20_amount0 (ground (arith, h, z)), zero_of p.erc20_amount1 (ground (arith, h, z)))

module _ {S Key Signed : Type 0} (geth : Geth Key Signed) (clock : Text → S → End × ℕ)
    (pause : S → S) where
  -- The answer `r` is that of a payment which was built, signed and sent.
  abbrev pub Sends :
      Ethclient S Key Signed
      → Params
      → Address
      → Account Key
      → Account Key
      → Account Key
      → SplitResult
      → Type 0
  Sends client p router relayer s1 s2 r =
      (epoch : ℤ) × (used : ℤ) × (nonce : ℕ) × (v : S) × ((build_and_send geth client p router
          relayer.addr relayer s1 s2 epoch used nonce v).0
        ≡ ok r.tx_hash)
      × (r.nonce_used ≡ format_int used)
      × (r.payer ≡ geth.address_hex relayer.addr)
      × (r.router_address ≡ geth.address_hex router)

  module _ (client : Ethclient S Key Signed) (p : Params) (router : Address)
      (relayer s1 s2 : Account Key) where
    abbrev send : ℤ → ℤ → ℕ → M S Text
    send epoch nonce n =
        build_and_send geth client p router relayer.addr relayer s1 s2 epoch nonce n

    after_send-sent :
        (epoch nonce : ℤ) (n : ℕ) (s : S) (t : Result Text × S) {hash : Text} {used : ℤ}
        → send epoch nonce n s ≡ t
        → (after_send geth clock pause client p router relayer s1 s2 epoch nonce n t).0
          ≡ ok (hash, used)
        → (m : ℕ) × (v : S) × ((send epoch used m v).0 ≡ ok hash)
    unfolding after_send
    after_send-sent epoch nonce n s (ok hash', s') {hash = hash} e h =
        let q = ok_inj h in
        (
          n,
          s,
          subst (λ u. (send epoch u n s).0 ≡ ok hash) (ap (λ (x : Text × ℤ). x.1) q)
              (ap (λ (x : Result Text × S). x.0) e ∙ ap (λ (x : Text × ℤ). ok x.0) q),
        )
    after_send-sent epoch nonce n s (err x, s') {hash = hash} e h =
        elim (Bool-cases (is_nonce_err x)) [
          | inr b ↦ absurd (err-ne-ok (rw (b, after_send) at h))
          | inl b ↦
              let (fresh, e1, h1) =
                >>=-ok
                  (call_big geth client router (codes "payerNonce") (address relayer.addr ∷ [])) _ _
                  (rw (b, after_send) at h) in
              let (hash', e2, h2) = >>=-ok (send epoch fresh (next_nonce n)) _ _ h1 in
              let q = ok_inj h2 in
              let v =
                (call_big geth client router (codes "payerNonce") (address relayer.addr ∷ [])
                  (pause s')).1 in
              (
                next_nonce n,
                v,
                subst (λ u. (send epoch u (next_nonce n) v).0 ≡ ok hash)
                    (ap (λ (x : Text × ℤ). x.1) q) (e2 ∙ ap (λ (x : Text × ℤ). ok x.0) q),
              )
        ]

    send_payment-Sends :
        (epoch nonce : ℤ) (a : Option (Text × ℕ)) (s : S) {r : SplitResult}
        → (send_payment geth clock pause client p router relayer s1 s2 epoch nonce a s).0
          ≡ ok (some r)
        → Sends client p router relayer s1 s2 r
    unfolding send_payment answer
    send_payment-Sends epoch nonce none s h = absurd (some-ne-none (sym (ok_inj h)))
    send_payment-Sends epoch nonce (some (hash, m)) s h =
        let ((tx, used), e5, h5) =
          >>=-ok
            (λ v.
              after_send geth clock pause client p router relayer s1 s2 epoch nonce m
                (send epoch nonce m v))
            _ s h in
        let q = some_inj (ok_inj h5) in
        let (k, v, sent) = after_send-sent epoch nonce m _ _ refl e5 in
        (
          epoch,
          used,
          k,
          v,
          sent ∙ ap (λ (x : SplitResult). ok x.tx_hash) q,
          ap (λ (x : SplitResult). x.nonce_used) (sym q),
          ap (λ (x : SplitResult). x.payer) (sym q),
          ap (λ (x : SplitResult). x.router_address) (sym q),
        )

    -- What the body comes to, it comes to behind the allowance.
    execute_body-ends :
        (s : S) {out : Option SplitResult}
        → (execute_body geth clock pause client p router relayer s1 s2 s).0 ≡ ok out
        → (epoch nonce : ℤ) × (n : ℕ) × (a : Option (Text × ℕ)) × (u v : S) × ((allowance_step geth
              clock pause client p router relayer s1 s2 n u).0
            ≡ ok a)
          × ((send_payment geth clock pause client p router relayer s1 s2 epoch nonce a v).0
              ≡ ok out)
    unfolding execute_body
    execute_body-ends s h =
        let (epoch, e1, h1) = >>=-ok (call_big geth client router (codes "signerEpoch") []) _ s h in
        let (nonce, e2, h2) =
          >>=-ok (call_big geth client router (codes "payerNonce") (address relayer.addr ∷ [])) _ _
            h1 in
        let (n, e3, h3) = >>=-ok (client.pending_nonce_at relayer.addr) _ _ h2 in
        let (a, e4, h4) =
          >>=-ok (allowance_step geth clock pause client p router relayer s1 s2 n) _ _ h3 in
        (epoch, nonce, n, a, _, _, e4, h4)

    execute_body-Sends :
        (s : S) {r : SplitResult}
        → (execute_body geth clock pause client p router relayer s1 s2 s).0 ≡ ok (some r)
        → Sends client p router relayer s1 s2 r
    execute_body-Sends s h =
        let (epoch, nonce, n, a, u, v, e, k) = execute_body-ends s h in
        send_payment-Sends epoch nonce a v k

    -- With a deadline that is not nil, nothing panics.
    needs_allowance-some :
        (deadline : ℤ)
        → p.permit_deadline ≡ some deadline
        → (b : Bool) × (needs_allowance p ≡ some b)
    unfolding needs_allowance
    needs_allowance-some deadline e =
        elim (Bool-cases (not (p.erc20_token == 0) && is_positive (erc20_total p))) [
          | inl t ↦ (is_zero deadline, rw (t, e, needs_allowance) refl)
          | inr t ↦ (false, rw (t, needs_allowance) refl)
        ]

    allowance_if-some :
        (b : Bool) (n : ℕ) (s : S)
        → (allowance_if geth clock pause client p router relayer s1 s2 (some b) n s).0 ≢ ok none
    unfolding allowance_if
    allowance_if-some false n s h = some-ne-none (ok_inj h)
    allowance_if-some true n s h =
        let (a, e, k) =
          >>=-ok
            (ensure_allowance geth client clock p.chain_id relayer p.erc20_token router relayer.addr
              (erc20_total p) n)
            _ s h in
        some-ne-none (ok_inj k)

    send_payment-some :
        (epoch nonce : ℤ) (a : Text × ℕ) (s : S)
        → (send_payment geth clock pause client p router relayer s1 s2 epoch nonce (some a) s).0
          ≢ ok none
    unfolding send_payment
    send_payment-some epoch nonce (hash, m) s h =
        let (sent, e, k) =
          >>=-ok
            (λ v.
              after_send geth clock pause client p router relayer s1 s2 epoch nonce m
                (send epoch nonce m v))
            _ s h in
        some-ne-none (ok_inj k)

    execute_body-some :
        (deadline : ℤ) (s : S)
        → p.permit_deadline ≡ some deadline
        → (execute_body geth clock pause client p router relayer s1 s2 s).0 ≢ ok none
    unfolding allowance_step
    execute_body-some deadline s e h =
        let (epoch, nonce, n, a, u, v, k, m) = execute_body-ends s h in
        let (b, needed) = needs_allowance-some deadline e in
        elim (Option-cases a) [
          | inl z ↦ allowance_if-some b n u (
              ap
                (λ (x : Option Bool).
                  (allowance_if geth clock pause client p router relayer s1 s2 x n u).0)
                (sym needed)
              ∙ (k ∙ ap ok z))
          | inr (x, z) ↦ send_payment-some epoch nonce x v (
              ap
                (λ (y : Option (Text × ℕ)).
                  (send_payment geth clock pause client p router relayer s1 s2 epoch nonce y v).0)
                (sym z)
              ∙ m)
        ]

  -- A payment that is answered has a positive total, names token amounts of zero where it names no token,
  -- and has no permit or one that covers its token amounts. It was built, signed and sent out of the wallet
  -- that the key's name chose, with 0 in place of a missing permit, and the answer names what was sent:
  -- the transaction, the payer, the router and the payer's nonce that was signed.
  pub execute-Sends :
      (deps : Deps S Key Signed) (p : Params) (s : S) {r : SplitResult}
      → (execute geth clock pause deps p s).0 ≡ ok (some r)
      → (pos 0 <ℤ total p)
        × (p.erc20_token ≡ 0 → (p.erc20_amount0 ≡ pos 0) × (p.erc20_amount1 ≡ pos 0))
        × ((deadline_of p ≡ pos 0) ⊎ CoveringPermit p)
        × ((relayer : Account Key) × (s1 : Account Key) × (s2 : Account Key) × (client : Ethclient S
              Key Signed)
            × (router : Address) × ((find_relayer geth clock pause deps p.payer_key s).0
                ≡ ok relayer)
            × Sends client (fill_nil p) router relayer s1 s2 r)
  unfolding execute execute_valid fill_nil
  execute-Sends deps p s {r = r} h =
      let (text, e1, h1) = >>=-ok (λ (v : S). (eofs_proxy deps.getenv p.chain_id, v)) _ s h in
      let (is_address, h2) =
        check_passed (geth.is_hex_address text) (new_error (codes "invalid EOFS proxy address")) _ s
          h1 in
      let (fits, h3) =
        check_passed (amounts_fit p)
          (new_error (codes "erc20Token is zero address: erc20 amounts must be 0")) _ s h2 in
      let (positive, h4) =
        check_passed (is_positive (total p)) (new_error (codes "sum of amounts must be positive")) _
          s h3 in
      let (relayer, e5, h5) = >>=-ok (find_relayer geth clock pause deps p.payer_key) _ s h4 in
      let (s1, e6, h6) =
        >>=-ok deps.server_key1 _ (find_relayer geth clock pause deps p.payer_key s).1 h5 in
      let v6 = (deps.server_key1 (find_relayer geth clock pause deps p.payer_key s).1).1 in
      let (s2, e7, h7) = >>=-ok deps.server_key2 _ v6 h6 in
      let v7 = (deps.server_key2 v6).1 in
      let (filled, e8, h8) = >>=-ok (λ (v : S). (validate_permit p, v)) _ v7 h7 in
      let passed = validate_permit-fill_nil p filled e8 in
      let router = geth.hex_to_address text in
      let run =
        subst (λ q. (execute_valid geth clock pause deps router relayer s1 s2 q v7).0 ≡ ok (some r))
          passed h8 in
      let (client, e9, h9) = >>=-ok (deps.client p.chain_id) _ v7 run in
      let (v, body) =
        with_nonce_lock-ok deps.rdb (nonce_lock_key p.chain_id (geth.address_hex relayer.addr))
          (execute_body geth clock pause client (fill_nil p) router relayer s1 s2)
          (deps.client p.chain_id v7).1 h9 in
      let permit = (validate_permit_iff p (fill_nil p)).0 (e8 ∙ ap ok passed) in
      (
        positive_of (total p) positive,
        amounts_fit-zero p fits,
        permit.1,
        (
          relayer,
          s1,
          s2,
          client,
          router,
          e5,
          execute_body-Sends client (fill_nil p) router relayer s1 s2 v body,
        ),
      )

  -- No payment reads a nil pointer.
  pub execute-some :
      (deps : Deps S Key Signed) (p : Params) (s : S)
      → (execute geth clock pause deps p s).0 ≢ ok none
  unfolding execute execute_valid fill_nil
  execute-some deps p s h =
      let (text, e1, h1) = >>=-ok (λ (v : S). (eofs_proxy deps.getenv p.chain_id, v)) _ s h in
      let (is_address, h2) =
        check_passed (geth.is_hex_address text) (new_error (codes "invalid EOFS proxy address")) _ s
          h1 in
      let (fits, h3) =
        check_passed (amounts_fit p)
          (new_error (codes "erc20Token is zero address: erc20 amounts must be 0")) _ s h2 in
      let (positive, h4) =
        check_passed (is_positive (total p)) (new_error (codes "sum of amounts must be positive")) _
          s h3 in
      let (relayer, e5, h5) = >>=-ok (find_relayer geth clock pause deps p.payer_key) _ s h4 in
      let v5 = (find_relayer geth clock pause deps p.payer_key s).1 in
      let (s1, e6, h6) = >>=-ok deps.server_key1 _ v5 h5 in
      let v6 = (deps.server_key1 v5).1 in
      let (s2, e7, h7) = >>=-ok deps.server_key2 _ v6 h6 in
      let v7 = (deps.server_key2 v6).1 in
      let (filled, e8, h8) = >>=-ok (λ (v : S). (validate_permit p, v)) _ v7 h7 in
      let router = geth.hex_to_address text in
      let run =
        subst (λ q. (execute_valid geth clock pause deps router relayer s1 s2 q v7).0 ≡ ok none)
          (validate_permit-fill_nil p filled e8) h8 in
      let (client, e9, h9) = >>=-ok (deps.client p.chain_id) _ v7 run in
      let (v, body) =
        with_nonce_lock-ok deps.rdb (nonce_lock_key p.chain_id (geth.address_hex relayer.addr))
          (execute_body geth clock pause client (fill_nil p) router relayer s1 s2)
          (deps.client p.chain_id v7).1 h9 in
      execute_body-some client (fill_nil p) router relayer s1 s2 _ v refl body
