-- ===== src/Userop/EndToEnd.antt =====
-- userop: from a request to the submission that answers it.
use bundler_go.Base.{
  ℤ, ◌<◌, ◌≡◌, refl, sym, ap, ◌∙◌, List, [], ◌∷◌, ◌++◌, Text, Option, none, some, Result, ok,
  GoError, M, get_elem?, length, codes, Elem, Option-cases, Result-cases, inl, inr, err-ne-ok,
  arith,
}
use bundler_go.Chain.{resolve_chain_id}
use bundler_go.Core.{Deps}
use bundler_go.Evm.Client.{Geth}
use bundler_go.Evm.Send.{Outcome}
use bundler_go.Signer.Account.{Account}
use bundler_go.Txerror.{normalize}
use bundler_go.Userop.Batcher.{Submit, send_under_lock, flush}
use bundler_go.Userop.Enqueue.{Turn, read_result, flush_turn, await_result, enqueue}
use bundler_go.Userop.Flush.{Answers, flush-Answers}
use bundler_go.Userop.Packing.{to_packed}
use bundler_go.Userop.Rpc.{
  Json, RpcRequest, Reply, string, err_resp, ok_resp, tx_error_resp, effective_chain_id,
  handle_send_user_op, handle_request, handle_decoded, handle_rpc,
}
use bundler_go.Userop.Routing.{IsSend, IsSend-method, dispatch_method-send}
use bundler_go.Userop.Types.{PackedUserOp, UserOperation}

length-middle : (xs ys : List PackedUserOp) (op : PackedUserOp) → 0 < length (xs ++ (op ∷ ys))
length-middle [] ys op = omega arith
length-middle (x ∷ xs) ys op = omega arith

read_result-ok :
    (o : Option Outcome) {hash : Text} → read_result o ≡ ok hash → o ≡ some (hash, none)
unfolding read_result
read_result-ok none h = absurd (err-ne-ok h)
read_result-ok (some (x, none)) h = cc
read_result-ok (some (x, some e)) h = absurd (err-ne-ok h)

none-ne-some : {A : Type 0} {a : A} → none ≡ some a → ⊥
none-ne-some h = cc

some_inj : {A : Type 0} {a b : A} → some a ≡ some b → a ≡ b
some_inj h = cc

module _ {S Key Signed : Type 0} (geth : Geth Key Signed) (deps : Deps S Key Signed)
    (submit : Submit S Key) where
  -- The hash is that of a submission under a wallet's lock which carried the operation.
  abbrev pub Submitted : ℤ → PackedUserOp → Text → Type 0
  Submitted c op hash =
      (wallet : Account Key) × (ops : List PackedUserOp) × (s : S) × Elem op ops
      × ((send_under_lock geth deps submit c wallet ops s).0 ≡ (hash, none))

  Answers-at :
      (c : ℤ) (wallet : Account Key) (before after : List PackedUserOp) (op : PackedUserOp)
      (outs : List Outcome) {hash : Text}
      → Answers geth deps submit c wallet (before ++ (op ∷ after)) outs
      → get_elem? outs (length before) ≡ some (hash, none)
      → Submitted c op hash
  Answers-at c wallet [] after op [] a e = absurd a
  Answers-at c wallet [] after op (out ∷ outs) a e =
      let q = some_inj e in
      let (ops, s, m, k) = a.0 (ap (λ (x : Outcome). x.1) q) in (wallet, ops, s, m, k ∙ q)
  Answers-at c wallet (b ∷ before) after op [] a e = absurd a
  Answers-at c wallet (b ∷ before) after op (out ∷ outs) a e =
      Answers-at c wallet before after op outs a.1 e

  module _ (turn : S → Turn) (ctx_done : S → Option GoError × S) where
    flush_turn-Submitted :
        (c : ℤ) (op : PackedUserOp) (w : Option (Account Key)) (s : S) {hash : Text}
        → (flush_turn geth deps submit turn ctx_done c op w s).0 ≡ ok hash
        → Submitted c op hash
    unfolding flush_turn
    flush_turn-Submitted c op none s h = absurd (err-ne-ok h)
    flush_turn-Submitted c op (some wallet) s h =
        let before = (turn s).before in
        let after = (turn s).after in
        let batch = before ++ (op ∷ after) in
        Answers-at c wallet before after op (flush geth deps submit c wallet batch s).0
          (flush-Answers geth deps submit c wallet batch s (length-middle before after op))
          (read_result-ok _ h)

    await_result-ok :
        (r : Result Text × S) {hash : Text}
        → (await_result geth deps submit turn ctx_done r).0 ≡ ok hash
        → r.0 ≡ ok hash
    unfolding await_result
    await_result-ok (r, s) h = elim (Option-cases (ctx_done s).0) [
      | inl e ↦ rw (e, await_result) at h
      | inr (x, e) ↦ absurd (err-ne-ok (rw (e, await_result) at h))
    ]

    enqueue-Submitted :
        (c : ℤ) (op : PackedUserOp) (s : S) {hash : Text}
        → (enqueue geth deps submit turn ctx_done c op s).0 ≡ ok hash
        → Submitted c op hash
    unfolding enqueue
    enqueue-Submitted c op s h = elim (Result-cases (deps.bundler_pool c s).0) [
      | inr (x, e) ↦ absurd (err-ne-ok (rw (e, enqueue) at h))
      | inl (pool, e) ↦
          let s1 = (deps.bundler_pool c s).1 in
          let h1 = rw (e, enqueue) at h in
          elim (Option-cases (ctx_done s1).0) [
            | inr (x, k) ↦ absurd (err-ne-ok (rw (k, enqueue) at h1))
            | inl k ↦ flush_turn-Submitted c op _ _ (await_result-ok _ (rw (k, enqueue) at h1))
          ]
    ]

    tx_error_resp-result :
        (id : Option Text) (e : GoError)
        → (tx_error_resp geth.hex_decode geth.unpack_revert id e).result ≡ none
    unfolding tx_error_resp normalize err_resp
    tx_error_resp-result id e = refl

    module _ (json : Json) where
      abbrev pub queued : ℤ → PackedUserOp → M S Text
      queued = enqueue geth deps submit turn ctx_done

      -- The operation that a request carries was submitted, with this answer.
      abbrev pub AnsweredBy : RpcRequest → ℤ → Reply → Type 0
      AnsweredBy req c r =
          (raw : Text) × (uo : UserOperation) × (op : PackedUserOp) × (hash : Text) × (get_elem?
              req.params 0
            ≡ some raw)
          × (json.user_operation raw ≡ ok uo)
          × (to_packed geth uo ≡ ok op)
          × (r ≡ string hash)
          × Submitted c op hash

      handle_send_user_op-AnsweredBy :
          (req : RpcRequest) (c : ℤ) (s : S) {r : Reply}
          → (handle_send_user_op geth.hex_decode geth.unpack_revert geth json deps.getenv queued req
              c s).0.result
            ≡ some r
          → AnsweredBy req c r
      unfolding handle_send_user_op err_resp ok_resp
      handle_send_user_op-AnsweredBy req c s h = elim (Option-cases (get_elem? req.params 0)) [
        | inl e ↦ absurd (none-ne-some (rw (e, handle_send_user_op) at h))
        | inr (raw, e) ↦
            let h1 = rw (e, handle_send_user_op) at h in
            elim (Result-cases (json.user_operation raw)) [
              | inr (x, k) ↦ absurd (none-ne-some (rw (k, handle_send_user_op) at h1))
              | inl (uo, k) ↦
                  let h2 = rw (k, handle_send_user_op) at h1 in
                  elim (Result-cases (to_packed geth uo)) [
                    | inr (x, m) ↦ absurd (none-ne-some (rw (m, handle_send_user_op) at h2))
                    | inl (op, m) ↦
                        let h3 = rw (m, handle_send_user_op) at h2 in
                        elim (Result-cases (queued c op s).0) [
                          | inr (x, n) ↦ absurd (
                              none-ne-some (
                                sym (tx_error_resp-result req.id x)
                                ∙ rw (n, handle_send_user_op) at h3))
                          | inl (hash, n) ↦ (
                            raw,
                            uo,
                            op,
                            hash,
                            e,
                            k,
                            m,
                            some_inj (sym (rw (n, handle_send_user_op) at h3)),
                            enqueue-Submitted c op s n,
                          )
                        ]
                  ]
            ]
      ]

      handle_request-AnsweredBy :
          (req : RpcRequest) (path : ℤ) (s : S) {r : Reply}
          → IsSend req.method
          → (handle_request geth.hex_decode geth.unpack_revert geth json deps.getenv queued req path
              s).0.result
            ≡ some r
          → (c : ℤ) × (resolve_chain_id deps.getenv (effective_chain_id json req path) ≡ ok c)
            × AnsweredBy req c r
      unfolding handle_request err_resp
      handle_request-AnsweredBy req path s send h =
          elim (Result-cases (resolve_chain_id deps.getenv (effective_chain_id json req path))) [
            | inr (x, e) ↦ absurd (none-ne-some (rw (e, handle_request) at h))
            | inl (c, e) ↦ (
              c,
              e,
              handle_send_user_op-AnsweredBy req c s (
                  rw
                    (dispatch_method-send geth.hex_decode geth.unpack_revert geth json deps.getenv
                      queued req c s send)
                    at (rw (e, handle_request) at h)),
            )
          ]

      -- An `eth_sendUserOperation` that is answered with a result carries an operation that can be read
      -- and packed. A submission under the lock of a wallet, on the chain that the request was resolved
      -- to, carried this operation, and the result is the hash that it returned, whatever other operations
      -- were in its batch, and whether it was sent with them or alone.
      pub handle_rpc-AnsweredBy :
          (body : Text) (path : ℤ) (s : S) (req : RpcRequest) {r : Reply}
          → json.request body ≡ (req, none)
          → req.method ≡ codes "eth_sendUserOperation"
          → (handle_rpc geth.hex_decode geth.unpack_revert geth json deps.getenv queued body path
              s).0.result
            ≡ some r
          → (c : ℤ) × (resolve_chain_id deps.getenv (effective_chain_id json req path) ≡ ok c)
            × AnsweredBy req c r
      unfolding handle_rpc handle_decoded
      handle_rpc-AnsweredBy body path s req e m h =
          let send = IsSend-method req.method m in
          handle_request-AnsweredBy req path s send
            (rw (send.4, handle_decoded) at (rw (e, handle_rpc) at h))
