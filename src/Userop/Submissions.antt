-- ===== src/Userop/Submissions.antt =====
-- userop/batcher.go: what a flush submits, and how often.
use bundler_go.Base.{
  ℤ, ◌≡◌, refl, sym, ap, ◌∙◌, List, [], ◌∷◌, ◌++◌, map, append_assoc, append-nil, Bool-cases, inl,
  inr, Option, none, some, GoError, length, ltb, if◌then◌else◌,
}
use bundler_go.Core.{Deps}
use bundler_go.Evm.Client.{Geth}
use bundler_go.Evm.Send.{Outcome}
use bundler_go.Redis.Lock.{with_nonce_lock}
use bundler_go.Signer.Account.{Account}
use bundler_go.Userop.Batcher.{Submit, submit_body, send_under_lock, retry_each, answer, flush}
use bundler_go.Userop.Types.{PackedUserOp}

abbrev singles : List PackedUserOp → List (List PackedUserOp)
singles ops = map (λ op. op ∷ []) ops

-- What a flush has to submit, from the error of the batch: the batch, and where that failed each of its
-- operations alone, unless there is one only.
abbrev pub attempts : List PackedUserOp → Option GoError → List (List PackedUserOp)
attempts batch none = batch ∷ []
attempts batch (some e) = if ltb 1 (length batch) then batch ∷ singles batch else batch ∷ []

module _ {S Key Signed : Type 0} (geth : Geth Key Signed) (deps : Deps S Key Signed)
    (submit : Submit S Key) (log : S → List (List PackedUserOp)) where
  -- The world's log has what was submitted, in order.
  abbrev pub Logs : Type 0
  Logs =
      (c : ℤ) (wallet : Account Key) (ops : List PackedUserOp) (s : S)
      → log (submit c wallet ops s).1 ≡ log s ++ (ops ∷ [])

  module _ (logs : Logs) (alone : deps.rdb ≡ none) (chain_id : ℤ) (wallet : Account Key) where
    -- In a single process the submission runs as it is.
    send_under_lock-submit :
        (ops : List PackedUserOp) (s : S)
        → send_under_lock geth deps submit chain_id wallet ops s ≡ submit chain_id wallet ops s
    unfolding send_under_lock submit_body with_nonce_lock
    send_under_lock-submit ops s = rw (alone, with_nonce_lock) refl

    retry_each-log :
        (ops : List PackedUserOp) (s : S)
        → log (retry_each geth deps submit chain_id wallet ops s).1 ≡ log s ++ singles ops
    unfolding retry_each
    retry_each-log [] s = sym (append-nil (log s))
    retry_each-log (op ∷ ops) s =
        let s1 = (submit chain_id wallet (op ∷ []) s).1 in
        rw (send_under_lock-submit (op ∷ []) s) (
          retry_each-log ops s1
          ∙ ap (λ l. l ++ singles ops) (logs chain_id wallet (op ∷ []) s)
          ∙ append_assoc (log s) ((op ∷ []) ∷ []) (singles ops))

    answer-log :
        (batch : List PackedUserOp) (s : S) (r : Outcome × S)
        → log r.1 ≡ log s ++ (batch ∷ [])
        → log (answer geth deps submit chain_id wallet batch r).1 ≡ log s ++ attempts batch r.0.1
    unfolding answer
    answer-log batch s ((hash, none), t) h = h
    answer-log batch s ((hash, some e), t) h = elim (Bool-cases (ltb 1 (length batch))) [
      | inr k ↦ rw (k, answer) h
      | inl k ↦
          rw (k, answer)
            (retry_each-log batch t
              ∙ ap (λ l. l ++ singles batch) h
              ∙ append_assoc (log s) (batch ∷ []) (singles batch))
    ]

    -- In a single process, a flush submits the batch once; where that returned an error and the batch has
    -- more than one operation, it then submits each of them again, alone and in the batch's order,
    -- whether or not the transaction of the batch was sent.
    pub flush-submissions :
        (batch : List PackedUserOp) (s : S)
        → log (flush geth deps submit chain_id wallet batch s).1
          ≡ log s ++ attempts batch (submit chain_id wallet batch s).0.1
    unfolding flush
    flush-submissions batch s =
        rw (send_under_lock-submit batch s)
          (answer-log batch s (submit chain_id wallet batch s) (logs chain_id wallet batch s))
