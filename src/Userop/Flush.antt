-- ===== src/Userop/Flush.antt =====
-- userop/batcher.go: what `flush` answers to the operations of a batch.
use bundler_go.Base.{
  ℕ, ℤ, suc, ◌≡◌, ◌<◌, refl, ap, List, [], ◌∷◌, true, none, some, length, replicate, ltb, arith,
  some-ne-none, Elem, here, there,
}
use bundler_go.Evm.Client.{Geth}
use bundler_go.Evm.Send.{Outcome}
use bundler_go.Signer.Account.{Account}
use bundler_go.Core.{Deps}
use bundler_go.Userop.Types.{PackedUserOp}
use bundler_go.Userop.Batcher.{Submit, send_under_lock, retry_each, answer, flush}

ltb-suc-suc : (n : ℕ) → ltb 1 (suc (suc n)) ≡ true
ltb-suc-suc n = ground arith

module _ {S Key Signed : Type 0} (geth : Geth Key Signed) (deps : Deps S Key Signed)
    (submit : Submit S Key) (chain_id : ℤ) (wallet : Account Key) where
  -- What an operation is answered is right: a success is the hash of a transaction that carries the
  -- operation, among the operations of some submission under the wallet's lock.
  abbrev pub Answered : PackedUserOp → Outcome → Type 0
  Answered op out =
      out.1 ≡ none
      → (ops : List PackedUserOp) × (s : S) × Elem op ops
        × ((send_under_lock geth deps submit chain_id wallet ops s).0 ≡ out)

  -- One answer for each operation, in order, and each is right.
  abbrev pub Answers : List PackedUserOp → List Outcome → Type 0
  Answers [] [] = Unit
  Answers [] (out ∷ outs) = ⊥
  Answers (op ∷ ops) [] = ⊥
  Answers (op ∷ ops) (out ∷ outs) = Answered op out × Answers ops outs

  retry_each-Answers :
      (ops : List PackedUserOp) (s : S)
      → Answers ops (retry_each geth deps submit chain_id wallet ops s).0
  unfolding retry_each
  retry_each-Answers [] s = tt
  retry_each-Answers (op ∷ ops) s = ((λ h. (op ∷ [], s, here, refl)), retry_each-Answers ops _)

  shared-Answers :
      (all ops : List PackedUserOp) (s : S) (out : Outcome)
      → ((op : PackedUserOp) → Elem op ops → Elem op all)
      → (send_under_lock geth deps submit chain_id wallet all s).0 ≡ out
      → Answers ops (replicate (length ops) out)
  shared-Answers all [] s out sub e = tt
  shared-Answers all (op ∷ ops) s out sub e =
      ((λ h. (all, s, sub op here, e)), shared-Answers all ops s out (λ x m. sub x (there m)) e)

  answer-Answers :
      (batch : List PackedUserOp) (s : S) (r : Outcome × S)
      → 0 < length batch
      → send_under_lock geth deps submit chain_id wallet batch s ≡ r
      → Answers batch (answer geth deps submit chain_id wallet batch r).0
  unfolding answer
  answer-Answers batch s ((hash, none), t) h e =
      shared-Answers batch batch s (hash, none) (λ x m. m) (ap (λ r. r.0) e)
  answer-Answers [] s ((hash, some x), t) h e = absurd (omega (arith, h))
  answer-Answers (op ∷ []) s ((hash, some x), t) h e = ((λ k. absurd (some-ne-none k)), tt)
  answer-Answers (op ∷ op2 ∷ ops) s ((hash, some x), t) h e =
      rw (ltb-suc-suc (length ops), answer) (retry_each-Answers (op ∷ op2 ∷ ops) t)

  -- For a batch that is not empty, `flush` answers each operation exactly once and in the batch's
  -- order, and an answer without an error is what a submission under the wallet's lock returned for a
  -- list of operations that holds this one.
  pub flush-Answers :
      (batch : List PackedUserOp) (s : S)
      → 0 < length batch
      → Answers batch (flush geth deps submit chain_id wallet batch s).0
  unfolding flush
  flush-Answers batch s h =
      answer-Answers batch s (send_under_lock geth deps submit chain_id wallet batch s) h refl
