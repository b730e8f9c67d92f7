-- ===== src/Userop/Enqueue.antt =====
-- userop/batcher.go: `Enqueue`, as one caller sees it. With which other operations the dispatcher puts
-- the operation into a batch, and to which wallet the batch goes, is `turn`; `Dispatch` has the queue
-- as all callers share it.
use bundler_go.Base.{
  ℕ, ℤ, ◌++◌, List, ◌∷◌, Text, Option, none, some, Result, ok, err, GoError, M, get_elem?, length,
}
use bundler_go.Core.{Deps}
use bundler_go.Evm.Client.{Geth}
use bundler_go.Evm.Send.{Outcome}
use bundler_go.Signer.Account.{Account}
use bundler_go.Signer.Manager.{index_panic}
use bundler_go.Userop.Batcher.{Submit, flush}
use bundler_go.Userop.Types.{PackedUserOp}

-- The batch in which the dispatcher puts an operation: what stands before and behind it, and the index
-- of the wallet that `nextIndex` gives.
pub record Turn : Type 0 where
  pub before : List PackedUserOp
  pub after : List PackedUserOp
  pub wallet : ℕ

-- What comes out of the channel `res`; the hash beside an error is dropped, as every caller does.
unfoldable pub read_result : Option Outcome → Result Text
read_result none = err index_panic
read_result (some (hash, none)) = ok hash
read_result (some (hash, some e)) = err e

module _ {S Key Signed : Type 0} (geth : Geth Key Signed) (deps : Deps S Key Signed)
    (submit : Submit S Key) (turn : S → Turn) (ctx_done : S → Option GoError × S) where
  -- The flush of the batch, and the operation's own result.
  unfoldable pub flush_turn : ℤ → PackedUserOp → Option (Account Key) → M S Text
  unfolding flush read_result
  flush_turn chain_id op none s = (err index_panic, s)
  flush_turn chain_id op (some wallet) s =
      let (outs, s') =
        flush geth deps submit chain_id wallet ((turn s).before ++ (op ∷ (turn s).after)) s in
      (read_result (get_elem? outs (length (turn s).before)), s')

  -- The second `select`: the result, or the end of the context.
  unfoldable pub await_result : Result Text × S → Result Text × S
  await_result (r, s) =
      let (done, s') = ctx_done s in elim done [ some e ↦ (err e, s') | none ↦ (r, s') ]

  -- `Enqueue`
  unfoldable pub enqueue : ℤ → PackedUserOp → M S Text
  unfolding flush_turn await_result
  enqueue chain_id op s =
      let (p, s1) = deps.bundler_pool chain_id s in
      elim p [
        | err e ↦ (err e, s1)
        | ok pool ↦
            let (done, s2) = ctx_done s1 in
            elim done [
              | some e ↦ (err e, s2)
              | none ↦ await_result (flush_turn chain_id op (get_elem? pool (turn s2).wallet) s2)
            ]
      ]
