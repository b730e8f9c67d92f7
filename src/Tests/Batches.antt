-- ===== src/Tests/Batches.antt =====
-- batcher.go at a batch of two operations, and at a queue with a pool of one wallet.
use bundler_go.Base.{
  ℕ, pos, suc, inr, ◌+◌, ◌*◌, ◌≤◌, ◌≡◌, refl, List, [], ◌∷◌, codes, none, some, ok, err, new_error,
  ◌++◌, length, arith, ltb, if◌then◌else◌,
}
use bundler_go.Userop.Types.{PackedUserOp}
use bundler_go.Userop.Batcher.{Submit, flush}
use bundler_go.Core.{Deps}
use bundler_go.Userop.Submissions.{flush-submissions}
use bundler_go.Userop.Flush.{Answers, flush-Answers}
use bundler_go.Userop.Dispatch.{
  Queue, idle, draining, picked, take_first, drain, pick, start_flush, end_flush, Reach, made,
  accept, step, Run, stop, and_then,
}
use bundler_go.Userop.Conservation.{count, Conserved, Bounded, Reach-Conserved, Reach-Bounded}
use bundler_go.Userop.Drain.{Reach-drains, Reach-steps}
use bundler_go.Userop.Refinement.{BookMove, steps, book, queue-BookMove}
use bundler_go.Tests.World.{geth, deps, account}

abbrev operation : ℕ → PackedUserOp
operation n = record {
  sender = n;
  nonce = pos 0;
  init_code = [];
  call_data = [];
  call_gas_limit = pos 1;
  verification_gas_limit = pos 1;
  pre_verification_gas = pos 1;
  max_fee_per_gas = pos 1;
  max_priority_fee_per_gas = pos 1;
  paymaster_and_data = [];
  signature = [];
}

-- A chain that takes single operations only.
abbrev submit : Submit ℕ ℕ
submit chain_id wallet ops w =
    if ltb 1 (length ops)
    then ((codes "", some (new_error (codes "out of gas"))), suc w)
    else ((codes "0x7", none), suc w)

abbrev batch : List PackedUserOp
batch = operation 1 ∷ operation 2 ∷ []

flush-Answers_example :
    Answers geth deps submit
      (pos 1)
      account
      batch
      (flush geth deps submit (pos 1) account batch 0).0
flush-Answers_example = flush-Answers geth deps submit (pos 1) account batch 0 (omega arith)

-- A process of its own, whose world has what it submitted, and whose chain takes single operations only.
abbrev local_deps : Deps (List (List PackedUserOp)) ℕ ℕ
local_deps = record {
  getenv = deps.getenv;
  client = λ c l. (err (new_error (codes "no client")), l);
  bundler_pool = λ c l. (ok (account ∷ []), l);
  primary_bundler = λ c l. (ok account, l);
  server_key1 = λ l. (ok account, l);
  server_key2 = λ l. (ok account, l);
  rdb = none;
}

abbrev logging : Submit (List (List PackedUserOp)) ℕ
logging chain_id wallet ops l = (
  if ltb 1 (length ops)
      then (codes "0x8", some (new_error (codes "context deadline exceeded")))
      else (codes "0x7", none),
  l ++ (ops ∷ []),
)

flush-submissions_example :
    (flush geth local_deps logging (pos 1) account batch []).1
    ≡ batch ∷ (operation 1 ∷ []) ∷ (operation 2 ∷ []) ∷ []
flush-submissions_example =
    flush-submissions geth local_deps logging (λ l. l) (λ c wallet ops l. refl) refl (pos 1) account
      batch []

-- Two operations come; the dispatcher takes the first.
abbrev queue : Queue
queue = record {
  accepted = 2 ∷ 1 ∷ [];
  channel = 2 ∷ [];
  phase = draining (1 ∷ []);
  running = [];
  answered = [];
}

queue-Reach : Reach 1 queue
queue-Reach =
    step (accept 2 (accept 1 made (omega arith)) (omega arith))
      (take_first 1 (2 ∷ []) refl refl refl)

Reach-Conserved_example : Conserved queue
Reach-Conserved_example = Reach-Conserved 1 queue-Reach

Reach-Bounded_example : Bounded 1 queue
Reach-Bounded_example = Reach-Bounded 1 queue-Reach

Reach-drains_example :
    (t : Queue) × Run 1 queue t × ((x : ℕ) → count x t.answered ≡ count x queue.accepted)
Reach-drains_example = Reach-drains 1 queue (omega arith) queue-Reach

-- The dispatcher takes the second operation into the batch; then the batch is picked, sent and answered.
abbrev full_batch : Queue
full_batch = record queue { channel = []; phase = draining (1 ∷ 2 ∷ []) }

abbrev picked_batch : Queue
picked_batch = record full_batch { phase = picked (1 ∷ 2 ∷ []) }

abbrev sent_batch : Queue
sent_batch = record picked_batch { phase = idle; running = (1 ∷ 2 ∷ []) ∷ [] }

abbrev answered_batch : Queue
answered_batch = record sent_batch { running = []; answered = 1 ∷ 2 ∷ [] }

sent_batch-Reach : Reach 1 sent_batch
sent_batch-Reach =
    step
      (step (step queue-Reach (drain (1 ∷ []) 2 [] refl (omega arith) refl refl))
        (pick (1 ∷ 2 ∷ []) refl (inr refl) refl))
      (start_flush (1 ∷ 2 ∷ []) refl (omega arith) refl)

queue-BookMove_example : BookMove (book sent_batch) (book answered_batch)
queue-BookMove_example =
    queue-BookMove 1 sent_batch-Reach (steps (end_flush [] [] (1 ∷ 2 ∷ []) refl refl))

Reach-steps_example : 4 ≤ 501 + 50 * 1
Reach-steps_example = Reach-steps 1 queue-Reach (
    and_then (drain (1 ∷ []) 2 [] refl (omega arith) refl refl) (
      and_then (pick (1 ∷ 2 ∷ []) refl (inr refl) refl) (
        and_then (start_flush (1 ∷ 2 ∷ []) refl (omega arith) refl)
          (and_then (end_flush [] [] (1 ∷ 2 ∷ []) refl refl) stop))))
