-- ===== src/Userop/Dispatch.antt =====
-- userop/batcher.go: `dispatch` and the queue of one chain, as the steps of the dispatcher, of the
-- flushes that it starts and of the calls of `Enqueue`. A queued operation is a number.
use bundler_go.Base.{
  ℕ, ℤ, ◌*◌, ◌≡◌, ◌<◌, ◌≤◌, ◌++◌, List, [], ◌∷◌, ◌⊎◌, length, ok, err, M, Option, Text, format_int,
}
use bundler_go.Redis.Cursor.{Cursors, next_index}
use bundler_go.Userop.Batcher.{max_batch_size}

-- `nextIndex` of the dispatcher: wallet 0 where the cursor fails.
unfoldable pub wallet_index :
    {W : Type 0} → Option (Text → M W ℤ) → ℤ → ℕ → W × Cursors → ℕ × (W × Cursors)
unfolding next_index
wallet_index rdb chain_id n s =
    let (r, s') = next_index rdb (format_int chain_id) n s in
    elim r [ err e ↦ (0, s') | ok i ↦ (i, s') ]

-- Where the dispatcher is: at the receive of the loop, in `drain` with a batch, or past it with a
-- batch that waits for the semaphore.
pub data Phase : Type 0 where
  idle : Phase
  draining : List ℕ → Phase
  picked : List ℕ → Phase

-- `chainQueue`: the channel, the batches whose flushes hold the semaphore, and beside them what was
-- ever sent to the channel and what was answered.
pub record Queue : Type 0 where
  pub accepted : List ℕ
  pub channel : List ℕ
  pub phase : Phase
  pub running : List (List ℕ)
  pub answered : List ℕ

-- `make(chan *queuedOp, maxBatchSize*2)`
abbrev pub channel_capacity : ℕ
channel_capacity = max_batch_size * 2

-- A chain's queue when it is made.
abbrev pub new_queue : Queue
new_queue = record { accepted = []; channel = []; phase = idle; running = []; answered = [] }

-- A step of the dispatcher or of a flush; `pool_size` is the semaphore's.
pub data Step (pool_size : ℕ) (s t : Queue) : Type 0 where
  -- `for first := range cq.ch`
  take_first :
      (q : ℕ) (rest : List ℕ)
      → s.phase ≡ idle
      → s.channel ≡ q ∷ rest
      → t ≡ record s { channel = rest; phase = draining (q ∷ []) }
      → Step pool_size s t
  -- `case q := <-cq.ch`
  drain :
      (batch : List ℕ) (q : ℕ) (rest : List ℕ)
      → s.phase ≡ draining batch
      → length batch < max_batch_size
      → s.channel ≡ q ∷ rest
      → t ≡ record s { channel = rest; phase = draining (batch ++ (q ∷ [])) }
      → Step pool_size s t
  -- `break drain`, or the batch is full
  pick :
      (batch : List ℕ)
      → s.phase ≡ draining batch
      → (max_batch_size ≤ length batch) ⊎ (s.channel ≡ [])
      → t ≡ record s { phase = picked batch }
      → Step pool_size s t
  -- `cq.sem <- struct{}{}` and the start of the flush
  start_flush :
      (batch : List ℕ)
      → s.phase ≡ picked batch
      → length s.running < pool_size
      → t ≡ record s { phase = idle; running = batch ∷ s.running }
      → Step pool_size s t
  -- a flush has answered its batch, and leaves the semaphore
  end_flush :
      (before after : List (List ℕ)) (batch : List ℕ)
      → s.running ≡ before ++ (batch ∷ after)
      → t ≡ record s { running = before ++ after; answered = batch ++ s.answered }
      → Step pool_size s t

-- The states of a queue, in any order of the steps.
pub data Reach (pool_size : ℕ) : Queue → Type 0 where
  made : Reach pool_size new_queue
  -- `cq.ch <- q` of `Enqueue`, which waits while the channel is full
  accept :
      {s : Queue} (q : ℕ)
      → Reach pool_size s
      → length s.channel < channel_capacity
      → Reach pool_size (record s { accepted = q ∷ s.accepted; channel = s.channel ++ (q ∷ []) })
  step : {s t : Queue} → Reach pool_size s → Step pool_size s t → Reach pool_size t

-- Steps with no new operation between them.
pub data Run (pool_size : ℕ) : Queue → Queue → Type 0 where
  stop : {s : Queue} → Run pool_size s s
  and_then : {s t u : Queue} → Step pool_size s t → Run pool_size t u → Run pool_size s u
