-- ===== src/Core/Nonces.antt =====
-- core/tx.go: the nonces of one wallet, as the interleavings of many calls of `SendManagedTx` in several
-- processes. The calls take the wallet's lock as in `Redis.Exclusion`; while the body of a call runs, it
-- asks the node for the pending nonce, hands it a transaction with that nonce and waits. Nobody else sends
-- out of the wallet. A payment of internal/split sends its approval first, and goes on at the next nonce;
-- after a failure it may send again, at the same nonce or at the next.
pub mod Serial
pub mod Conflict
pub mod Body
pub mod Wallet
use bundler_go.Base.{ℕ, suc, ◌≡◌, ◌≢◌, ◌⊎◌, List, [], ◌∷◌, Bool, true, false, Option, none, some}
use bundler_go.Redis.Exclusion
use bundler_go.Redis.Exclusion.{critical, releasing, update, Timely, Anything}

-- Where the body of a call is.
pub data Work : Type 0 where
  waiting : Work
  -- `PendingNonceAt` has answered
  nonce_read : ℕ → Work
  -- the node has taken the transaction
  submitted : ℕ → Work
  -- the node has turned the transaction down for its nonce
  refused : ℕ → Work
  -- the body has returned
  returned : Work

-- A transaction that the node took: whose it is, and its nonce.
pub record Taken : Type 0 where
  pub caller : ℕ
  pub nonce : ℕ

pub record System : Type 0 where
  pub lock : Exclusion.State
  pub work : ℕ → Work
  -- whose body has made a second attempt after one that failed
  pub second : ℕ → Bool
  -- what the node answers to `PendingNonceAt`
  pub pending : ℕ
  -- what the node took, the latest first
  pub taken : List Taken

abbrev pub take : ℕ → ℕ → List Taken → List Taken
take c n l = record { caller = c; nonce = n } ∷ l

-- The body of a call runs.
abbrev pub Runs : System → ℕ → Type 0
Runs s c = (e : ℕ) × (s.lock.pc c ≡ critical e)

-- A body that ends has returned.
abbrev pub Ended : System → Exclusion.State → Type 0
Ended s l = (c : ℕ) → l.pc c ≡ releasing → s.lock.pc c ≢ releasing → s.work c ≡ returned

-- Where `ensureAllowance` sends its reset after an approval that failed, whether or not the node took the
-- approval: at the nonce of the approval again.
unfoldable pub reset_at : Work → Option ℕ
reset_at waiting = none
reset_at (nonce_read n) = some n
reset_at (submitted n) = some n
reset_at (refused n) = some n
reset_at returned = none

-- Where `Execute` sends again after a failure at a nonce, whether or not the node took the first attempt:
-- at the next nonce.
unfoldable pub retry_at : Work → Option ℕ
retry_at waiting = none
retry_at (nonce_read n) = some (suc n)
retry_at (submitted n) = some (suc n)
retry_at (refused n) = some (suc n)
retry_at returned = none

module _ (process : ℕ → ℕ) (ttl : ℕ) where
  pub data Step (s t : System) : Type 0 where
    locking :
        (l : Exclusion.State)
        → Exclusion.Step process ttl s.lock l
        → Ended s l
        → t ≡ record s { lock = l }
        → Step s t
    -- `PendingNonceAt`
    read_nonce :
        (c : ℕ)
        → Runs s c
        → s.work c ≡ waiting
        → t ≡ record s { work = update s.work c (nonce_read s.pending) }
        → Step s t
    -- `Transact` at the node's nonce
    accept :
        (c n : ℕ)
        → Runs s c
        → s.work c ≡ nonce_read n
        → n ≡ s.pending
        → t ≡ record s {
          work = update s.work c (submitted n);
          pending = suc s.pending;
          taken = take c n s.taken;
        }
        → Step s t
    -- `Transact` at another nonce: the node turns the transaction down,
    refuse :
        (c n : ℕ)
        → Runs s c
        → s.work c ≡ nonce_read n
        → n ≢ s.pending
        → t ≡ record s { work = update s.work c (refused n) }
        → Step s t
    -- or takes it in place of one that it has at this nonce, or for later
    misplace :
        (c n : ℕ)
        → Runs s c
        → s.work c ≡ nonce_read n
        → n ≢ s.pending
        → t ≡ record s { work = update s.work c (submitted n); taken = take c n s.taken }
        → Step s t
    -- an approval is followed by the payment, at the next nonce
    go_on :
        (c n : ℕ)
        → Runs s c
        → s.work c ≡ submitted n
        → t ≡ record s { work = update s.work c (nonce_read (suc n)) }
        → Step s t
    -- a payment attempts again: it resets an allowance, or sends once more
    attempt_again :
        (c n : ℕ)
        → Runs s c
        → (reset_at (s.work c) ≡ some n) ⊎ (retry_at (s.work c) ≡ some n)
        → t ≡ record s { work = update s.work c (nonce_read n); second = update s.second c true }
        → Step s t
    -- the body returns: after the wait, or with an error at any point
    end_body : (c : ℕ) → Runs s c → t ≡ record s { work = update s.work c returned } → Step s t

  -- The runs whose states all meet `P`, from a node that answers `first`.
  pub data Reach (P : System → Type 0) (first : ℕ) : System → Type 0 where
    start :
        {s : System}
        → s ≡ record {
          lock = Exclusion.initial;
          work = λ c. waiting;
          second = λ c. false;
          pending = first;
          taken = [];
        }
        → P s
        → Reach P first s
    next : {s t : System} → Reach P first s → Step s t → P t → Reach P first t

-- No body outlasts its key, and none has made a second attempt.
abbrev pub Orderly : System → Type 0
Orderly s = Timely s.lock × ((c : ℕ) → s.second c ≡ false)

abbrev pub Unrestricted : System → Type 0
Unrestricted s = Anything s.lock

-- The nonces that the node took are `first`, `first + 1` and so on up to the one before `pending`, each
-- once and in this order.
abbrev pub Consecutive : ℕ → ℕ → List Taken → Type 0
Consecutive first pending [] = pending ≡ first
Consecutive first pending (x ∷ l) = (pending ≡ suc x.nonce) × Consecutive first x.nonce l
