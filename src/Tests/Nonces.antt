-- ===== src/Tests/Nonces.antt =====
-- core/tx.go at a call that has sent its transaction at the nonce 7, and at two calls whose bodies outlast
-- their keys.
use bundler_go.Base.{
  false, ℕ, pos, suc, ◌≡◌, ◌≢◌, refl, [], ◌∷◌, codes, none, some, inl, inr, ok, err, sym, ok_inj,
  Result, new_error, arith, if◌then◌else◌, ◌==◌, Bool-cases,
}
use bundler_go.Core.{Deps, managed_body}
use bundler_go.Core.Nonces.{
  System, waiting, nonce_read, submitted, refused, Reach, start, next, locking, read_nonce, accept,
  take, Consecutive, Orderly, Unrestricted,
}
use bundler_go.Core.Nonces.Serial.{Reach-Serial}
use bundler_go.Core.Nonces.Conflict.{Reach-conflict}
use bundler_go.Core.Nonces.Body.{Node, Handled, Honest, HasRun}
use bundler_go.Userop.Batcher.{submit_to}
use bundler_go.Core.Nonces.Wallet.{Signing}
use bundler_go.Transfer.Send.{wallet_body}
use bundler_go.Transfer.Nonces.{bodies-HasRun}
use bundler_go.Evm.Gas.{fee_from_provider, estimate_gas}
use bundler_go.Evm.Send.{sign_and_send}
use bundler_go.Tests.Splits.{nonce_geth}
use bundler_go.Redis.Exclusion
use bundler_go.Redis.Exclusion.{trying, critical, update, lock_local, set_nx, Timely, Anything}
use bundler_go.Evm.Client.{Ethclient, big}
use bundler_go.Tests.World.{getenv, account, receipt}

abbrev fresh : System
fresh = record {
  lock = Exclusion.initial;
  work = λ c. waiting;
  second = λ c. false;
  pending = 7;
  taken = [];
}

abbrev knocking : System
knocking = record fresh {
  lock = record fresh.lock {
    mutex = update fresh.lock.mutex 0 (some 0);
    pc = update fresh.lock.pc 0 trying;
  };
}

abbrev inside : System
inside = record knocking {
  lock = record knocking.lock {
    store = some (0, 30);
    pc = update knocking.lock.pc 0 (critical 30);
  };
}

abbrev informed : System
informed = record inside { work = update inside.work 0 (nonce_read 7) }

abbrev paid : System
paid = record {
  lock = informed.lock;
  work = update informed.work 0 (submitted 7);
  second = λ c. false;
  pending = 8;
  taken = take 0 7 [];
}

inside-Orderly : Orderly inside
inside-Orderly = ((λ c e k. ground (arith, k)), λ c. refl)

paid-Reach : Reach (λ c. c) 30 Orderly 7 paid
paid-Reach =
    next
      (next
        (next
          (next (start {s = fresh} refl ((λ c e k. ground (arith, k)), λ c. refl))
            (locking knocking.lock (lock_local 0 refl refl refl) (λ x p q. ground (arith, p)) refl)
            ((λ c e k. ground (arith, k)), λ c. refl))
          (locking inside.lock (set_nx 0 refl refl refl) (λ x p q. ground (arith, p)) refl)
          inside-Orderly)
        (read_nonce 0 (30, refl) refl refl) inside-Orderly)
      (accept 0 7 (30, refl) refl refl refl) inside-Orderly

Reach-Serial_example : Consecutive 7 8 (take 0 7 []) × ((c n : ℕ) → paid.work c ≢ refused n)
Reach-Serial_example = Reach-Serial (λ c. c) 30 7 paid-Reach

Reach-conflict_example :
    (s : System) × Reach (λ c. c) 30 Unrestricted 7 s
    × (s.work 0 ≡ refused 7)
    × (s.taken ≡ take 1 7 [])
Reach-conflict_example = Reach-conflict (λ c. c) 30 7 0 1 (λ e. ground (arith, e))

-- A node that turns down what has another nonce than the pending one.
abbrev handle : {A : Type 0} → A → ℕ → Node → Result A × Node
handle a n v =
    if n == v.pending
    then (ok a, record { pending = suc v.pending; taken = take 0 n v.taken })
    else (err (new_error (codes "nonce too low")), v)

abbrev node_client : Ethclient Node ℕ ℕ
node_client = record {
  suggest_gas_tip_cap = λ v. (ok none, v);
  header_by_number = λ v. (ok none, v);
  suggest_gas_price = λ v. (ok none, v);
  estimate_gas = λ m v. (ok 50_000, v);
  pending_nonce_at = λ a v. (ok v.pending, v);
  send_transaction = λ t v. handle tt t v;
  transaction_receipt = λ h v. (ok (some receipt), v);
  wait_mined = λ h v. (ok receipt, v);
  transact = λ o to m args v. handle 7 o.nonce v;
  call = λ a m args v. (ok (big (pos 0)), v);
}

abbrev untouched : Node
untouched = record { pending = 7; taken = [] }

abbrev touched : Node
touched = record { pending = 8; taken = take 0 7 [] }

handle-Handled :
    {A : Type 0} (a : A) (n : ℕ) (v : Node) → Handled 0 n v (handle a n v).0 (handle a n v).1
handle-Handled a n v = elim (Bool-cases (n == v.pending)) [
  | inl e ↦ rw e (inr (inl (ground (arith, e), refl)))
  | inr e ↦ rw e (inl (new_error (codes "nonce too low"), refl, refl))
]

node_client-Honest : Honest nonce_geth node_client (λ v. v) account 0
node_client-Honest = record {
  answers = λ s n e. sym (ok_inj e);
  asking = λ s. refl;
  handling = λ o to method args s. handle-Handled 7 o.nonce s;
  mining = λ hash s. refl;
}

node_client-Signing : Signing nonce_geth node_client (λ v. v) account 0
node_client-Signing = record {
  honest = node_client-Honest;
  quiet = record { tip = λ s. refl; head = λ s. refl; price = λ s. refl; estimate = λ m s. refl };
  nonce_of = λ x. x;
  signed_nonce = λ t k h. sym (ok_inj h);
  handling = λ x s. handle-Handled tt x s;
}

-- The client is not reached through these.
abbrev node_deps : Deps Node ℕ ℕ
node_deps = record {
  getenv = getenv;
  client = λ c v. (ok node_client, v);
  bundler_pool = λ c v. (ok (account ∷ []), v);
  primary_bundler = λ c v. (ok account, v);
  server_key1 = λ v. (ok account, v);
  server_key2 = λ v. (ok account, v);
  rdb = none;
}

bodies-HasRun_example :
    HasRun (λ c. c) 30 inside.lock (λ c. waiting) 0 untouched touched
    × HasRun (λ c. c) 30 inside.lock (λ c. waiting) 0 untouched touched
    × HasRun (λ c. c) 30 inside.lock (λ c. waiting) 0 untouched touched
unfolding managed_body submit_to wallet_body fee_from_provider estimate_gas sign_and_send
bodies-HasRun_example =
    bodies-HasRun nonce_geth node_deps node_client (λ v. v) account (λ c. c) 30 inside.lock
      (λ c. waiting) 0 node_client-Signing (30, refl) refl (pos 1) 5 none (codes "deploy") []
      (codes "0x5") [] (record { from = 12; to = 4; value = some (pos 9); input = [] }) (pos 9)
      21_000 200_000 untouched
