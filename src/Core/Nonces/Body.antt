-- ===== src/Core/Nonces/Body.antt =====
-- core/tx.go: the body that `SendManagedTx` runs under the lock, in the steps of `Nonces`, at a node that
-- answers as go-ethereum documents it.
use bundler_go.Base.{
  false, ℕ, ℤ, suc, subst, sym, ◌≡◌, ◌≢◌, ◌⊎◌, inl, inr, refl, List, Text, Option, Result, ok, err,
  GoError, Result-cases, arith,
}
use bundler_go.Core.{options, await, managed_body}
use bundler_go.Core.Nonces.{
  Work, System, Taken, Step, waiting, nonce_read, submitted, returned, read_nonce, accept, end_body,
  take,
}
use bundler_go.Evm.Client.{Geth, Ethclient, Address, Arg, TransactOpts}
use bundler_go.Redis.Exclusion
use bundler_go.Redis.Exclusion.{update}
use bundler_go.Signer.Account.{Account}

-- What a node has of a wallet: the pending nonce, and what it took.
pub record Node : Type 0 where
  pub pending : ℕ
  pub taken : List Taken

pub data Steps (process : ℕ → ℕ) (ttl : ℕ) (s : System) : System → Type 0 where
  none_yet : Steps process ttl s s
  one_more : {t u : System} → Steps process ttl s t → Step process ttl t u → Steps process ttl s u

-- What a node may do with a transaction of the call `c` at the nonce `n`: leave it, with an error; take
-- it, where the nonce is the pending one, whatever the caller hears; or take it at another nonce.
abbrev pub Handled : {Signed : Type 0} → ℕ → ℕ → Node → Result Signed → Node → Type 0
Handled c n v r v' =
    ((e : GoError) × (r ≡ err e) × (v' ≡ v))
    ⊎ (((n ≡ v.pending) × (v' ≡ record { pending = suc v.pending; taken = take c n v.taken }))
        ⊎ ((n ≢ v.pending) × (v' ≡ record v { taken = take c n v.taken })))

module _ {S Key Signed : Type 0} (geth : Geth Key Signed) (client : Ethclient S Key Signed)
    (view : S → Node) (acc : Account Key) where
  -- What go-ethereum documents of a node, for the transactions of a wallet in a call `c`.
  pub record Honest (c : ℕ) : Type 0 where
    pub answers :
        (s : S) (n : ℕ) → (client.pending_nonce_at acc.addr s).0 ≡ ok n → n ≡ (view s).pending
    pub asking : (s : S) → view (client.pending_nonce_at acc.addr s).1 ≡ view s
    pub handling :
        (o : TransactOpts Key) (to : Address) (method : Text) (args : List Arg) (s : S)
        → Handled c o.nonce
            (view s)
            (client.transact o to method args s).0
            (view (client.transact o to method args s).1)
    pub mining : (hash : Text) (s : S) → view (client.wait_mined hash s).1 ≡ view s

-- The system with a node.
abbrev pub system : Exclusion.State → (ℕ → Work) → Node → System
system lock work v = record {
  lock = lock;
  work = work;
  second = λ c. false;
  pending = v.pending;
  taken = v.taken;
}

module _ (process : ℕ → ℕ) (ttl : ℕ) (lock : Exclusion.State) (work : ℕ → Work) (c : ℕ) where
  -- From a node `v`, the call `c` has run its body, and left the node as `v'`.
  abbrev pub HasRun : Node → Node → Type 0
  HasRun v v' =
      (w : ℕ → Work) × Steps process ttl (system lock work v) (system lock w v')
      × (w c ≡ returned)
      × ((d : ℕ) → d ≢ c → w d ≡ work d)

  module _ (runs : (e : ℕ) × (lock.pc c ≡ Exclusion.critical e)) (v : Node) where
    ended :
        (w : ℕ → Work) (v' : Node)
        → ((d : ℕ) → d ≢ c → w d ≡ work d)
        → Steps process ttl (system lock work v) (system lock w v')
        → HasRun v v'
    ended w v' others r = (
      update w c returned,
      one_more r (end_body c runs refl),
      ground arith,
      λ d ne. ground (arith, others d),
    )

    module _ (fresh : work c ≡ waiting) where
      abbrev asked : ℕ → Work
      asked = update work c (nonce_read v.pending)

      Steps-asked : Steps process ttl (system lock work v) (system lock asked v)
      Steps-asked = one_more none_yet (read_nonce c runs fresh refl)

      handled-HasRun :
          {Signed : Type 0} (n : ℕ) (r : Result Signed) (v' : Node)
          → n ≡ v.pending
          → Handled c n v r v'
          → HasRun v v'
      handled-HasRun n r v' e (inl (x, k, same)) =
          subst (HasRun v) (sym same) (ended asked v (λ d ne. ground arith) Steps-asked)
      handled-HasRun n r v' e (inr (inl (k, grown))) = subst (HasRun v) (sym grown) (
          ended (update asked c (submitted n)) _ (λ d ne. ground arith)
            (one_more Steps-asked (accept c n runs (ground arith) e refl)))
      handled-HasRun n r v' e (inr (inr (k, grown))) = absurd (k e)

module _ {S Key Signed : Type 0} (geth : Geth Key Signed) (client : Ethclient S Key Signed)
    (view : S → Node) (acc : Account Key) (process : ℕ → ℕ) (ttl : ℕ) (lock : Exclusion.State)
    (work : ℕ → Work) (c : ℕ) (honest : Honest geth client view acc c) where
  abbrev pub Run : S → S → Type 0
  Run s s' = HasRun process ttl lock work c (view s) (view s')

  await-view : (hash : Text) (s : S) → view (await geth client hash s).1 ≡ view s
  unfolding await
  await-view hash s = elim (Result-cases (client.wait_mined hash s).0) [
    | inl (r, e) ↦ rw (e, await) (honest.mining hash s)
    | inr (x, e) ↦ rw (e, await) (honest.mining hash s)
  ]

  -- A world whose node is the same.
  pub from :
      (v : Node) {s s' : S}
      → view s' ≡ view s
      → HasRun process ttl lock work c v (view s)
      → HasRun process ttl lock work c v (view s')
  from v same = subst (HasRun process ttl lock work c v) (sym same)

  -- The body has ended before it asked.
  pub idle : (runs : (e : ℕ) × (lock.pc c ≡ Exclusion.critical e)) (s : S) → Run s s
  idle runs s = ended process ttl lock work c runs (view s) work (view s) (λ d ne. refl) none_yet

  module _ (runs : (e : ℕ) × (lock.pc c ≡ Exclusion.critical e)) (fresh : work c ≡ waiting)
      (s : S) where
    abbrev pub after_nonce : S
    after_nonce = (client.pending_nonce_at acc.addr s).1

    -- The body has ended without a nonce, without a transaction, or with one.
    pub unasked : Run s after_nonce
    unasked = from (view s) (honest.asking s) (idle runs s)

    pub unsent : Run s after_nonce
    unsent = from (view s) (honest.asking s) (
        ended process ttl lock work c runs (view s)
          (asked process ttl lock work c runs (view s) fresh) (view s) (λ d ne. ground arith)
          (Steps-asked process ttl lock work c runs (view s) fresh))

    pub handled :
        {A : Type 0} (n : ℕ) (t : Result A × S)
        → (client.pending_nonce_at acc.addr s).0 ≡ ok n
        → Handled c n (view after_nonce) t.0 (view t.1)
        → Run s t.1
    handled n t e h =
        handled-HasRun process ttl lock work c runs (view s) fresh n t.0 (view t.1)
          (honest.answers s n e) (subst (λ v. Handled c n v t.0 (view t.1)) (honest.asking s) h)

    pub sent :
        (o : TransactOpts Key) (to : Address) (method : Text) (args : List Arg)
        → (client.pending_nonce_at acc.addr s).0 ≡ ok o.nonce
        → Run s (client.transact o to method args after_nonce).1
    sent o to method args e =
        handled o.nonce (client.transact o to method args after_nonce) e
          (honest.handling o to method args after_nonce)

    pub managed_body-HasRun :
        (chain_id : ℤ) (to : Address) (value : Option ℤ) (method : Text) (args : List Arg)
        → Run s (managed_body geth client chain_id acc to value method args s).1
    unfolding managed_body
    managed_body-HasRun chain_id to value method args =
        elim (Result-cases (client.pending_nonce_at acc.addr s).0) [
          | inr (x, e) ↦ rw (e, managed_body) unasked
          | inl (nonce, e) ↦ elim (Result-cases (geth.transactor acc.priv chain_id)) [
            | inr (x, k) ↦ rw (e, managed_body) (rw (k, managed_body) unsent)
            | inl (u, k) ↦
                let o = options acc chain_id nonce value in
                let t = client.transact o to method args after_nonce in
                let r = sent o to method args e in
                elim (Result-cases t.0) [
                  | inr (x, m) ↦
                      rw (e, managed_body) (rw (k, managed_body) (rw (m, managed_body) r))
                  | inl (tx, m) ↦
                      rw (e, managed_body)
                        (rw (k, managed_body)
                          (rw (m, managed_body)
                            (from (view s) (await-view (geth.tx_hash tx) t.1) r)))
                ]
          ]
        ]
