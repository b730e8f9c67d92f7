-- ===== src/Deploy/Laws.antt =====
-- deploy.go: what an answered deployment reports, and how the handler ends.
use bundler_go.Base.{
  ℕ, ℤ, [], ◌∷◌, Text, codes, Option, none, some, ok, GoError, ◌≡◌, ◌≢◌, refl, sym, ap, ◌∙◌, inl,
  inr, ◌⊎◌, ◌++◌, ◌==◌, List, Elem, here, there, Bool-cases, arith, >>=-ok, ok_inj, err-ne-ok,
  Result-cases, equal_fold,
}
use bundler_go.Chain.{resolve_chain_id}
use bundler_go.Core.{Deps, Sent, both, send_managed_tx}
use bundler_go.Core.Sending.{send_managed_tx-Complete}
use bundler_go.Evm.Client.{Geth, Address, Log, Receipt, bytes, bytes32}
use bundler_go.Evm.Number.{keccak256}
use bundler_go.Httpx.Contract.{Ends, write_validation_error-Allowed, finish-Ends}
use bundler_go.Signer.Account.{Account}
use bundler_go.Transfer.Request.{Checked, refused, passed}
use bundler_go.Deploy.{
  DeployBody, DeployResponse, Order, deployed_topic, find_deployed, read_deployed, deployed_of,
  response, compute_address, deploy, run_order, check_body, perform, handle_deploy,
}

head_or : ℕ → List ℕ → ℕ
head_or d [] = d
head_or d (t ∷ ts) = t

module _ {S Key Signed : Type 0} (geth : Geth Key Signed) (deployed_id : ℕ)
    (deps : Deps S Key Signed) where
  -- A log of the event `Deployed` for the address with the topic `u`.
  abbrev pub Announces : ℕ → Log → Type 0
  Announces u log = (rest : List ℕ) × (log.topics ≡ deployed_id ∷ u ∷ rest)

  abbrev pub NoneAnnounces : List Log → Type 0
  NoneAnnounces logs = (log : Log) → Elem log logs → (u : ℕ) → Announces u log → ⊥

  -- The address is that of the first event `Deployed`, or zero where there is none.
  abbrev pub FirstDeployed : List Log → Address → Type 0
  FirstDeployed logs at =
      ((before : List Log) × (log : Log) × (after : List Log) × (u : ℕ) × (logs
          ≡ before ++ (log ∷ after))
        × NoneAnnounces before
        × Announces u log
        × (at ≡ geth.topic_address u))
      ⊎ (NoneAnnounces logs × (at ≡ 0))

  none_of :
      (log : Log) (rest : List Log)
      → ((u : ℕ) → Announces u log → ⊥)
      → NoneAnnounces rest
      → NoneAnnounces (log ∷ rest)
  none_of log rest quiet k l here = quiet
  none_of log rest quiet k l (there m) = k l m

  topics_cases :
      (topics : List ℕ)
      → ((u : ℕ) × (rest : List ℕ) × (deployed_topic deployed_id topics ≡ some u)
          × (topics ≡ deployed_id ∷ u ∷ rest))
        ⊎ ((deployed_topic deployed_id topics ≡ none)
            × ((u : ℕ) (rest : List ℕ) → topics ≢ deployed_id ∷ u ∷ rest))
  unfolding deployed_topic
  topics_cases [] = inr (refl, λ u rest h. cc)
  topics_cases (t ∷ []) = inr (refl, λ u rest h. cc)
  topics_cases (t ∷ v ∷ ts) = elim (Bool-cases (t == deployed_id)) [
    | inl e ↦
        inl (v, ts, rw (e, deployed_topic) refl, ap (λ (x : ℕ). x ∷ v ∷ ts) (ground (arith, e)))
    | inr e ↦ inr (rw (e, deployed_topic) refl, λ u rest h. ground (arith, e, ap (head_or 0) h))
  ]

  -- One more log that is no event, in front.
  skip :
      (log : Log) (rest : List Log) {at : Address}
      → ((u : ℕ) → Announces u log → ⊥)
      → FirstDeployed rest at
      → FirstDeployed (log ∷ rest) at
  skip log rest quiet (inl (before, l, after, u, e, k, a, v)) =
      inl (log ∷ before, l, after, u, ap (λ x. log ∷ x) e, none_of log before quiet k, a, v)
  skip log rest quiet (inr (k, z)) = inr (none_of log rest quiet k, z)

  find_deployed-FirstDeployed :
      (logs : List Log) → FirstDeployed logs (find_deployed geth deployed_id logs)
  unfolding find_deployed
  find_deployed-FirstDeployed [] = inr ((λ log m. elim m [ ]), refl)
  find_deployed-FirstDeployed (log ∷ rest) = elim (topics_cases log.topics) [
    | inl (u, ts, e, k) ↦
        inl ([], log, rest, u, refl, (λ l m. elim m [ ]), (ts, k), rw (e, find_deployed) refl)
    | inr (e, k) ↦
        rw (e, find_deployed)
          (skip log rest (λ u a. k u a.0 a.1) (find_deployed-FirstDeployed rest))
  ]

  -- A transaction was sent and mined, and what is read is read from its receipt.
  abbrev pub Deployed :
      ℤ → Account Key → Address → Text → Text → S → Option (Address × Text) → Type 0
  Deployed c acc factory bytecode salt s out =
      (hash : Text) × (receipt : Receipt) × ((send_managed_tx geth deps c acc factory none
          (codes "deploy") (bytes bytecode ∷ bytes32 salt ∷ []) s).0
        ≡ (record { tx = some hash; receipt = some receipt }, none))
      × (out ≡ some (find_deployed geth deployed_id receipt.logs, hash))

  deployed_of-read :
      (out : Sent × Option GoError) {d : Option (Address × Text)}
      → (out.1 ≡ none
          → (h : Text) × (r : Receipt) × (out.0 ≡ record { tx = some h; receipt = some r }))
      → deployed_of geth deployed_id out ≡ ok d
      → (h : Text) × (r : Receipt) × (out ≡ (record { tx = some h; receipt = some r }, none))
        × (d ≡ some (find_deployed geth deployed_id r.logs, h))
  unfolding deployed_of read_deployed
  deployed_of-read (sent, some e) complete h = absurd (err-ne-ok h)
  deployed_of-read (sent, none) complete h =
      let (hash, r, e) = complete refl in
      (
        hash,
        r,
        ap (λ (x : Sent). (x, none)) e,
        ok_inj (sym h ∙ ap (λ (x : Sent). ok (read_deployed geth deployed_id (both x))) e),
      )

  deploy-Deployed :
      (c : ℤ) (acc : Account Key) (factory : Address) (bytecode salt : Text) (s : S)
      {d : Option (Address × Text)}
      → (deploy geth deployed_id deps c acc factory bytecode salt s).0 ≡ ok d
      → Deployed c acc factory bytecode salt s d
  unfolding deploy
  deploy-Deployed c acc factory bytecode salt s h =
      deployed_of-read _
        (send_managed_tx-Complete geth deps c acc factory none (codes "deploy")
          (bytes bytecode ∷ bytes32 salt ∷ []) s)
        h

  -- A deployment that is answered was sent by the first wallet of the pool and mined. The answer names its
  -- transaction, the address in the first event `Deployed` of its receipt, or zero where there is no
  -- such event, and the address that the factory computed before for that wallet, the salt and the
  -- hash of the bytecode.
  pub run_order-Deployed :
      (o : Order) (s : S) {out : Option DeployResponse}
      → (run_order geth deployed_id deps o s).0 ≡ ok out
      → (acc : Account Key) × (predicted : Address) × (hash : Text) × (receipt : Receipt)
        × (at : Address) × (v : S) × ((deps.primary_bundler o.chain_id s).0 ≡ ok acc)
        × ((compute_address geth deployed_id deps o.chain_id o.factory acc.addr o.salt
              (keccak256 geth o.bytecode)
              (deps.primary_bundler o.chain_id s).1).0
            ≡ ok predicted)
        × ((send_managed_tx geth deps o.chain_id acc o.factory none
              (codes "deploy")
              (bytes o.bytecode ∷ bytes32 o.salt ∷ [])
              v).0
            ≡ (record { tx = some hash; receipt = some receipt }, none))
        × FirstDeployed receipt.logs at
        × (out
            ≡ some (record {
              deployed_address = geth.address_hex at;
              tx_hash = hash;
              predicted_address = geth.address_hex predicted;
              matches = equal_fold (geth.address_hex predicted) (geth.address_hex at);
            }))
  unfolding run_order response
  run_order-Deployed o s h =
      let (acc, e1, h1) = >>=-ok (deps.primary_bundler o.chain_id) _ s h in
      let s1 = (deps.primary_bundler o.chain_id s).1 in
      let predict =
        compute_address geth deployed_id deps o.chain_id o.factory acc.addr o.salt
          (keccak256 geth o.bytecode) in
      let (predicted, e2, h2) = >>=-ok predict _ s1 h1 in
      let v = (predict s1).1 in
      let (d, e3, h3) =
        >>=-ok (deploy geth deployed_id deps o.chain_id acc o.factory o.bytecode o.salt) _ v h2 in
      let (hash, receipt, sent, read) =
        deploy-Deployed o.chain_id acc o.factory o.bytecode o.salt v e3 in
      (
        acc,
        predicted,
        hash,
        receipt,
        find_deployed geth deployed_id receipt.logs,
        v,
        e1,
        e2,
        sent,
        find_deployed-FirstDeployed receipt.logs,
        ok_inj (sym h3 ∙ ap (λ x. ok (response geth deployed_id predicted x)) read),
      )

  run_order-some :
      (o : Order) (s : S) (out : Option DeployResponse)
      → (run_order geth deployed_id deps o s).0 ≡ ok out
      → out ≢ none
  run_order-some o s out h k =
      let (acc, predicted, hash, receipt, at, v, e1, e2, sent, first, read) =
        run_order-Deployed o s h in
      cc

  perform-Ends : (o : Checked Order) (s : S) → Ends (perform geth deployed_id deps o s).0
  unfolding perform
  perform-Ends (refused m) s = write_validation_error-Allowed DeployResponse m
  perform-Ends (passed o) s = finish-Ends DeployResponse geth _ (run_order-some o s)

  -- The handler ends every request with an answer of the contract: it never reads a transaction or a
  -- receipt that is nil.
  pub handle_deploy-Ends :
      (body : Option DeployBody) (s : S) → Ends (handle_deploy geth deployed_id deps body s).0
  unfolding handle_deploy
  handle_deploy-Ends none s =
      write_validation_error-Allowed DeployResponse (codes "invalid JSON body")
  handle_deploy-Ends (some body) s =
      elim (Result-cases (resolve_chain_id deps.getenv body.chain_id)) [
        | inr (e, z) ↦
            rw (z, handle_deploy)
              (write_validation_error-Allowed DeployResponse (codes "chainId required"))
        | inl (c, z) ↦
            rw (z, handle_deploy) (perform-Ends (check_body geth deployed_id deps c body) s)
      ]
