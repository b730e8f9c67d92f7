-- ===== src/Deploy.antt =====
-- internal/deploy/deploy.go: the deployment of a wallet by the factory contract. `deployed_id` is the
-- topic of the event `Deployed`, which the ABI library computes.
pub mod Laws
use bundler_go.Base.{
  ℕ, ℤ, List, [], ◌∷◌, ◌++◌, Text, codes, Bool, true, false, not, ◌||◌, ◌==◌, Option, none, some,
  Result, ok, err, GoError, new_error, M, ◌>>=◌, ◌>>◌, return, lift, if◌then◌else◌, is_empty,
  trim_space, equal_fold,
}
use bundler_go.Chain.{resolve_chain_id, create2_factory}
use bundler_go.Core.{Deps, Sent, both, send_managed_tx}
use bundler_go.Evm.Client.{
  Geth, Address, Log, Receipt, Output, big, addr, word, other, type_name, address, bytes, bytes32,
}
use bundler_go.Evm.Number.{parse_hex_bytes, salt_to_bytes32, keccak256}
use bundler_go.Httpx.{Outcome, responds, write_validation_error, finish}
use bundler_go.Signer.Account.{Account}
use bundler_go.Transfer.Request.{Checked, refused, passed}

-- `deployBody`
pub record DeployBody : Type 0 where
  pub chain_id : ℤ
  pub proxy_bytecode_hex : Text
  pub salt : Text
  pub factory_address : Text

-- `deployResponse`
pub record DeployResponse : Type 0 where
  pub deployed_address : Text
  pub tx_hash : Text
  pub predicted_address : Text
  pub matches : Bool

-- A deployment that has passed the validation.
pub record Order : Type 0 where
  pub chain_id : ℤ
  pub bytecode : Text
  pub salt : Text
  pub factory : Address

-- The second topic of a log of the event.
unfoldable pub deployed_topic : ℕ → List ℕ → Option ℕ
deployed_topic id [] = none
deployed_topic id (t ∷ []) = none
deployed_topic id (t ∷ u ∷ ts) = if t == id then some u else none

unfoldable pub read_address : Output → Result Address
unfolding type_name
read_address (addr a) = ok a
read_address (big n) =
    err (new_error (codes "computeAddress: unexpected type " ++ type_name (big n)))
read_address (word w) =
    err (new_error (codes "computeAddress: unexpected type " ++ type_name (word w)))
read_address (other t) = err (new_error (codes "computeAddress: unexpected type " ++ t))

module _ {Key Signed : Type 0} (geth : Geth Key Signed) (deployed_id : ℕ) where
  -- The address in the first log of the event, zero where there is none.
  unfoldable pub find_deployed : List Log → Address
  unfolding deployed_topic
  find_deployed [] = 0
  find_deployed (log ∷ rest) = elim (deployed_topic deployed_id log.topics) [
    | some u ↦ geth.topic_address u
    | none ↦ find_deployed rest
  ]

  unfoldable pub read_deployed : Option (Text × Receipt) → Option (Address × Text)
  unfolding find_deployed
  read_deployed none = none
  read_deployed (some (hash, receipt)) = some (find_deployed receipt.logs, hash)

  unfoldable pub deployed_of : Sent × Option GoError → Result (Option (Address × Text))
  unfolding read_deployed
  deployed_of (sent, some e) = err e
  deployed_of (sent, none) = ok (read_deployed (both sent))

  unfoldable pub default_salt : Text → Text
  default_salt salt = if is_empty (trim_space salt) then codes "account-proxy-1" else salt

  unfoldable pub response : Address → Option (Address × Text) → Option DeployResponse
  response predicted none = none
  response predicted (some (deployed, hash)) = some (record {
    deployed_address = geth.address_hex deployed;
    tx_hash = hash;
    predicted_address = geth.address_hex predicted;
    matches = equal_fold (geth.address_hex predicted) (geth.address_hex deployed);
  })

  module _ {S : Type 0} (deps : Deps S Key Signed) where
    unfoldable pub factory_text : ℤ → Text → Text
    factory_text c given =
        if is_empty (trim_space given) then create2_factory deps.getenv c else trim_space given

    unfoldable pub check_factory : ℤ → DeployBody → Text → Checked Order
    unfolding factory_text default_salt salt_to_bytes32
    check_factory c body bytecode =
        if not (geth.is_hex_address (factory_text c body.factory_address))
        then refused (codes "factoryAddress required (or set CREATE2_FACTORY_ADDRESS)")
        else passed (record {
          chain_id = c;
          bytecode = bytecode;
          salt = salt_to_bytes32 geth (default_salt body.salt);
          factory = geth.hex_to_address (factory_text c body.factory_address);
        })

    unfoldable pub check_body : ℤ → DeployBody → Checked Order
    unfolding check_factory parse_hex_bytes
    check_body c body = elim (parse_hex_bytes geth (trim_space body.proxy_bytecode_hex)) [
      | err e ↦ refused (codes "proxyBytecodeHex required")
      | ok bytecode ↦
          if is_empty bytecode
          then refused (codes "proxyBytecodeHex required")
          else check_factory c body bytecode
    ]

    -- `computeAddress`
    unfoldable pub compute_address : ℤ → Address → Address → Text → Text → M S Address
    unfolding read_address
    compute_address c factory deployer salt bytecode_hash = do
      client ← deps.client c
      out ←
          client.call factory (codes "computeAddress")
            (address deployer ∷ bytes32 salt ∷ bytes32 bytecode_hash ∷ [])
      lift (read_address out)

    -- `deploy`, without the hash beside an error, which the handler drops
    unfoldable pub deploy : ℤ → Account Key → Address → Text → Text → M S (Option (Address × Text))
    unfolding deployed_of send_managed_tx
    deploy c deployer factory bytecode salt s =
        let (out, s') =
          send_managed_tx geth deps c deployer factory none (codes "deploy")
            (bytes bytecode ∷ bytes32 salt ∷ []) s in
        (deployed_of out, s')

    unfoldable pub run_order : Order → M S (Option DeployResponse)
    unfolding compute_address deploy response keccak256
    run_order o = do
      deployer ← deps.primary_bundler o.chain_id
      predicted ←
          compute_address o.chain_id o.factory deployer.addr o.salt (keccak256 geth o.bytecode)
      deployed ← deploy o.chain_id deployer o.factory o.bytecode o.salt
      return (response predicted deployed)

    unfoldable pub perform : Checked Order → S → Outcome DeployResponse × S
    unfolding run_order finish write_validation_error
    perform (refused m) s = (responds (write_validation_error m), s)
    perform (passed o) s = let (r, s') = run_order o s in (finish geth r, s')

    -- The handler `Deploy`, on the body as it decodes.
    unfoldable pub handle_deploy : Option DeployBody → S → Outcome DeployResponse × S
    unfolding perform check_body
    handle_deploy none s = (responds (write_validation_error (codes "invalid JSON body")), s)
    handle_deploy (some body) s = elim (resolve_chain_id deps.getenv body.chain_id) [
      | err e ↦ (responds (write_validation_error (codes "chainId required")), s)
      | ok c ↦ perform (check_body c body) s
    ]
