-- ===== src/Tests/Deployments.antt =====
-- deploy and the gas pool at a small node.
use bundler_go.Base.{
  ℕ, pos, ◌≡◌, refl, [], ◌∷◌, ◌++◌, Text, codes, true, none, some, ok, itoa, format_int, equal_fold,
}
use bundler_go.Core.{Deps, send_managed_tx}
use bundler_go.Evm.Client.{Ethclient, Receipt, addr, bytes, bytes32}
use bundler_go.Evm.Number.{Float, keccak256}
use bundler_go.Redis.Lock.{with_nonce_lock, take_lock}
use bundler_go.Signer.Account.{Account}
use bundler_go.Deploy.{compute_address}
use bundler_go.Deploy as Deploy
use bundler_go.Deploy.Laws.{FirstDeployed, run_order-Deployed}
use bundler_go.Entrypoint as Entrypoint
use bundler_go.Entrypoint.{deposit, scale, gas_fee_of, GasPoolResponse}
use bundler_go.Entrypoint.Laws.{run_order-Sent}
use bundler_go.Tests.World.{geth, deps, client, receipt}

-- A factory that predicts and deploys at 77.
abbrev deploy_receipt : Receipt
deploy_receipt = record receipt {
  logs = record { topics = 1 ∷ [] } ∷ record { topics = 500 ∷ 77 ∷ [] } ∷ [];
}

abbrev factory_client : Ethclient ℕ ℕ ℕ
factory_client = record client {
  call = λ a m args w. (ok (addr 77), w);
  wait_mined = λ h w. (ok deploy_receipt, w);
}

abbrev factory_deps : Deps ℕ ℕ ℕ
factory_deps = record deps { client = λ c w. (ok factory_client, w) }

abbrev order : Deploy.Order
order = record { chain_id = pos 1; bytecode = 96 ∷ []; salt = codes "s"; factory = 5 }

abbrev deployment : Deploy.DeployResponse
deployment = record {
  deployed_address = codes "0x" ++ itoa 77;
  tx_hash = codes "0x" ++ itoa 7;
  predicted_address = codes "0x" ++ itoa 77;
  matches = true;
}

run_order-Deployed_example :
    (acc : Account ℕ) × (predicted : ℕ) × (hash : Text) × (r : Receipt) × (at : ℕ) × (v : ℕ)
    × ((factory_deps.primary_bundler (pos 1) 0).0 ≡ ok acc)
    × ((compute_address geth 500 factory_deps
          (pos 1)
          5
          acc.addr
          (codes "s")
          (keccak256 geth (96 ∷ []))
          0).0
        ≡ ok predicted)
    × ((send_managed_tx geth factory_deps
          (pos 1)
          acc
          5
          none
          (codes "deploy")
          (bytes (96 ∷ []) ∷ bytes32 (codes "s") ∷ [])
          v).0
        ≡ (record { tx = some hash; receipt = some r }, none))
    × FirstDeployed geth 500 factory_deps r.logs at
    × (some deployment
        ≡ some (record {
          deployed_address = geth.address_hex at;
          tx_hash = hash;
          predicted_address = geth.address_hex predicted;
          matches = equal_fold (geth.address_hex predicted) (geth.address_hex at);
        }))
unfolding Deploy.run_order with_nonce_lock take_lock equal_fold itoa
run_order-Deployed_example =
    run_order-Deployed geth 500 factory_deps order 0 {out = some deployment} refl

abbrev floats : Float ℕ
floats = record { is_integer = λ f. true; to_int64 = λ f. pos f; show = itoa }

abbrev deposit_order : Entrypoint.Order
deposit_order = record { chain_id = pos 1; action = deposit; ep = 5; amount = pos 9; to = [] }

abbrev deposited : GasPoolResponse
deposited = record {
  status = codes "SUCCESS";
  tx_hash = codes "0x" ++ itoa 7;
  gas_fee = format_int (pos 105_000);
  complete_datetime = codes "20260101000000";
  message = codes "deposit completed";
}

run_order-Sent_example :
    (owner : Account ℕ) × (hash : Text) × (r : Receipt) × (v : ℕ) × (w : ℕ) × ((deps.primary_bundler
        (pos 1)
        0).0
      ≡ ok owner)
    × ((send_managed_tx geth deps
          (pos 1)
          owner
          5
          (some (pos 9))
          (codes "depositGlobalGasPool")
          []
          v).0
        ≡ (record { tx = some hash; receipt = some r }, none))
    × (some deposited
        ≡ some (record {
          status = codes "SUCCESS";
          tx_hash = hash;
          gas_fee = elim r.effective_gas_price [
            | none ↦ codes "0"
            | some price ↦ format_int (scale r.gas_used price)
          ];
          complete_datetime = codes "20260101000000";
          message = codes "deposit completed";
        }))
unfolding Entrypoint.run_order gas_fee_of Entrypoint.message_of format_int with_nonce_lock take_lock
    itoa
run_order-Sent_example =
    run_order-Sent floats geth deps (λ w. codes "20260101000000") deposit_order 0
      {out = some deposited} refl
