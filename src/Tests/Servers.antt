-- ===== src/Tests/Servers.antt =====
-- main.go at a request for a transfer out of the server's wallet.
use bundler_go.Base.{
  ℕ, ℤ, pos, ◌≡◌, refl, List, [], ◌++◌, Text, codes, none, some, ok, err, new_error, Elem, here,
  there, itoa, Option, to_lower, trim_space,
}
use bundler_go.Chain.{resolve_chain_id}
use bundler_go.Evm.Gas.{fee_from_provider, estimate_gas}
use bundler_go.Evm.Number.{nil, big_int, to_big_int}
use bundler_go.Evm.Send.{deadline, sign_and_send}
use bundler_go.Httpx.{result}
use bundler_go.Redis.Lock.{with_nonce_lock, take_lock}
use bundler_go.Startup.Server.{Request, Services, serve}
use bundler_go.Startup.ServerLaws.{Fits, serve-Fits}
use bundler_go.Startup.Wiring.{Endpoint, routes}
use bundler_go.Transfer.HandleLaws.{transfer-Valid}
use bundler_go.Transfer.Request.{TransferBody, Order, passed, check_body, run_order, transfer}
use bundler_go.Transfer.RequestLaws.{ValidOrder}
use bundler_go.Transfer.Send.{send_native}
use bundler_go.Userop.Rpc.{Json}
use bundler_go.Tests.World.{geth, deps}
use bundler_go.Tests.Transfers.{floats, parse, no_nan}

-- Nine wei from the wallet with the address 12.
abbrev order_body : TransferBody ℕ
order_body = record {
  chain_id = pos 1;
  kind = codes "native";
  source = codes "Wallet";
  from = codes "0x0123456789";
  to = codes "0x002";
  value_wei = big_int (pos 9);
  token_address = [];
  amount = nil;
}

abbrev json : Json
json = record {
  request = λ body. (record { id = none; method = []; params = [] }, none);
  number = λ t. none;
  string = λ t. none;
  user_operation = λ t. err (new_error (codes "no operation"));
}

abbrev services : Services ℕ ℕ ℕ ℕ
services = record {
  fl = floats;
  geth = geth;
  deps = deps;
  decoders = record {
    deploy_body = λ t. none;
    transfer_body = λ t. some order_body;
    pool_body = λ t. none;
    split_body = λ t. none;
    rpc_json = json;
  };
  deployed_id = 500;
  now = λ w. codes "20260101000000";
  clock = λ h w. (deadline, 0);
  pause = λ w. w;
  parse = parse;
  enqueue = λ c op w. (ok (codes "0x1"), w);
}

abbrev request : Request
request = record {
  method = codes "POST";
  path = codes "/api/transfer";
  body = codes "{}";
  read_error = none;
}

-- A multiplexer that finds the pattern without parameters.
abbrev mux : List Text → Text → Text → Option (Text × Text)
mux registered method path = some (method ++ (codes " " ++ path), [])

serve-Fits_example :
    (h : Endpoint) × Elem (codes "POST /api/transfer", h) routes
    × Fits h (serve services mux request 0).0
unfolding routes
serve-Fits_example =
    serve-Fits services (no_nan deps.getenv) mux request 0 refl (there (there here))

transfer-Valid_example :
    (c : ℤ) × (order : Order) × (resolve_chain_id deps.getenv (pos 1) ≡ ok c)
    × (check_body floats geth order_body ≡ passed order)
    × ValidOrder floats geth order
    × ((run_order floats geth deps parse services.enqueue c order 0).0
        ≡ ok (some (record { tx_hash = codes "0x7"; from = codes "0x12" })))
    × (◌≡◌ {A = ℕ} 200 200)
unfolding transfer send_native with_nonce_lock take_lock fee_from_provider estimate_gas
    sign_and_send itoa trim_space to_lower to_big_int resolve_chain_id
transfer-Valid_example =
    transfer-Valid floats geth deps parse services.enqueue order_body 0
      {r = record { tx_hash = codes "0x7"; from = codes "0x12" }}
      {out = record {
        status = 200;
        body = result (record { tx_hash = codes "0x7"; from = codes "0x12" });
      }}
      refl refl
