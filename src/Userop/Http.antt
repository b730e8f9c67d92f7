-- ===== src/Userop/Http.antt =====
-- userop/userop.go: the HTTP side of the JSON-RPC handler. Whatever the answer is, its status is 200.
use bundler_go.Base.{ℤ, negsuc, Text, codes, none, Result, ok, err, M}
use bundler_go.Chain.{Env}
use bundler_go.Evm.Client.{Geth}
use bundler_go.Httpx.{Response, result, write_json}
use bundler_go.Userop.Rpc.{Json, RpcResponse, err_resp, path_chain_id, handle_rpc}
use bundler_go.Userop.Types.{PackedUserOp}

module _ {S Key Signed : Type 0} (geth : Geth Key Signed) (json : Json) (getenv : Env)
    (enqueue : ℤ → PackedUserOp → M S Text) where
  -- `RPC`, on the body as it could be read and the segment of the path behind `/api/bundler/`.
  unfoldable pub rpc : Result Text → Text → S → Response RpcResponse × S
  unfolding err_resp path_chain_id handle_rpc write_json
  rpc (err e) segment s =
      (write_json 200 (result (err_resp none (negsuc 32599) (codes "Invalid Request"))), s)
  rpc (ok body) segment s =
      let (r, s') =
        handle_rpc geth.hex_decode geth.unpack_revert geth json getenv enqueue body
          (path_chain_id segment) s in
      (write_json 200 (result r), s')
