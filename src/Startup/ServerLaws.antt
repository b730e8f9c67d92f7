-- ===== src/Startup/ServerLaws.antt =====
-- main.go: what the server answers.
use bundler_go.Base.{
  List, [], ◌∷◌, Text, text_eq, text_eq_refl, text_eq_sound, Option, none, some, Result, ok, err,
  map, ◌≡◌, refl, subst, Elem, here, there, Bool-cases, inl, inr, false,
}
use bundler_go.Deploy.Laws.{handle_deploy-Ends}
use bundler_go.Entrypoint.Laws.{handle_transfer-Ends}
use bundler_go.Httpx.{result, Response, write_json}
use bundler_go.Httpx.Contract.{Ends}
use bundler_go.Split.HandleLaws.{handle_execute-Ends}
use bundler_go.Startup.Server.{
  Request, Services, Reply, alive, deployment, transferred, pool_move, payment, rpc_reply,
  handler_of, call_handler, dispatch, serve, read_body,
}
use bundler_go.Startup.Wiring.{Endpoint, health, deploy, transfer, entrypoint, split, rpc, routes}
use bundler_go.Transfer.GasLaws.{NoNan}
use bundler_go.Transfer.HandleLaws.{transfer-Ends}
use bundler_go.Userop.Http.{rpc as handle_http}
use bundler_go.Userop.Routing.{WellFormed, handle_rpc-WellFormed}
use bundler_go.Userop.Rpc.{RpcResponse, err_resp, path_chain_id}

-- An answer of JSON-RPC has status 200, and is well formed.
abbrev pub WellFormedReply : Response RpcResponse → Type 0
WellFormedReply r =
    (r.status ≡ 200)
    × (a : RpcResponse) × (id : Option Text) × (r.body ≡ result a)
    × WellFormed id a

-- What the handler of a route may answer.
abbrev pub Fits : Endpoint → Reply → Type 0
Fits health (alive n) = n ≡ 200
Fits deploy (deployment out) = Ends out
Fits transfer (transferred out) = Ends out
Fits entrypoint (pool_move out) = Ends out
Fits split (payment out) = Ends out
Fits rpc (rpc_reply r) = WellFormedReply r
Fits _ _ = ⊥

-- The patterns that are registered.
abbrev pub patterns : List (Text × Endpoint) → List Text
patterns l = map (λ (e : Text × Endpoint). e.0) l

later : {p q : Text} {l : List Text} → Elem q (p ∷ l) → text_eq q p ≡ false → Elem q l
later {p} here e = cc (text_eq_refl p)
later (there n) e = n

handler_of-registered :
    (pattern : Text) (l : List (Text × Endpoint))
    → Elem pattern (patterns l)
    → (h : Endpoint) × (handler_of pattern l ≡ some h) × Elem (pattern, h) l
unfolding handler_of
handler_of-registered pattern [] m = elim m [ ]
handler_of-registered pattern ((p, h) ∷ l) m = elim (Bool-cases (text_eq pattern p)) [
  | inl e ↦ (
    h,
    rw (e, handler_of),
    subst (λ q. Elem (pattern, h) ((q, h) ∷ l)) (text_eq_sound pattern p e) here,
  )
  | inr e ↦
      let (g, k, n) = handler_of-registered pattern l (later m e) in
      (g, rw (e, handler_of) k, there n)
]

module _ {F S Key Signed : Type 0} (x : Services F S Key Signed) where
  rpc-WellFormed :
      (body : Result Text) (segment : Text) (s : S)
      → WellFormedReply
          (handle_http x.geth x.decoders.rpc_json x.deps.getenv x.enqueue body segment s).0
  unfolding handle_http write_json err_resp
  rpc-WellFormed (err e) segment s = (refl, _, none, refl, (refl, refl, refl))
  rpc-WellFormed (ok body) segment s = (
    refl,
    _,
    (x.decoders.rpc_json.request body).0.id,
    refl,
    handle_rpc-WellFormed x.geth.hex_decode x.geth.unpack_revert x.geth x.decoders.rpc_json
        x.deps.getenv x.enqueue body (path_chain_id segment) s,
  )

  call_handler-Fits :
      NoNan x.parse x.deps.getenv
      → (h : Endpoint) (segment : Text) (r : Request) (s : S)
      → Fits h (call_handler x h segment r s).0
  unfolding call_handler
  call_handler-Fits good health segment r s = refl
  call_handler-Fits good deploy segment r s =
      handle_deploy-Ends x.geth x.deployed_id x.deps (x.decoders.deploy_body r.body) s
  call_handler-Fits good transfer segment r s =
      transfer-Ends x.fl x.geth x.deps x.parse x.enqueue good (x.decoders.transfer_body r.body) s
  call_handler-Fits good entrypoint segment r s =
      handle_transfer-Ends x.fl x.geth x.deps x.now (x.decoders.pool_body r.body) s
  call_handler-Fits good split segment r s =
      handle_execute-Ends x.fl x.geth x.clock x.pause x.deps (x.decoders.split_body r.body) s
  call_handler-Fits good rpc segment r s = rpc-WellFormed (read_body r) segment s

  -- Where no setting of the fees of user operations is NaN, a request for which the multiplexer chooses
  -- one of the patterns that main registers is answered by the handler of that pattern, whatever the
  -- request holds, in any state: the handlers of deployments, of the gas pool and of payments do not panic
  -- at a transaction, a receipt or a permit that is nil, and the handler of transfers does not at its
  -- fees. The health check answers 200. JSON-RPC answers 200 with a result or an error and never
  -- both. The others answer a complaint with status 400, a result with status 200, or a failure whose
  -- category fixes its code, its status and whether to retry, as the error contract says.
  pub serve-Fits :
      NoNan x.parse x.deps.getenv
      → (mux : List Text → Text → Text → Option (Text × Text)) (r : Request) (s : S)
        {pattern segment : Text}
      → mux (patterns routes) r.method r.path ≡ some (pattern, segment)
      → Elem pattern (patterns routes)
      → (h : Endpoint) × Elem (pattern, h) routes × Fits h (serve x mux r s).0
  unfolding serve dispatch
  serve-Fits good mux r s {pattern} {segment} e m =
      let (h, k, n) = handler_of-registered pattern routes m in
      (h, n, rw (e, serve) (rw (k, dispatch) (call_handler-Fits good h segment r s)))
