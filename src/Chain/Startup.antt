-- ===== src/Chain/Startup.antt =====
-- chain.go: the check at startup, and the chain of a request.
use bundler_go.Base.{
  ℤ, pos, true, false, ◌≡◌, refl, List, [], ◌∷◌, ◌++◌, Text, codes, is_empty, trim_space,
  trim_space_lem, numeral-NoSpace, format_int-chars, format_int-nonempty, format_int,
  parse_int-format_int, in_int64, ok, Bool-cases, arith, inl, inr, ◌⊎◌, eq_ℤ, trim_space_idem, Elem,
  here, there, Result-cases, err-ne-ok, ok_inj, subst,
}
use bundler_go.Chain.{
  Env, Config, lookup, per_chain_or_default, rpc_url, entry_point, create2_factory, get,
  resolve_chain_id, assert_config, any_rpc_url, sets_rpc_url,
}

-- A value without white space around it, and not empty.
abbrev pub Trimmed : Text → Type 0
Trimmed s = (trim_space s ≡ s) × (is_empty s ≡ false)

lookup-trimmed : (getenv : Env) (key : Text) → trim_space (lookup getenv key) ≡ lookup getenv key
unfolding lookup
lookup-trimmed getenv key = trim_space_idem (getenv key)

per_chain-trimmed :
    (getenv : Env) (key : Text) (c : ℤ)
    → trim_space (per_chain_or_default getenv key c) ≡ per_chain_or_default getenv key c
unfolding per_chain_or_default
per_chain-trimmed getenv key c =
    ground
      (arith, lookup-trimmed getenv (key ++ (codes "_" ++ format_int c)), lookup-trimmed getenv key)

rpc_url-Trimmed : (getenv : Env) (c : ℤ) (u : Text) → rpc_url getenv c ≡ ok u → Trimmed u
unfolding rpc_url
rpc_url-Trimmed getenv c u h = ground (arith, per_chain-trimmed getenv (codes "RPC_URL") c)

entry_point-Trimmed : (getenv : Env) (u : Text) → entry_point getenv ≡ ok u → Trimmed u
unfolding entry_point
entry_point-Trimmed getenv u h = ground (arith, lookup-trimmed getenv (codes "ENTRYPOINT_ADDRESS"))

-- A chain whose settings are found has an URL and an entry point, trimmed and not empty.
get-Trimmed :
    (getenv : Env) (c : ℤ) {cfg : Config}
    → get getenv c ≡ ok cfg
    → (cfg.chain_id ≡ c) × Trimmed cfg.rpc_url × Trimmed cfg.entry_point
unfolding get
get-Trimmed getenv c {cfg} h = elim (Result-cases (rpc_url getenv c)) [
  | inr (x, e) ↦ absurd (err-ne-ok (rw (e, get) at h))
  | inl (url, e) ↦ elim (Result-cases (entry_point getenv)) [
    | inr (x, k) ↦ absurd (err-ne-ok (rw (e, k, get) at h))
    | inl (ep, k) ↦
        subst (λ (g : Config). (g.chain_id ≡ c) × Trimmed g.rpc_url × Trimmed g.entry_point)
          (ok_inj (rw (e, k, get) at h))
          (refl, rpc_url-Trimmed getenv c url e, entry_point-Trimmed getenv ep k)
  ]
]

any_rpc_url-Elem :
    (environ : List Text)
    → any_rpc_url environ ≡ true
    → (kv : Text) × Elem kv environ × (sets_rpc_url kv ≡ true)
unfolding any_rpc_url
any_rpc_url-Elem [] h = cc
any_rpc_url-Elem (kv ∷ rest) h = elim (Bool-cases (sets_rpc_url kv)) [
  | inl e ↦ (kv, here, e)
  | inr e ↦ let (j, m, k) = any_rpc_url-Elem rest (ground (arith, h, e)) in (j, there m, k)
]

rpc_url_ok :
    (getenv : Env) (c : ℤ)
    → is_empty (lookup getenv (codes "RPC_URL")) ≡ false
    → (u : Text) × (rpc_url getenv c ≡ ok u)
unfolding rpc_url
rpc_url_ok getenv c h = (per_chain_or_default getenv (codes "RPC_URL") c, ground (arith, h))

get_ok :
    (getenv : Env) (c : ℤ) (ep : Text)
    → entry_point getenv ≡ ok ep
    → is_empty (lookup getenv (codes "RPC_URL")) ≡ false
    → (cfg : Config) × (get getenv c ≡ ok cfg) × (cfg.entry_point ≡ ep)
unfolding get
get_ok getenv c ep e h =
    let (u, k) = rpc_url_ok getenv c h in
    (
      record {
        chain_id = c;
        rpc_url = u;
        entry_point = ep;
        create2_factory = create2_factory getenv c;
        eofs_proxy = per_chain_or_default getenv (codes "EOFS_PROXY_ADDRESS") c;
      },
      rw (k, e, get),
      refl,
    )

-- A program that passed the check at startup has an entry point, and has the settings of every chain,
-- with this entry point, unless only variables `RPC_URL_...` gave it an URL.
pub assert_config-get :
    (getenv : Env) (environ : List Text)
    → assert_config getenv environ ≡ ok tt
    → (ep : Text) × (entry_point getenv ≡ ok ep)
      × (((c : ℤ) → (cfg : Config) × (get getenv c ≡ ok cfg) × (cfg.entry_point ≡ ep))
          ⊎ ((kv : Text) × Elem kv environ × (sets_rpc_url kv ≡ true)))
unfolding assert_config
assert_config-get getenv environ h = elim (Result-cases (entry_point getenv)) [
  | inr (x, e) ↦ absurd (err-ne-ok (rw (e, assert_config) at h))
  | inl (ep, e) ↦ elim (Bool-cases (is_empty (lookup getenv (codes "RPC_URL")))) [
    | inl none_set ↦ (ep, e, inr (any_rpc_url-Elem environ (ground (arith, h, e, none_set))))
    | inr default ↦ (ep, e, inl (λ c. get_ok getenv c ep e default))
  ]
]

-- A request that names no chain goes to the chain that DEFAULT_CHAIN_ID writes in decimal.
resolve_chain_id-default :
    (getenv : Env) (n : ℤ)
    → in_int64 n ≡ true
    → getenv (codes "DEFAULT_CHAIN_ID") ≡ format_int n
    → resolve_chain_id getenv (pos 0) ≡ ok n
unfolding resolve_chain_id lookup
resolve_chain_id-default getenv n r e = rw e (
    rw (trim_space_lem (format_int n) (numeral-NoSpace (format_int n) (format_int-chars n)))
      (rw (format_int-nonempty n) (rw (parse_int-format_int n r))))

pub resolve_chain_id-given :
    (getenv : Env) (c : ℤ) → eq_ℤ c (pos 0) ≡ false → resolve_chain_id getenv c ≡ ok c
unfolding resolve_chain_id
resolve_chain_id-given getenv c h = rw h refl
