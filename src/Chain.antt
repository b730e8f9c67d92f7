-- ===== src/Chain.antt =====
-- internal/chain/chain.go: the settings of each chain, read from the environment.
pub mod Override
pub mod Startup
use bundler_go.Base.{
  ℤ, pos, Bool, true, false, not, Option, none, some, List, [], ◌∷◌, ◌++◌, Text, codes, is_empty,
  trim_space, has_prefix, format_int, parse_int, eq_ℤ, Result, ok, err, new_error, if◌then◌else◌,
  ◌==◌,
}

-- `os.Getenv`, or the lookup that a test injects: the empty text for a variable that is not set.
abbrev pub Env : Type 0
Env = Text → Text

pub record Config : Type 0 where
  pub chain_id : ℤ
  pub rpc_url : Text
  pub entry_point : Text
  pub create2_factory : Text
  pub eofs_proxy : Text

unfoldable pub lookup : Env → Text → Text
lookup getenv key = trim_space (getenv key)

-- `fmt.Sprintf("%s_%d", key, chainID)`
abbrev pub chain_key : Text → ℤ → Text
chain_key key chain_id = key ++ (codes "_" ++ format_int chain_id)

unfoldable pub per_chain_or_default : Env → Text → ℤ → Text
unfolding lookup
per_chain_or_default getenv key chain_id =
    if not (is_empty (lookup getenv (chain_key key chain_id)))
    then lookup getenv (chain_key key chain_id)
    else lookup getenv key

unfoldable pub rpc_url : Env → ℤ → Result Text
unfolding per_chain_or_default
rpc_url getenv chain_id =
    let url = per_chain_or_default getenv (codes "RPC_URL") chain_id in
    if is_empty url
    then err (
        new_error (
          codes "no RPC URL for chainId "
          ++ (format_int chain_id ++ (codes ": set RPC_URL or RPC_URL_" ++ format_int chain_id))))
    else ok url

unfoldable pub entry_point : Env → Result Text
unfolding lookup
entry_point getenv =
    let v = lookup getenv (codes "ENTRYPOINT_ADDRESS") in
    if is_empty v then err (new_error (codes "missing ENTRYPOINT_ADDRESS")) else ok v

unfoldable pub create2_factory : Env → ℤ → Text
unfolding per_chain_or_default
create2_factory getenv chain_id =
    per_chain_or_default getenv (codes "CREATE2_FACTORY_ADDRESS") chain_id

unfoldable pub eofs_proxy : Env → ℤ → Result Text
unfolding per_chain_or_default
eofs_proxy getenv chain_id =
    let v = per_chain_or_default getenv (codes "EOFS_PROXY_ADDRESS") chain_id in
    if is_empty v
    then err (
        new_error (
          codes "EoaFundedSplit proxy not configured: set EOFS_PROXY_ADDRESS_"
          ++ (format_int chain_id ++ codes " or EOFS_PROXY_ADDRESS")))
    else ok v

unfoldable pub default_chain_id : Env → Option ℤ
unfolding lookup
default_chain_id getenv =
    let v = lookup getenv (codes "DEFAULT_CHAIN_ID") in if is_empty v then none else parse_int 10 v

-- `ResolveChainID`: the candidate, where 0 stands for none, or the default.
unfoldable pub resolve_chain_id : Env → ℤ → Result ℤ
unfolding default_chain_id
resolve_chain_id getenv candidate =
    if not (eq_ℤ candidate (pos 0)) then ok candidate else elim (default_chain_id getenv) [
      | some d ↦ ok d
      | none ↦ err (
          new_error (
            codes
              "chainId required: use path /api/bundler/<chainId>, pass chainId in params, or set DEFAULT_CHAIN_ID"))
    ]

-- `Get`: the settings of a chain, for which the URL and the entry point are needed.
unfoldable pub get : Env → ℤ → Result Config
unfolding rpc_url entry_point create2_factory
get getenv chain_id = elim (rpc_url getenv chain_id) [
  | err e ↦ err e
  | ok url ↦ elim (entry_point getenv) [
    | err e ↦ err e
    | ok ep ↦ ok (record {
      chain_id = chain_id;
      rpc_url = url;
      entry_point = ep;
      create2_factory = create2_factory getenv chain_id;
      eofs_proxy = per_chain_or_default getenv (codes "EOFS_PROXY_ADDRESS") chain_id;
    })
  ]
]

-- The text behind the first `=`, if there is one.
unfoldable pub after_equals : Text → Option Text
after_equals [] = none
after_equals (c ∷ s) = if c == b'=' then some s else after_equals s

-- Whether an entry `KEY=value` of `os.Environ()` sets an URL for some chain.
unfoldable pub sets_rpc_url : Text → Bool
unfolding after_equals
sets_rpc_url kv =
    if has_prefix kv (codes "RPC_URL_")
    then elim (after_equals kv) [ none ↦ false | some v ↦ not (is_empty (trim_space v)) ]
    else false

unfoldable pub any_rpc_url : List Text → Bool
unfolding sets_rpc_url
any_rpc_url [] = false
any_rpc_url (kv ∷ rest) = if sets_rpc_url kv then true else any_rpc_url rest

-- `AssertConfig`; the scan reads `os.Environ()`, not the injected lookup.
unfoldable pub assert_config : Env → List Text → Result (Unit {0})
unfolding entry_point any_rpc_url
assert_config getenv environ = elim (entry_point getenv) [
  | err e ↦ err e
  | ok ep ↦
      if not (is_empty (lookup getenv (codes "RPC_URL")))
      then ok tt
      else if any_rpc_url environ
      then ok tt
      else err (new_error (codes "missing RPC: set RPC_URL or RPC_URL_<chainId>"))
]
