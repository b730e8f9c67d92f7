-- ===== src/Chain/Override.antt =====
-- chain.go: the variables of one chain and the settings of others.
use bundler_go.Base.{
  ℕ, ℤ, false, ◌≡◌, ◌≢◌, refl, [], ◌∷◌, ◌++◌, Text, codes, append_cancel_left, is_empty, trim_space,
  text_eq, text_eq_refl, text_eq_sound, format_int, format_int-inj, ok, if◌then◌else◌, Bool-cases,
  arith, inl, inr,
}
use bundler_go.Chain.{Env, lookup, chain_key, per_chain_or_default, rpc_url, get}

-- The environment with one variable set.
abbrev pub set_env : Text → Text → Env → Env
set_env key value getenv j = if text_eq key j then value else getenv j

chain_key-ne : (key : Text) (c d : ℤ) → c ≢ d → text_eq (chain_key key c) (chain_key key d) ≡ false
chain_key-ne key c d h = elim (Bool-cases (text_eq (chain_key key c) (chain_key key d))) [
  | inr e ↦ e
  | inl e ↦ absurd (
      h (
        format_int-inj c d
          (append_cancel_left (codes "_") _ _ (append_cancel_left key _ _ (text_eq_sound _ _ e)))))
]

-- A key is no prefix of itself with more behind it.
longer-ne : (key s : Text) (c : ℕ) → text_eq (key ++ (c ∷ s)) key ≡ false
longer-ne [] s c = refl
longer-ne (k ∷ key) s c = ground (arith, longer-ne key s c)

per_chain-set :
    (getenv : Env) (key v : Text) (c d : ℤ)
    → c ≢ d
    → per_chain_or_default (set_env (chain_key key c) v getenv) key d
      ≡ per_chain_or_default getenv key d
unfolding per_chain_or_default lookup
per_chain-set getenv key v c d h =
    rw (chain_key-ne key c d h) (rw (longer-ne key (format_int c) b'_'))

rpc_url-set_other :
    (getenv : Env) (v : Text) (c d : ℤ)
    → c ≢ d
    → rpc_url (set_env (chain_key (codes "RPC_URL") c) v getenv) d ≡ rpc_url getenv d
unfolding rpc_url
rpc_url-set_other getenv v c d h = rw (per_chain-set getenv (codes "RPC_URL") v c d h)

-- Setting `RPC_URL_<c>` changes the settings of no other chain.
get-set_rpc_url :
    (getenv : Env) (v : Text) (c d : ℤ)
    → c ≢ d
    → get (set_env (chain_key (codes "RPC_URL") c) v getenv) d ≡ get getenv d
unfolding get lookup per_chain_or_default
get-set_rpc_url getenv v c d h = rw (rpc_url-set_other getenv v c d h, get)

-- For its own chain the variable comes before the default.
rpc_url-set :
    (getenv : Env) (v : Text) (c : ℤ)
    → is_empty (trim_space v) ≡ false
    → rpc_url (set_env (chain_key (codes "RPC_URL") c) v getenv) c ≡ ok (trim_space v)
unfolding rpc_url lookup
rpc_url-set getenv v c h = rw (text_eq_refl (chain_key (codes "RPC_URL") c)) (rw h (rw h))
