-- ===== src/Startup/Wiring.antt =====
-- main.go: `main` up to the server, and `buildKMS`; env.go: `Config`; redis.go: `Dial`. The reading of
-- the settings, of a redis URL and the opening of a database are calls of libraries, and parameters.
-- `os.Exit` and its log line are an error here.
use bundler_go.Base.{
  ℤ, pos, negsuc, suc, ◌*◌, ◌-◌, ◌%◌, ◌^◌, ◌++◌, List, [], ◌∷◌, Text, codes, Bool, not, Option,
  none, some, Result, ok, err, new_error, wrap_error, if◌then◌else◌, is_empty, format_int,
  wrap_int64,
}
use bundler_go.Chain.{Env, assert_config}
use bundler_go.Kms.Nhn.{Client, new_client}
use bundler_go.Kms.Provider.{Keystore, Decryptor, Provider}
use bundler_go.Kms.Sqlite.{Db, keystore}
use bundler_go.Signer.Manager.{EnvKeys}
use bundler_go.Startup.Levels.{Level, main_parse_level}

-- `Config` of env.go
pub record Settings : Type 0 where
  pub listen : Text
  pub redis_url : Text
  pub redis_host : Text
  pub redis_port : ℤ
  pub redis_password : Text
  pub default_chain_id : ℤ
  pub nonce_lock_ttl_ms : ℤ
  pub nhn_app_key : Text
  pub nhn_base_url : Text
  pub key_db_path : Text
  pub key_name : Text
  pub owner_key : Text
  pub bundler_key : Text
  pub server_key1 : Text
  pub server_key2 : Text
  pub log_level : Text
  pub log_pretty : Bool

-- `time.Duration(ms) * time.Millisecond`, in int64
unfoldable pub nonce_lock_ttl : Settings → ℤ
nonce_lock_ttl cfg = elim cfg.nonce_lock_ttl_ms [
  | pos n ↦ wrap_int64 (n * 1_000_000)
  | negsuc n ↦ wrap_int64 (2 ^ 64 - suc n * 1_000_000 % 2 ^ 64)
]

-- `redis.Options`, as far as `Dial` sets it.
pub record Options : Type 0 where
  pub addr : Text
  pub password : Text

-- `Dial`: the URL before the host; none where neither is set.
unfoldable pub dial : (Text → Result Options) → Text → Text → ℤ → Text → Result (Option Options)
dial parse_url url host port password =
    if not (is_empty url)
    then elim (parse_url url) [
      | err e ↦ err (wrap_error (codes "parse REDIS_URL: ") e)
      | ok opt ↦ ok (some opt)
    ]
    else if is_empty host
    then ok none
    else ok (some (record { addr = host ++ (codes ":" ++ format_int port); password = password }))

unfoldable pub env_keys : Settings → EnvKeys
env_keys cfg = record {
  owner_key = cfg.owner_key;
  bundler_key = cfg.bundler_key;
  server_key1 = cfg.server_key1;
  server_key2 = cfg.server_key2;
}

-- The handlers of the server.
pub data Endpoint : Type 0 where
  health deploy transfer entrypoint split rpc : Endpoint

-- The patterns that main registers, in its order.
unfoldable pub routes : List (Text × Endpoint)
routes =
    (codes "GET /health", health)
    ∷ (codes "POST /api/create2/deploy", deploy)
    ∷ (codes "POST /api/transfer", transfer)
    ∷ (codes "POST /api/entrypoint/transfer", entrypoint)
    ∷ (codes "POST /api/eoa-funded-split/execute-with-signatures", split)
    ∷ (codes "POST /api/bundler", rpc)
    ∷ (codes "POST /api/bundler/{chainId}", rpc)
    ∷ []

-- What runs once main has set it up.
pub record Wiring (W : Type 0) : Type 0 where
  pub level : Level
  pub rdb : Option Options
  pub ttl : ℤ
  pub kms : Provider W
  pub keys : EnvKeys
  pub addr : Text
  pub handlers : List (Text × Endpoint)

-- A part that is built only where its setting is given.
unfoldable pub if_set : {A : Type 0} → Text → Result A → Result (Option A)
if_set [] built = ok none
if_set (c ∷ setting) (err e) = err e
if_set (c ∷ setting) (ok a) = ok (some a)

module _ {W : Type 0} (sql_open : Text → Result (Db W)) (ping : Db W → Result (Unit {0})) where
  -- `OpenSQLite`
  unfoldable pub open_sqlite : Text → Result (Keystore W)
  open_sqlite path =
      if is_empty path
      then err (new_error (codes "keystore: empty db path"))
      else elim (sql_open (codes "file:" ++ (path ++ codes "?mode=ro"))) [
        | err e ↦ err (wrap_error (codes "keystore open: ") e)
        | ok db ↦ elim (ping db) [
          | err e ↦ err (wrap_error (codes "keystore ping: ") e)
          | ok u ↦ ok (keystore db)
        ]
      ]

  module _ (decryptor : Client → Decryptor W) where
    unfoldable pub build_decryptor : Settings → Result (Decryptor W)
    unfolding new_client
    build_decryptor cfg = elim (new_client cfg.nhn_app_key cfg.nhn_base_url) [
      | err e ↦ err e
      | ok c ↦ ok (decryptor c)
    ]

    -- `buildKMS`
    unfoldable pub build_kms : Settings → Result (Provider W)
    unfolding if_set build_decryptor open_sqlite
    build_kms cfg = elim (if_set cfg.nhn_app_key (build_decryptor cfg)) [
      | err e ↦ err e
      | ok dec ↦ elim (if_set cfg.key_db_path (open_sqlite cfg.key_db_path)) [
        | err e ↦ err e
        | ok ks ↦ ok (record { dec = dec; ks = ks })
      ]
    ]

    unfoldable pub wire : Settings → Option Options → Provider W → Wiring W
    unfolding nonce_lock_ttl env_keys routes main_parse_level
    wire cfg rdb kms = record {
      level = main_parse_level cfg.log_level;
      rdb = rdb;
      ttl = nonce_lock_ttl cfg;
      kms = kms;
      keys = env_keys cfg;
      addr = cfg.listen;
      handlers = routes;
    }

    -- `main` up to the server, from the settings as `env.Load` returns them
    unfoldable pub start :
        (Text → Result Options) → Env → List Text → Result Settings → Result (Wiring W)
    unfolding dial build_kms wire assert_config
    start parse_url getenv environ (err e) = err e
    start parse_url getenv environ (ok cfg) = elim (assert_config getenv environ) [
      | err e ↦ err e
      | ok u ↦
          elim (dial parse_url cfg.redis_url cfg.redis_host cfg.redis_port cfg.redis_password) [
            | err e ↦ err e
            | ok rdb ↦ elim (build_kms cfg) [ err e ↦ err e | ok kms ↦ ok (wire cfg rdb kms) ]
          ]
    ]
