-- ===== src/Tests/Starts.antt =====
-- main.go with redis at a host, a database and no key of the decryption service.
use bundler_go.Base.{
  ℕ, pos, ◌≡◌, ◌≢◌, ◌↔◌, refl, [], Text, codes, true, none, some, Result, ok, err, new_error,
  to_lower, trim_space, format_int,
}
use bundler_go.Chain.{assert_config}
use bundler_go.Kms.Nhn.{Client}
use bundler_go.Kms.Provider.{Decryptor, enabled}
use bundler_go.Kms.Sqlite.{Db, keystore}
use bundler_go.Startup.Levels.{logger_parse_level, main_parse_level, parse_level_agree}
use bundler_go.Startup.Wiring.{Settings, Options, Wiring, start, wire}
use bundler_go.Startup.WiringLaws.{start-Wired}
use bundler_go.Tests.World.{getenv}

abbrev settings : Settings
settings = record {
  listen = codes ":3000";
  redis_url = [];
  redis_host = codes "redis";
  redis_port = pos 6379;
  redis_password = [];
  default_chain_id = pos 0;
  nonce_lock_ttl_ms = pos 30_000;
  nhn_app_key = [];
  nhn_base_url = [];
  key_db_path = codes "keys.db";
  key_name = [];
  owner_key = [];
  bundler_key = [];
  server_key1 = [];
  server_key2 = [];
  log_level = codes "debug";
  log_pretty = true;
}

abbrev db : Db ℕ
db = record {
  query_row = λ n w. (ok none, w);
  query_like = λ p w. (ok [], w);
  close = λ w. (ok tt, w);
}

abbrev no_url : Text → Result Options
no_url url = err (new_error (codes "no url"))

abbrev decryptor : Client → Decryptor ℕ
decryptor c id text w = (ok [], w)

abbrev wiring : Wiring ℕ
wiring =
    wire (λ path. ok db) (λ d. ok tt) decryptor settings
      (some (record { addr = codes "redis:6379"; password = [] }))
      (record { dec = none; ks = some (keystore db) })

parse_level_agree_example :
    (logger_parse_level (codes " FATAL ") ≡ main_parse_level (codes " FATAL "))
    ↔ (to_lower (trim_space (codes " FATAL ")) ≢ codes "fatal")
parse_level_agree_example = parse_level_agree (codes " FATAL ")

start-Wired_example :
    (assert_config getenv [] ≡ ok tt)
    × ((wiring.rdb ≡ none) ↔ ((settings.redis_url ≡ []) × (settings.redis_host ≡ [])))
    × ((enabled (some wiring.kms) ≡ true)
        ↔ ((settings.nhn_app_key ≢ []) × (settings.key_db_path ≢ [])))
unfolding start wire trim_space format_int
start-Wired_example =
    start-Wired (λ path. ok db) (λ d. ok tt) decryptor no_url getenv [] settings {w = wiring} refl
