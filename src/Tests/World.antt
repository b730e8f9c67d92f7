-- ===== src/Tests/World.antt =====
-- A small node, library and server: the world is a number, which a release of the lock counts up.
use bundler_go.Base.{
  ℕ, pos, suc, true, ◌++◌, [], ◌∷◌, codes, none, some, ok, has_prefix, length, itoa, text_eq,
  if◌then◌else◌,
}
use bundler_go.Chain.{Env}
use bundler_go.Evm.Client.{Geth, Ethclient, Receipt, big}
use bundler_go.Redis.Lock.{Rdb}
use bundler_go.Signer.Account.{Account}
use bundler_go.Core.{Deps}

-- A key is a number, its address the next one, and a signed transaction a number too.
abbrev pub geth : Geth ℕ ℕ
geth = record {
  is_hex_address = λ s. has_prefix s (codes "0x");
  hex_to_address = length;
  address_hex = λ a. codes "0x" ++ itoa a;
  topic_address = λ t. t;
  hex_decode = λ s. ok s;
  unpack_revert = λ s. ok s;
  hex_to_key = λ s. ok (length s);
  key_address = λ k. suc k;
  keccak256 = λ s. s;
  text_hash = λ s. s;
  typed_data_and_hash = λ td. ok (codes "digest");
  sign = λ s k. ok (s, 1);
  transactor = λ k c. ok tt;
  pack = λ m args. ok m;
  encode = λ args. ok [];
  sign_tx = λ t k. ok 7;
  tx_hash = λ t. codes "0x" ++ itoa t;
  encode_uint64 = λ n. codes "0x" ++ itoa n;
}

abbrev pub receipt : Receipt
receipt = record { status = 1; gas_used = 21000; effective_gas_price = some (pos 5); logs = [] }

abbrev pub client : Ethclient ℕ ℕ ℕ
client = record {
  suggest_gas_tip_cap = λ w. (ok (some 1_000_000_000), w);
  header_by_number = λ w. (ok (some 20_000_000_000), w);
  suggest_gas_price = λ w. (ok (some 30_000_000_000), w);
  estimate_gas = λ m w. (ok 50_000, w);
  pending_nonce_at = λ a w. (ok 3, w);
  send_transaction = λ t w. (ok tt, w);
  transaction_receipt = λ h w. (ok (some receipt), w);
  wait_mined = λ h w. (ok receipt, w);
  transact = λ o to m args w. (ok 7, w);
  call = λ a m args w. (ok (big (pos 0)), w);
}

abbrev pub account : Account ℕ
account = record { addr = 12; priv = 11 }

abbrev pub getenv : Env
getenv key =
    if text_eq key (codes "ENTRYPOINT_ADDRESS")
    then codes "0x0000"
    else if text_eq key (codes "DEFAULT_CHAIN_ID")
    then codes "8453"
    else if text_eq key (codes "RPC_URL")
    then codes "http://node"
    else []

-- A server that grants every lock.
abbrev pub rdb : Rdb ℕ
rdb = record {
  random_token = λ w. (ok (codes "t"), w);
  set_nx = λ k t w. (ok true, w);
  release = λ k t w. suc w;
  retry_wait = λ w. (none, w);
}

abbrev pub deps : Deps ℕ ℕ ℕ
deps = record {
  getenv = getenv;
  client = λ c w. (ok client, w);
  bundler_pool = λ c w. (ok (account ∷ []), w);
  primary_bundler = λ c w. (ok account, w);
  server_key1 = λ w. (ok account, w);
  server_key2 = λ w. (ok account, w);
  rdb = some rdb;
}
