-- ===== src/Tests/Splits.antt =====
-- split at a payment in the chain's currency, at one with a permit, and at a token that reverts.
use bundler_go.Base.{
  ℕ, ℤ, pos, ◌≡◌, sym, ok_inj, format_int, format_int-inj, ◌+◌, ◌≢◌, ◌↔◌, ◌⊎◌, ◌<ℤ◌, refl, [], ◌++◌,
  Text, codes, true, none, some, ok, err, new_error, replicate, append_cancel_left, itoa, text_eq,
  if◌then◌else◌, ltb, arith,
}
use bundler_go.Core.{Deps}
use bundler_go.Evm.Client.{Geth, Ethclient, big, word}
use bundler_go.Evm.Gas.{fee_from_provider, estimate_gas}
use bundler_go.Evm.Send.{End, deadline, sign_and_send, wait_receipt}
use bundler_go.Split.Types.{Params, PayerSplitMessage}
use bundler_go.Split.TypedData.{typed_data-inj, typed_data_hash}
use bundler_go.Split.Permit.{
  validate_permit, validate_permit_iff, fill_nil, deadline_of, CoveringPermit,
}
use bundler_go.Split.Build.{build_and_send, split_message, hash_args}
use bundler_go.Split.BuildLaws.{SignedCall, Broadcast, build_and_send-digest}
use bundler_go.Httpx.{result}
use bundler_go.Split.Request.{ExecBody}
use bundler_go.Chain.{resolve_chain_id}
use bundler_go.Split.Request.{handle_execute}
use bundler_go.Split.HandleLaws.{handle_execute-FitsCall}
use bundler_go.Split.RequestLaws.{FitsCall}
use bundler_go.Split.Allowance.{sufficient, approve, ensure_allowance}
use bundler_go.Split.AllowanceLaws.{NodeLaws, ensure_allowance-used}
use bundler_go.Split.Execute.{total, find_relayer, execute}
use bundler_go.Split.ExecuteLaws.{Sends, execute-Sends}
use bundler_go.Split.Types.{SplitResult}
use bundler_go.Signer.Account.{Account}
use bundler_go.Chain.{eofs_proxy}
use bundler_go.Redis.Lock.{with_nonce_lock, take_lock}
use bundler_go.Evm.Number.{Float, nil, str, big_int, to_big_int}
use bundler_go.Base.{trim_space, equal_fold, set_string}
use bundler_go.Tests.World.{geth, deps, account}

abbrev pub payment : Params
payment = record {
  chain_id = pos 1;
  erc20_token = 9;
  recipient0 = 4;
  recipient1 = 5;
  native_amount0 = pos 0;
  native_amount1 = pos 0;
  erc20_amount0 = pos 30;
  erc20_amount1 = pos 12;
  payer_key = codes "server_key1";
  permit_deadline = some (pos 1000);
  permit_amount = some (pos 42);
  permit_v = 27;
  permit_r = replicate 32 1;
  permit_s = replicate 32 2;
}

validate_permit_iff_example :
    (validate_permit payment ≡ ok (some payment))
    ↔ ((payment ≡ fill_nil payment) × ((deadline_of payment ≡ pos 0) ⊎ CoveringPermit payment))
validate_permit_iff_example = validate_permit_iff payment payment

-- A node whose router hashes as the bundler does.
abbrev pub split_client : Ethclient ℕ ℕ ℕ
split_client = record {
  suggest_gas_tip_cap = λ w. (ok (some 1_000_000_000), w);
  header_by_number = λ w. (ok (some 20_000_000_000), w);
  suggest_gas_price = λ w. (ok (some 30_000_000_000), w);
  estimate_gas = λ m w. (ok 50_000, w);
  pending_nonce_at = λ a w. (ok 3, w);
  send_transaction = λ t w. (ok tt, w);
  transaction_receipt = λ h w. (ok none, w);
  wait_mined = λ h w. (err (new_error (codes "not used")), w);
  transact = λ o to m args w. (ok 7, w);
  call = λ a m args w. (
    ok (if text_eq m (codes "hashTypedDataPayerSplit") then word (codes "digest") else big (pos 8)),
    w,
  );
}

build_and_send-digest_example :
    (digest input : Text) × (typed_data_hash geth
        (pos 1)
        6
        (split_message payment 12 (pos 1) (pos 8))
      ≡ ok digest)
    × ((split_client.call 6 (codes "hashTypedDataPayerSplit") (hash_args payment 12 (pos 8)) 0).0
        ≡ ok (word digest))
    × SignedCall geth split_client payment 12 (pos 8) digest account account input
    × Broadcast geth split_client account 6 input (codes "0x7")
unfolding build_and_send fee_from_provider estimate_gas sign_and_send itoa
build_and_send-digest_example =
    build_and_send-digest geth split_client payment 6 12 account account account (pos 1) (pos 8) 3 0
      {hash = codes "0x7"} refl

abbrev router : ℕ
router = 6

abbrev message : PayerSplitMessage
message = split_message payment 12 (pos 1) (pos 8)

address_hex-inj : (a b : ℕ) → codes "0x" ++ itoa a ≡ codes "0x" ++ itoa b → a ≡ b
unfolding format_int
address_hex-inj a b h =
    let e = format_int-inj (pos a) (pos b) (append_cancel_left (codes "0x") (itoa a) (itoa b) h) in
    ground (arith, e)

typed_data-inj_example : (pos 1 ≡ pos 1) × (router ≡ router) × (message ≡ message)
typed_data-inj_example =
    typed_data-inj geth (pos 1) (pos 1) router router message message address_hex-inj refl

-- The service at this node, with a router.
abbrev split_deps : Deps ℕ ℕ ℕ
split_deps = record deps {
  getenv = λ key. if text_eq key (codes "EOFS_PROXY_ADDRESS") then codes "0x1234" else [];
  client = λ c w. (ok split_client, w);
}

abbrev clock : Text → ℕ → End × ℕ
clock hash w = (deadline, 2)

abbrev answer : SplitResult
answer = record {
  tx_hash = codes "0x7";
  from = codes "0x12";
  payer = codes "0x12";
  router_address = codes "0x6";
  nonce_used = codes "8";
  approve_tx_hash = [];
}

execute-Sends_example :
    (pos 0 <ℤ total payment)
    × (payment.erc20_token ≡ 0 → (pos 30 ≡ pos 0) × (pos 12 ≡ pos 0))
    × ((deadline_of payment ≡ pos 0) ⊎ CoveringPermit payment)
    × ((relayer : Account ℕ) × (s1 : Account ℕ) × (s2 : Account ℕ) × (client : Ethclient ℕ ℕ ℕ)
        × (contract : ℕ) × ((find_relayer geth clock (λ w. w) split_deps (codes "server_key1") 0).0
            ≡ ok relayer)
        × Sends geth clock (λ w. w) client (fill_nil payment) contract relayer s1 s2 answer)
unfolding execute with_nonce_lock take_lock fee_from_provider estimate_gas sign_and_send itoa
    eofs_proxy trim_space equal_fold format_int
execute-Sends_example = execute-Sends geth clock (λ w. w) split_deps payment 0 {r = answer} refl

-- A node that mines what it takes, the count of the relayer's transactions being the world, and a token
-- whose approvals revert. A signed transaction is its nonce.
abbrev pub nonce_geth : Geth ℕ ℕ
nonce_geth = record geth { sign_tx = λ t k. ok t.nonce }

abbrev reverting_client : Ethclient ℕ ℕ ℕ
reverting_client = record split_client {
  send_transaction =
      λ x w. if ltb x w then (err (new_error (codes "nonce too low")), w) else (ok tt, w + 1);
  transaction_receipt = λ h w. (
    ok (some (record { status = 0; gas_used = 21000; effective_gas_price = none; logs = [] })),
    w,
  );
  call = λ a m args w. (ok (big (pos 0)), w);
}

node_laws : NodeLaws nonce_geth reverting_client
node_laws = record {
  mined = λ w. w;
  nonce_of = λ x. x;
  signed_nonce = λ t k h. sym (ok_inj h);
  refused = λ x s l. (new_error (codes "nonce too low"), ground (arith, l));
  tip_mined = λ s. omega arith;
  head_mined = λ s. omega arith;
  price_mined = λ s. omega arith;
  estimate_mined = λ m s. omega arith;
}

ensure_allowance-used_example :
    (ensure_allowance nonce_geth reverting_client clock (pos 1) account 9 6 12 (pos 42) 3 3).0
    ≢ ok (codes "0x3", 4)
unfolding approve fee_from_provider estimate_gas sign_and_send wait_receipt itoa sufficient
    node_laws
ensure_allowance-used_example =
    ensure_allowance-used nonce_geth reverting_client node_laws clock (pos 1) account 9 6 12
      (pos 42) 3 3 refl refl refl (omega arith)

abbrev floats : Float ℕ
floats = record { is_integer = λ f. true; to_int64 = λ f. pos f; show = itoa }

abbrev body : ExecBody ℕ
body = record {
  chain_id = pos 1;
  erc20_token = codes "0x0";
  recipient0 = codes "0x00";
  recipient1 = codes "0x000";
  native_amount0 = str (codes "7");
  native_amount1 = big_int (pos 0);
  erc20_amount0 = big_int (pos 0);
  erc20_amount1 = big_int (pos 0);
  payer_key = [];
  permit_deadline = nil;
  permit_amount = nil;
  permit_v = pos 0;
  permit_r = [];
  permit_s = [];
}

handle_execute-FitsCall_example :
    (c : ℤ) × (p : Params) × (resolve_chain_id split_deps.getenv (pos 1) ≡ ok c)
    × ((execute geth clock (λ w. w) split_deps p 0).0 ≡ ok (some answer))
    × (◌≡◌ {A = ℕ} 200 200)
    × (p.chain_id ≡ c)
    × FitsCall floats geth p
    × (pos 0 <ℤ total p)
unfolding handle_execute resolve_chain_id to_big_int set_string equal_fold with_nonce_lock take_lock
    fee_from_provider estimate_gas sign_and_send itoa eofs_proxy trim_space format_int
handle_execute-FitsCall_example =
    handle_execute-FitsCall floats geth clock (λ w. w) split_deps body 0 {r = answer}
      {out = record { status = 200; body = result answer }} refl refl
