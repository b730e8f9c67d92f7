-- ===== src/Tests/Transfers.antt =====
-- gas.go and send.go of the transfers on Sepolia, with one setting, and out of the server's wallet.
use bundler_go.Base.{
  ℕ, ℤ, pos, ◌≡◌, refl, [], codes, some, text_eq, if◌then◌else◌, trim_space, true, to_lower, false,
  ◌*◌, some-ne-none,
}
use bundler_go.Chain.{Env}
use bundler_go.Transfer.Gas.{ParseGwei, user_op_max_fee_fields}
use bundler_go.Transfer.GasLaws.{
  NoNan, Ended, env_max, env_priority, user_op_max_fee_fields-Payable,
}
use bundler_go.Evm.Number.{Float, nil, big_int, to_big_int}
use bundler_go.Transfer.Request.{TransferBody, check_body, passed, erc20, account}
use bundler_go.Tests.World.{geth, client}

-- Every text is read as seven gwei; no number is NaN.
abbrev pub parse : ParseGwei ℕ
parse = record {
  parse_float = λ text. some 7;
  at_most_zero = λ f. false;
  times_gwei = λ f. f * 1_000_000_000;
  to_int = λ f. some (pos f);
}

abbrev settings : Env
settings key = if text_eq key (codes "USEROP_MAX_FEE_PER_GAS_GWEI") then codes "1" else []

abbrev sepolia : ℤ
sepolia = pos 11155111

user_op_max_fee_fields-Payable_example :
    Ended parse settings client
      (env_max parse settings client sepolia)
      (env_priority parse settings client sepolia)
      sepolia
      (user_op_max_fee_fields parse settings client sepolia 0).0
user_op_max_fee_fields-Payable_example =
    user_op_max_fee_fields-Payable parse settings client sepolia 0

pub no_nan : (getenv : Env) → NoNan parse getenv
no_nan getenv c key m nan = some-ne-none nan.3

abbrev pub floats : Float ℕ
floats = record { is_integer = λ x. true; to_int64 = λ x. pos x; show = λ x. [] }

-- A withdrawal of five tokens.
abbrev body : TransferBody ℕ
body = record {
  chain_id = sepolia;
  kind = codes " ERC20";
  source = codes "account";
  from = codes "0x01";
  to = codes "0x002";
  value_wei = nil;
  token_address = codes "0x";
  amount = big_int (pos 5);
}

body-passed : check_body floats geth body ≡ passed (erc20 account 4 2 5 (pos 5))
unfolding check_body to_big_int trim_space to_lower
body-passed = refl
