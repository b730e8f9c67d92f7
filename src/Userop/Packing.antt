-- ===== src/Userop/Packing.antt =====
-- userop/types.go: `toPacked`.
use bundler_go.Base.{[], Text, codes, not, Result, ok, err, new_error, wrap_error, if◌then◌else◌}
use bundler_go.Evm.Client.{Geth}
use bundler_go.Evm.Number.{parse_hex_bytes, big_of}
use bundler_go.Userop.Types.{PackedUserOp, UserOperation}

module _ {Key Signed : Type 0} (geth : Geth Key Signed) where
  unfoldable pub pack_fields : UserOperation → Text → Text → Text → PackedUserOp
  pack_fields u init_code call_data sig = record {
    sender = geth.hex_to_address u.sender;
    nonce = big_of u.nonce;
    init_code = init_code;
    call_data = call_data;
    call_gas_limit = big_of u.call_gas_limit;
    verification_gas_limit = big_of u.verification_gas_limit;
    pre_verification_gas = big_of u.pre_verification_gas;
    max_fee_per_gas = big_of u.max_fee_per_gas;
    max_priority_fee_per_gas = big_of u.max_priority_fee_per_gas;
    paymaster_and_data = [];
    signature = sig;
  }

  -- `toPacked`: no paymaster, whatever the operation names.
  unfoldable pub to_packed : UserOperation → Result PackedUserOp
  unfolding pack_fields
  to_packed u =
      if not (geth.is_hex_address u.sender)
      then err (new_error (codes "invalid sender address"))
      else elim (parse_hex_bytes geth u.init_code) [
        | err e ↦ err (wrap_error (codes "initCode: ") e)
        | ok init_code ↦ elim (parse_hex_bytes geth u.call_data) [
          | err e ↦ err (wrap_error (codes "callData: ") e)
          | ok call_data ↦ elim (parse_hex_bytes geth u.signature) [
            | err e ↦ err (wrap_error (codes "signature: ") e)
            | ok sig ↦ ok (pack_fields u init_code call_data sig)
          ]
        ]
      ]
