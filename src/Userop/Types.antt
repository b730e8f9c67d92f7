-- ===== src/Userop/Types.antt =====
-- userop/entrypoint.go and types.go: a user operation as JSON brings it, and packed for the ABI.
use bundler_go.Base.{ℕ, ℤ, Option, Text}

-- `PackedUserOp`; the sender is an address.
pub record PackedUserOp : Type 0 where
  pub sender : ℕ
  pub nonce : ℤ
  pub init_code : Text
  pub call_data : Text
  pub call_gas_limit : ℤ
  pub verification_gas_limit : ℤ
  pub pre_verification_gas : ℤ
  pub max_fee_per_gas : ℤ
  pub max_priority_fee_per_gas : ℤ
  pub paymaster_and_data : Text
  pub signature : Text

-- `UserOperation`; a number is the `V` of its `Uint256`.
pub record UserOperation : Type 0 where
  pub sender : Text
  pub nonce : Option ℤ
  pub init_code : Text
  pub call_data : Text
  pub call_gas_limit : Option ℤ
  pub verification_gas_limit : Option ℤ
  pub pre_verification_gas : Option ℤ
  pub max_fee_per_gas : Option ℤ
  pub max_priority_fee_per_gas : Option ℤ
  pub paymaster_and_data : Text
  pub signature : Text
