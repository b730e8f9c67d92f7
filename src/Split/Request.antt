-- ===== src/Split/Request.antt =====
-- split/split.go: the handler. A bad JSON value is none; the body's `any` values are `Value`s.
use bundler_go.Base.{
  ℕ, ℤ, ◌++◌, ◌-◌, List, [], ◌∷◌, Text, codes, not, ◌||◌, Option, none, some, Result, ok, err,
  if◌then◌else◌, is_empty, is_neg, trim_space, length, ltb, replicate, to_uint64, ◌%◌,
}
use bundler_go.Chain.{resolve_chain_id}
use bundler_go.Core.{Deps}
use bundler_go.Evm.Client.{Geth}
use bundler_go.Evm.Number.{Float, Value, nil, to_big_int}
use bundler_go.Evm.Send.{End}
use bundler_go.Httpx.{Outcome, responds, write_validation_error, finish}
use bundler_go.Split.Execute.{execute}
use bundler_go.Split.Permit.{zero_bytes32}
use bundler_go.Split.Types.{Params, SplitResult}
use bundler_go.Transfer.Request.{Checked, refused, passed}

-- `execBody`
pub record ExecBody (F : Type 0) : Type 0 where
  pub chain_id : ℤ
  pub erc20_token : Text
  pub recipient0 : Text
  pub recipient1 : Text
  pub native_amount0 : Value F
  pub native_amount1 : Value F
  pub erc20_amount0 : Value F
  pub erc20_amount1 : Value F
  pub payer_key : Text
  pub permit_deadline : Value F
  pub permit_amount : Value F
  pub permit_v : ℤ
  pub permit_r : Text
  pub permit_s : Text

-- The second result of `reqUint`
unfoldable pub message_of : Checked ℤ → Text
message_of (refused m) = m
message_of (passed n) = []

-- `firstErr`
unfoldable pub first_err : List Text → Text
first_err [] = []
first_err (e ∷ es) = if not (is_empty e) then e else first_err es

module _ {Key Signed : Type 0} (geth : Geth Key Signed) where
  -- `copy(out[32-len(b):], b)` into 32 zero bytes, of at most 32
  abbrev pub pad32 : Text → Text
  pad32 b = replicate (32 - length b) 0 ++ b

  -- `parseBytes32`
  unfoldable pub parse_bytes32 : Text → Option Text
  parse_bytes32 text =
      let s = trim_space text in
      if is_empty s then none else elim (geth.hex_decode s) [
        | err e ↦ none
        | ok b ↦ if ltb 32 (length b) then none else some (pad32 b)
      ]

  unfoldable pub bytes32_or_zero : Text → Text
  unfolding parse_bytes32
  bytes32_or_zero s = elim (parse_bytes32 s) [ none ↦ zero_bytes32 | some b ↦ b ]

module _ {F : Type 0} (fl : Float F) where
  unfoldable pub checked_uint : Text → Result ℤ → Checked ℤ
  checked_uint name (err e) = refused (codes "invalid " ++ (name ++ (codes ": " ++ e.message)))
  checked_uint name (ok n) = if is_neg n then refused (name ++ codes " must be >= 0") else passed n

  -- `reqUint`, whose message is empty where the number is good
  unfoldable pub req_uint : Value F → Text → Checked ℤ
  unfolding checked_uint to_big_int
  req_uint nil name = refused (name ++ codes " required")
  req_uint v name = checked_uint name (to_big_int fl v)

  -- A permit field: what cannot be read is as good as missing.
  unfoldable pub opt_uint : Value F → Option ℤ
  unfolding to_big_int
  opt_uint nil = none
  opt_uint v = elim (to_big_int fl v) [ err e ↦ none | ok n ↦ some n ]

  module _ {Key Signed : Type 0} (geth : Geth Key Signed) where
    unfoldable pub to_params : ℤ → ExecBody F → ℤ → ℤ → ℤ → ℤ → Params
    unfolding opt_uint bytes32_or_zero
    to_params chain_id b na0 na1 ea0 ea1 = record {
      chain_id = chain_id;
      erc20_token = geth.hex_to_address (trim_space b.erc20_token);
      recipient0 = geth.hex_to_address b.recipient0;
      recipient1 = geth.hex_to_address b.recipient1;
      native_amount0 = na0;
      native_amount1 = na1;
      erc20_amount0 = ea0;
      erc20_amount1 = ea1;
      payer_key = b.payer_key;
      permit_deadline = opt_uint b.permit_deadline;
      permit_amount = opt_uint b.permit_amount;
      -- `uint8(b.PermitV)`
      permit_v = to_uint64 b.permit_v % 256;
      permit_r = bytes32_or_zero geth b.permit_r;
      permit_s = bytes32_or_zero geth b.permit_s;
    }

    -- All four amounts are read before the first complaint about one is answered.
    unfoldable pub read_amounts :
        ℤ → ExecBody F → Checked ℤ → Checked ℤ → Checked ℤ → Checked ℤ → Checked Params
    unfolding to_params first_err message_of
    read_amounts c b (passed na0) (passed na1) (passed ea0) (passed ea1) =
        passed (to_params c b na0 na1 ea0 ea1)
    read_amounts c b r1 r2 r3 r4 =
        refused (first_err (message_of r1 ∷ message_of r2 ∷ message_of r3 ∷ message_of r4 ∷ []))

    -- The addresses, then the amounts.
    unfoldable pub check_body : ℤ → ExecBody F → Checked Params
    unfolding read_amounts req_uint
    check_body c b =
        if not (geth.is_hex_address (trim_space b.erc20_token))
        then refused (codes "valid erc20Token required (use 0x0 for native-only)")
        else if not (geth.is_hex_address b.recipient0) || not (geth.is_hex_address b.recipient1)
        then refused (codes "valid recipient0/recipient1 required")
        else read_amounts c b (req_uint b.native_amount0 (codes "nativeAmount0"))
            (req_uint b.native_amount1 (codes "nativeAmount1"))
            (req_uint b.erc20_amount0 (codes "erc20Amount0"))
            (req_uint b.erc20_amount1 (codes "erc20Amount1"))

    module _ {S : Type 0} (clock : Text → S → End × ℕ) (pause : S → S)
        (deps : Deps S Key Signed) where
      unfoldable pub perform : Checked Params → S → Outcome SplitResult × S
      unfolding finish execute write_validation_error
      perform (refused m) s = (responds (write_validation_error m), s)
      perform (passed p) s = let (r, s') = execute geth clock pause deps p s in (finish geth r, s')

      -- The handler `Execute`, on the body as it decodes.
      unfoldable pub handle_execute : Option (ExecBody F) → S → Outcome SplitResult × S
      unfolding perform check_body
      handle_execute none s = (responds (write_validation_error (codes "invalid JSON body")), s)
      handle_execute (some b) s = elim (resolve_chain_id deps.getenv b.chain_id) [
        | err e ↦ (responds (write_validation_error (codes "chainId required")), s)
        | ok c ↦ perform (check_body c b) s
      ]
