-- ===== src/Evm/Number.antt =====
-- internal/evm/evm.go: numbers and bytes that come as JSON values. A JSON number is a float64, taken
-- with its operations as a parameter; `json.Unmarshal` into `any` gives the `Value`.
use bundler_go.Base.{
  ℕ, ℤ, pos, ◌++◌, ◌∷◌, [], Text, codes, Bool, ◌&&◌, ◌||◌, Option, none, some, Result, ok, err,
  new_error, wrap_error, trim_space, has_prefix, is_empty, set_string, text_eq, drop, take, length,
  replicate, ◌-◌, ◌==◌, if◌then◌else◌, to_uint64, ◌+◌, ◌%◌,
}
use bundler_go.Evm.Client.{Geth, Address}

-- What the program asks of a float64 `t`: `t == float64(int64(t))`, `int64(t)` and `%v`.
pub record Float (F : Type 0) : Type 0 where
  pub is_integer : F → Bool
  pub to_int64 : F → ℤ
  pub show : F → Text

-- The dynamic type of an `any`.
pub data Value (F : Type 0) : Type 0 where
  nil : Value F
  str : Text → Value F
  json_number : Text → Value F
  float64 : F → Value F
  big_int : ℤ → Value F
  -- another type, by its name
  other : Text → Value F

abbrev pub has_hex_prefix : Text → Bool
has_hex_prefix s = has_prefix s (codes "0x") || has_prefix s (codes "0X")

-- `%q`, at a text whose characters are printable.
unfoldable pub quote_chars : Text → Text
quote_chars [] = codes "\""
quote_chars (c ∷ s) =
    if c == b'"' || c == b'\\' then b'\\' ∷ c ∷ quote_chars s else c ∷ quote_chars s

abbrev pub quote : Text → Text
quote s = b'"' ∷ quote_chars s

unfoldable pub read_integer : ℕ → Text → Result ℤ
unfolding quote_chars
read_integer base s = elim (set_string base s) [
  | none ↦ err (new_error (codes "invalid integer " ++ quote s))
  | some n ↦ ok n
]

unfoldable pub parse_big_string : Text → Result ℤ
unfolding read_integer
parse_big_string text =
    let s = trim_space text in
    if is_empty s
    then err (new_error (codes "empty number"))
    else if has_hex_prefix s
    then read_integer 16 (drop 2 s)
    else read_integer 10 s

module _ {F : Type 0} (fl : Float F) where
  -- `ToBigInt`
  unfoldable pub to_big_int : Value F → Result ℤ
  unfolding parse_big_string
  to_big_int nil = err (new_error (codes "nil value"))
  to_big_int (str s) = parse_big_string s
  to_big_int (json_number s) = parse_big_string s
  to_big_int (float64 t) =
      if fl.is_integer t
      then ok (fl.to_int64 t)
      else err (
          new_error
            (codes "non-integer number " ++ (fl.show t ++ codes "; send large values as string")))
  to_big_int (big_int n) = ok n
  to_big_int (other name) = err (new_error (codes "unsupported numeric type " ++ name))

  -- `Uint256.UnmarshalJSON`, from what `json.Unmarshal` makes of the bytes: the new `V`.
  unfoldable pub unmarshal_uint256 : Result (Value F) → Result (Option ℤ)
  unfolding to_big_int
  unmarshal_uint256 (err e) = err e
  unmarshal_uint256 (ok nil) = ok none
  unmarshal_uint256 (ok raw) = elim (to_big_int raw) [ err e ↦ err e | ok n ↦ ok (some n) ]

-- `Uint256.Big`
unfoldable pub big_of : Option ℤ → ℤ
big_of none = pos 0
big_of (some n) = n

module _ {Key Signed : Type 0} (geth : Geth Key Signed) where
  -- `ParseHexBytes`
  unfoldable pub parse_hex_bytes : Text → Result Text
  parse_hex_bytes text =
      let s = trim_space text in
      if is_empty s || text_eq s (codes "0x") || text_eq s (codes "0X")
      then ok []
      else elim (geth.hex_decode (if has_hex_prefix s then s else codes "0x" ++ s)) [
        | err e ↦ err (wrap_error (codes "invalid hex: ") e)
        | ok b ↦ ok b
      ]

  -- `copy(out[:], b)` into 32 zero bytes.
  abbrev pub copy32 : Text → Text
  copy32 b = take 32 b ++ replicate (32 - length b) 0

  -- `SaltToBytes32`
  unfoldable pub salt_to_bytes32 : Text → Text
  salt_to_bytes32 salt =
      let s = trim_space salt in
      let hashed = copy32 (geth.keccak256 s) in
      if has_hex_prefix s && length s == 66
      then elim (geth.hex_decode s) [ ok b ↦ copy32 b | err e ↦ hashed ]
      else hashed

  -- `Keccak256`
  unfoldable pub keccak256 : Text → Text
  keccak256 b = copy32 (geth.keccak256 b)

  -- `HexQuantity`
  unfoldable pub hex_quantity : ℤ → Text
  hex_quantity n = geth.encode_uint64 (to_uint64 n)

  -- `Sign65`: the recovery id is raised by 27, in a byte.
  unfoldable pub sign65 : Text → Key → Result Text
  sign65 digest key = elim (geth.sign digest key) [
    | err e ↦ err e
    | ok (rs, v) ↦ ok (rs ++ ((v + 27) % 256) ∷ [])
  ]

-- `PredictCreate2`, over go-ethereum's `CreateAddress2`
unfoldable pub predict_create2 : (Address → Text → Text → Address) → Address → Text → Text → Address
predict_create2 create_address2 deployer salt init_code_hash =
    create_address2 deployer salt init_code_hash
