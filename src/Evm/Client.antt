-- ===== src/Evm/Client.antt =====
-- What the program uses of go-ethereum: the client of a chain (`ethclient.Client`), bound contracts,
-- the ABI and the keys. None of this is implemented here: a client is a record of calls on the
-- world `W` outside, and the pure functions of the library are those of `Geth`.
use bundler_go.Userop.Types.{PackedUserOp}
use bundler_go.Base.{codes, ℕ, ℤ, Bool, Option, List, Text, M, Result}

-- `common.Address`, the number that its 20 bytes write; the zero address is 0.
abbrev pub Address : Type 0
Address = ℕ

-- The values that are packed into call data.
pub data Arg : Type 0 where
  address : Address → Arg
  uint256 : ℤ → Arg
  -- a `*big.Int` that may be nil, as it is handed to the library
  big_ptr : Option ℤ → Arg
  uint8 : ℕ → Arg
  bytes : Text → Arg
  bytes_list : List Text → Arg
  bytes32 : Text → Arg
  user_ops : List PackedUserOp → Arg

-- A transaction before it is signed: `DynamicFeeTx`, or `LegacyTx`.
pub record Tx : Type 0 where
  pub chain_id : ℤ
  pub nonce : ℕ
  pub gas_tip_cap : Option ℕ
  pub gas_fee_cap : Option ℕ
  pub gas_price : Option ℕ
  pub gas : ℕ
  pub to : Address
  pub value : ℤ
  pub input : Text

pub record Log : Type 0 where
  pub topics : List ℕ

pub record Receipt : Type 0 where
  pub status : ℕ
  pub gas_used : ℕ
  pub effective_gas_price : Option ℤ
  pub logs : List Log

-- `ethereum.CallMsg`
pub record CallMsg : Type 0 where
  pub from : Address
  pub to : Address
  pub value : Option ℤ
  pub input : Text

-- What a view method returned, by the type that `out[0]` has; another type by its name.
pub data Output : Type 0 where
  big : ℤ → Output
  addr : Address → Output
  word : Text → Output
  other : Text → Output

-- `%T`
unfoldable pub type_name : Output → Text
type_name (big n) = codes "*big.Int"
type_name (addr a) = codes "common.Address"
type_name (word w) = codes "[32]uint8"
type_name (other t) = t

-- `apitypes.TypedData`: the types with their fields and the fields' types, the domain, the message.
pub record TypedData : Type 0 where
  pub types : List (Text × List (Text × Text))
  pub primary_type : Text
  pub name : Text
  pub version : Text
  pub chain_id : ℤ
  pub verifying_contract : Text
  pub message : List (Text × Text)

-- `bind.TransactOpts`, as far as it is set.
pub record TransactOpts (Key : Type 0) : Type 0 where
  pub key : Key
  pub chain_id : ℤ
  pub nonce : ℕ
  pub value : Option ℤ

-- The client of one chain. The nonces and gas amounts are uint64; the node returns no negative fee.
pub record Ethclient (W Key Signed : Type 0) : Type 0 where
  pub suggest_gas_tip_cap : M W (Option ℕ)
  -- `BaseFee` of the latest header
  pub header_by_number : M W (Option ℕ)
  pub suggest_gas_price : M W (Option ℕ)
  pub estimate_gas : CallMsg → M W ℕ
  pub pending_nonce_at : Address → M W ℕ
  pub send_transaction : Signed → M W (Unit {0})
  pub transaction_receipt : Text → M W (Option Receipt)
  -- `bind.WaitMined`, by the transaction's hash
  pub wait_mined : Text → M W Receipt
  -- `BoundContract.Transact`
  pub transact : TransactOpts Key → Address → Text → List Arg → M W Signed
  -- `BoundContract.Call`
  pub call : Address → Text → List Arg → M W Output

-- The pure functions of go-ethereum and of the crypto packages.
pub record Geth (Key Signed : Type 0) : Type 0 where
  pub is_hex_address : Text → Bool
  pub hex_to_address : Text → Address
  pub address_hex : Address → Text
  -- the last 20 bytes of a topic, as `BytesToAddress`
  pub topic_address : ℕ → Address
  pub hex_decode : Text → Result Text
  pub unpack_revert : Text → Result Text
  pub hex_to_key : Text → Result Key
  pub key_address : Key → Address
  pub keccak256 : Text → Text
  -- `accounts.TextHash`
  pub text_hash : Text → Text
  -- `apitypes.TypedDataAndHash`
  pub typed_data_and_hash : TypedData → Result Text
  -- `crypto.Sign`: 64 bytes and the recovery id
  pub sign : Text → Key → Result (Text × ℕ)
  -- `bind.NewKeyedTransactorWithChainID`
  pub transactor : Key → ℤ → Result (Unit {0})
  pub pack : Text → List Arg → Result Text
  -- `abi.Arguments.Pack`, with no selector
  pub encode : List Arg → Result Text
  pub sign_tx : Tx → Key → Result Signed
  pub tx_hash : Signed → Text
  -- `hexutil.EncodeUint64`
  pub encode_uint64 : ℕ → Text
