-- ===== src/Abi.antt =====
-- The JSON ABIs of the contracts that the program calls: split/exec.go, deploy/deploy.go,
-- userop/entrypoint.go and transfer/account.go. A method has a name, the types of its inputs and those
-- of its outputs; a tuple type is written with the types of its components.
pub mod Calls
use bundler_go.Base.{
  ℕ, ◌++◌, List, [], ◌∷◌, Text, codes, Bool, true, false, ◌&&◌, Option, none, some, Result, ok, err,
  GoError, new_error, M, text_eq, if◌then◌else◌,
}
use bundler_go.Evm.Client.{
  Geth, Ethclient, Arg, address, uint256, big_ptr, uint8, bytes, bytes_list, bytes32, user_ops,
  TransactOpts,
}
use bundler_go.Core.{Deps}

pub record Method : Type 0 where
  pub name : Text
  pub inputs : List Text
  pub outputs : List Text

abbrev pub Abi : Type 0
Abi = List Method

abbrev pub method : Text → List Text → List Text → Method
method name inputs outputs = record { name = name; inputs = inputs; outputs = outputs }

abbrev addr_t : Text
addr_t = codes "address"

abbrev u256 : Text
u256 = codes "uint256"

abbrev b32 : Text
b32 = codes "bytes32"

-- The components of the tuple of `handleOps`
abbrev pub user_op_t : Text
user_op_t =
    codes "(address,uint256,bytes,bytes,uint256,uint256,uint256,uint256,uint256,bytes,bytes)[]"

-- `routerABIJSON`
abbrev pub router_abi : Abi
router_abi =
    method (codes "executeWithSignatures")
      (addr_t
        ∷ addr_t
        ∷ addr_t
        ∷ addr_t
        ∷ u256
        ∷ u256
        ∷ u256
        ∷ u256
        ∷ u256
        ∷ codes "bytes"
        ∷ codes "bytes"
        ∷ u256
        ∷ u256
        ∷ codes "uint8"
        ∷ b32
        ∷ b32
        ∷ [])
      []
    ∷ method (codes "payerNonce") (addr_t ∷ []) (u256 ∷ [])
    ∷ method (codes "signerEpoch") [] (u256 ∷ [])
    ∷ method (codes "hashTypedDataPayerSplit")
        (addr_t ∷ addr_t ∷ addr_t ∷ addr_t ∷ u256 ∷ u256 ∷ u256 ∷ u256 ∷ u256 ∷ []) (b32 ∷ [])
    ∷ []

-- `erc20AllowanceABIJSON`
abbrev pub erc20_allowance_abi : Abi
erc20_allowance_abi =
    method (codes "allowance") (addr_t ∷ addr_t ∷ []) (u256 ∷ [])
    ∷ method (codes "approve") (addr_t ∷ u256 ∷ []) (codes "bool" ∷ [])
    ∷ []

-- `factoryABIJSON`, its functions
abbrev pub factory_abi : Abi
factory_abi =
    method (codes "deploy") (codes "bytes" ∷ b32 ∷ []) (addr_t ∷ [])
    ∷ method (codes "computeAddress") (addr_t ∷ b32 ∷ b32 ∷ []) (addr_t ∷ [])
    ∷ []

-- `entryPointABIJSON`
abbrev pub entry_point_abi : Abi
entry_point_abi =
    method (codes "handleOps") (user_op_t ∷ addr_t ∷ []) []
    ∷ method (codes "depositGlobalGasPool") [] []
    ∷ method (codes "withdrawGlobalGasPool") (addr_t ∷ u256 ∷ []) []
    ∷ []

-- `accountABIJSON`
abbrev pub account_abi : Abi
account_abi =
    method (codes "nonce") [] (u256 ∷ [])
    ∷ method (codes "executeWithSignatures") (addr_t ∷ u256 ∷ codes "bytes" ∷ codes "bytes[]" ∷ [])
        []
    ∷ []

-- `erc20ABIJSON` of the transfers
abbrev pub erc20_abi : Abi
erc20_abi = method (codes "transfer") (addr_t ∷ u256 ∷ []) (codes "bool" ∷ []) ∷ []

-- `digestArgs`
abbrev pub digest_types : List Text
digest_types = addr_t ∷ u256 ∷ addr_t ∷ u256 ∷ b32 ∷ []

-- The ABI type of an argument.
unfoldable pub type_of : Arg → Text
type_of (address a) = codes "address"
type_of (uint256 n) = codes "uint256"
type_of (big_ptr p) = codes "uint256"
type_of (uint8 n) = codes "uint8"
type_of (bytes b) = codes "bytes"
type_of (bytes_list bs) = codes "bytes[]"
type_of (bytes32 b) = codes "bytes32"
type_of (user_ops ops) = user_op_t

unfoldable pub types_fit : List Text → List Arg → Bool
unfolding type_of
types_fit [] [] = true
types_fit [] (a ∷ args) = false
types_fit (t ∷ ts) [] = false
types_fit (t ∷ ts) (a ∷ args) = text_eq t (type_of a) && types_fit ts args

-- The method is in the ABI, and the arguments are as many as its inputs and have their types.
unfoldable pub accepts : Abi → Text → List Arg → Bool
unfolding types_fit
accepts [] name args = false
accepts (m ∷ abi) name args =
    if text_eq m.name name then types_fit m.inputs args else accepts abi name args

abbrev pub ill_typed : GoError
ill_typed = new_error (codes "abi: cannot use the arguments")

-- The library and a node that turn down every call outside an ABI.
abbrev pub guard_geth : {Key Signed : Type 0} → Abi → List Text → Geth Key Signed → Geth Key Signed
guard_geth abi types geth = record geth {
  pack = λ m args. if accepts abi m args then geth.pack m args else err ill_typed;
  encode = λ args. if types_fit types args then geth.encode args else err ill_typed;
}

abbrev pub guard_client :
    {S Key Signed : Type 0} → Abi → Ethclient S Key Signed → Ethclient S Key Signed
guard_client abi client = record client {
  call = λ a m args s. if accepts abi m args then client.call a m args s else (err ill_typed, s);
  transact = λ o a m args s.
      if accepts abi m args then client.transact o a m args s else (err ill_typed, s);
}

abbrev pub guard_result :
    {S Key Signed : Type 0}
    → Abi
    → Result (Ethclient S Key Signed)
    → Result (Ethclient S Key Signed)
guard_result abi (err e) = err e
guard_result abi (ok client) = ok (guard_client abi client)

abbrev pub guard_deps : {S Key Signed : Type 0} → Abi → Deps S Key Signed → Deps S Key Signed
guard_deps abi deps = record deps {
  client = λ c s. let (r, s') = deps.client c s in (guard_result abi r, s');
}
