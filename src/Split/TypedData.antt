-- ===== src/Split/TypedData.antt =====
-- split/eip712.go: the data that both server keys sign.
use bundler_go.Base.{
  ℤ, ℕ, zero, suc, List, [], ◌∷◌, Text, codes, Result, format_int, ◌≡◌, ap, format_int-inj,
}
use bundler_go.Evm.Client.{Geth, Address, TypedData}
use bundler_go.Split.Types.{PayerSplitMessage}

abbrev pub domain_type : List (Text × Text)
domain_type =
    (codes "name", codes "string")
    ∷ (codes "version", codes "string")
    ∷ (codes "chainId", codes "uint256")
    ∷ (codes "verifyingContract", codes "address")
    ∷ []

abbrev pub payer_split_type : List (Text × Text)
payer_split_type =
    (codes "payer", codes "address")
    ∷ (codes "erc20Token", codes "address")
    ∷ (codes "recipient0", codes "address")
    ∷ (codes "recipient1", codes "address")
    ∷ (codes "nativeAmount0", codes "uint256")
    ∷ (codes "nativeAmount1", codes "uint256")
    ∷ (codes "erc20Amount0", codes "uint256")
    ∷ (codes "erc20Amount1", codes "uint256")
    ∷ (codes "signerEpoch", codes "uint256")
    ∷ (codes "nonce", codes "uint256")
    ∷ []

abbrev value_at : ℕ → List (Text × Text) → Text
value_at i [] = []
value_at zero ((k, v) ∷ rest) = v
value_at (suc i) ((k, v) ∷ rest) = value_at i rest

same_message :
    (m n : PayerSplitMessage)
    → (m.payer ≡ n.payer)
      × (m.erc20_token ≡ n.erc20_token)
      × (m.recipient0 ≡ n.recipient0)
      × (m.recipient1 ≡ n.recipient1)
    → (m.native_amt0 ≡ n.native_amt0)
      × (m.native_amt1 ≡ n.native_amt1)
      × (m.erc20_amt0 ≡ n.erc20_amt0)
      × (m.erc20_amt1 ≡ n.erc20_amt1)
      × (m.signer_epoch ≡ n.signer_epoch)
      × (m.nonce ≡ n.nonce)
    → m ≡ n
same_message m n (a, b, c, d) (e, f, g, h, i, j) = cc

module _ {Key Signed : Type 0} (geth : Geth Key Signed) where
  unfoldable pub message_fields : PayerSplitMessage → List (Text × Text)
  message_fields m =
      (codes "payer", geth.address_hex m.payer)
      ∷ (codes "erc20Token", geth.address_hex m.erc20_token)
      ∷ (codes "recipient0", geth.address_hex m.recipient0)
      ∷ (codes "recipient1", geth.address_hex m.recipient1)
      ∷ (codes "nativeAmount0", format_int m.native_amt0)
      ∷ (codes "nativeAmount1", format_int m.native_amt1)
      ∷ (codes "erc20Amount0", format_int m.erc20_amt0)
      ∷ (codes "erc20Amount1", format_int m.erc20_amt1)
      ∷ (codes "signerEpoch", format_int m.signer_epoch)
      ∷ (codes "nonce", format_int m.nonce)
      ∷ []

  unfoldable pub typed_data : ℤ → Address → PayerSplitMessage → TypedData
  unfolding message_fields
  typed_data chain_id router m = record {
    types = (codes "EIP712Domain", domain_type) ∷ (codes "PayerSplit", payer_split_type) ∷ [];
    primary_type = codes "PayerSplit";
    name = codes "EoaFundedSplitMultisig";
    version = codes "1";
    chain_id = chain_id;
    verifying_contract = geth.address_hex router;
    message = message_fields m;
  }

  -- `typedDataHash`
  unfoldable pub typed_data_hash : ℤ → Address → PayerSplitMessage → Result Text
  unfolding typed_data
  typed_data_hash chain_id router m = geth.typed_data_and_hash (typed_data chain_id router m)

  -- Where an address can be read back from its text, what is signed determines the payment: the chain,
  -- the router, the payer, the token, the recipients, the four amounts, the epoch and the nonce.
  pub typed_data-inj :
      (c d : ℤ) (router router' : Address) (m n : PayerSplitMessage)
      → ((a b : Address) → geth.address_hex a ≡ geth.address_hex b → a ≡ b)
      → typed_data c router m ≡ typed_data d router' n
      → (c ≡ d) × (router ≡ router') × (m ≡ n)
  unfolding typed_data message_fields
  typed_data-inj c d router router' m n inj e =
      let text : (i : ℕ) → value_at i (message_fields m) ≡ value_at i (message_fields n) =
        λ i. ap (λ (t : TypedData). value_at i t.message) e in
      (
        ap (λ (t : TypedData). t.chain_id) e,
        inj router router' (ap (λ (t : TypedData). t.verifying_contract) e),
        same_message m n (inj _ _ (text 0), inj _ _ (text 1), inj _ _ (text 2), inj _ _ (text 3))
            (
              format_int-inj _ _ (text 4),
              format_int-inj _ _ (text 5),
              format_int-inj _ _ (text 6),
              format_int-inj _ _ (text 7),
              format_int-inj _ _ (text 8),
              format_int-inj _ _ (text 9),
            ),
      )
