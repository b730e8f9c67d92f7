-- ===== src/Signer/Account.antt =====
-- account.go: an account from a hexadecimal private key.
use bundler_go.Base.{
  Text, codes, has_prefix, drop, trim_space, Result, ok, err, wrap_error, if◌then◌else◌,
}
use bundler_go.Evm.Client.{Geth, Address}

pub record Account (Key : Type 0) : Type 0 where
  pub priv : Key
  pub addr : Address

-- `strings.TrimPrefix`
abbrev pub trim_prefix : Text → Text → Text
trim_prefix s p = if has_prefix s p then drop 2 s else s

module _ {Key Signed : Type 0} (geth : Geth Key Signed) where
  -- `newAccount`
  unfoldable pub new_account : Text → Result (Account Key)
  new_account hex_key =
      let k = trim_prefix (trim_prefix (trim_space hex_key) (codes "0x")) (codes "0X") in
      elim (geth.hex_to_key k) [
        | err e ↦ err (wrap_error (codes "invalid private key: ") e)
        | ok priv ↦ ok (record { priv = priv; addr = geth.key_address priv })
      ]
