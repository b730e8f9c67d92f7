-- ===== src/Kms/Provider.antt =====
-- kms.go: `Provider` loads a key by name, out of a keystore and a decryption service.
use bundler_go.Base.{
  ◌++◌, List, [], Text, codes, Bool, true, false, Option, none, some, is_empty, trim_space, Result,
  ok, err, new_error, wrap_error, M, if◌then◌else◌,
}
use bundler_go.Evm.Number.{quote}

pub record KeyEntry : Type 0 where
  pub key_id : Text
  pub ciphertext : Text

-- `Keystore`: a row that is not found is `none`.
pub record Keystore (W : Type 0) : Type 0 where
  pub lookup : Text → M W (Option KeyEntry)
  pub list_by_prefix : Text → M W (List Text)
  pub close : M W (Unit {0})

-- `Decryptor`, by key id and ciphertext.
abbrev pub Decryptor : Type 0 → Type 0
Decryptor W = Text → Text → M W Text

-- `Provider`; `none` is nil.
pub record Provider (W : Type 0) : Type 0 where
  pub dec : Option (Decryptor W)
  pub ks : Option (Keystore W)

unfoldable pub check_plain : Text → Text → Result (Option Text)
check_plain name plain =
    let key = trim_space plain in
    if is_empty key
    then err (new_error (codes "kms decrypt " ++ (quote name ++ codes ": empty plaintext")))
    else ok (some key)

module _ {W : Type 0} where
  -- Both parts, where `Enabled` holds.
  unfoldable pub parts : Option (Provider W) → Option (Decryptor W × Keystore W)
  parts none = none
  parts (some p) = elim p.dec [
    | none ↦ none
    | some dec ↦ elim p.ks [ none ↦ none | some ks ↦ some (dec, ks) ]
  ]

  unfoldable pub enabled : Option (Provider W) → Bool
  unfolding parts
  enabled p = elim (parts p) [ none ↦ false | some q ↦ true ]

  unfoldable pub decrypt_entry : Decryptor W → Text → KeyEntry → M W (Option Text)
  unfolding check_plain
  decrypt_entry dec name entry w =
      let (r, w') = dec entry.key_id entry.ciphertext w in
      elim r [
        | err e ↦ (err (wrap_error (codes "kms decrypt " ++ (quote name ++ codes ": ")) e), w')
        | ok plain ↦ (check_plain name plain, w')
      ]

  -- `LoadHexKey`: the plain key, or `none` where there is no row or no keystore.
  unfoldable pub load_hex_key : Option (Provider W) → Text → M W (Option Text)
  unfolding parts decrypt_entry
  load_hex_key p name w = elim (parts p) [
    | none ↦ (ok none, w)
    | some (dec, ks) ↦
        let (r, w1) = ks.lookup name w in
        elim r [
          | err e ↦
              (err (wrap_error (codes "keystore lookup " ++ (quote name ++ codes ": ")) e), w1)
          | ok none ↦ (ok none, w1)
          | ok (some entry) ↦ decrypt_entry dec name entry w1
        ]
  ]

  -- `ListNames`
  unfoldable pub list_names : Option (Provider W) → Text → M W (List Text)
  unfolding parts
  list_names p prefix w = elim (parts p) [
    | none ↦ (ok [], w)
    | some (dec, ks) ↦ ks.list_by_prefix prefix w
  ]

  -- `Close`
  unfoldable pub close : Option (Provider W) → M W (Unit {0})
  close none w = (ok tt, w)
  close (some p) w = elim p.ks [ none ↦ (ok tt, w) | some ks ↦ ks.close w ]
