-- ===== src/Kms/Nhn.antt =====
-- nhn.go: the decryption service. `post` is the HTTP call: the status code and line, and the body
-- as it decodes.
use bundler_go.Base.{
  ℕ, ◌++◌, ◌/◌, Text, codes, Bool, not, ◌||◌, is_empty, Result, ok, err, new_error, wrap_error, M,
  if◌then◌else◌, ◌==◌,
}

pub record Client : Type 0 where
  pub app_key : Text
  pub base_url : Text

pub record Response : Type 0 where
  pub result_message : Text
  pub is_successful : Bool
  pub plaintext : Text

pub record HttpReply : Type 0 where
  pub status_code : ℕ
  pub status : Text
  pub decoded : Result Response

abbrev pub default_base_url : Text
default_base_url = codes "https://api-keymanager.nhncloudservice.com/keymanager/v1.0"

-- `NewNHNClient`
unfoldable pub new_client : Text → Text → Result Client
new_client app_key base_url =
    if is_empty app_key
    then err (new_error (codes "NHN KMS: appKey required (NHN_APPKEY)"))
    else ok (record {
      app_key = app_key;
      base_url = if is_empty base_url then default_base_url else base_url;
    })

-- What `Decrypt` makes of the answer.
unfoldable pub read_reply : HttpReply → Result Text
read_reply reply = elim reply.decoded [
  | err e ↦ err (wrap_error (codes "NHN KMS decrypt: decode response: ") e)
  | ok body ↦
      if not (reply.status_code / 100 == 2) || not body.is_successful
      then err (
          new_error (
            codes "NHN KMS decrypt: "
            ++ (if is_empty body.result_message then reply.status else body.result_message)))
      else if is_empty body.plaintext
      then err (new_error (codes "NHN KMS decrypt: empty plaintext in response"))
      else ok body.plaintext
]

module _ {W : Type 0} (path_escape : Text → Text) (post : Text → Text → M W HttpReply) where
  -- `Decrypt`
  unfoldable pub decrypt : Client → Text → Text → M W Text
  unfolding read_reply
  decrypt c key_id ciphertext w =
      let endpoint =
        c.base_url
        ++ (codes "/appkey/"
            ++ (c.app_key
                ++ (codes "/symmetric-keys/" ++ (path_escape key_id ++ codes "/decrypt")))) in
      let (r, w') = post endpoint ciphertext w in
      elim r [ err e ↦ (err e, w') | ok reply ↦ (read_reply reply, w') ]
