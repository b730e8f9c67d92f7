-- ===== src/Startup/WiringLaws.antt =====
-- main.go: what holds of a program that has started.
use bundler_go.Base.{
  List, [], ◌∷◌, Text, true, Option, none, some, Result, ok, err, ◌≡◌, ◌≢◌, ◌↔◌, refl, sym, ap,
  subst, ◌∙◌, inl, inr, ok_inj, err-ne-ok, some-ne-none, Result-cases, ℤ,
}
use bundler_go.Chain.{Env, assert_config}
use bundler_go.Kms.Nhn.{Client}
use bundler_go.Kms.Provider.{Keystore, Decryptor, Provider, enabled, parts}
use bundler_go.Kms.Sqlite.{Db}
use bundler_go.Startup.Wiring.{
  Settings, Options, dial, Wiring, if_set, open_sqlite, build_decryptor, build_kms, wire, start,
}

dial-none :
    (parse_url : Text → Result Options) (url host : Text) (port : ℤ) (password : Text)
    {o : Option Options}
    → dial parse_url url host port password ≡ ok o
    → (o ≡ none) ↔ ((url ≡ []) × (host ≡ []))
unfolding dial
dial-none parse_url [] [] port password h = (λ e. (refl, refl), λ e. sym (ok_inj h))
dial-none parse_url [] (c ∷ host) port password h =
    (λ e. absurd (some-ne-none (ok_inj h ∙ e)), λ e. cc)
dial-none parse_url (c ∷ url) host port password h = elim (Result-cases (parse_url (c ∷ url))) [
  | inl (opt, e) ↦ (λ k. absurd (some-ne-none (ok_inj (rw (e, dial) at h) ∙ k)), λ k. cc)
  | inr (x, e) ↦ absurd (err-ne-ok (rw (e, dial) at h))
]

if_set-none :
    {A : Type 0} (setting : Text) (built : Result A) {o : Option A}
    → if_set setting built ≡ ok o
    → (o ≢ none) ↔ (setting ≢ [])
unfolding if_set
if_set-none [] built h = (λ k. absurd (k (sym (ok_inj h))), λ k. absurd (k refl))
if_set-none (c ∷ setting) (err e) h = absurd (err-ne-ok h)
if_set-none (c ∷ setting) (ok a) h = (λ k e. cc, λ k e. some-ne-none (ok_inj h ∙ e))

module _ {W : Type 0} (sql_open : Text → Result (Db W)) (ping : Db W → Result (Unit {0}))
    (decryptor : Client → Decryptor W) where
  enabled_iff :
      (d : Option (Decryptor W)) (k : Option (Keystore W))
      → (enabled (some (record { dec = d; ks = k })) ≡ true) ↔ ((d ≢ none) × (k ≢ none))
  unfolding enabled parts
  enabled_iff none k = (λ h. cc, λ h. absurd (h.0 refl))
  enabled_iff (some d) none = (λ h. cc, λ h. absurd (h.1 refl))
  enabled_iff (some d) (some k) = (λ h. (some-ne-none, some-ne-none), λ h. refl)

  build_kms-enabled :
      (cfg : Settings) {p : Provider W}
      → build_kms sql_open ping decryptor cfg ≡ ok p
      → (enabled (some p) ≡ true) ↔ ((cfg.nhn_app_key ≢ []) × (cfg.key_db_path ≢ []))
  unfolding build_kms
  build_kms-enabled cfg h =
      elim (Result-cases (if_set cfg.nhn_app_key (build_decryptor sql_open ping decryptor cfg))) [
        | inr (x, e) ↦ absurd (err-ne-ok (rw (e, build_kms) at h))
        | inl (d, e) ↦
            elim (Result-cases
              (if_set cfg.key_db_path (open_sqlite sql_open ping cfg.key_db_path))) [
                | inr (x, z) ↦ absurd (err-ne-ok (rw (e, z, build_kms) at h))
                | inl (k, z) ↦
                    let both = enabled_iff d k in
                    let a = if_set-none cfg.nhn_app_key _ e in
                    let b = if_set-none cfg.key_db_path _ z in
                    subst
                      (λ q.
                        (enabled (some q) ≡ true)
                        ↔ ((cfg.nhn_app_key ≢ []) × (cfg.key_db_path ≢ [])))
                      (ok_inj (rw (e, z, build_kms) at h))
                      (λ t. (a.0 (both.0 t).0, b.0 (both.0 t).1), λ t. both.1 (a.1 t.0, b.1 t.1))
              ]
      ]

  -- A program that has started has passed the check of its settings; it serializes across processes, by
  -- redis, unless both the URL and the host of redis are empty; and its provider of keys is enabled
  -- exactly where both the key of the decryption service and the path of the database are set.
  pub start-Wired :
      (parse_url : Text → Result Options) (getenv : Env) (environ : List Text) (cfg : Settings)
      {w : Wiring W}
      → start sql_open ping decryptor parse_url getenv environ (ok cfg) ≡ ok w
      → (assert_config getenv environ ≡ ok tt)
        × ((w.rdb ≡ none) ↔ ((cfg.redis_url ≡ []) × (cfg.redis_host ≡ [])))
        × ((enabled (some w.kms) ≡ true) ↔ ((cfg.nhn_app_key ≢ []) × (cfg.key_db_path ≢ [])))
  unfolding start wire
  start-Wired parse_url getenv environ cfg h = elim (Result-cases (assert_config getenv environ)) [
    | inr (x, e) ↦ absurd (err-ne-ok (rw (e, start) at h))
    | inl (u, e) ↦
        elim (Result-cases
          (dial parse_url cfg.redis_url cfg.redis_host cfg.redis_port cfg.redis_password)) [
            | inr (x, z) ↦ absurd (err-ne-ok (rw (e, z, start) at h))
            | inl (o, z) ↦ elim (Result-cases (build_kms sql_open ping decryptor cfg)) [
              | inr (x, q) ↦ absurd (err-ne-ok (rw (e, z, q, start) at h))
              | inl (p, q) ↦
                  let same = ok_inj (rw (e, z, q, start, wire) at h) in
                  let rdb = ap (λ (x : Wiring W). x.rdb) same in
                  let kms = ap (λ (x : Wiring W). x.kms) same in
                  (
                    e,
                    subst (λ x. (x ≡ none) ↔ ((cfg.redis_url ≡ []) × (cfg.redis_host ≡ []))) rdb
                        (dial-none parse_url cfg.redis_url cfg.redis_host cfg.redis_port
                          cfg.redis_password z),
                    subst
                        (λ x.
                          (enabled (some x) ≡ true)
                          ↔ ((cfg.nhn_app_key ≢ []) × (cfg.key_db_path ≢ [])))
                        kms (build_kms-enabled cfg q),
                  )
            ]
          ]
  ]
