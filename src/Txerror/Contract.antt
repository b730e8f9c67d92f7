-- ===== src/Txerror/Contract.antt =====
-- txerror.go against the error contract of README.md: category, code, status and retryability.
use bundler_go.Base.{
  ℕ, ◌≡◌, refl, sym, ◌↔◌, ◌⊎◌, inl, inr, Bool, true, false, some, List, [], ◌∷◌, Text, codes, arith,
  is_empty, text_eq, contains, Occurs, contains_iff, Bool-cases, Option-cases, ℤ, text_eq_sound,
  All, subst, append-nil,
}
use bundler_go.Txerror.Codes.{
  is_code, find_revert_code, CodeIn, find_revert_code_sound, find_revert_code_complete,
}
use bundler_go.Txerror.{
  Category, revert, insufficient_funds, nonce, network, timeout, server, unknown, classify,
  low_text, extract_revert_code, search_texts, revert_message, find_message, revert_messages,
}

-- The table of the contract, a row for each category.
abbrev pub Row : Category → Text → ℕ → Bool → Type 0
Row revert code status retryable =
    ((is_code code ≡ true) ⊎ (code ≡ codes "CALL_EXCEPTION")) × (status ≡ 422) × (retryable ≡ false)
Row insufficient_funds code status retryable =
    (code ≡ codes "INSUFFICIENT_FUNDS") × (status ≡ 422) × (retryable ≡ false)
Row nonce code status retryable =
    (code ≡ codes "BUNDLER_NONCE_CONFLICT") × (status ≡ 409) × (retryable ≡ true)
Row timeout code status retryable =
    (code ≡ codes "RPC_TIMEOUT") × (status ≡ 503) × (retryable ≡ true)
Row network code status retryable =
    (code ≡ codes "RPC_NETWORK_ERROR") × (status ≡ 503) × (retryable ≡ true)
Row server code status retryable =
    (code ≡ codes "RPC_SERVER_ERROR") × (status ≡ 503) × (retryable ≡ true)
Row unknown code status retryable =
    (code ≡ codes "BUNDLER_SEND_FAILED") × (status ≡ 500) × (retryable ≡ true)

find_message-code :
    (k : Text) (l : List (Text × Text)) {m : Text}
    → All (λ e. is_code e.0 ≡ true) l
    → find_message k l ≡ some m
    → is_code k ≡ true
unfolding find_message
find_message-code k [] a h = cc
find_message-code k ((j, v) ∷ l) {m} a h = elim (Bool-cases (text_eq j k)) [
  | inl e ↦ subst (λ t. is_code t ≡ true) (text_eq_sound j k e) a.0
  | inr e ↦ find_message-code k l {m = m} a.1 (ground (arith, h, e))
]

-- Every key of the message table is a code.
revert_message-code : (k : Text) {m : Text} → revert_message k ≡ some m → is_code k ≡ true
unfolding revert_message
revert_message-code k h = find_message-code k revert_messages keys h
  where
    keys : All (λ e. is_code e.0 ≡ true) revert_messages
    keys =
        unfold is_code in
        (
          refl,
          (
            refl,
            (
              refl,
              (refl, (refl, (refl, (refl, (refl, (refl, (refl, (refl, (refl, (refl, tt)))))))))),
            ),
          ),
        )

abbrev Coded : Text → Type 0
Coded c = (c ≡ []) ⊎ (is_code c ≡ true)

search_texts-Coded : (reason msg : Text) → Coded (search_texts reason msg)
unfolding search_texts
search_texts-Coded reason msg = elim (Option-cases (find_revert_code reason)) [
  | inr (c, e) ↦ inr (rw (e, search_texts) (find_revert_code_sound reason c e).3)
  | inl e ↦ elim (Option-cases (find_revert_code msg)) [
    | inr (c, k) ↦ inr (rw (e, k, search_texts) (find_revert_code_sound msg c k).3)
    | inl k ↦ inl (rw (e, search_texts) (rw k))
  ]
]

extract_revert_code-Coded : (reason msg : Text) → Coded (extract_revert_code reason msg)
unfolding extract_revert_code
extract_revert_code-Coded reason msg = elim (Option-cases (revert_message reason)) [
  | inl e ↦ rw (e, extract_revert_code) (search_texts-Coded reason msg)
  | inr (m, e) ↦ elim (Bool-cases (is_empty reason)) [
    | inl k ↦ rw (e, extract_revert_code) (rw k (search_texts-Coded reason msg))
    | inr k ↦ rw (e, extract_revert_code) (rw k (inr (revert_message-code reason e)))
  ]
]

-- Every classification is a row of the contract's table.
pub classify-Row :
    (msg reason : Text) (rpc_code : ℤ)
    → let n = classify msg reason rpc_code in Row n.category n.code n.status n.retryable
unfolding classify
classify-Row msg reason rpc_code = ground (arith, extract_revert_code-Coded reason msg)

code-nonempty : (c : Text) → is_code c ≡ true → is_empty c ≡ false
unfolding is_code
code-nonempty [] h = cc
code-nonempty (c ∷ s) h = refl

-- A code stands in the reason or in the message.
abbrev pub HasCode : Text → Text → Type 0
HasCode reason msg = (t : Text) × (CodeIn t reason ⊎ CodeIn t msg)

search_texts-found :
    (reason msg : Text) → is_empty (search_texts reason msg) ≡ false → HasCode reason msg
unfolding search_texts
search_texts-found reason msg h = elim (Option-cases (find_revert_code reason)) [
  | inr (c, e) ↦ (c, inl (find_revert_code_sound reason c e))
  | inl e ↦ elim (Option-cases (find_revert_code msg)) [
    | inr (c, k) ↦ (c, inr (find_revert_code_sound msg c k))
    | inl k ↦ absurd (ground (arith, h, e, k))
  ]
]

found-search_texts :
    (reason msg : Text) → HasCode reason msg → is_empty (search_texts reason msg) ≡ false
unfolding search_texts
found-search_texts reason msg (t, o) = elim (Option-cases (find_revert_code reason)) [
  | inr (c, e) ↦ rw (e, search_texts) (code-nonempty c (find_revert_code_sound reason c e).3)
  | inl e ↦ elim (Option-cases (find_revert_code msg)) [
    | inr (c, k) ↦ rw (e, search_texts) (rw k (code-nonempty c (find_revert_code_sound msg c k).3))
    | inl k ↦ absurd (elim o [
      | inl c ↦ find_revert_code_complete reason t c e
      | inr c ↦ find_revert_code_complete msg t c k
    ])
  ]
]

extract_revert_code-found :
    (reason msg : Text) → is_empty (extract_revert_code reason msg) ≡ false → HasCode reason msg
unfolding extract_revert_code
extract_revert_code-found reason msg h = elim (Option-cases (revert_message reason)) [
  | inl e ↦ search_texts-found reason msg (ground (arith, h, e))
  | inr (m, e) ↦ elim (Bool-cases (is_empty reason)) [
    | inl k ↦ search_texts-found reason msg (ground (arith, h, e, k))
    | inr k ↦
        (reason, inl ([], [], sym (append-nil reason), revert_message-code reason e, refl, refl))
  ]
]

found-extract_revert_code :
    (reason msg : Text) → HasCode reason msg → is_empty (extract_revert_code reason msg) ≡ false
unfolding extract_revert_code
found-extract_revert_code reason msg c = elim (Option-cases (revert_message reason)) [
  | inl e ↦ rw (e, extract_revert_code) (found-search_texts reason msg c)
  | inr (m, e) ↦ elim (Bool-cases (is_empty reason)) [
    | inl k ↦ rw (e, extract_revert_code) (rw k (found-search_texts reason msg c))
    | inr k ↦ rw (e, extract_revert_code) (rw k k)
  ]
]

category-revert :
    (msg reason : Text) (rpc_code : ℤ)
    → ((classify msg reason rpc_code).category ≡ revert) ↔ (
        ((is_empty (extract_revert_code reason msg)) ≡ false)
        ⊎ (contains (low_text msg reason) (codes "execution reverted") ≡ true))
unfolding classify
category-revert msg reason rpc_code = (λ h. ground (arith, h), λ h. ground (arith, h))

-- A failure is classified as a revert exactly when a revert code stands in the reason or the message
-- as a word of its own, or their lower-case text says "execution reverted".
pub classify-revert_iff :
    (msg reason : Text) (rpc_code : ℤ)
    → ((classify msg reason rpc_code).category ≡ revert)
      ↔ (HasCode reason msg ⊎ Occurs (codes "execution reverted") (low_text msg reason))
classify-revert_iff msg reason rpc_code =
    let low = low_text msg reason in
    let said = contains_iff low (codes "execution reverted") in
    (
      λ h. elim ((category-revert msg reason rpc_code).0 h) [
        | inl c ↦ inl (extract_revert_code-found reason msg c)
        | inr c ↦ inr (said.0 c)
      ],
      λ h. (category-revert msg reason rpc_code).1 (elim h [
        | inl c ↦ inl (found-extract_revert_code reason msg c)
        | inr c ↦ inr (said.1 c)
      ]),
    )
