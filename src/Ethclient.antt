-- ===== src/Ethclient.antt =====
-- internal/platform/ethclient/ethclient.go: the cache of clients, as the interleavings of many calls of
-- `Client`. A call is a number, for the chain `chain c`; a client is a number too, in the order of
-- dialling. The mutex makes each of its sections one step; the dialling is outside of them.
pub mod Sharing
pub mod Accounts
use bundler_go.Base.{
  ℕ, ℤ, suc, ◌≡◌, List, [], ◌∷◌, ◌++◌, Text, Option, none, some, Result, ok, err, GoError,
  if◌then◌else◌, ◌==◌, eq_ℤ, map,
}
use bundler_go.Chain.{Env, rpc_url}

-- Where a call is: before its look at the map, behind it with no client found, with one that it has
-- dialled, or at its end.
pub data Pc : Type 0 where
  calling : Pc
  missed : Pc
  dialed : ℕ → Pc
  got : ℕ → Pc
  failed : Pc

-- `Provider`, the clients that were closed, how many were dialled, and the calls.
pub record Provider : Type 0 where
  pub clients : List (ℤ × ℕ)
  pub closed : List ℕ
  pub dials : ℕ
  pub pc : ℕ → Pc

-- `p.clients[chainID]`
unfoldable pub find_client : ℤ → List (ℤ × ℕ) → Option ℕ
find_client c [] = none
find_client c ((d, n) ∷ rest) = if eq_ℤ c d then some n else find_client c rest

abbrev pub moves : ℕ → Pc → (ℕ → Pc) → ℕ → Pc
moves c p pc d = if d == c then p else pc d

-- `New`
abbrev pub new_provider : Provider
new_provider = record { clients = []; closed = []; dials = 0; pc = λ c. calling }

abbrev pub client_of : ℤ × ℕ → ℕ
client_of (c, n) = n

module _ (getenv : Env) (chain : ℕ → ℤ) where
  -- The sections of `Client`.
  pub data Step (s t : Provider) : Type 0 where
    hit :
        (c n : ℕ)
        → s.pc c ≡ calling
        → find_client (chain c) s.clients ≡ some n
        → t ≡ record s { pc = moves c (got n) s.pc }
        → Step s t
    miss :
        (c : ℕ)
        → s.pc c ≡ calling
        → find_client (chain c) s.clients ≡ none
        → t ≡ record s { pc = moves c missed s.pc }
        → Step s t
    -- `RPCURL` fails
    no_url :
        (c : ℕ) (e : GoError)
        → s.pc c ≡ missed
        → rpc_url getenv (chain c) ≡ err e
        → t ≡ record s { pc = moves c failed s.pc }
        → Step s t
    -- `DialContext` fails
    no_dial : (c : ℕ) → s.pc c ≡ missed → t ≡ record s { pc = moves c failed s.pc } → Step s t
    dial :
        (c : ℕ) (url : Text)
        → s.pc c ≡ missed
        → rpc_url getenv (chain c) ≡ ok url
        → t ≡ record s { dials = suc s.dials; pc = moves c (dialed s.dials) s.pc }
        → Step s t
    -- another call was first: its client is used, and the own one is closed
    reuse :
        (c n m : ℕ)
        → s.pc c ≡ dialed n
        → find_client (chain c) s.clients ≡ some m
        → t ≡ record s { closed = n ∷ s.closed; pc = moves c (got m) s.pc }
        → Step s t
    insert :
        (c n : ℕ)
        → s.pc c ≡ dialed n
        → find_client (chain c) s.clients ≡ none
        → t ≡ record s { clients = (chain c, n) ∷ s.clients; pc = moves c (got n) s.pc }
        → Step s t

  -- The states of a provider while it is not closed.
  pub data Calls : Provider → Type 0 where
    made : Calls new_provider
    step : {s t : Provider} → Calls s → Step s t → Calls t

  -- The states of a provider, with calls of `Close` at any time.
  pub data Life : Provider → Type 0 where
    made : Life new_provider
    step : {s t : Provider} → Life s → Step s t → Life t
    close :
        {s : Provider}
        → Life s
        → Life (record s { clients = []; closed = map client_of s.clients ++ s.closed })
