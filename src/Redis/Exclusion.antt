-- ===== src/Redis/Exclusion.antt =====
-- redis.go: the two-stage lock of one key, as the interleavings of many calls in several processes.
-- Each call is a number, takes the lock once, and is in the process `process c`. A call's token is
-- its number: tokens are random, and taken to be distinct.
use bundler_go.Base.{
  ℕ, zero, suc, ◌+◌, ◌≤◌, ◌<◌, ◌≡◌, ◌≢◌, refl, ap, subst, Bool, true, false, Option, none, some,
  arith, if◌then◌else◌, ◌==◌,
}

-- Where a call is. `critical e` runs the body, its lock being set to expire at the time `e`.
pub data Pc : Type 0 where
  idle : Pc
  trying : Pc
  critical : ℕ → Pc
  releasing : Pc
  done : Pc

pub record State : Type 0 where
  pub now : ℕ
  -- the redis key: the token that it holds and when it expires
  pub store : Option (ℕ × ℕ)
  -- the mutex of each process: the call that holds it
  pub mutex : ℕ → Option ℕ
  pub pc : ℕ → Pc

abbrev pub update {ℓ} : {A : Type ℓ} → (ℕ → A) → ℕ → A → ℕ → A
update f k v j = if j == k then v else f j

-- What the release script leaves: the key goes only where it holds the caller's token.
abbrev pub released : ℕ → Option (ℕ × ℕ) → Option (ℕ × ℕ)
released c none = none
released c (some (t, e)) = if t == c then none else some (t, e)

module _ (process : ℕ → ℕ) (ttl : ℕ) where
  pub data Step (s t : State) : Type 0 where
    -- `m.Lock()` in `lockLocal`
    lock_local :
        (c : ℕ)
        → s.pc c ≡ idle
        → s.mutex (process c) ≡ none
        → t ≡ record s { mutex = update s.mutex (process c) (some c); pc = update s.pc c trying }
        → Step s t
    -- `SetNX` that finds no key
    set_nx :
        (c : ℕ)
        → s.pc c ≡ trying
        → s.store ≡ none
        → t
          ≡ record s { store = some (c, s.now + ttl); pc = update s.pc c (critical (s.now + ttl)) }
        → Step s t
    -- the retries are used up, or the context ended: `unlock` without a release
    give_up :
        (c : ℕ)
        → s.pc c ≡ trying
        → t ≡ record s { mutex = update s.mutex (process c) none; pc = update s.pc c done }
        → Step s t
    -- the body returned
    finish :
        (c e : ℕ) → s.pc c ≡ critical e → t ≡ record s { pc = update s.pc c releasing } → Step s t
    -- the release script, then `unlock`
    release :
        (c : ℕ)
        → s.pc c ≡ releasing
        → t ≡ record s {
          store = released c s.store;
          mutex = update s.mutex (process c) none;
          pc = update s.pc c done;
        }
        → Step s t
    -- the key's time is over
    expire :
        (c e : ℕ) → s.store ≡ some (c, e) → e ≤ s.now → t ≡ record s { store = none } → Step s t
    tick : t ≡ record s { now = suc s.now } → Step s t

  -- The runs whose states all meet `P`.
  pub data Reach (P : State → Type 0) (s : State) : State → Type 0 where
    start : P s → Reach P s s
    next : {t u : State} → Reach P s t → Step t u → P u → Reach P s u

-- Nobody has called.
abbrev pub initial : State
initial = record { now = 0; store = none; mutex = λ p. none; pc = λ c. idle }

-- No body runs past its key's time.
abbrev pub Timely : State → Type 0
Timely s = (c e : ℕ) → s.pc c ≡ critical e → s.now < e

-- Whoever runs the body holds the key.
abbrev Holds : State → Type 0
Holds s = (c e : ℕ) → s.pc c ≡ critical e → s.store ≡ some (c, e)

module _ (process : ℕ → ℕ) (ttl : ℕ) where
  Step-Holds : {s t : State} → Step process ttl s t → Timely s → Holds s → Holds t
  Step-Holds (lock_local c p m e) timely holds d x k = ground (arith, holds d x)
  Step-Holds (set_nx c p m e) timely holds d x k = ground (arith, holds d x)
  Step-Holds (give_up c p e) timely holds d x k = ground (arith, holds d x)
  Step-Holds (finish c y p e) timely holds d x k = ground (arith, holds d x)
  Step-Holds (release c p e) timely holds d x k = ground (arith, holds d x)
  Step-Holds (expire c y p l e) timely holds d x k = ground (arith, holds d x, timely d x)
  Step-Holds (tick e) timely holds d x k = ground (arith, holds d x)

  Reach-Holds : {t : State} → Reach process ttl Timely initial t → Holds t × Timely t
  Reach-Holds (start timely) = (λ c e k. cc, timely)
  Reach-Holds (next r step timely) =
      let (holds, before) = Reach-Holds r in (Step-Holds step before holds, timely)

  -- While no body runs past its key's time, no two calls run their bodies at once, in whatever
  -- processes they are and in whatever order their steps come.
  pub Reach-exclusive :
      {t : State} (c d e x : ℕ)
      → Reach process ttl Timely initial t
      → t.pc c ≡ critical e
      → t.pc d ≡ critical x
      → c ≡ d
  Reach-exclusive c d e x r p q =
      let (holds, timely) = Reach-Holds r in ground (arith, holds c e p, holds d x q)

abbrev pub is_active : Pc → Bool
is_active idle = false
is_active trying = true
is_active (critical e) = true
is_active releasing = true
is_active done = false

-- The mutex of a process is held by the call that is past it.
abbrev Locked : (ℕ → ℕ) → State → Type 0
Locked process s = (c : ℕ) → is_active (s.pc c) ≡ true → s.mutex (process c) ≡ some c

module _ (process : ℕ → ℕ) (ttl : ℕ) where
  Step-Locked : {s t : State} → Step process ttl s t → Locked process s → Locked process t
  Step-Locked (lock_local c p m e) locked d x = ground (arith, locked d, locked c)
  Step-Locked (set_nx c p m e) locked d x = ground (arith, locked d, locked c)
  Step-Locked (give_up c p e) locked d x = ground (arith, locked d, locked c)
  Step-Locked (finish c z p e) locked d x = ground (arith, locked d, locked c)
  Step-Locked (release c p e) locked d x = ground (arith, locked d, locked c)
  Step-Locked (expire c z p l e) locked d x = ground (arith, locked d, locked c)
  Step-Locked (tick e) locked d x = ground (arith, locked d)

  Reach-Locked : {P : State → Type 0} {t : State} → Reach process ttl P initial t → Locked process t
  Reach-Locked (start p) c x = cc
  Reach-Locked (next r step p) c x = Step-Locked step (Reach-Locked r) c x

  -- Within one process no two calls run their bodies at once, also where a key has expired early.
  Reach-exclusive_process :
      {P : State → Type 0} {t : State} (c d e x : ℕ)
      → Reach process ttl P initial t
      → process c ≡ process d
      → t.pc c ≡ critical e
      → t.pc d ≡ critical x
      → c ≡ d
  Reach-exclusive_process c d e x r same p q =
      let locked = Reach-Locked r in ground (arith, locked c, locked d)

abbrev pub Anything : State → Type 0
Anything s = Unit

module _ (process : ℕ → ℕ) (ttl : ℕ) where
  waited :
      (k : ℕ) (s : State)
      → Reach process ttl Anything initial s
      → Reach process ttl Anything initial (record s { now = k + s.now })
  waited zero s r =
      subst (λ n. Reach process ttl Anything initial (record s { now = n })) (omega arith) r
  waited (suc k) s r = next (waited k s r) (tick (ground arith)) tt

module _ (process : ℕ → ℕ) (ttl c d : ℕ) where
  -- `c` runs its body, and time has passed until its key expires.
  abbrev late : State
  late = record {
    now = ttl + 0;
    store = some (c, 0 + ttl);
    mutex = update (λ p. none) (process c) (some c);
    pc = update (update (λ c. idle) c trying) c (critical (0 + ttl));
  }

  Reach-late : Reach process ttl Anything initial late
  Reach-late =
      waited process ttl ttl (record late { now = 0 })
        (next (next (start tt) (lock_local c refl refl refl) tt) (set_nx c (ground arith) refl refl)
          tt)

  -- `d` runs its body too.
  abbrev overlapped : State
  overlapped = record {
    now = ttl + 0;
    store = some (d, (ttl + 0) + ttl);
    mutex = update late.mutex (process d) (some d);
    pc = update (update late.pc d trying) d (critical ((ttl + 0) + ttl));
  }

  -- Where a body may outlast its key, the lock does not exclude: for any time to live, two calls in
  -- different processes can come to run their bodies at once.
  expiry_overlap :
      process c ≢ process d
      → (t : State) × (e : ℕ) × (x : ℕ) × Reach process ttl Anything initial t
        × (t.pc c ≡ critical e)
        × (t.pc d ≡ critical x)
  expiry_overlap h =
      let apart : c ≢ d = λ e. h (ap process e) in
      (
        overlapped,
        0 + ttl,
        ttl + 0 + ttl,
        next
            (next (next Reach-late (expire c (0 + ttl) refl (omega arith) refl) tt)
              (lock_local d (ground (arith, apart)) (ground (arith, h)) refl) tt)
            (set_nx d (ground (arith, apart)) refl refl) tt,
        ground (arith, apart),
        ground (arith, apart),
      )
