-- ===== src/Tests/Clients.antt =====
-- ethclient.go at two calls for one chain that dial at the same time.
use bundler_go.Base.{ℕ, ℤ, pos, ◌≡◌, refl, [], ◌∷◌, ok, some, codes, arith, trim_space}
use bundler_go.Chain.{rpc_url}
use bundler_go.Ethclient.{
  Provider, got, missed, dialed, moves, find_client, miss, dial, reuse, insert, Calls, Life,
  new_provider,
}
use bundler_go.Ethclient.Sharing.{Calls-share}
use bundler_go.Ethclient.Accounts.{Accounted, Life-Accounted}
use bundler_go.Tests.World.{getenv}

abbrev chain : ℕ → ℤ
chain c = pos 1

has_url : rpc_url getenv (pos 1) ≡ ok (codes "http://node")
unfolding rpc_url trim_space
has_url = refl

-- Both calls miss and dial; the first inserts its client, the second closes its own.
abbrev both_missed : Provider
both_missed = record new_provider { pc = moves 1 missed (moves 0 missed new_provider.pc) }

abbrev first_dialed : Provider
first_dialed = record both_missed { dials = 1; pc = moves 0 (dialed 0) both_missed.pc }

abbrev both_dialed : Provider
both_dialed = record first_dialed { dials = 2; pc = moves 1 (dialed 1) first_dialed.pc }

abbrev inserted : Provider
inserted = record both_dialed { clients = (pos 1, 0) ∷ []; pc = moves 0 (got 0) both_dialed.pc }

abbrev shared : Provider
shared = record inserted { closed = 1 ∷ []; pc = moves 1 (got 0) inserted.pc }

calls : Calls getenv chain shared
unfolding find_client
calls =
    Calls.step
      (Calls.step
        (Calls.step
          (Calls.step
            (Calls.step (Calls.step Calls.made (miss 0 refl refl refl)) (miss 1 refl refl refl))
            (dial 0 (codes "http://node") refl has_url refl))
          (dial 1 (codes "http://node") refl has_url refl))
        (insert 0 0 refl refl refl))
      (reuse 1 1 0 refl refl refl)

life : Life getenv chain shared
unfolding find_client
life =
    Life.step
      (Life.step
        (Life.step
          (Life.step
            (Life.step (Life.step Life.made (miss 0 refl refl refl)) (miss 1 refl refl refl))
            (dial 0 (codes "http://node") refl has_url refl))
          (dial 1 (codes "http://node") refl has_url refl))
        (insert 0 0 refl refl refl))
      (reuse 1 1 0 refl refl refl)

abbrev closed_down : Provider
closed_down = record shared { clients = []; closed = 0 ∷ 1 ∷ [] }

Calls-share_example : (◌≡◌ {A = ℕ} 0 0) × (find_client (pos 1) shared.clients ≡ some 0)
Calls-share_example =
    Calls-share getenv chain {s = shared} {c = 0} {d = 1} {n = 0} {m = 0} calls refl refl refl

Life-Accounted_example : Accounted closed_down 1
Life-Accounted_example = Life-Accounted getenv chain 1 (Life.close life) (omega arith)
