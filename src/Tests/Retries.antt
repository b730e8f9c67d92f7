-- ===== src/Tests/Retries.antt =====
-- split at a node that turns the first attempt down for its nonce without taking it.
use bundler_go.Base.{
  ℕ, pos, Text, codes, ok, err, new_error, refl, sym, ok_inj, contains, to_lower, itoa, ltb,
  if◌then◌else◌,
}
use bundler_go.Evm.Client.{Ethclient}
use bundler_go.Evm.Gas.{fee_from_provider, estimate_gas}
use bundler_go.Evm.Send.{End, deadline, sign_and_send}
use bundler_go.Split.Build.{build_and_send}
use bundler_go.Split.Execute.{after_send}
use bundler_go.Split.Retry.{Alone, Named, send, after_send-nonce}
use bundler_go.Tests.Splits.{payment, split_client, nonce_geth}
use bundler_go.Tests.World.{account}

-- The wallet's pending nonce is 3, and stays so.
abbrev gap_client : Ethclient ℕ ℕ ℕ
gap_client = record split_client {
  send_transaction =
      λ x w. if ltb x 4 then (err (new_error (codes "Nonce is busy")), w) else (ok tt, w);
}

abbrev clock : Text → ℕ → End × ℕ
clock hash w = (deadline, 2)

abbrev pause : ℕ → ℕ
pause w = w

abbrev alone : Alone nonce_geth gap_client pause
alone = record {
  pending = λ w. 3;
  nonce_of = λ x. x;
  signed_nonce = λ t k h. sym (ok_inj h);
  calling = λ to method args s. refl;
  quiet = record { tip = λ s. refl; head = λ s. refl; price = λ s. refl; estimate = λ m s. refl };
  pausing = λ s. refl;
}

after_send-nonce_example :
    Named nonce_geth gap_client pause alone payment 6 account account account
      (pos 1)
      (codes "0x4")
      3
      3
      (send nonce_geth gap_client pause alone payment 6 account account account (pos 1) (pos 8) 3 0)
unfolding after_send build_and_send fee_from_provider estimate_gas sign_and_send itoa to_lower
    contains
after_send-nonce_example =
    after_send-nonce nonce_geth gap_client pause alone payment 6 account account account (pos 1)
      clock (pos 8) 3 0 {hash = codes "0x4"} {used = pos 8} refl
