-- ===== src/Evm/Send.antt =====
-- internal/evm/gas.go: `SignAndSend` and `WaitReceipt`.
use bundler_go.Base.{
  ℕ, ℤ, zero, suc, ◌++◌, Text, codes, Option, none, some, Result, ok, err, new_error, GoError, M,
  ◌==◌, if◌then◌else◌,
}
use bundler_go.Evm.Client.{Geth, Ethclient, Address, Tx, Receipt}
use bundler_go.Evm.Gas.{Fees}

-- A Go result `(string, error)` whose string counts also beside an error.
abbrev pub Outcome : Type 0
Outcome = Text × Option GoError

-- Why a poll loop stops waiting.
pub data End : Type 0 where
  cancelled : GoError → End
  deadline : End

unfoldable pub build_tx : ℤ → ℕ → Address → ℤ → Text → ℕ → Fees → Tx
build_tx chain_id nonce to value input gas_limit fees = record {
  chain_id = chain_id;
  nonce = nonce;
  gas_tip_cap = elim fees.max_fee [ some m ↦ fees.max_priority | none ↦ none ];
  gas_fee_cap = fees.max_fee;
  gas_price = elim fees.max_fee [ some m ↦ none | none ↦ fees.gas_price ];
  gas = gas_limit;
  to = to;
  value = value;
  input = input;
}

-- One look at the receipt: the result, if there is one.
unfoldable pub look : Result (Option Receipt) → Option (Result Receipt)
look (err e) = none
look (ok none) = none
look (ok (some r)) =
    if r.status == 0
    then some (err (new_error (codes "transaction reverted (status 0)")))
    else some (ok r)

unfoldable pub wait_end : Text → End → GoError
wait_end hash (cancelled e) = e
wait_end hash deadline = new_error (codes "tx.wait timeout: " ++ hash)

module _ {Key Signed W : Type 0} (geth : Geth Key Signed) (client : Ethclient W Key Signed) where
  -- `SignAndSend`: the hash is returned also where the broadcast fails.
  unfoldable pub sign_and_send : ℤ → Key → ℕ → Address → ℤ → Text → ℕ → Fees → W → Outcome × W
  unfolding build_tx
  sign_and_send chain_id key nonce to value input gas_limit fees w =
      elim (geth.sign_tx (build_tx chain_id nonce to value input gas_limit fees) key) [
        | err e ↦ ((codes "", some e), w)
        | ok signed ↦
            let (r, w') = client.send_transaction signed w in
            elim r [
              | err e ↦ ((geth.tx_hash signed, some e), w')
              | ok u ↦ ((geth.tx_hash signed, none), w')
            ]
      ]

  -- `WaitReceipt`, given how often the ticker fires before the loop is told to stop, and why it is.
  unfoldable pub wait_receipt : Text → End → ℕ → M W Receipt
  unfolding look wait_end
  wait_receipt hash why zero w =
      let (r, w') = client.transaction_receipt hash w in
      elim (look r) [ some a ↦ (a, w') | none ↦ (err (wait_end hash why), w') ]
  wait_receipt hash why (suc ticks) w =
      let (r, w') = client.transaction_receipt hash w in
      elim (look r) [ some a ↦ (a, w') | none ↦ wait_receipt hash why ticks w' ]
