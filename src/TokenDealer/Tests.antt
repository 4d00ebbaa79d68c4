-- ===== src/TokenDealer/Tests.antt =====
-- A transfer between two example parachains.
use moonbeam.Base.{
  ℕ, ◌-◌, ◌+◌, ◌≤◌, ◌≡◌, refl, true, none, some, List, [], ◌∷◌, leb, if◌then◌else◌, arith,
}
use moonbeam.TokenDealer.{
  Config, State, xcmp, upward_transfer, transfer_token, transfer_tokens_to_parachain_chain,
  transfer_tokens_to_relay_chain, send, handle_downward_message, handle_xcmp_message, deposit_into,
  transfer_into,
}
use moonbeam.TokenDealer.Supply.{
  Issues, Call, to_relay_chain, to_parachain, downward, from_parachain, outgoing, received, apply,
  run, run-Issues,
}
use moonbeam.TokenDealer.Messages.{Sends, transfer_tokens-Sends}

-- The ledger is the sum of all balances, and a transfer keeps their sum.
unfoldable config : Config ℕ
config = record {
  withdraw = λ who amount l. if leb amount l then some (l - amount) else none;
  transfer = λ from to amount l. if leb amount l then some l else none;
  deposit_creating = λ to amount l. l + amount;
  send_upward_message = λ dest amount. true;
  send_xcmp_message = λ para_id m. true;
  into_account = λ para_id. para_id;
  convert_account = λ bytes. some 3;
  convert_balance = λ amount. some amount;
}

abbrev start : State ℕ
start = record { ledger = 100; sent = []; events = [] }

transfer_tokens-Sends_example :
    Sends config 1 40
      (xcmp 2 (transfer_token 3 40))
      start
      (transfer_tokens_to_parachain_chain config (some 1) 2 3 40 start)
    × Sends config 1 40
        (upward_transfer 3 40)
        start
        (transfer_tokens_to_relay_chain config (some 1) 3 40 start)
transfer_tokens-Sends_example = transfer_tokens-Sends config 1 2 3 40 start

abbrev history : List Call
history =
    to_parachain (some 1) 2 3 40
    ∷ to_relay_chain (some 1) 3 100
    ∷ downward (transfer_into [] 5)
    ∷ from_parachain 6 (transfer_token 3 1)
    ∷ []

abbrev sum : ℕ → ℕ
sum l = l

config-Issues : Issues config sum
unfolding config
config-Issues = record {
  withdraws = λ who amount l after e. ground arith;
  transfers = λ from to amount l after e. ground arith;
  deposits = λ to amount l. omega arith;
}

-- The second transfer is refused, as 60 are left.
history_runs : (run config history start).1.ledger ≡ 65
unfolding run config apply transfer_tokens_to_parachain_chain transfer_tokens_to_relay_chain send
    handle_downward_message handle_xcmp_message deposit_into
history_runs = refl

run-Issues_example :
    let t = (run config history start).1 in
    sum t.ledger + outgoing t.sent ≤ 100 + received config history
run-Issues_example = run-Issues config sum history 100 config-Issues
