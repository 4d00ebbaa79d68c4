-- ===== src/TokenDealer/Supply.antt =====
-- The tokens of pallets/token-dealer/src/lib.rs through any history of its calls: what leaves in messages
-- against what came in.
use moonbeam.Base.{
  ℕ, ◌+◌, ◌≤◌, Option, none, some, List, [], ◌∷◌, ◌++◌, ◌≡◌, refl, Bool, true, false, arith,
  unwrap_or,
}
use moonbeam.TokenDealer.{
  Config, State, Outcome, ok, withdraw_failed, bad_origin, panicked, Event, Sent, xcmp,
  upward_transfer, transfer_token, XcmpMessage, DownwardMessage, transfer_into, other, withdrawn,
  then_event, send, deposit_into, transfer_tokens_to_parachain_chain,
  transfer_tokens_to_relay_chain, handle_downward_message, handle_xcmp_message, ledger_after,
  transferred_tokens_to_relay_chain,
}

-- The amounts that messages take out.
unfoldable pub outgoing : List Sent → ℕ
outgoing [] = 0
outgoing (upward_transfer dest amount ∷ sent) = amount + outgoing sent
outgoing (xcmp para_id (transfer_token dest amount) ∷ sent) = amount + outgoing sent

outgoing-append :
    (xs : List Sent) (m : Sent) → outgoing (xs ++ m ∷ []) ≡ outgoing xs + outgoing (m ∷ [])
unfolding outgoing
outgoing-append [] m = omega arith
outgoing-append (upward_transfer dest amount ∷ xs) m = omega (arith, outgoing-append xs m)
outgoing-append (xcmp para_id (transfer_token dest amount) ∷ xs) m =
    omega (arith, outgoing-append xs m)

-- What a currency documents of its total issuance: a withdrawal takes the amount off it and a
-- transfer adds nothing, where an account that dies can take more; a deposit adds at most the amount.
pub record Issues {L : Type 0} (cfg : Config L) (total : L → ℕ) : Type 0 where
  pub withdraws :
      (who amount : ℕ) (l after : L)
      → cfg.withdraw who amount l ≡ some after
      → total after + amount ≤ total l
  pub transfers :
      (from to amount : ℕ) (l after : L)
      → cfg.transfer from to amount l ≡ some after
      → total after ≤ total l
  pub deposits :
      (to amount : ℕ) (l : L) → total (cfg.deposit_creating to amount l) ≤ total l + amount

-- A dispatchable with its origin, or a message that arrives.
pub data Call : Type 0 where
  to_relay_chain : Option ℕ → ℕ → ℕ → Call
  to_parachain : Option ℕ → ℕ → ℕ → ℕ → Call
  downward : DownwardMessage → Call
  from_parachain : ℕ → XcmpMessage → Call

module _ {L : Type 0} (cfg : Config L) where
  -- What a call brings in from the relay chain: an amount that does not convert brings nothing.
  unfoldable pub received_by : Call → ℕ
  received_by (downward (transfer_into dest amount)) = unwrap_or (cfg.convert_balance amount) 0
  received_by _ = 0

  unfoldable pub received : List Call → ℕ
  unfolding received_by
  received [] = 0
  received (c ∷ cs) = received_by c + received cs

  unfoldable pub apply : Call → State L → Outcome × State L
  apply (to_relay_chain origin dest amount) s =
      transfer_tokens_to_relay_chain cfg origin dest amount s
  apply (to_parachain origin para_id dest amount) s =
      transfer_tokens_to_parachain_chain cfg origin para_id dest amount s
  apply (downward m) s = handle_downward_message cfg m s
  apply (from_parachain src m) s = (ok, handle_xcmp_message cfg src m s)

  -- A history of calls, where a panic ends the block.
  abbrev pub next : (State L → Outcome × State L) → Outcome × State L → Outcome × State L
  next f (ok, s) = f s
  next f (panicked, s) = (panicked, s)
  next f (bad_origin, s) = f s
  next f (withdraw_failed, s) = f s

  unfoldable pub run : List Call → State L → Outcome × State L
  run [] s = (ok, s)
  run (c ∷ cs) s = next (run cs) (apply c s)

  module _ (total : L → ℕ) (laws : Issues cfg total) where
    -- The tokens that are left and those that messages took out are within a bound.
    abbrev Covered : ℕ → State L → Type 0
    Covered bound s = total s.ledger + outgoing s.sent ≤ bound

    send-Covered :
        (bound : ℕ) (m : Sent) (accepted : Bool) (who amount : ℕ) (s : State L) (after : L)
        → outgoing (m ∷ []) ≡ amount
        → Covered bound s
        → cfg.withdraw who amount s.ledger ≡ some after
        → Covered bound (send accepted m (record s { ledger = after })).1
    unfolding send
    send-Covered bound m true who amount s after takes h e =
        omega (arith, laws.withdraws who _ s.ledger after e, takes, outgoing-append s.sent m)
    send-Covered bound m false who amount s after takes h e =
        omega (arith, laws.withdraws who _ s.ledger after e)

    -- The withdrawal and what follows it.
    withdrawn-Covered :
        (bound : ℕ) (f : State L → Outcome × State L) (s : State L) (o : Option L)
        → Covered bound s
        → ((after : L) → o ≡ some after → Covered bound (f (record s { ledger = after })).1)
        → Covered bound (withdrawn f o s).1
    withdrawn-Covered bound f s none h later = h
    withdrawn-Covered bound f s (some after) h later = later after refl

    then_event-Covered :
        (bound : ℕ) (e : Event) (r : Outcome × State L)
        → Covered bound r.1
        → Covered bound (then_event e r).1
    then_event-Covered bound e (ok, s) h = h
    then_event-Covered bound e (panicked, s) h = h
    then_event-Covered bound e (bad_origin, s) h = h
    then_event-Covered bound e (withdraw_failed, s) h = h

    deposit_into-Covered :
        (bound : ℕ) (dest amount : Option ℕ) (s : State L)
        → Covered bound s
        → Covered (bound + unwrap_or amount 0) (deposit_into cfg dest amount s).1
    unfolding deposit_into
    deposit_into-Covered bound none amount s h = omega (arith, h)
    deposit_into-Covered bound (some dest) none s h = omega (arith, h)
    deposit_into-Covered bound (some dest) (some amount) s h =
        omega (arith, laws.deposits dest amount s.ledger)

    ledger_after-total :
        (from to amount : ℕ) (l : L) (o : Option L)
        → cfg.transfer from to amount l ≡ o
        → total (ledger_after cfg o l) ≤ total l
    ledger_after-total from to amount l none e = omega arith
    ledger_after-total from to amount l (some after) e = laws.transfers from to amount l after e

    apply-Covered :
        (bound : ℕ) (c : Call) (s : State L)
        → Covered bound s
        → Covered (bound + received_by c) (apply c s).1
    unfolding apply transfer_tokens_to_relay_chain transfer_tokens_to_parachain_chain
        handle_downward_message handle_xcmp_message outgoing received_by
    apply-Covered bound (to_relay_chain none dest amount) s h = omega (arith, h)
    apply-Covered bound (to_relay_chain (some who) dest amount) s h =
        let m = upward_transfer dest amount in
        let sends : State L → Outcome × State L = send (cfg.send_upward_message dest amount) m in
        let event = transferred_tokens_to_relay_chain dest amount in
        let kept =
          withdrawn-Covered bound (λ t. then_event event (sends t)) s
            (cfg.withdraw who amount s.ledger) h
            λ after e. then_event-Covered bound event (sends (record s { ledger = after })) (
              send-Covered bound m (cfg.send_upward_message dest amount) who amount s after
                (omega arith) h e) in
        omega (arith, kept)
    apply-Covered bound (to_parachain none para_id dest amount) s h = omega (arith, h)
    apply-Covered bound (to_parachain (some who) para_id dest amount) s h =
        let m = transfer_token dest amount in
        let accepted = cfg.send_xcmp_message para_id m in
        let kept =
          withdrawn-Covered bound (send accepted (xcmp para_id m)) s
            (cfg.withdraw who amount s.ledger) h
            λ after e.
              send-Covered bound (xcmp para_id m) accepted who amount s after (omega arith) h e in
        omega (arith, kept)
    apply-Covered bound (downward (transfer_into dest amount)) s h =
        deposit_into-Covered bound (cfg.convert_account dest) (cfg.convert_balance amount) s h
    apply-Covered bound (downward other) s h = omega (arith, h)
    apply-Covered bound (from_parachain src (transfer_token dest amount)) s h =
        omega (arith, ledger_after-total (cfg.into_account src) dest amount s.ledger _ refl)

    next-Covered :
        (bound : ℕ) (f : State L → Outcome × State L) (r : Outcome × State L) (more : ℕ)
        → Covered bound r.1
        → ((t : State L) → Covered bound t → Covered (bound + more) (f t).1)
        → Covered (bound + more) (next f r).1
    next-Covered bound f (ok, t) more h later = later t h
    next-Covered bound f (panicked, t) more h later = omega (arith, h)
    next-Covered bound f (bad_origin, t) more h later = later t h
    next-Covered bound f (withdraw_failed, t) more h later = later t h

    run-Covered :
        (bound : ℕ) (cs : List Call) (s : State L)
        → Covered bound s
        → Covered (bound + received cs) (run cs s).1
    unfolding run received
    run-Covered bound [] s h = omega (arith, h)
    run-Covered bound (c ∷ cs) s h =
        let kept =
          next-Covered (bound + received_by c) (run cs) (apply c s) (received cs)
            (apply-Covered bound c s h) (run-Covered (bound + received_by c) cs) in
        omega (arith, kept)

  -- With a currency that issues as documented, over any history of the dispatchables and messages, failed
  -- and refused ones included, and up to a panic if there is one: the tokens that are left and those
  -- that messages took out are at most the tokens of the start and the amounts that came from the
  -- relay chain.
  pub run-Issues :
      (total : L → ℕ) (cs : List Call) (l : L)
      → Issues cfg total
      → let t = (run cs (record { ledger = l; sent = []; events = [] })).1 in
        total t.ledger + outgoing t.sent ≤ total l + received cs
  unfolding outgoing
  run-Issues total cs l laws = run-Covered total laws (total l) cs _ (omega arith)
