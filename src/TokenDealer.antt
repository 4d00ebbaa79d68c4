-- ===== src/TokenDealer.antt =====
-- pallets/token-dealer/src/lib.rs: tokens to and from the relay chain and other parachains.
pub mod Messages
pub mod Supply
mod Tests
use moonbeam.Base.{ℕ, Bool, true, false, Option, none, some, List, [], ◌∷◌, ◌++◌, is_some}

-- `XCMPMessage`, and the messages that the pallet sends
pub data XcmpMessage : Type 0 where
  transfer_token : ℕ → ℕ → XcmpMessage

pub data Sent : Type 0 where
  upward_transfer : ℕ → ℕ → Sent
  xcmp : ℕ → XcmpMessage → Sent

-- `relay_chain::DownwardMessage`, with the account of the relay chain as its encoding
pub data DownwardMessage : Type 0 where
  transfer_into : List ℕ → ℕ → DownwardMessage
  other : DownwardMessage

pub data Event : Type 0 where
  transferred_tokens_to_relay_chain transferred_tokens_from_relay_chain : ℕ → ℕ → Event
  transferred_tokens_via_xcmp : ℕ → ℕ → ℕ → Bool → Event

-- `trait Trait`, over the state `L` of the currency: `withdraw`, `transfer` with an error as `none`,
-- `deposit_creating`, whether the two senders take a message, the account of a parachain, and
-- `convert_hack` at the two types it is used at, which decodes an encoding or panics
pub record Config (L : Type 0) : Type 0 where
  pub withdraw : ℕ → ℕ → L → Option L
  pub transfer : ℕ → ℕ → ℕ → L → Option L
  pub deposit_creating : ℕ → ℕ → L → L
  pub send_upward_message : ℕ → ℕ → Bool
  pub send_xcmp_message : ℕ → XcmpMessage → Bool
  pub into_account : ℕ → ℕ
  pub convert_account : List ℕ → Option ℕ
  pub convert_balance : ℕ → Option ℕ

pub record State (L : Type 0) : Type 0 where
  pub ledger : L
  pub sent : List Sent
  pub events : List Event

pub data Outcome : Type 0 where
  ok panicked bad_origin withdraw_failed : Outcome

module _ {L : Type 0} where
  abbrev pub deposit_event : Event → State L → State L
  deposit_event e s = record s { events = s.events ++ e ∷ [] }

  -- `.expect("Should not fail; qed")` on what a sender answers
  unfoldable pub send : Bool → Sent → State L → Outcome × State L
  send true m s = (ok, record s { sent = s.sent ++ m ∷ [] })
  send false m s = (panicked, s)

  -- What follows the withdrawal.
  abbrev pub withdrawn : (State L → Outcome × State L) → Option L → State L → Outcome × State L
  withdrawn next none s = (withdraw_failed, s)
  withdrawn next (some l) s = next (record s { ledger = l })

  abbrev pub then_event : Event → Outcome × State L → Outcome × State L
  then_event e (ok, s) = (ok, deposit_event e s)
  then_event e (panicked, s) = (panicked, s)
  then_event e (bad_origin, s) = (bad_origin, s)
  then_event e (withdraw_failed, s) = (withdraw_failed, s)

  module _ (cfg : Config L) where
    -- The origin is what `ensure_signed` finds.
    unfoldable pub transfer_tokens_to_relay_chain : Option ℕ → ℕ → ℕ → State L → Outcome × State L
    unfolding send
    transfer_tokens_to_relay_chain none dest amount s = (bad_origin, s)
    transfer_tokens_to_relay_chain (some who) dest amount s =
        withdrawn
          (λ t.
            then_event (transferred_tokens_to_relay_chain dest amount)
              (send (cfg.send_upward_message dest amount) (upward_transfer dest amount) t))
          (cfg.withdraw who amount s.ledger) s

    unfoldable pub transfer_tokens_to_parachain_chain :
        Option ℕ → ℕ → ℕ → ℕ → State L → Outcome × State L
    unfolding send
    transfer_tokens_to_parachain_chain none para_id dest amount s = (bad_origin, s)
    transfer_tokens_to_parachain_chain (some who) para_id dest amount s =
        withdrawn
          (send (cfg.send_xcmp_message para_id (transfer_token dest amount))
            (xcmp para_id (transfer_token dest amount)))
          (cfg.withdraw who amount s.ledger) s

    -- What follows the two conversions, the one of the account before that of the amount.
    unfoldable pub deposit_into : Option ℕ → Option ℕ → State L → Outcome × State L
    deposit_into none amount s = (panicked, s)
    deposit_into (some dest) none s = (panicked, s)
    deposit_into (some dest) (some amount) s = (
      ok,
      deposit_event (transferred_tokens_from_relay_chain dest amount)
          (record s { ledger = cfg.deposit_creating dest amount s.ledger }),
    )

    unfoldable pub handle_downward_message : DownwardMessage → State L → Outcome × State L
    unfolding deposit_into
    handle_downward_message (transfer_into dest amount) s =
        deposit_into (cfg.convert_account dest) (cfg.convert_balance amount) s
    handle_downward_message other s = (ok, s)

    abbrev pub ledger_after : Option L → L → L
    ledger_after none l = l
    ledger_after (some after) l = after

    unfoldable pub handle_xcmp_message : ℕ → XcmpMessage → State L → State L
    handle_xcmp_message src (transfer_token dest amount) s =
        let res = cfg.transfer (cfg.into_account src) dest amount s.ledger in
        deposit_event (transferred_tokens_via_xcmp src dest amount (is_some res))
          (record s { ledger = ledger_after res s.ledger })
