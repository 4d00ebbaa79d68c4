-- ===== src/TokenDealer/Messages.antt =====
-- What the dispatchables of pallets/token-dealer/src/lib.rs do with tokens.
use moonbeam.Base.{
  ℕ, none, some, [], ◌∷◌, ◌++◌, ◌≡◌, refl, Bool, true, false, Option, ◌⊎◌, inl, inr,
}
use moonbeam.TokenDealer.{
  Config, State, Outcome, ok, withdraw_failed, panicked, Event, withdrawn, then_event, Sent, xcmp,
  upward_transfer, transfer_token, send, transfer_tokens_to_parachain_chain,
  transfer_tokens_to_relay_chain, transferred_tokens_to_relay_chain,
}

-- What a call that sends comes to: it withdraws the amount and sends one message; or the balance does
-- not reach and nothing changes; or the sender refuses the message, and the call panics.
abbrev pub Sends : {L : Type 0} → Config L → ℕ → ℕ → Sent → State L → Outcome × State L → Type 0
Sends cfg who amount m s (outcome, t) =
    ((outcome ≡ ok)
      × (cfg.withdraw who amount s.ledger ≡ some t.ledger)
      × (t.sent ≡ s.sent ++ m ∷ []))
    ⊎ ((outcome ≡ withdraw_failed) × (cfg.withdraw who amount s.ledger ≡ none) × (t ≡ s))
    ⊎ ((outcome ≡ panicked) × (t.sent ≡ s.sent) × (t.events ≡ s.events))

module _ {L : Type 0} (cfg : Config L) where
  send-Sends :
      (who amount : ℕ) (m : Sent) (s : State L) (accepted : Bool) (o : Option L)
      → cfg.withdraw who amount s.ledger ≡ o
      → Sends cfg who amount m s (withdrawn (send accepted m) o s)
  unfolding send
  send-Sends who amount m s accepted none e = inr (inl (refl, e, refl))
  send-Sends who amount m s true (some l) e = inl (refl, e, refl)
  send-Sends who amount m s false (some l) e = inr (inr (refl, refl, refl))

  then_event-Sends :
      (who amount : ℕ) (m : Sent) (event : Event) (s : State L) (accepted : Bool) (o : Option L)
      → cfg.withdraw who amount s.ledger ≡ o
      → Sends cfg who amount m s (withdrawn (λ t. then_event event (send accepted m t)) o s)
  unfolding send
  then_event-Sends who amount m event s accepted none e = inr (inl (refl, e, refl))
  then_event-Sends who amount m event s true (some l) e = inl (refl, e, refl)
  then_event-Sends who amount m event s false (some l) e = inr (inr (refl, refl, refl))

  -- A transfer to a parachain, or to the relay chain, withdraws the amount from the signer and sends
  -- one message for that amount; or it fails for the balance and changes nothing; or the message is
  -- refused and it panics.
  pub transfer_tokens-Sends :
      (who para_id dest amount : ℕ) (s : State L)
      → Sends cfg who amount
          (xcmp para_id (transfer_token dest amount))
          s
          (transfer_tokens_to_parachain_chain cfg (some who) para_id dest amount s)
        × Sends cfg who amount
            (upward_transfer dest amount)
            s
            (transfer_tokens_to_relay_chain cfg (some who) dest amount s)
  unfolding transfer_tokens_to_parachain_chain transfer_tokens_to_relay_chain send
  transfer_tokens-Sends who para_id dest amount s = (
    send-Sends who amount _ s _ _ refl,
    then_event-Sends who amount _ (transferred_tokens_to_relay_chain dest amount) s _ _ refl,
  )
