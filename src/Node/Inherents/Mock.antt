-- ===== src/Node/Inherents/Mock.antt =====
-- The registered providers, and the mocked timestamps of a node without a relay chain.
use moonbeam.Base.{
  ℕ, zero, suc, ◌+◌, ◌*◌, ◌≤◌, ◌<◌, ◌≡◌, ◌≢◌, refl, ap, ◌∙◌, Bool, true, false, none, some, List,
  [], ◌∷◌, ◌++◌, All, if◌then◌else◌, arith,
}
use moonbeam.Runtime.Constants.{minimum_period}
use moonbeam.Node.Inherents.{
  Provider, author, timestamp, Register, mock_timestamp, mock_validation_data, inherent_identifier,
  register_author, register_others, build_inherent_data_providers, register_next, next_timestamp,
}

-- What `register_provider` documents: it appends a provider of which the identifier is not yet
-- registered.
abbrev pub Registers : Register → Type 0
Registers register_provider =
    (p : Provider) (providers : List Provider)
    → All (λ q. inherent_identifier q ≢ inherent_identifier p) providers
    → register_provider p providers ≡ some (providers ++ p ∷ [])

module _ (register_provider : Register) (encode : ℕ → List ℕ) where
  -- Registration never fails: no identifier is registered twice. The author's provider is there
  -- exactly if there is an author, and there is one provider of timestamps.
  pub build_inherent_data_providers_lem :
      (account : ℕ) (mock : Bool)
      → Registers register_provider
      → let others =
          (if mock then mock_timestamp 6000 ∷ mock_validation_data ∷ [] else timestamp ∷ []) in
        (build_inherent_data_providers register_provider encode none mock ≡ some others)
        × (build_inherent_data_providers register_provider encode (some account) mock
            ≡ some (author (encode account) ∷ others))
  unfolding build_inherent_data_providers register_author register_others inherent_identifier
  build_inherent_data_providers_lem account true registers = (
    ap (register_next register_provider mock_validation_data)
          (registers (mock_timestamp 6000) [] tt)
        ∙ registers mock_validation_data _ (λ e. cc e, tt),
    ap
          (λ o.
            register_next register_provider mock_validation_data
              (register_next register_provider (mock_timestamp 6000) o))
          (registers (author (encode account)) [] tt)
        ∙ ap (register_next register_provider mock_validation_data)
            (registers (mock_timestamp 6000) _ (λ e. cc e, tt))
        ∙ registers mock_validation_data _ (λ e. cc e, (λ e. cc e, tt)),
  )
  build_inherent_data_providers_lem account false registers = (
    registers timestamp [] tt,
    ap (register_next register_provider timestamp) (registers (author (encode account)) [] tt)
        ∙ registers timestamp _ (λ e. cc e, tt),
  )

-- The timestamp after some blocks, from 0.
unfoldable pub timestamp_at : ℕ → ℕ
timestamp_at zero = 0
timestamp_at (suc n) = next_timestamp (minimum_period * 2) (timestamp_at n)

-- The mocked timestamps start at 0 and are 6000 apart, so that the check of the minimum period
-- passes at every block until the clock wraps.
pub timestamp_at_lem :
    (n : ℕ)
    → n < 3074457345618258
    → (timestamp_at n ≡ n * 6000) × (timestamp_at n + minimum_period ≤ timestamp_at (suc n))
unfolding timestamp_at next_timestamp
timestamp_at_lem zero h = (refl, omega arith)
timestamp_at_lem (suc n) h =
    let (now, passes) = timestamp_at_lem n (omega arith) in (omega arith, omega arith)
