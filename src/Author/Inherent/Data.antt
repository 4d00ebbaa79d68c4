-- ===== src/Author/Inherent/Data.antt =====
-- The inherent data: what a collator's provider puts into it, and what the runtime reads there.
use moonbeam.Base.{ℕ, Bool, true, false, Option, none, some, List, ◌≡◌, refl}
use moonbeam.Author.Inherent.{Config, InherentError, author_inherent_required, inherent_identifier}

-- `Call`, the one call that the pallet makes of inherent data, and any other
pub data Call : Type 0 where
  set_author : ℕ → Call
  other : Call

-- `InherentData` of another crate: `put_data` and `get_data`, where an error is `none`
pub record Store (D : Type 0) : Type 0 where
  pub put_data : List ℕ → List ℕ → D → Option D
  pub get_data : List ℕ → D → Option (Option (List ℕ))

-- A panic, and what `create_inherent` returns
pub data Created : Type 0 where
  panicked nothing : Created
  created : Call → Created

pub data Checked : Type 0 where
  ok panicked : Checked
  err : InherentError → Checked

abbrev pub is_fatal_error : InherentError → Bool
is_fatal_error e = true

module _ {D : Type 0} (store : Store D) where
  -- `provide_inherent_data` of a provider that holds the bytes
  unfoldable pub provide_inherent_data : List ℕ → D → Option D
  provide_inherent_data bytes entries = store.put_data inherent_identifier bytes entries

  module _ {S : Type 0} (cfg : Config S) where
    unfoldable pub decode_author : List ℕ → Created
    decode_author bytes = elim (cfg.decode bytes) [
      | none ↦ Created.panicked
      | some author ↦ created (set_author author)
    ]

    unfoldable pub create_inherent : D → Created
    unfolding decode_author
    create_inherent entries = elim (store.get_data inherent_identifier entries) [
      | none ↦ Created.panicked
      | some none ↦ nothing
      | some (some bytes) ↦ decode_author bytes
    ]

module _ {S : Type 0} (cfg : Config S) where
  unfoldable pub check_author : Option Bool → Checked
  check_author none = Checked.panicked
  check_author (some true) = ok
  check_author (some false) = err InherentError.cannot_be_author

  unfoldable pub check_inherent : Call → S → Checked
  unfolding check_author
  check_inherent (set_author claimed) s = check_author (cfg.preliminary_can_author claimed s)
  check_inherent other s = ok

-- `is_inherent_required`: always, and this is the error where it is missing
abbrev pub is_inherent_required : {D : Type 0} → D → Option InherentError
is_inherent_required entries = some author_inherent_required

-- What the codec and `InherentData` document: a decoded encoding is the account, and what was put
-- under an identifier is read there.
pub record IsFaithful {S D : Type 0} (store : Store D) (cfg : Config S) : Type 0 where
  pub decodes : (author : ℕ) → cfg.decode (cfg.encode author) ≡ some author
  pub reads :
      (id bytes : List ℕ) (entries after : D)
      → store.put_data id bytes entries ≡ some after
      → store.get_data id after ≡ some (some bytes)

-- The account that the provider encoded into the inherent data is the author that the inherent sets.
pub create_inherent-put :
    {S D : Type 0} (store : Store D) (cfg : Config S) (author : ℕ) (entries after : D)
    → IsFaithful store cfg
    → provide_inherent_data store (cfg.encode author) entries ≡ some after
    → create_inherent store cfg after ≡ created (set_author author)
unfolding provide_inherent_data create_inherent decode_author
create_inherent-put store cfg author entries after faithful put =
    rw
      (
        create_inherent,
        faithful.reads inherent_identifier (cfg.encode author) entries after put,
        decode_author,
        faithful.decodes author,
      )
      refl
