-- ===== src/Author/Inherent.antt =====
-- pallets/author-inherent/src/lib.rs: the author of a block names itself in an inherent.
pub mod Block
pub mod Data
use moonbeam.Base.{ℕ, Bool, true, false, Option, none, some, List, [], ◌∷◌, ◌++◌, is_some, is_none}

-- `trait Config`, over the state `S` of the other pallets: `EventHandler`, and the two `CanAuthor`s,
-- where `none` is a panic.
pub record Config (S : Type 0) : Type 0 where
  pub note_author : ℕ → S → S
  pub preliminary_can_author : ℕ → S → Option Bool
  pub final_can_author : ℕ → S → Option Bool
  -- `AccountId`'s codec, of another crate
  pub encode : ℕ → List ℕ
  pub decode : List ℕ → Option ℕ

-- `DigestItem::Consensus`, the one kind that the pallet deposits
pub record DigestItem : Type 0 where
  pub engine_id : List ℕ
  pub payload : List ℕ

pub record State (S : Type 0) : Type 0 where
  pub author : Option ℕ
  pub digest : List DigestItem
  pub rest : S

pub data Error : Type 0 where
  bad_origin author_already_set cannot_be_author : Error

pub data Outcome : Type 0 where
  ok panicked : Outcome
  err : Error → Outcome

-- `DispatchClass` of frame_support
pub data DispatchClass : Type 0 where
  normal operational mandatory : DispatchClass

-- `#[weight = (0, DispatchClass::Mandatory)]` of `set_author`
abbrev pub set_author_class : DispatchClass
set_author_class = mandatory

-- `InherentError`, with the text that it borrows
pub data InherentError : Type 0 where
  cannot_be_author author_inherent_required : InherentError

-- `[b'a', b'u', b't', b'h']` and `*b"author__"`
abbrev pub engine_id : List ℕ
engine_id = 97 ∷ 117 ∷ 116 ∷ 104 ∷ []

abbrev pub inherent_identifier : List ℕ
inherent_identifier = 97 ∷ 117 ∷ 116 ∷ 104 ∷ 111 ∷ 114 ∷ 95 ∷ 95 ∷ []

-- `impl CanAuthor<T> for ()`
abbrev pub anyone_can_author : {S : Type 0} → ℕ → S → Option Bool
anyone_can_author account s = some true

module _ {S : Type 0} where
  unfoldable pub on_initialize : State S → State S
  on_initialize s = record s { author = none }

  module _ (cfg : Config S) where
    -- The writes of `set_author`, behind its checks.
    unfoldable pub write_author : ℕ → State S → State S
    write_author author s = record {
      author = some author;
      digest = s.digest ++ record { engine_id = engine_id; payload = cfg.encode author } ∷ [];
      rest = cfg.note_author author s.rest;
    }

    -- `ensure!(T::FinalCanAuthor::can_author(&author), ..)` and what follows
    unfoldable pub set_if_allowed : Option Bool → ℕ → State S → Outcome × State S
    unfolding write_author
    set_if_allowed none author s = (panicked, s)
    set_if_allowed (some false) author s = (err Error.cannot_be_author, s)
    set_if_allowed (some true) author s = (ok, write_author author s)

    -- `ensure!(<Author<T>>::get().is_none(), ..)` and what follows, from the author that is set
    unfoldable pub set_unless : Option ℕ → ℕ → State S → Outcome × State S
    unfolding set_if_allowed
    set_unless none author s = set_if_allowed (cfg.final_can_author author s.rest) author s
    set_unless (some previous) author s = (err author_already_set, s)

    -- The flag says that the origin is none, as `ensure_none` wants it.
    unfoldable pub set_author : Bool → ℕ → State S → Outcome × State S
    unfolding set_unless
    set_author false author s = (err bad_origin, s)
    set_author true author s = set_unless s.author author s

  unfoldable pub on_finalize : State S → Outcome × State S
  on_finalize s = elim s.author [ none ↦ (panicked, s) | some author ↦ (ok, s) ]

  -- `find_author`, which does not look at the digests
  abbrev pub find_author : List DigestItem → State S → Option ℕ
  find_author digests s = s.author
