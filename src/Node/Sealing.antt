-- ===== src/Node/Sealing.antt =====
-- The sealing of the development service: `Sealing` of node/src/cli.rs with its `FromStr`, and the
-- stream of commands that `new_dev` of node/src/service.rs makes of it. A text is the list of its bytes.
pub mod Decimal
use Prim.Native.Char.{code}
use Prim.Native.String.{String}
use moonbeam.Base.{
  ℕ, ◌+◌, ◌-◌, ◌*◌, ◌^◌, Bool, true, false, Option, none, some, List, [], ◌∷◌, leb, ltb, ◌==◌, ◌&&◌,
  if◌then◌else◌,
}

abbrev pub codes : String → List ℕ
codes String.[] = []
codes (String.◌∷◌ c s) = code c ∷ codes s

unfoldable pub same_text : List ℕ → List ℕ → Bool
same_text [] [] = true
same_text [] (c ∷ s) = false
same_text (c ∷ s) [] = false
same_text (c ∷ s) (d ∷ t) = c == d && same_text s t

pub data Sealing : Type 0 where
  instant manual : Sealing
  interval : ℕ → Sealing

abbrev pub is_digit : ℕ → Bool
is_digit c = leb b'0' c && leb c b'9'

-- The loop of `u64::from_str_radix(_, 10)`, whose overflow is an error
unfoldable pub parse_digits : ℕ → List ℕ → Option ℕ
parse_digits acc [] = some acc
parse_digits acc (c ∷ s) =
    let next = acc * 10 + (c - b'0') in
    let rest = parse_digits next s in if is_digit c && ltb next (2 ^ 64) then rest else none

-- `u64::from_str_radix(_, 10)`: an optional `+` and at least one digit
unfoldable pub from_str_radix : List ℕ → Option ℕ
unfolding parse_digits
from_str_radix [] = none
from_str_radix (c ∷ []) = if c == b'+' then none else parse_digits 0 (c ∷ [])
from_str_radix (c ∷ d ∷ s) =
    if c == b'+' then parse_digits 0 (d ∷ s) else parse_digits 0 (c ∷ d ∷ s)

-- `Sealing::from_str`; the error is "couldn't decode sealing param".
unfoldable pub from_str : List ℕ → Option Sealing
unfolding same_text from_str_radix
from_str s =
    if same_text s (codes "instant")
    then some instant
    else if same_text s (codes "manual")
    then some manual
    else elim (from_str_radix s) [ none ↦ none | some millis ↦ some (interval millis) ]

-- `EngineCommand::SealNewBlock`, without the parent and the sender, which the node leaves out, and the
-- other commands that the manual sealing knows
pub data EngineCommand : Type 0 where
  seal_new_block : Bool → Bool → EngineCommand
  other_command : ℕ → EngineCommand

-- What happens in a development node: a transaction enters the pool, the timer of the interval ticks,
-- or a command comes over the RPC and its channel.
pub data Happening : Type 0 where
  transaction_imported timer_tick : Happening
  rpc_command : EngineCommand → Happening

-- `commands_stream` on one of these
unfoldable pub command : Sealing → Happening → Option EngineCommand
command instant transaction_imported = some (seal_new_block false false)
command manual (rpc_command c) = some c
command (interval millis) timer_tick = some (seal_new_block true false)
command _ _ = none

unfoldable pub commands_stream : Sealing → List Happening → List EngineCommand
unfolding command
commands_stream sealing [] = []
commands_stream sealing (h ∷ happenings) =
    let rest = commands_stream sealing happenings in
    elim (command sealing h) [ none ↦ rest | some c ↦ c ∷ rest ]
