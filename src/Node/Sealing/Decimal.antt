-- ===== src/Node/Sealing/Decimal.antt =====
-- The sealing parameter against the decimal notation of numbers.
use moonbeam.Base.{
  ℕ, zero, suc, ◌+◌, ◌-◌, ◌*◌, ◌/◌, ◌%◌, ◌^◌, ◌<◌, ◌≡◌, refl, ap, ◌∙◌, Bool, true, Option, none,
  some, List, [], ◌∷◌, ◌++◌, ltb, if◌then◌else◌, arith, Bool-cases, inl, inr,
}
use moonbeam.Node.Sealing.{
  Sealing, instant, manual, interval, codes, is_digit, parse_digits, from_str,
}

-- The decimal notation, as the standard library prints it, on as much fuel as the number.
decimal_with : ℕ → ℕ → List ℕ
decimal_with zero n = (b'0' + n % 10) ∷ []
decimal_with (suc fuel) n =
    let rest = decimal_with fuel (n / 10) in
    if ltb n 10 then (b'0' + n) ∷ [] else rest ++ (b'0' + n % 10) ∷ []

unfoldable pub decimal : ℕ → List ℕ
unfolding decimal_with
decimal n = decimal_with n n

abbrev then_parse : Option ℕ → List ℕ → Option ℕ
then_parse none s = none
then_parse (some acc) s = parse_digits acc s

parse_digits-append :
    (acc : ℕ) (s t : List ℕ) → parse_digits acc (s ++ t) ≡ then_parse (parse_digits acc s) t
unfolding parse_digits
parse_digits-append acc [] t = refl
parse_digits-append acc (c ∷ s) t = ground (arith, parse_digits-append (acc * 10 + (c - b'0')) s t)

parse_digits-decimal :
    (fuel n : ℕ)
    → n < 10 * suc fuel
    → parse_digits 0 (decimal_with fuel n) ≡ (if ltb n (2 ^ 64) then some n else none)
unfolding decimal_with parse_digits
parse_digits-decimal zero n h = ground arith
parse_digits-decimal (suc fuel) n h = elim (Bool-cases (ltb n 10)) [
  | inl small ↦ rw small (ground arith)
  | inr large ↦ rw large (
      parse_digits-append 0 (decimal_with fuel (n / 10)) ((b'0' + n % 10) ∷ [])
      ∙ rw (parse_digits-decimal fuel (n / 10) (omega arith)) (ground (arith, large)))
]

-- Digits come first, so the notation is none of the keywords and has no sign.
StartsWithDigit : List ℕ → Type 0
StartsWithDigit [] = ⊥
StartsWithDigit (c ∷ s) = is_digit c ≡ true

StartsWithDigit-append : (s t : List ℕ) → StartsWithDigit s → StartsWithDigit (s ++ t)
unfolding StartsWithDigit
StartsWithDigit-append [] t h = absurd h
StartsWithDigit-append (c ∷ s) t h = h

decimal-StartsWithDigit : (fuel n : ℕ) → StartsWithDigit (decimal_with fuel n)
unfolding StartsWithDigit decimal_with
decimal-StartsWithDigit zero n = ground arith
decimal-StartsWithDigit (suc fuel) n = elim (Bool-cases (ltb n 10)) [
  | inl small ↦ rw small (ground arith)
  | inr large ↦ rw large (
      StartsWithDigit-append (decimal_with fuel (n / 10)) _ (decimal-StartsWithDigit fuel (n / 10)))
]

abbrev as_interval : Option ℕ → Option Sealing
as_interval none = none
as_interval (some millis) = some (interval millis)

from_str-digits : (s : List ℕ) → StartsWithDigit s → from_str s ≡ as_interval (parse_digits 0 s)
unfolding StartsWithDigit from_str
from_str-digits [] h = absurd h
from_str-digits (c ∷ []) h = ground (arith, h)
from_str-digits (c ∷ d ∷ s) h = ground (arith, h)

-- What a user writes for a sealing, and whether its number fits into 64 bits.
unfoldable pub notation : Sealing → List ℕ
unfolding decimal
notation instant = codes "instant"
notation manual = codes "manual"
notation (interval millis) = decimal millis

abbrev pub fits : Sealing → Bool
fits (interval millis) = ltb millis (2 ^ 64)
fits _ = true

-- The two keywords and the decimal notation of every interval of up to 64 bits are read as the sealing
-- that they are written for, and the notation of a longer interval is refused.
pub from_str-notation : (s : Sealing) → from_str (notation s) ≡ (if fits s then some s else none)
unfolding notation from_str
from_str-notation instant = refl
from_str-notation manual = refl
from_str-notation (interval n) =
    from_str-digits (decimal_with n n) (decimal-StartsWithDigit n n)
    ∙ ap as_interval (parse_digits-decimal n n (omega arith))
    ∙ (ground arith)
