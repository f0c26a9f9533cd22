-- ===== src/Prelude/Text.antt =====
-- ASCII text as the list of its bytes: hexadecimal digits, `split`, and `u8::from_str_radix`.
use Prim.Native.Nat.{ℕ, ◌+◌, ◌-◌, ◌*◌, ◌/◌, ◌%◌, ◌<◌}
use mathlib.Core.Path.{◌≡◌, refl, ap, sym, subst, ◌∙◌}
use mathlib.Core.Bool.{false, ◌&&◌}
use mathlib.Core.Option.{Option, none, some}
use mathlib.Core.List.{List, [], ◌∷◌, ◌++◌}
use native.Mathlib.Omega.{arith}
use csid.Prelude.Tests.{ltb, leb, ◌==◌, if◌then◌else◌, lt→ltb}

-- A lower-case hexadecimal digit, and `{b:02x}`.
unfoldable pub hex_digit : ℕ → ℕ
hex_digit d = if ltb d 10 then b'0' + d else b'a' + (d - 10)

unfoldable pub hex_byte : ℕ → List ℕ
hex_byte b = hex_digit (b / 16) ∷ hex_digit (b % 16) ∷ []

-- `char::to_digit(16)`.
unfoldable pub digit_value : ℕ → Option ℕ
digit_value c =
    if leb b'0' c && leb c b'9'
    then some (c - b'0')
    else if leb b'a' c && leb c b'f'
    then some (c - b'a' + 10)
    else if leb b'A' c && leb c b'F'
    then some (c - b'A' + 10)
    else none

-- The digits of a number below 256, on from the value read so far; an overflow is no number.
unfoldable pub hex_digits : ℕ → List ℕ → Option ℕ
hex_digits acc [] = some acc
hex_digits acc (c ∷ cs) = elim (digit_value c) [
  | none ↦ none
  | some d ↦ if ltb (acc * 16 + d) 256 then hex_digits (acc * 16 + d) cs else none
]

-- A leading plus sign is allowed, if a digit follows.
unfoldable pub u8_from_hex : List ℕ → Option ℕ
u8_from_hex [] = none
u8_from_hex (c ∷ []) = if c == b'+' then none else hex_digits 0 (c ∷ [])
u8_from_hex (c ∷ d ∷ cs) = if c == b'+' then hex_digits 0 (d ∷ cs) else hex_digits 0 (c ∷ d ∷ cs)

-- Puts a character in front of the first part.
abbrev onto_first : ℕ → List (List ℕ) → List (List ℕ)
onto_first c [] = (c ∷ []) ∷ []
onto_first c (p ∷ ps) = (c ∷ p) ∷ ps

-- `s.split(sep)`: one part more than there are separators.
unfoldable pub split_on : ℕ → List ℕ → List (List ℕ)
split_on sep [] = [] ∷ []
split_on sep (c ∷ cs) =
    let rest = split_on sep cs in if c == sep then [] ∷ rest else onto_first c rest

pub hex_digit-ne-colon : (d : ℕ) → d < 16 → (hex_digit d == b':') ≡ false
unfolding hex_digit
hex_digit-ne-colon d h = ground arith

pub digit_value-hex_digit : (d : ℕ) → d < 16 → digit_value (hex_digit d) ≡ some d
unfolding hex_digit digit_value
digit_value-hex_digit d h = ground arith

hex_digit-ne-plus : (d : ℕ) → (hex_digit d == b'+') ≡ false
unfolding hex_digit
hex_digit-ne-plus d = ground arith

-- One digit more, when the number stays below 256.
hex_digits_step :
    (acc c d : ℕ) (cs : List ℕ)
    → digit_value c ≡ some d
    → acc * 16 + d < 256
    → hex_digits acc (c ∷ cs) ≡ hex_digits (acc * 16 + d) cs
unfolding hex_digits
hex_digits_step acc c d cs e h =
    subst
      (λ (o : Option ℕ).
        elim o [
          | none ↦ none
          | some k ↦ if ltb (acc * 16 + k) 256 then hex_digits (acc * 16 + k) cs else none
        ]
        ≡ hex_digits (acc * 16 + d) cs)
      (sym e) (rw (lt→ltb (acc * 16 + d) 256 h) refl)

-- A byte is read back from its two digits.
pub u8_from_hex-hex_byte : (b : ℕ) → b < 256 → u8_from_hex (hex_byte b) ≡ some b
unfolding u8_from_hex hex_byte hex_digits
u8_from_hex-hex_byte b h =
    let hi : b / 16 < 16 = omega arith in
    let lo : b % 16 < 16 = omega arith in
    let first =
      hex_digits_step 0 (hex_digit (b / 16)) (b / 16) (hex_digit (b % 16) ∷ [])
        (digit_value-hex_digit (b / 16) hi) (omega arith) in
    let second =
      hex_digits_step (0 * 16 + b / 16) (hex_digit (b % 16)) (b % 16) []
        (digit_value-hex_digit (b % 16) lo) (omega arith) in
    rw (hex_digit-ne-plus (b / 16)) (first ∙ second ∙ ap some (omega arith))

-- Splitting a text of two hexadecimal digits, a colon and more.
pub split_on-hex_byte :
    (b : ℕ) (rest : List ℕ)
    → b < 256
    → split_on b':' (hex_byte b ++ (b':' ∷ rest)) ≡ hex_byte b ∷ split_on b':' rest
unfolding split_on hex_byte
split_on-hex_byte b rest h =
    rw (hex_digit-ne-colon (b / 16) (omega arith), hex_digit-ne-colon (b % 16) (omega arith))

pub split_on-hex_byte_last : (b : ℕ) → b < 256 → split_on b':' (hex_byte b) ≡ hex_byte b ∷ []
unfolding split_on hex_byte
split_on-hex_byte_last b h =
    rw (hex_digit-ne-colon (b / 16) (omega arith), hex_digit-ne-colon (b % 16) (omega arith))
