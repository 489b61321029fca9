-- ===== src/Stellar/BigInt.antt =====
-- `BigInt(text)` of JavaScript: decimal digits with an optional sign, or hexadecimal, octal or binary
-- digits after `0x`, `0o` or `0b`, with white space around; the empty text is zero.
use Prim.Native.Char.{code}
use privacy_layer_confidenti.Base.{
  ℕ, suc, String, Bool, ◌&&◌, not, Option, none, some, ◌+◌, ◌-◌, ◌*◌, if◌then◌else◌, ltb,
}
use privacy_layer_confidenti.Js.Text.{same_code, trim}
use privacy_layer_confidenti.Stellar.Int.{ℤ, pos, ◌-ℤ◌}

abbrev within : ℕ → ℕ → ℕ → Bool
within low high n = not (ltb n low) && ltb n high

-- The value of a digit, whatever the radix.
abbrev digit_value : ℕ → Option ℕ
digit_value n =
    if within b'0' (suc b'9') n
    then some (n - b'0')
    else if within b'a' (suc b'f') n
    then some (n - b'a' + 10)
    else if within b'A' (suc b'F') n
    then some (n - b'A' + 10)
    else none

abbrev in_radix : ℕ → Option ℕ → Option ℕ
in_radix radix none = none
in_radix radix (some d) = if ltb d radix then some d else none

-- The number that follows the digits read so far.
unfoldable pub digits_from : ℕ → ℕ → String → Option ℕ
digits_from radix acc String.[] = some acc
digits_from radix acc (String.◌∷◌ c s) = elim (in_radix radix (digit_value (code c))) [
  | none ↦ none
  | some d ↦ digits_from radix (acc * radix + d) s
]

-- At least one digit.
abbrev pub digits : ℕ → String → Option ℕ
digits radix String.[] = none
digits radix (String.◌∷◌ c s) = digits_from radix 0 (String.◌∷◌ c s)

abbrev to_pos : Option ℕ → Option ℤ
to_pos none = none
to_pos (some n) = some (pos n)

abbrev to_neg : Option ℕ → Option ℤ
to_neg none = none
to_neg (some n) = some (pos 0 -ℤ pos n)

abbrev with_prefix : ℕ → String → String → Option ℤ
with_prefix mark s whole =
    if same_code mark b'x'
    then to_pos (digits 16 s)
    else if same_code mark b'X'
    then to_pos (digits 16 s)
    else if same_code mark b'o'
    then to_pos (digits 8 s)
    else if same_code mark b'O'
    then to_pos (digits 8 s)
    else if same_code mark b'b'
    then to_pos (digits 2 s)
    else if same_code mark b'B'
    then to_pos (digits 2 s)
    else to_pos (digits 10 whole)

abbrev literal : String → Option ℤ
literal String.[] = some (pos 0)
literal (String.◌∷◌ c String.[]) = to_pos (digits 10 (String.◌∷◌ c String.[]))
literal (String.◌∷◌ c (String.◌∷◌ d s)) =
    if same_code (code c) b'-'
    then to_neg (digits 10 (String.◌∷◌ d s))
    else if same_code (code c) b'+'
    then to_pos (digits 10 (String.◌∷◌ d s))
    else if same_code (code c) b'0'
    then with_prefix (code d) s (String.◌∷◌ c (String.◌∷◌ d s))
    else to_pos (digits 10 (String.◌∷◌ c (String.◌∷◌ d s)))

-- `none` where `BigInt` throws a `SyntaxError`.
unfoldable pub big_int : String → Option ℤ
unfolding digits_from trim
big_int s = literal (trim s)
