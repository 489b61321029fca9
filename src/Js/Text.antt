-- ===== src/Js/Text.antt =====
-- The string methods that the packages call: `trim`, `split` on one character, `filter` of the
-- empty parts, `join`, `startsWith` and `slice` (over code points).
use Prim.Native.Char.{Char, code}
use privacy_layer_confidenti.Base.{
  ℕ, String, Bool, true, false, ◌||◌, ◌&&◌, not, List, [], ◌∷◌, ◌==◌, if◌then◌else◌, ltb,
}
use Prim.Native.Nat.{compare, Ordering}
use Prim.Native.String.{◌++◌ as str_append}

abbrev pub same_code : ℕ → ℕ → Bool
same_code a b = elim (compare a b) [ Ordering.eq ↦ true | _ ↦ false ]

-- White space and line ends of ECMAScript: what `trim` removes.
unfoldable pub is_space : Char → Bool
is_space c =
    let n = code c in
    (not (ltb n 9) && ltb n 14)
    || same_code n 32
    || same_code n 0xa0
    || same_code n 0x1680
    || (not (ltb n 0x2000) && ltb n 0x200b)
    || same_code n 0x2028
    || same_code n 0x2029
    || same_code n 0x202f
    || same_code n 0x205f
    || same_code n 0x3000
    || same_code n 0xfeff

unfoldable pub trim_start : String → String
trim_start String.[] = ""
trim_start (String.◌∷◌ c s) = if is_space c then trim_start s else String.◌∷◌ c s

abbrev keep_char : Char → String → String
keep_char c String.[] = if is_space c then "" else String.◌∷◌ c ""
keep_char c (String.◌∷◌ d s) = String.◌∷◌ c (String.◌∷◌ d s)

unfoldable pub trim_end : String → String
trim_end String.[] = ""
trim_end (String.◌∷◌ c s) = keep_char c (trim_end s)

-- `text.trim()`
unfoldable pub trim : String → String
unfolding trim_start trim_end is_space
trim s = trim_end (trim_start s)

abbrev first_part : Char → List String → List String
first_part c [] = String.◌∷◌ c "" ∷ []
first_part c (p ∷ ps) = String.◌∷◌ c p ∷ ps

-- `text.split(separator)` at a separator of one character: never empty.
unfoldable pub split : ℕ → String → List String
split sep String.[] = "" ∷ []
split sep (String.◌∷◌ c s) =
    let parts = split sep s in if same_code (code c) sep then "" ∷ parts else first_part c parts

-- `.filter((part) => part.length > 0)`
unfoldable pub without_empty : List String → List String
without_empty [] = []
without_empty (p ∷ ps) = let rest = without_empty ps in if p == "" then rest else p ∷ rest

-- `parts.join(separator)`
unfoldable pub join : String → List String → String
join sep [] = ""
join sep (p ∷ []) = p
join sep (p ∷ q ∷ ps) = str_append p (str_append sep (join sep (q ∷ ps)))

-- `text.startsWith(prefix)`
unfoldable pub starts_with : String → String → Bool
starts_with String.[] s = true
starts_with (String.◌∷◌ c p) String.[] = false
starts_with (String.◌∷◌ c p) (String.◌∷◌ d s) = same_code (code c) (code d) && starts_with p s
