-- ===== src/Base/Text.antt =====
-- The text operations of Python that the program uses, over the native strings.
use Prim.Native.Nat.{ℕ, zero, suc, ◌+◌, ◌-◌, ◌*◌}
use Prim.Native.Char.{Char, code}
use Prim.Native.String.{String}
use mathlib.Core.Bool.{Bool, true, false, ◌&&◌, ◌||◌}
use mathlib.Core.Option.{Option, none, some}
use apex_ray.Base.Tests.{leb, if◌then◌else◌, eqb}

infixl 5 ◌>>=◌
abbrev pub ◌>>=◌ {ℓ κ} : {A : Type ℓ} {B : Type κ} → Option A → (A → Option B) → Option B
none >>= f = none
some a >>= f = f a

-- `s` without the prefix `p`, if it starts with it.
unfoldable pub drop_prefix : (p s : String) → Option String
drop_prefix String.[] s = some s
drop_prefix (String.◌∷◌ c p) String.[] = none
drop_prefix (String.◌∷◌ c p) (String.◌∷◌ d s) =
    if eqb (code c) (code d) then drop_prefix p s else none

-- `s.startswith(p)`
unfoldable pub starts_with : (p s : String) → Bool
unfolding drop_prefix
starts_with p s = elim (drop_prefix p s) [ none ↦ false | some _ ↦ true ]

-- `s.removeprefix(p)`
unfoldable pub remove_prefix : (p s : String) → String
unfolding drop_prefix
remove_prefix p s = elim (drop_prefix p s) [ none ↦ s | some rest ↦ rest ]

-- The characters for which `str.isspace` holds.
abbrev pub is_space : Char → Bool
is_space c =
    let n = code c in
    (leb 9 n && leb n 13)
    || (leb 28 n && leb n 32)
    || eqb n 0x85
    || eqb n 0xa0
    || eqb n 0x1680
    || (leb 0x2000 n && leb n 0x200a)
    || eqb n 0x2028
    || eqb n 0x2029
    || eqb n 0x202f
    || eqb n 0x205f
    || eqb n 0x3000

unfoldable pub strip_left : String → String
strip_left String.[] = String.[]
strip_left (String.◌∷◌ c s) = if is_space c then strip_left s else String.◌∷◌ c s

unfoldable pub is_blank : String → Bool
is_blank String.[] = true
is_blank (String.◌∷◌ c s) = is_space c && is_blank s

unfoldable pub strip_right : String → String
unfolding is_blank
strip_right String.[] = String.[]
strip_right (String.◌∷◌ c s) =
    if is_space c && is_blank s then String.[] else String.◌∷◌ c (strip_right s)

-- `s.strip()`
unfoldable pub strip : String → String
unfolding strip_left strip_right
strip s = strip_right (strip_left s)

-- `s[:n]`
unfoldable pub take_chars : ℕ → String → String
take_chars zero s = String.[]
take_chars (suc n) String.[] = String.[]
take_chars (suc n) (String.◌∷◌ c s) = String.◌∷◌ c (take_chars n s)

-- `s + t`
abbrev pub concat : String → String → String
concat String.[] t = t
concat (String.◌∷◌ c s) t = String.◌∷◌ c (concat s t)

abbrev pub with_first : Char → Option (String × String) → Option (String × String)
with_first c none = none
with_first c (some (a, b)) = some (String.◌∷◌ c a, b)

-- What stands before and behind the first occurrence of the marker.
unfoldable pub split_first : (marker s : String) → Option (String × String)
unfolding drop_prefix
split_first marker String.[] = none
split_first marker (String.◌∷◌ c s) = elim (drop_prefix marker (String.◌∷◌ c s)) [
  | some rest ↦ some (String.[], rest)
  | none ↦ with_first c (split_first marker s)
]

abbrev is_digit : Char → Bool
is_digit c = leb b'0' (code c) && leb (code c) b'9'

unfoldable pub digits_from : ℕ → String → ℕ × String
digits_from acc String.[] = (acc, String.[])
digits_from acc (String.◌∷◌ c s) =
    let rest = digits_from (acc * 10 + (code c - b'0')) s in
    if is_digit c then rest else (acc, String.◌∷◌ c s)

-- `\d+`, read as a number, and what follows it; the digits are the ASCII ones.
unfoldable pub number : String → Option (ℕ × String)
unfolding digits_from
number String.[] = none
number (String.◌∷◌ c s) = if is_digit c then some (digits_from 0 (String.◌∷◌ c s)) else none
