-- ===== src/Config/Parse.antt =====
-- What config/config.go uses of strconv and strings: `Atoi`, `ParseBool` and `TrimSpace`.
use Prim.Native.Char.{Char, code}
use mathlib.Core.List.{reverse}
use architecture_playground.Base.{
  ℕ, ◌+◌, ◌-◌, ◌*◌, ◌^◌, String, Bool, true, false, ◌&&◌, ◌||◌, List, [], ◌∷◌, Option, none, some,
  ltb, leb, eqb, contains, chars, of_chars, if◌then◌else◌,
}
use architecture_playground.Base.Int.{ℤ, pos, negsuc}

-- `unicode.IsSpace`
abbrev pub is_space : Char → Bool
is_space c =
    let n = code c in
    (leb 9 n && leb n 13)
    || eqb n 32
    || eqb n 0x85
    || eqb n 0xA0
    || eqb n 0x1680
    || (leb 0x2000 n && leb n 0x200A)
    || eqb n 0x2028
    || eqb n 0x2029
    || eqb n 0x202F
    || eqb n 0x205F
    || eqb n 0x3000

unfoldable pub drop_spaces : List Char → List Char
drop_spaces [] = []
drop_spaces (c ∷ cs) = if is_space c then drop_spaces cs else (c ∷ cs)

-- `strings.TrimSpace`
unfoldable pub trim_space : String → String
unfolding drop_spaces
trim_space s = of_chars (reverse (drop_spaces (reverse (drop_spaces (chars s)))))

-- The value of a text of digits, if it has no other character.
digits_from : ℕ → List Char → Option ℕ
digits_from n [] = some n
digits_from n (c ∷ cs) =
    let rest = digits_from (n * 10 + (code c - b'0')) cs in
    if leb b'0' (code c) && leb (code c) b'9' then rest else none

digits : List Char → Option ℕ
unfolding digits_from
digits [] = none
digits (c ∷ cs) = digits_from 0 (c ∷ cs)

-- A number in the range of a 64-bit int.
in_range : Bool → Option ℕ → Option ℤ
in_range minus none = none
in_range false (some n) = if ltb n (2 ^ 63) then some (pos n) else none
in_range true (some n) =
    if eqb n 0 then some (pos 0) else if leb n (2 ^ 63) then some (negsuc (n - 1)) else none

signed : List Char → Option ℤ
unfolding digits in_range
signed [] = none
signed (c ∷ cs) =
    if eqb (code c) b'-'
    then in_range true (digits cs)
    else if eqb (code c) b'+'
    then in_range false (digits cs)
    else (in_range false (digits (c ∷ cs)))

-- `strconv.Atoi`: an optional sign, then decimal digits.
unfoldable pub atoi : String → Option ℤ
unfolding signed
atoi s = signed (chars s)

-- `strconv.ParseBool`
unfoldable pub parse_bool : String → Option Bool
parse_bool s =
    if contains ("1" ∷ "t" ∷ "T" ∷ "true" ∷ "TRUE" ∷ "True" ∷ []) s
    then some true
    else if contains ("0" ∷ "f" ∷ "F" ∷ "false" ∷ "FALSE" ∷ "False" ∷ []) s
    then some false
    else none
