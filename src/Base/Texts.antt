-- ===== src/Base/Texts.antt =====
-- Go strings: their characters, and decimal output (`%d`).
use Prim.Native.Nat.{ℕ, zero, suc, ◌/◌, ◌%◌}
use Prim.Native.Char.{Char, code}
use Prim.Native.String.{String, ◌++◌}
use mathlib.Core.List.{List, [], ◌∷◌}
use architecture_playground.Base.Tests.{ltb, eqb, if◌then◌else◌}

abbrev pub chars : String → List Char
chars String.[] = []
chars (String.◌∷◌ c s) = c ∷ chars s

abbrev pub of_chars : List Char → String
of_chars [] = ""
of_chars (c ∷ cs) = String.◌∷◌ c (of_chars cs)

digit : ℕ → String
digit zero = "0"
digit (suc zero) = "1"
digit (suc (suc zero)) = "2"
digit (suc (suc (suc zero))) = "3"
digit (suc (suc (suc (suc zero)))) = "4"
digit (suc (suc (suc (suc (suc zero))))) = "5"
digit (suc (suc (suc (suc (suc (suc zero)))))) = "6"
digit (suc (suc (suc (suc (suc (suc (suc zero))))))) = "7"
digit (suc (suc (suc (suc (suc (suc (suc (suc zero)))))))) = "8"
digit _ = "9"

-- The fuel is the number itself, which has fewer digits than that.
show_from : ℕ → ℕ → String
unfolding digit
show_from zero n = digit n
show_from (suc f) n =
    let rest = show_from f (n / 10) in if ltb n 10 then digit n else (rest ++ digit (n % 10))

unfoldable pub show_nat : ℕ → String
unfolding show_from
show_nat n = show_from n n

abbrev lower_letters : List Char
lower_letters = chars "abcdefghijklmnopqrstuvwxyzıſ"

abbrev upper_letters : List Char
upper_letters = chars "ABCDEFGHIJKLMNOPQRSTUVWXYZIS"

replace_char : List Char → List Char → Char → Char
replace_char (x ∷ xs) (y ∷ ys) c = if eqb (code x) (code c) then y else replace_char xs ys c
replace_char _ _ c = c

map_chars : (Char → Char) → String → String
map_chars f String.[] = ""
map_chars f (String.◌∷◌ c s) = String.◌∷◌ (f c) (map_chars f s)

-- `strings.ToUpper`, as far as its results can be ASCII: the ASCII letters, and the two others
-- (U+0131 and U+017F) whose capitals are. Any other letter stays outside ASCII.
unfoldable pub to_upper : String → String
unfolding map_chars replace_char
to_upper s = map_chars (replace_char lower_letters upper_letters) s
