-- ===== src/Command/Text.antt =====
-- Numbers inside template literals: `${n}` prints a whole number in decimal.
use Prim.Native.String.{◌++◌ as append}
use mini_coder.Common.{ℕ, zero, suc, ◌/◌, ◌%◌, String, ltb, nat_eq, if◌then◌else◌}

digit : ℕ → String
digit n =
    if nat_eq n 0
    then "0"
    else if nat_eq n 1
    then "1"
    else if nat_eq n 2
    then "2"
    else if nat_eq n 3
    then "3"
    else if nat_eq n 4
    then "4"
    else if nat_eq n 5
    then "5"
    else if nat_eq n 6
    then "6"
    else if nat_eq n 7
    then "7"
    else if nat_eq n 8
    then "8"
    else "9"

-- A number has fewer digits than its value plus one, so the fuel of `to_text` is enough.
digits : ℕ → ℕ → String
unfolding digit
digits zero n = ""
digits (suc fuel) n =
    let front = digits fuel (n / 10) in if ltb n 10 then digit n else append front (digit (n % 10))

unfoldable pub to_text : ℕ → String
unfolding digits
to_text n = digits (suc n) n

infixr 66 ◌&◌
abbrev pub ◌&◌ : String → String → String
◌&◌ = append
