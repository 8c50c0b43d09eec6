-- ===== src/Base/Texts.antt =====
-- Text as the list of its UTF-16 code units, where the source measures, trims or folds it.
use Prim.Native.Char.{code}
use Prim.Native.String.{String}
use Prim.Native.Nat.{ℕ, zero, suc, ◌+◌, ◌-◌, ◌/◌, ◌%◌}
use mathlib.Core.Path.{◌≡◌}
use mathlib.Core.Logic.{◌↔◌}
use mathlib.Core.Bool.{Bool, true, false, ◌&&◌, ◌||◌}
use mathlib.Core.List.{List, [], ◌∷◌, ◌++◌, reverse, map}
use native.Mathlib.Omega.{arith}
use onlineaggrement.Base.Lists.{length, take}
use onlineaggrement.Base.Tests.{Eq, leb, ltb, nat_eq, if◌then◌else◌}

abbrev pub Text : Type 0
Text = List ℕ

-- The code units of a literal.
abbrev pub codes : String → Text
codes String.[] = []
codes (String.◌∷◌ c s) = code c ∷ codes s

abbrev text_beq : Text → Text → Bool
text_beq [] [] = true
text_beq (a ∷ s) (b ∷ t) = nat_eq a b && text_beq s t
text_beq _ _ = false

pub text_beq_iff : (s t : Text) → (text_beq s t ≡ true) ↔ (s ≡ t)
text_beq_iff [] [] = ground arith
text_beq_iff [] (b ∷ t) = ground arith
text_beq_iff (a ∷ s) [] = ground arith
text_beq_iff (a ∷ s) (b ∷ t) = ground (arith, text_beq_iff s t)

instance abbrev pub Text_eq : Eq Text
Text_eq = record { beq = text_beq; beq_iff = text_beq_iff }

-- The white space and line ends that `trim` of ECMAScript removes.
is_white : ℕ → Bool
is_white c =
    leb 9 c && leb c 13
    || nat_eq c 32
    || nat_eq c 0xa0
    || nat_eq c 0x1680
    || leb 0x2000 c && leb c 0x200a
    || nat_eq c 0x2028
    || nat_eq c 0x2029
    || nat_eq c 0x202f
    || nat_eq c 0x205f
    || nat_eq c 0x3000
    || nat_eq c 0xfeff

trim_start : Text → Text
trim_start [] = []
trim_start (c ∷ s) = let rest = trim_start s in if is_white c then rest else c ∷ s

unfoldable pub trim : Text → Text
unfolding trim_start is_white
trim s = reverse (trim_start (reverse (trim_start s)))

-- `toLowerCase`, on ASCII letters.
abbrev lower : ℕ → ℕ
lower c = if leb b'A' c && leb c b'Z' then c + 32 else c

abbrev pub to_lower_case : Text → Text
to_lower_case = map lower

-- `upper` of SQL, on ASCII letters.
abbrev upper : ℕ → ℕ
upper c = if leb b'a' c && leb c b'z' then c - 32 else c

abbrev pub to_upper_case : Text → Text
to_upper_case = map upper

-- The decimal digits of a number. The number itself is fuel enough.
unfoldable pub digits : (fuel n : ℕ) → Text → Text
digits zero n acc = acc
digits (suc fuel) n acc =
    let c = 48 + n % 10 in
    let rest = digits fuel (n / 10) (c ∷ acc) in if ltb n 10 then c ∷ acc else rest

unfoldable pub decimal : ℕ → Text
decimal n = digits (suc n) n []

abbrev pub zeros : ℕ → Text
zeros zero = []
zeros (suc n) = b'0' ∷ zeros n

-- `padStart` leaves a text that is long enough as it is; `lpad` of PostgreSQL cuts it.
unfoldable pub pad_start : Text → ℕ → Text
pad_start s n = zeros (n - length s) ++ s

unfoldable pub lpad : Text → ℕ → Text
lpad s n = if ltb n (length s) then take n s else zeros (n - length s) ++ s
