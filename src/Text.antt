-- ===== src/Text.antt =====
-- Go strings as lists of bytes, and what the program uses of `strings` and `strconv` on them.
-- `joinIdentityParts` and the control-character tests are those of
-- internal/bb/awsbrowser/types.go.
pub mod Decimal
pub mod Join
pub mod Split
pub mod Trim
use Prim.Native.Char.{code}
use Prim.Native.String.{String}
use mathlib.Core.List.{reverse}
use binbox_cli.Base.{
  ℕ, zero, suc, ◌+◌, ◌/◌, ◌%◌, ◌≡◌, refl, Bool, true, false, ◌&&◌, ◌||◌, List, [], ◌∷◌, ◌++◌, ltb,
  leb, ◌==◌, if◌then◌else◌, holds, length, any, ℕ_discrete,
}

abbrev pub Text : Type 0
Text = List ℕ

unfoldable pub text_dec : Discrete Text
text_dec = hlevel ℕ_discrete

infix 50 ◌=?◌
abbrev pub ◌=?◌ : Text → Text → Bool
a =? b = holds (text_dec a b)

-- An ASCII literal.
abbrev pub text : String → Text
text String.[] = []
text (String.◌∷◌ c s) = code c ∷ text s

abbrev within : ℕ → ℕ → ℕ → Bool
within lo hi c = leb lo c && leb c hi

-- A rune below 0x20, or 0x7f. Such a rune is one byte, and no other rune holds such a byte.
unfoldable pub is_control : ℕ → Bool
is_control c = ltb c 0x20 || c == 0x7f

unfoldable pub contains_control : Text → Bool
unfolding any is_control
contains_control value = any is_control value

-- `unicode.IsSpace` by the length of the encoding.
abbrev space1 : ℕ → Bool
space1 c = within 9 13 c || c == 32

abbrev space2 : ℕ → ℕ → Bool
space2 a b = a == 0xC2 && (b == 0x85 || b == 0xA0)

abbrev space3 : ℕ → ℕ → ℕ → Bool
space3 a b c =
    (a == 0xE1 && (b == 0x9A && c == 0x80))
    || (a == 0xE2
        && ((b == 0x80 && (within 0x80 0x8A c || c == 0xA8 || c == 0xA9 || c == 0xAF))
            || (b == 0x81 && c == 0x9F)))
    || (a == 0xE3 && (b == 0x80 && c == 0x80))

module _ (two : ℕ → ℕ → Bool) (three : ℕ → ℕ → ℕ → Bool) where
  -- Drops encoded spaces from the front; the tests say which bytes encode a space.
  unfoldable pub drop_spaces : Text → Text
  drop_spaces [] = []
  drop_spaces (a ∷ []) = if space1 a then [] else a ∷ []
  drop_spaces (a ∷ b ∷ []) =
      let next = drop_spaces (b ∷ []) in
      if space1 a then next else if two a b then [] else a ∷ b ∷ []
  drop_spaces (a ∷ b ∷ c ∷ s) =
      let next1 = drop_spaces (b ∷ c ∷ s) in
      let next2 = drop_spaces (c ∷ s) in
      let next3 = drop_spaces s in
      if space1 a
      then next1
      else if two a b
      then next2
      else if three a b c
      then next3
      else a ∷ b ∷ c ∷ s

-- `strings.TrimSpace`: the back is trimmed on the reversed bytes.
unfoldable pub trim_space : Text → Text
unfolding drop_spaces
trim_space s =
    let front = drop_spaces space2 space3 s in
    reverse (drop_spaces (λ a b. space2 b a) (λ a b c. space3 c b a) (reverse front))

-- `strconv.Itoa` and `strconv.FormatUint(_, 10)`: the last digit is written last.
unfoldable pub decimal_digits : ℕ → ℕ → Text
decimal_digits zero n = []
decimal_digits (suc f) n =
    let rest = decimal_digits f (n / 10) in
    if ltb n 10 then (b'0' + n) ∷ [] else rest ++ (b'0' + n % 10) ∷ []

-- A number has fewer digits than its value and one, which is the fuel.
unfoldable pub decimal : ℕ → Text
unfolding decimal_digits
decimal n = decimal_digits (n + 1) n

-- `joinIdentityParts`: each part behind its length and a colon.
unfoldable pub join_identity_parts : List Text → Text
unfolding decimal
join_identity_parts [] = []
join_identity_parts (part ∷ parts) =
    decimal (length part) ++ (b':' ∷ (part ++ join_identity_parts parts))

trim_space_ascii : trim_space (text " \ta b\n") ≡ text "a b"
unfolding trim_space
trim_space_ascii = refl

trim_space_wide : trim_space (0xC2 ∷ 0xA0 ∷ 65 ∷ 0xE3 ∷ 0x80 ∷ 0x80 ∷ 0x20 ∷ []) ≡ text "A"
unfolding trim_space
trim_space_wide = refl

join_identity_parts_runs : join_identity_parts (text "ab" ∷ text "" ∷ []) ≡ text "2:ab0:"
unfolding join_identity_parts
join_identity_parts_runs = refl

decimal_runs : decimal 1203 ≡ text "1203"
unfolding decimal
decimal_runs = refl
