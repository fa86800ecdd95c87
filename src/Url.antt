-- ===== src/Url.antt =====
-- What the program uses of `net/url`: `Values.Encode` on values in key order, and `ParseQuery`.
pub mod RoundTrip
use mathlib.Core.Option
use binbox_cli.Base.{
  ℕ, ◌+◌, ◌-◌, ◌*◌, ◌/◌, ◌%◌, ◌≡◌, refl, Bool, true, ◌&&◌, ◌||◌, Option, none, some, List, [], ◌∷◌,
  ◌++◌, ltb, leb, ◌==◌, if◌then◌else◌, any,
}
use binbox_cli.Text.{Text, text}
use binbox_cli.Text.Split.{split, join, cut}

abbrev pub within : ℕ → ℕ → ℕ → Bool
within lo hi c = leb lo c && leb c hi

unfoldable pub is_unreserved : ℕ → Bool
is_unreserved c =
    within b'a' b'z' c
    || within b'A' b'Z' c
    || within b'0' b'9' c
    || c == b'-'
    || c == b'_'
    || c == b'.'
    || c == b'~'

-- A digit of "0123456789ABCDEF".
unfoldable pub hex_digit : ℕ → ℕ
hex_digit d = if ltb d 10 then b'0' + d else b'A' + (d - 10)

unfoldable pub is_hex : ℕ → Bool
is_hex c = within b'0' b'9' c || within b'a' b'f' c || within b'A' b'F' c

unfoldable pub unhex : ℕ → ℕ
unhex c =
    if within b'0' b'9' c
    then c - b'0'
    else if within b'a' b'f' c
    then c - b'a' + 10
    else c - b'A' + 10

unfoldable pub escape_byte : ℕ → Text
unfolding is_unreserved hex_digit
escape_byte c =
    if is_unreserved c
    then c ∷ []
    else if c == b' '
    then b'+' ∷ []
    else b'%' ∷ hex_digit (c / 16) ∷ hex_digit (c % 16) ∷ []

-- `QueryEscape`
unfoldable pub query_escape : Text → Text
unfolding escape_byte
query_escape [] = []
query_escape (c ∷ s) = escape_byte c ++ query_escape s

abbrev unplus : ℕ → ℕ
unplus c = if c == b'+' then b' ' else c

-- `QueryUnescape`; `none` is the error for a percent sign without two digits.
unfoldable pub query_unescape : Text → Option Text
unfolding is_hex unhex
query_unescape [] = some []
query_unescape (c ∷ []) = if c == b'%' then none else some (unplus c ∷ [])
query_unescape (c ∷ a ∷ []) =
    let next = query_unescape (a ∷ []) in
    if c == b'%' then none else Option.map (◌∷◌ (unplus c)) next
query_unescape (c ∷ a ∷ b ∷ s) =
    let skip = query_unescape s in
    let next = query_unescape (a ∷ b ∷ s) in
    if c == b'%'
    then (if is_hex a && is_hex b then Option.map (◌∷◌ (unhex a * 16 + unhex b)) skip else none)
    else Option.map (◌∷◌ (unplus c)) next

abbrev pub Values : Type 0
Values = List (Text × Text)

unfoldable pub encode_pair : Text × Text → Text
unfolding query_escape
encode_pair (name, value) = query_escape name ++ (b'=' ∷ query_escape value)

unfoldable pub encode_pairs : Values → List Text
unfolding encode_pair
encode_pairs [] = []
encode_pairs (p ∷ ps) = encode_pair p ∷ encode_pairs ps

-- `Values.Encode` where each name has one value and the names stand in order.
unfoldable pub encode : Values → Text
unfolding encode_pairs join
encode ps = join b'&' (encode_pairs ps)

unfoldable pub parse_pair : Text → Option (Text × Text)
unfolding cut query_unescape
parse_pair segment =
    let (key, value) = cut b'=' segment in
    Option.bind (query_unescape key) (λ name. Option.map (λ v. (name, v)) (query_unescape value))

-- The loop of `parseQuery`; an error, once met, is what it returns.
unfoldable pub parse_segments : List Text → Option Values
unfolding any parse_pair
parse_segments [] = some []
parse_segments ([] ∷ rest) = parse_segments rest
parse_segments ((c ∷ s) ∷ rest) =
    if any (λ x. x == b';') (c ∷ s)
    then none
    else Option.bind (parse_pair (c ∷ s)) (λ p. Option.map (◌∷◌ p) (parse_segments rest))

-- `ParseQuery`, with the pairs in the order of the text; `none` is an error.
unfoldable pub parse_query : Text → Option Values
unfolding split parse_segments
parse_query query = parse_segments (split b'&' query)

encode_runs : encode ((text "a b", text "x&y") ∷ (text "n", text "") ∷ []) ≡ text "a+b=x%26y&n="
unfolding encode
encode_runs = refl

parse_query_runs :
    parse_query (text "a+b=x%26y&&n") ≡ some ((text "a b", text "x&y") ∷ (text "n", text "") ∷ [])
unfolding parse_query Option.bind
parse_query_runs = refl
