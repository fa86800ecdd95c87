-- ===== src/Url/RoundTrip.antt =====
-- `ParseQuery` reads back what `Encode` writes.
use mathlib.Core.Option
use binbox_cli.Base.{
  ℕ, ◌+◌, ◌*◌, ◌/◌, ◌%◌, ◌<◌, ◌≡◌, ◌≢◌, refl, sym, ap, ◌∙◌, inl, inr, true, false, some, List, [],
  ◌∷◌, ◌++◌, arith, ◌==◌, if◌then◌else◌, Bool-cases, any, All, All-append,
}
use binbox_cli.Text.{Text}
use binbox_cli.Text.Split.{split, join, Lacks, split-join, cut-append}
use binbox_cli.Url.{
  Values, is_unreserved, hex_digit, is_hex, unhex, escape_byte, query_escape, query_unescape,
  encode_pair, encode_pairs, encode, parse_pair, parse_segments, parse_query,
}

abbrev pub IsBytes : Text → Type 0
IsBytes = All (λ c. c < 256)

unhex-hex_digit : (d : ℕ) → d < 16 → (unhex (hex_digit d) ≡ d) × (is_hex (hex_digit d) ≡ true)
unfolding unhex hex_digit is_hex
unhex-hex_digit d h = ground arith

-- Reserved for the structure of a query.
abbrev IsPlain : ℕ → Type 0
IsPlain c = (c ≢ b'&') × (c ≢ b'=') × (c ≢ b';')

hex_digit-IsPlain : (d : ℕ) → d < 16 → IsPlain (hex_digit d)
unfolding hex_digit
hex_digit-IsPlain d h = (ground arith, ground arith, ground arith)

unreserved-IsPlain : (c : ℕ) → is_unreserved c ≡ true → IsPlain c
unfolding is_unreserved
unreserved-IsPlain c h = (ground arith, ground arith, ground arith)

unreserved-ne-sign : (c : ℕ) → is_unreserved c ≡ true → (c ≢ b'%') × (c ≢ b'+')
unfolding is_unreserved
unreserved-ne-sign c h = (ground arith, ground arith)

escape_byte-IsPlain : (c : ℕ) → c < 256 → All IsPlain (escape_byte c)
unfolding escape_byte
escape_byte-IsPlain c h = elim (Bool-cases (is_unreserved c)) [
  | inl u ↦ rw u ((unreserved-IsPlain c u, tt))
  | inr u ↦ elim (Bool-cases (c == b' ')) [
    | inl s ↦ rw (u, s) ((omega arith, omega arith, omega arith), tt)
    | inr s ↦
        rw (u, s)
          (
            (omega arith, omega arith, omega arith),
            (
              hex_digit-IsPlain (c / 16) (omega arith),
              (hex_digit-IsPlain (c % 16) (omega arith), tt),
            ),
          )
  ]
]

query_escape-IsPlain : (s : Text) → IsBytes s → All IsPlain (query_escape s)
unfolding query_escape
query_escape-IsPlain [] h = tt
query_escape-IsPlain (c ∷ s) h =
    All-append IsPlain (escape_byte c) (query_escape s) (escape_byte-IsPlain c h.0)
      (query_escape-IsPlain s h.1)

unescape_plain :
    (c : ℕ) (s : Text)
    → c ≢ b'%'
    → query_unescape (c ∷ s) ≡ Option.map (◌∷◌ (if c == b'+' then b' ' else c)) (query_unescape s)
unfolding query_unescape
unescape_plain c [] h = ground arith
unescape_plain c (a ∷ []) h = ground arith
unescape_plain c (a ∷ b ∷ s) h = ground arith

unescape_percent :
    (c : ℕ) (s : Text)
    → c < 256
    → query_unescape (b'%' ∷ hex_digit (c / 16) ∷ hex_digit (c % 16) ∷ s)
      ≡ Option.map (◌∷◌ c) (query_unescape s)
unfolding query_unescape
unescape_percent c s h =
    let (high, high_hex) = unhex-hex_digit (c / 16) (omega arith) in
    let (low, low_hex) = unhex-hex_digit (c % 16) (omega arith) in
    let value : unhex (hex_digit (c / 16)) * 16 + unhex (hex_digit (c % 16)) ≡ c = omega arith in
    rw (high_hex, low_hex, value)

unescape-escape_byte :
    (c : ℕ) (s : Text)
    → c < 256
    → query_unescape (escape_byte c ++ s) ≡ Option.map (◌∷◌ c) (query_unescape s)
unfolding escape_byte
unescape-escape_byte c s h = elim (Bool-cases (is_unreserved c)) [
  | inl u ↦ ground (arith, unescape_plain c s, unreserved-ne-sign c u)
  | inr u ↦ elim (Bool-cases (c == b' ')) [
    | inl e ↦ ground (arith, unescape_plain b'+' s)
    | inr e ↦ rw (u, e) (unescape_percent c s h)
  ]
]

query_unescape-query_escape : (s : Text) → IsBytes s → query_unescape (query_escape s) ≡ some s
unfolding query_escape
query_unescape-query_escape [] h = unfold query_unescape in refl
query_unescape-query_escape (c ∷ s) h =
    unescape-escape_byte c (query_escape s) h.0
    ∙ ap (Option.map (◌∷◌ c)) (query_unescape-query_escape s h.1)

abbrev IsBytesPairs : Values → Type 0
IsBytesPairs = All (λ p. IsBytes p.0 × IsBytes p.1)

All-map : (P Q : ℕ → Type 0) (f : (c : ℕ) → P c → Q c) (s : Text) → All P s → All Q s
All-map P Q f [] h = tt
All-map P Q f (c ∷ s) h = (f c h.0, All-map P Q f s h.1)

parse_pair-encode_pair :
    (name value : Text)
    → IsBytes name
    → IsBytes value
    → parse_pair (encode_pair (name, value)) ≡ some (name, value)
unfolding parse_pair encode_pair Option.bind
parse_pair-encode_pair name value hn hv =
    rw
      (cut-append b'=' (query_escape name) (query_escape value) (
        All-map IsPlain (λ c. c ≢ b'=') (λ c p. p.1) (query_escape name)
          (query_escape-IsPlain name hn)))
      (ground (arith, query_unescape-query_escape name hn, query_unescape-query_escape value hv))

no_semicolon : (s : Text) → All (λ c. c ≢ b';') s → any (λ x. x == b';') s ≡ false
unfolding any
no_semicolon [] h = refl
no_semicolon (c ∷ s) h = ground (arith, no_semicolon s h.1)

encode_pair_clean :
    (sep : ℕ) (p : Text × Text)
    → sep ≢ b'='
    → ((c : ℕ) → IsPlain c → c ≢ sep)
    → IsBytes p.0 × IsBytes p.1
    → Lacks sep (encode_pair p)
unfolding encode_pair
encode_pair_clean sep (name, value) ne f h =
    All-append _ (query_escape name) (b'=' ∷ query_escape value)
      (All-map _ _ f (query_escape name) (query_escape-IsPlain name h.0))
      ((λ e. ne (sym e)), All-map _ _ f (query_escape value) (query_escape-IsPlain value h.1))

segment_step :
    (s : Text) (rest : List Text) (p : Text × Text) (ps : Values)
    → s ≢ []
    → any (λ x. x == b';') s ≡ false
    → parse_pair s ≡ some p
    → parse_segments rest ≡ some ps
    → parse_segments (s ∷ rest) ≡ some (p ∷ ps)
unfolding parse_segments Option.bind
segment_step [] rest p ps ne clean parsed later = absurd (ne refl)
segment_step (c ∷ s) rest p ps ne clean parsed later = rw (clean, parsed, later)

encode_pair-ne-nil : (p : Text × Text) → encode_pair p ≢ []
unfolding encode_pair
encode_pair-ne-nil (name, value) = go (query_escape name)
  where
    go : (w : Text) → w ++ (b'=' ∷ query_escape value) ≢ []
    go [] = λ e. cc
    go (c ∷ w) = λ e. cc

parse_segments-encode_pairs :
    (ps : Values) → IsBytesPairs ps → parse_segments (encode_pairs ps) ≡ some ps
unfolding encode_pairs
parse_segments-encode_pairs [] h = unfold parse_segments in refl
parse_segments-encode_pairs (p ∷ ps) h =
    segment_step (encode_pair p) (encode_pairs ps) p ps (encode_pair-ne-nil p)
      (no_semicolon (encode_pair p) (encode_pair_clean b';' p (omega arith) (λ c q. q.2) h.0))
      (parse_pair-encode_pair p.0 p.1 h.0.0 h.0.1) (parse_segments-encode_pairs ps h.1)

encode_pairs_lacking : (ps : Values) → IsBytesPairs ps → All (Lacks b'&') (encode_pairs ps)
unfolding encode_pairs
encode_pairs_lacking [] h = tt
encode_pairs_lacking (p ∷ ps) h =
    (encode_pair_clean b'&' p (omega arith) (λ c q. q.0) h.0, encode_pairs_lacking ps h.1)

-- `ParseQuery` of an encoded list of names and values gives the list back, whatever bytes the
-- names and the values hold.
pub parse_query-encode : (ps : Values) → IsBytesPairs ps → parse_query (encode ps) ≡ some ps
unfolding parse_query encode
parse_query-encode [] h = unfold encode_pairs join split parse_segments in refl
parse_query-encode (p ∷ ps) h =
    rw
      (split-join b'&' (encode_pair p) (encode_pairs ps)
        (unfold encode_pairs in encode_pairs_lacking (p ∷ ps) h))
      (parse_segments-encode_pairs (p ∷ ps) h)
