-- ===== src/Snapshot/RefKey.antt =====
-- A stored reference is what its key says. internal/bb/awsbrowser/snapshot/model.go.
use binbox_cli.Base.{◌≡◌, refl, true, some, any, arith, All, ℕ_discrete, holds_iff}
use binbox_cli.Text.{Text, text_dec, ◌=?◌}
use binbox_cli.Url.{encode}
use binbox_cli.Url.RoundTrip.{IsBytes, parse_query-encode}
use binbox_cli.Snapshot.{
  ResourceRef, valid_ref, ref_values, ref_key, name_count, values_of, read_ref, if_canonical,
  parse_resource_ref_key,
}

-- Every field of the reference is a list of bytes.
abbrev pub HasBytes : ResourceRef → Type 0
HasBytes ref =
    IsBytes ref.partition
    × IsBytes ref.account_id
    × IsBytes ref.region
    × IsBytes ref.type
    × IsBytes ref.id

ref_values-IsBytes :
    (ref : ResourceRef) → HasBytes ref → All (λ p. IsBytes p.0 × IsBytes p.1) (ref_values ref)
ref_values-IsBytes ref h = (
  (omega arith, h.1),
  ((omega arith, h.4), ((omega arith, h.0), ((omega arith, h.2), ((omega arith, h.3), tt)))),
)

name_count-ref_values : (ref : ResourceRef) → name_count (ref_values ref) ≡ 5
unfolding name_count any text_dec ℕ_discrete
name_count-ref_values ref = refl

read_ref-ref_values : (ref : ResourceRef) → read_ref (ref_values ref) ≡ some ref
unfolding read_ref values_of text_dec ℕ_discrete
read_ref-ref_values ref = refl

=?-refl : (s : Text) → (s =? s) ≡ true
=?-refl s = (holds_iff (text_dec s s)).1 refl

-- A valid reference of byte strings has a key, and `ParseResourceRefKey` of this key is the
-- reference.
pub parse_resource_ref_key-ref_key :
    (ref : ResourceRef)
    → HasBytes ref
    → valid_ref ref ≡ true
    → (key : Text) × (ref_key ref ≡ some key) × (parse_resource_ref_key key ≡ some ref)
unfolding ref_key parse_resource_ref_key if_canonical
parse_resource_ref_key-ref_key ref h v =
    let key : Text = encode (ref_values ref) in
    let made : ref_key ref ≡ some key = rw (v, ref_key) refl in
    (
      key,
      made,
      rw
          (
            parse_query-encode (ref_values ref) (ref_values-IsBytes ref h),
            parse_resource_ref_key,
            name_count-ref_values ref,
            read_ref-ref_values ref,
            if_canonical,
            made,
          )
          (rw (=?-refl key) refl),
    )
