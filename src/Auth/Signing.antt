-- ===== src/Auth/Signing.antt =====
-- What a signed URL is good for.
use appx_forge.Base.{
  ℕ, ◌+◌, ◌≤◌, ◌<◌, ◌≡◌, refl, ◌∙◌, Bool, true, false, not, Option, none, some, List, [], ◌∷◌,
  String, Result, ok, err, str_eq, arith, on_option, if◌then◌else◌,
}
use appx_forge.Base.Int.{ℤ, pos, ltb_ℤ, ◌≤ℤ◌}
use appx_forge.Auth.{
  UrlCodec, Url, Values, AuthErr, expired, first, sign_url, verify_tag, verify_query, verify_url,
}

-- What the packages promise: the values of a query, with any `expires` and `sig`, are read back from
-- their encoding; a tag equals itself; the code of a message is read back from its hex text, which is
-- not empty; and so is a number that an int64 holds, from its decimal text.
pub record IsCodec (c : UrlCodec) : Type 0 where
  pub query :
      (raw : c.Raw) (expires sig : List String)
      → c.parse_query (c.encode_query (record (c.parse_query raw) { expires = expires; sig = sig }))
        ≡ record (c.parse_query raw) { expires = expires; sig = sig }
  pub same : (t : c.Tag) → c.tag_eq t t ≡ true
  pub hex :
      (key path : String) (raw : c.Raw)
      → c.decode_hex (c.encode_hex (c.mac key path raw)) ≡ some (c.mac key path raw)
  pub hex_text :
      (key path : String) (raw : c.Raw) → str_eq (c.encode_hex (c.mac key path raw)) "" ≡ false
  pub int : (n : ℕ) → n < 9223372036854775808 → c.parse_int (c.format_int (pos n)) ≡ some (pos n)
  pub int_text : (n : ℕ) → n < 9223372036854775808 → str_eq (c.format_int (pos n)) "" ≡ false

-- A URL that reads back from its text, whatever values its query is made of. A URL with a scheme, a
-- host and a path from the root does.
abbrev pub IsReadable : (c : UrlCodec) → Url c.Raw → Type 0
IsReadable c u =
    (q : Values c.Others)
    → c.parse_url (c.show_url (record u { raw_query = c.encode_query q }))
      ≡ some (record u { raw_query = c.encode_query q })

module _ (c : UrlCodec) (codec : IsCodec c) where
  -- The URL without the two parameters.
  abbrev pub stripped : Url c.Raw → c.Text
  stripped u =
      let q = c.parse_query u.raw_query in
      c.show_url (record u { raw_query = c.encode_query (record q { expires = []; sig = [] }) })

  -- The values that are signed, and those of the signed URL.
  abbrev dated : Values c.Others → ℕ → List String → Values c.Others
  dated q e sig = record { expires = c.format_int (pos e) ∷ []; sig = sig; others = q.others }

  abbrev tag_of : Url c.Raw → String → ℕ → c.Tag
  tag_of u key e = c.mac key u.path (c.encode_query (dated (c.parse_query u.raw_query) e []))

  abbrev signed_of : Url c.Raw → String → ℕ → Url c.Raw
  signed_of u key e = record u {
    raw_query =
        c.encode_query (dated (c.parse_query u.raw_query) e (c.encode_hex (tag_of u key e) ∷ []));
  }

  sign-eq :
      (raw_url : c.Text) (key : String) (now expiry : ℕ) (u : Url c.Raw)
      → c.parse_url raw_url ≡ some u
      → (c.parse_query u.raw_query).sig ≡ []
      → sign_url c raw_url key now expiry ≡ some (c.show_url (signed_of u key (now + expiry)))
  unfolding sign_url
  sign-eq raw_url key now expiry u parses unsigned = rw (parses, unsigned) refl

  tag-accepted :
      (u : Url c.Raw) (key : String) (e : ℕ)
      → verify_tag c
          (signed_of u key e)
          (dated (c.parse_query u.raw_query) e (c.encode_hex (tag_of u key e) ∷ []))
          (c.encode_hex (tag_of u key e))
          key
        ≡ ok (stripped u)
  unfolding verify_tag
  tag-accepted u key e = rw (codec.hex _ _ _, codec.same (tag_of u key e)) refl

  verify-eq :
      (u : Url c.Raw) (key : String) (e later : ℕ)
      → IsReadable c u
      → e < 9223372036854775808
      → verify_url c (c.show_url (signed_of u key e)) key later
        ≡ (if ltb_ℤ (pos e) (pos later) then err expired else ok (stripped u))
  unfolding verify_url verify_query
  verify-eq u key e later readable lt =
      rw
        (
          readable (dated (c.parse_query u.raw_query) e (c.encode_hex (tag_of u key e) ∷ [])),
          codec.query u.raw_query (c.format_int (pos e) ∷ []) (c.encode_hex (tag_of u key e) ∷ []),
          codec.hex_text key u.path (c.encode_query (dated (c.parse_query u.raw_query) e [])),
          codec.int_text e lt,
          codec.int e lt,
          tag-accepted u key e,
        )
        refl

  -- A URL that parses and has no `sig` parameter is signed, and what comes of it verifies under the
  -- same key at every instant up to the expiry, in seconds, giving the URL without an `expires`
  -- parameter; after the expiry it is refused as expired. The URL must read back from its text with
  -- any query, and the instant of the expiry must be an int64 of seconds.
  pub sign_url-verify_url :
      (raw_url : c.Text) (key : String) (now expiry : ℕ) (u : Url c.Raw)
      → c.parse_url raw_url ≡ some u
      → (c.parse_query u.raw_query).sig ≡ []
      → IsReadable c u
      → now + expiry < 9223372036854775808
      → (signed : c.Text) × (sign_url c raw_url key now expiry ≡ some signed)
        × ((later : ℕ) → later ≤ now + expiry → verify_url c signed key later ≡ ok (stripped u))
        × ((later : ℕ) → now + expiry < later → verify_url c signed key later ≡ err expired)
  sign_url-verify_url raw_url key now expiry u parses unsigned readable range = (
    c.show_url (signed_of u key (now + expiry)),
    sign-eq raw_url key now expiry u parses unsigned,
    λ later le. verify-eq u key (now + expiry) later readable range ∙ ground (arith, le),
    λ later lt. verify-eq u key (now + expiry) later readable range ∙ ground (arith, lt),
  )

-- Where a check passed.
option-ok :
    {A R : Type 0} {r : R} (e : AuthErr) (o : Option A) (f : A → Result AuthErr R)
    → on_option o f (err e) ≡ ok r
    → (a : A) × (o ≡ some a) × (f a ≡ ok r)
option-ok e none f h = ground (arith, h)
option-ok e (some a) f h = (a, refl, h)

test-ok :
    {R : Type 0} {r : R} (e : AuthErr) (b : Bool) (x : Result AuthErr R)
    → (if b then err e else x) ≡ ok r
    → (b ≡ false) × (x ≡ ok r)
test-ok e true x h = ground (arith, h)
test-ok e false x h = (refl, h)

-- A URL that verifies under a key carries, in its first `sig` parameter, a tag that counts as equal
-- to the code of its path and of its query without `sig` under that key, and its first `expires`
-- parameter is a number that is not before the instant of the check.
pub verify_url_sound :
    (c : UrlCodec) (signed_url result : c.Text) (key : String) (now : ℕ)
    → verify_url c signed_url key now ≡ ok result
    → (u : Url c.Raw) × (tag : c.Tag) × (expires : ℤ) × (c.parse_url signed_url ≡ some u)
      × (c.decode_hex (first (c.parse_query u.raw_query).sig) ≡ some tag)
      × (c.tag_eq
            (c.mac key u.path (c.encode_query (record (c.parse_query u.raw_query) { sig = [] })))
            tag
          ≡ true)
      × (c.parse_int (first (c.parse_query u.raw_query).expires) ≡ some expires)
      × (pos now ≤ℤ expires)
unfolding verify_url verify_query verify_tag
verify_url_sound c signed_url result key now h =
    let (u, parsed, h1) = option-ok _ (c.parse_url signed_url) _ h in
    let q = c.parse_query u.raw_query in
    let (has_sig, h2) = test-ok _ (str_eq (first q.sig) "") _ h1 in
    let (has_expires, h3) = test-ok _ (str_eq (first q.expires) "") _ h2 in
    let (expires, number, h4) = option-ok _ (c.parse_int (first q.expires)) _ h3 in
    let (fresh, h5) = test-ok _ (ltb_ℤ expires (pos now)) _ h4 in
    let (tag, decoded, h6) = option-ok _ (c.decode_hex (first q.sig)) _ h5 in
    let (matches, h7) =
      test-ok _ (not (c.tag_eq (c.mac key u.path (c.encode_query (record q { sig = [] }))) tag)) _
        h6 in
    (u, tag, expires, parsed, decoded, ground (arith, matches), number, ground (arith, fresh))
