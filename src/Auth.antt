-- ===== src/Auth.antt =====
-- shared-go/auth/hmac.go: signed URLs with an expiry. The texts of URLs and of their queries, and the
-- codecs of net/url, crypto/hmac, hex and strconv, are parameters; a query's values are those of the
-- two keys that the code touches, in order, beside the others.
pub mod Signing
pub mod Plain
mod Tests
use appx_forge.Base.Int.{ℤ, pos, ltb_ℤ}
use appx_forge.Base.{
  ℕ, ◌+◌, ◌≡◌, Bool, true, false, not, Option, none, some, List, [], ◌∷◌, String, Result, ok, err,
  ltb, str_eq, on_option, if◌then◌else◌,
}

pub record Values (Others : Type 0) : Type 0 where
  pub expires : List String
  pub sig : List String
  pub others : Others

-- A parsed URL; `origin` is what stands before the path, and anything else but the query.
pub record Url (Raw : Type 0) : Type 0 where
  pub origin : String
  pub path : String
  pub raw_query : Raw

pub record UrlCodec : Type 1 where
  pub Text : Type 0
  pub Raw : Type 0
  pub Others : Type 0
  pub Tag : Type 0
  pub parse_url : Text → Option (Url Raw)
  pub show_url : Url Raw → Text
  pub parse_query : Raw → Values Others
  pub encode_query : Values Others → Raw
  -- HMAC-SHA256 of the path and the query, under a key
  pub mac : String → String → Raw → Tag
  pub tag_eq : Tag → Tag → Bool
  pub encode_hex : Tag → String
  pub decode_hex : String → Option Tag
  pub format_int : ℤ → String
  pub parse_int : String → Option ℤ

-- `Values.Get`: the first value, or the empty text.
abbrev pub first : List String → String
first [] = ""
first (v ∷ vs) = v

pub data AuthErr : Type 0 where
  bad_url missing_sig missing_expires bad_expires expired bad_hex bad_signature : AuthErr

module _ (c : UrlCodec) where
  -- Instants and durations are in seconds, an instant from 1970 on.
  unfoldable pub sign_url : c.Text → String → ℕ → ℕ → Option c.Text
  sign_url raw_url key now expiry =
      on_option (c.parse_url raw_url)
        (λ u.
          let q = c.parse_query u.raw_query in
          let q' = record q { expires = c.format_int (pos (now + expiry)) ∷ [] } in
          let tag = c.mac key u.path (c.encode_query q') in
          some (
            c.show_url (record u {
              raw_query = c.encode_query (record q' { sig = c.encode_hex tag ∷ [] });
            })))
        none

  -- The last checks: the signature of the query without `sig`, and the URL without both.
  unfoldable pub verify_tag : Url c.Raw → Values c.Others → String → String → Result AuthErr c.Text
  verify_tag u q sig_hex key =
      let q' = record q { sig = [] } in
      on_option (c.decode_hex sig_hex)
        (λ actual.
          if not (c.tag_eq (c.mac key u.path (c.encode_query q')) actual)
          then err bad_signature
          else ok
              (c.show_url (record u { raw_query = c.encode_query (record q' { expires = [] }) })))
        (err bad_hex)

  unfoldable pub verify_query : Url c.Raw → Values c.Others → String → ℕ → Result AuthErr c.Text
  verify_query u q key now =
      if str_eq (first q.sig) ""
      then err missing_sig
      else if str_eq (first q.expires) ""
      then err missing_expires
      else on_option (c.parse_int (first q.expires))
          (λ expires.
            if ltb_ℤ expires (pos now) then err expired else verify_tag u q (first q.sig) key)
          (err bad_expires)

  unfoldable pub verify_url : c.Text → String → ℕ → Result AuthErr c.Text
  verify_url signed_url key now =
      on_option (c.parse_url signed_url) (λ u. verify_query u (c.parse_query u.raw_query) key now)
        (err bad_url)
