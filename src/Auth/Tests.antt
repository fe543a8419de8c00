-- ===== src/Auth/Tests.antt =====
-- The theorems on signed URLs with a codec whose texts are the parsed values.
use appx_forge.Base.{ℕ, ◌≤◌, ◌<◌, ◌≡◌, refl, Bool, true, some, [], ◌∷◌, ok, err, arith}
use appx_forge.Base.Int.{ℤ, pos, ◌≤ℤ◌}
use appx_forge.Auth.{Url, Values, expired, sign_url, verify_url, verify_query, verify_tag, first}
use appx_forge.Auth.Plain.{tally, plain_codec, plain_codec-IsCodec}
use appx_forge.Auth.Signing.{sign_url-verify_url, verify_url_sound, stripped}

abbrev files_url : Url (Values (Unit {0}))
files_url = record {
  origin = "http://100.64.0.1:8090";
  path = "/v1/sandboxes/7/files";
  raw_query = record { expires = []; sig = []; others = tt };
}

abbrev Signed : Type 0
Signed =
    (signed : Url (Values (Unit {0}))) × (sign_url plain_codec files_url "k" 100 60 ≡ some signed)
    × ((later : ℕ)
        → later ≤ 160
        → verify_url plain_codec signed "k" later
          ≡ ok (stripped plain_codec plain_codec-IsCodec files_url))
    × ((later : ℕ) → 160 < later → verify_url plain_codec signed "k" later ≡ err expired)

sign_url-verify_url_example : Signed
sign_url-verify_url_example =
    sign_url-verify_url plain_codec plain_codec-IsCodec files_url "k" 100 60 files_url refl refl
      (λ q. refl) (omega arith)

abbrev dated_url : Url (Values (Unit {0}))
dated_url = record files_url {
  raw_query = record { expires = tally 5 ∷ []; sig = "00" ∷ []; others = tt };
}

verified :
    verify_url plain_codec dated_url "k" 4
    ≡ ok (record files_url { raw_query = record { expires = []; sig = []; others = tt } })
unfolding verify_url verify_query verify_tag
verified = refl

verify_url_sound_example :
    (u : Url (Values (Unit {0}))) × (tag : Bool) × (expires : ℤ) × (plain_codec.parse_url dated_url
      ≡ some u)
    × (plain_codec.decode_hex (first u.raw_query.sig) ≡ some tag)
    × (plain_codec.tag_eq (plain_codec.mac "k" u.path (record u.raw_query { sig = [] })) tag ≡ true)
    × (plain_codec.parse_int (first u.raw_query.expires) ≡ some expires)
    × (pos 4 ≤ℤ expires)
verify_url_sound_example = verify_url_sound plain_codec dated_url files_url "k" 4 verified
