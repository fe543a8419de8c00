-- ===== src/Auth/Plain.antt =====
-- A codec for the tests, whose texts are the parsed values.
use text.Mathlib.TextLemmas.{length-append}
use Prim.Native.String.{count}
use appx_forge.Base.{
  ℕ, zero, suc, ◌-◌, ◌≡◌, refl, sym, ap, ◌∙◌, Bool, true, false, Bool-cases, inl, inr, none, some,
  String, str_eq, str_eq_iff, str_append, arith, if◌then◌else◌, not, ◌||◌, ◌&&◌,
}
use appx_forge.Base.Int.{pos, pos_part}
use appx_forge.Auth.{UrlCodec, Url, Values}
use appx_forge.Auth.Signing.{IsCodec}

-- Numbers as tallies.
abbrev pub tally : ℕ → String
tally zero = "1"
tally (suc n) = str_append "1" (tally n)

count-tally : (n : ℕ) → count (tally n) ≡ suc n
count-tally zero = refl
count-tally (suc n) = length-append "1" (tally n) ∙ omega (arith, count-tally n)

abbrev pub plain_codec : UrlCodec
plain_codec = record {
  Text = Url (Values (Unit {0}));
  Raw = Values (Unit {0});
  Others = Unit {0};
  Tag = Bool;
  parse_url = λ u. some u;
  show_url = λ u. u;
  parse_query = λ q. q;
  encode_query = λ q. q;
  mac = λ key path q. str_eq path key;
  tag_eq = λ a b. (a && b) || not (a || b);
  encode_hex = λ t. if t then "01" else "00";
  decode_hex = λ s. if str_eq s "01" then some true else if str_eq s "00" then some false else none;
  format_int = λ n. tally (pos_part n);
  parse_int = λ s. some (pos (count s - 1));
}

tally_text : (n : ℕ) → str_eq (tally n) "" ≡ false
tally_text n = elim (Bool-cases (str_eq (tally n) "")) [
  | inl e ↦ ground (arith, sym (count-tally n) ∙ ap count ((str_eq_iff (tally n) "").0 e))
  | inr e ↦ e
]

hex_back : (t : Bool) → plain_codec.decode_hex (plain_codec.encode_hex t) ≡ some t
hex_back true = refl
hex_back false = refl

hex_text : (t : Bool) → str_eq (plain_codec.encode_hex t) "" ≡ false
hex_text true = refl
hex_text false = refl

pub plain_codec-IsCodec : IsCodec plain_codec
plain_codec-IsCodec = record {
  query = λ raw e s. refl;
  same = λ t. ground arith;
  hex = λ key path raw. hex_back (plain_codec.mac key path raw);
  hex_text = λ key path raw. hex_text (plain_codec.mac key path raw);
  int = λ n lt.
      ap (λ (k : ℕ). some (pos (k - 1))) (count-tally n)
      ∙ ap (λ (k : ℕ). some (pos k)) (omega arith);
  int_text = λ n lt. tally_text n;
}
