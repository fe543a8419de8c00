-- ===== src/FilePush/Tests.antt =====
-- File pushes at concrete inputs.
use mathlib.Core.Option
use appx_forge.Base.{
  ◌≡◌, refl, sym, Bool, true, false, none, some, List, [], ◌∷◌, String, str_eq, All, if◌then◌else◌,
}
use appx_forge.Base.Int.{pos}
use appx_forge.Auth.{UrlCodec, Url, Values}
use appx_forge.FilePush.Cleaning.{
  Segments, clean, clean_onto, clean_step, back, finish, is_abs, join, dir_of,
}
use appx_forge.FilePush.Writer.{
  remove, mkdir_all, write_file, WriteOutside, FileEntry, Archive, is_valid_path, write_files,
  write_entries, write_entry, perform, write_tar,
}
use appx_forge.FilePush.Containment.{IsContained, write_files-IsContained, write_tar-IsContained}
use appx_forge.FilePush.Handler.{PushRequest, HandlerOutside, serve_http}
use appx_forge.FilePush.Guarding.{IsCodeDir, IsGuarded, serve_http-IsGuarded}

abbrev outside : WriteOutside
outside = record { succeeds = λ n. true; decode_base64 = λ s. some s }

abbrev pushed : List FileEntry
pushed =
    record { path = "src" ∷ ".." ∷ "app" ∷ "main.js" ∷ []; content = "x"; deletes = false }
    ∷ record { path = ".." ∷ "other" ∷ []; content = "x"; deletes = false }
    ∷ record { path = "." ∷ "metro.config.js" ∷ []; content = "x"; deletes = false }
    ∷ []

-- Of the three files the first is written; the others are refused.
pushed-ops :
    (write_files outside ("" ∷ "data" ∷ []) pushed).ops
    ≡ mkdir_all ("" ∷ "data" ∷ "app" ∷ [])
      ∷ write_file ("" ∷ "data" ∷ "app" ∷ "main.js" ∷ []) "x"
      ∷ []
unfolding write_files write_entries write_entry perform is_valid_path clean clean_onto clean_step
    back finish is_abs join dir_of
pushed-ops = refl

-- The path "." passes the check, and its deletion is that of the code directory itself.
dot-removed :
    (write_files outside
      ("" ∷ "data" ∷ [])
      (record { path = "." ∷ []; content = ""; deletes = true } ∷ [])).ops
    ≡ remove ("" ∷ "data" ∷ []) ∷ []
unfolding write_files write_entries write_entry perform is_valid_path clean clean_onto clean_step
    back finish is_abs join dir_of
dot-removed = refl

write_files-IsContained_example :
    All (IsContained ("" ∷ "data" ∷ [])) (write_files outside ("" ∷ "data" ∷ []) pushed).ops
write_files-IsContained_example = write_files-IsContained "data" [] refl outside pushed

abbrev archive : Archive
archive = record {
  header = true;
  entries =
      record { is_regular = true; name = "." ∷ "a" ∷ "b.js" ∷ []; content = "y" }
      ∷ record { is_regular = true; name = "" ∷ "etc" ∷ "passwd" ∷ []; content = "y" }
      ∷ [];
  intact = false;
}

write_tar-IsContained_example :
    All (IsContained ("" ∷ "data" ∷ [])) (write_tar outside ("" ∷ "data" ∷ []) archive).0.ops
write_tar-IsContained_example = write_tar-IsContained "data" [] refl outside archive

abbrev plain_codec : UrlCodec
plain_codec = record {
  Text = Url (Values (Unit {0}));
  Raw = Values (Unit {0});
  Others = Unit {0};
  Tag = Bool;
  parse_url = λ u. some u;
  show_url = λ u. u;
  parse_query = λ q. q;
  encode_query = λ q. q;
  mac = λ key path q. str_eq path key;
  tag_eq = λ a b. b;
  encode_hex = λ t. "01";
  decode_hex = λ s. some true;
  format_int = λ n. "9";
  parse_int = λ s. some (pos 9);
}

abbrev handler_outside : HandlerOutside
handler_outside = record {
  write = outside;
  message = λ e. "";
  resolve = λ id. if str_eq id "7" then some ("" ∷ "data" ∷ []) else none;
}

abbrev request : PushRequest (Url (Values (Unit {0})))
request = record {
  full_url = record {
    origin = "http://100.64.0.1:8090";
    path = "/v1/sandboxes/7/files";
    raw_query = record { expires = "9" ∷ []; sig = "01" ∷ []; others = tt };
  };
  path = "" ∷ "v1" ∷ "sandboxes" ∷ "7" ∷ "files" ∷ [];
  content_type = "application/json";
  is_empty = false;
  json = some pushed;
  archive = archive;
}

code_dirs : (id : String) (dir : Segments) → handler_outside.resolve id ≡ some dir → IsCodeDir dir
code_dirs id dir h = go (str_eq id "7") h
  where
    go : (b : Bool) → (if b then some ("" ∷ "data" ∷ []) else none) ≡ some dir → IsCodeDir dir
    go true e = record {
      top = "data";
      rest = [];
      at = sym (Option.some-injective _ _ e);
      neat = refl;
    }
    go false e = elim (Option.none-ne-some dir e) [ ]

serve_http-IsGuarded_example :
    IsGuarded plain_codec handler_outside "k" 5 request
      (serve_http plain_codec handler_outside "k" 5 request)
serve_http-IsGuarded_example =
    serve_http-IsGuarded plain_codec handler_outside request "k" 5 code_dirs
