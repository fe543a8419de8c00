-- ===== src/FilePush/Writer.antt =====
-- agent/internal/filepush/writer.go. The calls of the file system are a log; whether the n-th of them
-- succeeds is an argument.
use appx_forge.Base.{
  ℕ, Bool, true, false, not, ◌&&◌, ◌||◌, Option, List, [], ◌∷◌, ◌++◌, String, str_eq, any, length,
  if◌then◌else◌, on_option,
}
use appx_forge.FilePush.Cleaning.{Segments, is_abs, is_dot_dot, is_empty_text, clean, join, dir_of}

pub data FsOp : Type 0 where
  remove : Segments → FsOp
  mkdir_all : Segments → FsOp
  write_file : Segments → String → FsOp
  create : Segments → FsOp
  copy : Segments → String → FsOp

-- The log, and the WriteResult so far.
pub record Push : Type 0 where
  pub ops : List FsOp
  pub written : List Segments
  pub failures : List Segments

abbrev pub no_push : Push
no_push = record { ops = []; written = []; failures = [] }

-- What lies outside: the file system's answers, and base64.
pub record WriteOutside : Type 0 where
  pub succeeds : ℕ → Bool
  pub decode_base64 : String → Option String

abbrev pub fail_path : Segments → Push → Push
fail_path p st = record st { failures = st.failures ++ p ∷ [] }

abbrev pub write_path : Segments → Push → Push
write_path p st = record st { written = st.written ++ p ∷ [] }

-- One call, and the two ways on.
unfoldable pub perform : WriteOutside → FsOp → (Push → Push) → (Push → Push) → Push → Push
perform out op done missed st =
    let st' = record st { ops = st.ops ++ op ∷ [] } in
    if out.succeeds (length st.ops) then done st' else missed st'

abbrev pub is_protected : Segments → Bool
is_protected [] = false
is_protected (s ∷ []) =
    str_eq s "metro.config.js"
    || str_eq s "metro.config.ts"
    || str_eq s "metro.config.cjs"
    || str_eq s "metro.config.mjs"
is_protected (s ∷ t ∷ rest) = false

unfoldable pub is_valid_path : Segments → Bool
is_valid_path p =
    not (is_empty_text p)
    && not (is_abs p)
    && not (any is_dot_dot (clean p))
    && not (is_protected (clean p))

pub record FileEntry : Type 0 where
  pub path : Segments
  pub content : String
  pub deletes : Bool

module _ (out : WriteOutside) (code_dir : Segments) where
  unfoldable pub write_entry : FileEntry → Push → Push
  write_entry f st =
      let full_path = join code_dir f.path in
      let missed = fail_path f.path in
      let done = write_path f.path in
      if not (is_valid_path f.path)
      then missed st
      else if f.deletes
      then perform out (remove full_path) done missed st
      else on_option (out.decode_base64 f.content)
          (λ content.
            perform out (mkdir_all (dir_of full_path))
              (perform out (write_file full_path content) done missed) missed st)
          (missed st)

  unfoldable pub write_entries : List FileEntry → Push → Push
  write_entries [] st = st
  write_entries (f ∷ rest) st = write_entries rest (write_entry f st)

  unfoldable pub write_files : List FileEntry → Push
  write_files files = write_entries files no_push

-- An entry of an archive; what is no regular file is passed over.
pub record TarEntry : Type 0 where
  pub is_regular : Bool
  pub name : Segments
  pub content : String

-- What the readers of gzip and tar make of the body: `header` is whether the stream opens, `intact`
-- whether the entries end in the archive's end and not in an error.
pub record Archive : Type 0 where
  pub header : Bool
  pub entries : List TarEntry
  pub intact : Bool

module _ (out : WriteOutside) (code_dir : Segments) where
  unfoldable pub extract_entry : TarEntry → Push → Push
  extract_entry e st =
      let name = clean e.name in
      let full_path = join code_dir name in
      let missed = fail_path name in
      if not e.is_regular
      then st
      else if not (is_valid_path name)
      then missed st
      else perform out (mkdir_all (dir_of full_path))
          (perform out (create full_path)
            (perform out (copy full_path e.content) (write_path name) missed) missed)
          missed st

  unfoldable pub extract_entries : List TarEntry → Push → Push
  extract_entries [] st = st
  extract_entries (e ∷ rest) st = extract_entries rest (extract_entry e st)

  -- The result, and whether there was an error.
  unfoldable pub write_tar : Archive → Push × Bool
  write_tar a =
      if not a.header then (no_push, true) else (extract_entries a.entries no_push, not a.intact)
