-- ===== src/FilePush/Containment.antt =====
-- Every call of the file system stays inside the code directory.
use appx_forge.Base.{
  ◌≡◌, refl, sym, ap, ◌∙◌, Bool, true, false, not, ◌&&◌, Bool-cases, Option-cases, inl, inr, List,
  [], ◌∷◌, ◌++◌, String, any, length, arith, All, All-append,
}
use appx_forge.FilePush.Cleaning.{
  Segments, is_abs, is_dot_dot, is_odd, is_empty_text, clean, finish, join, dir_of,
}
use appx_forge.FilePush.Joining.{below, below-plain, join-below}
use appx_forge.FilePush.Writer.{
  FsOp, remove, mkdir_all, write_file, create, copy, Push, no_push, WriteOutside, perform,
  is_protected, is_valid_path, FileEntry, write_entry, write_entries, write_files, TarEntry,
  Archive, extract_entry, extract_entries, write_tar,
}

-- A path below `dir`: its segments after `dir` are names of entries, and it is no protected file.
pub record IsInside (dir p : Segments) : Type 0 where
  pub rest : Segments
  pub at : p ≡ dir ++ rest
  pub plain : any is_odd rest ≡ false
  pub free : is_protected rest ≡ false

-- The directories of a path inside may be made, and nothing else is touched.
abbrev pub IsContained : Segments → FsOp → Type 0
IsContained dir (remove p) = IsInside dir p
IsContained dir (mkdir_all p) = (q : Segments) × IsInside dir q × (p ≡ dir_of q)
IsContained dir (write_file p text) = IsInside dir p
IsContained dir (create p) = IsInside dir p
IsContained dir (copy p text) = IsInside dir p

relative-clean : (p : Segments) → is_abs p ≡ false → clean p ≡ finish false (below p)
unfolding clean
relative-clean p h = rw h refl

finish-dots : (xs : Segments) → any is_dot_dot (finish false xs) ≡ any is_dot_dot xs
unfolding finish
finish-dots [] = refl
finish-dots (x ∷ xs) = refl

finish-protected : (xs : Segments) → is_protected (finish false xs) ≡ is_protected xs
unfolding finish
finish-protected [] = refl
finish-protected (x ∷ xs) = refl

four :
    (a b c e : Bool)
    → (not a && not b && not c && not e) ≡ true
    → (a ≡ false) × (b ≡ false) × (c ≡ false) × (e ≡ false)
four a b c e h = (ground (arith, h), ground (arith, h), ground (arith, h), ground (arith, h))

-- A path that passes the check has no ".." left and is not protected.
valid-below :
    (p : Segments)
    → is_valid_path p ≡ true
    → (is_empty_text p ≡ false)
      × (any is_dot_dot (below p) ≡ false)
      × (is_protected (below p) ≡ false)
unfolding is_valid_path
valid-below p h =
    let (some_text, relative, low, free) =
      four (is_empty_text p) (is_abs p) (any is_dot_dot (clean p)) (is_protected (clean p)) h in
    let e = relative-clean p relative in
    (
      some_text,
      sym (finish-dots (below p)) ∙ sym (ap (any is_dot_dot) e) ∙ low,
      sym (finish-protected (below p)) ∙ sym (ap is_protected e) ∙ free,
    )

module _ (d : String) (ds : Segments) (neat : any is_odd (d ∷ ds) ≡ false) where
  abbrev root : Segments
  root = "" ∷ d ∷ ds

  abbrev Holds : (Push → Push) → Type 0
  Holds f = (st : Push) → All (IsContained root) st.ops → All (IsContained root) (f st).ops

  pub valid-IsInside : (p : Segments) → is_valid_path p ≡ true → IsInside root (join root p)
  valid-IsInside p h =
      let (some_text, low, free) = valid-below p h in
      record {
        rest = below p;
        at = join-below d ds p neat some_text low;
        plain = below-plain p low;
        free = free;
      }

  -- A step of the log.
  perform-All :
      (out : WriteOutside) (op : FsOp) (done missed : Push → Push) (st : Push)
      → IsContained root op
      → Holds done
      → Holds missed
      → All (IsContained root) st.ops
      → All (IsContained root) (perform out op done missed st).ops
  unfolding perform
  perform-All out op done missed st c hd hm h = elim (Bool-cases (out.succeeds (length st.ops))) [
    | inl e ↦
        rw e (hd (record st { ops = st.ops ++ op ∷ [] }) (All-append _ st.ops (op ∷ []) h (c, tt)))
    | inr e ↦
        rw e (hm (record st { ops = st.ops ++ op ∷ [] }) (All-append _ st.ops (op ∷ []) h (c, tt)))
  ]

  entry-All : (out : WriteOutside) (f : FileEntry) → Holds (write_entry out root f)
  unfolding write_entry
  entry-All out f st h = elim (Bool-cases (is_valid_path f.path)) [
    | inr bad ↦ rw bad h
    | inl good ↦ rw good (elim (Bool-cases f.deletes) [
      | inl del ↦
          rw del (perform-All out _ _ _ st (valid-IsInside f.path good) (λ s k. k) (λ s k. k) h)
      | inr put ↦ rw put (elim (Option-cases (out.decode_base64 f.content)) [
        | inl e ↦ rw e h
        | inr (text, e) ↦ rw e (
            perform-All out _ _ _ st (_, valid-IsInside f.path good, refl)
              (λ s k. perform-All out _ _ _ s (valid-IsInside f.path good) (λ s k. k) (λ s k. k) k)
              (λ s k. k) h)
      ])
    ])
  ]

  entries-All : (out : WriteOutside) (files : List FileEntry) → Holds (write_entries out root files)
  unfolding write_entries
  entries-All out [] st h = h
  entries-All out (f ∷ rest) st h = entries-All out rest _ (entry-All out f st h)

  -- Whatever files a push of JSON names and however the calls of the file system end, each call is
  -- on a path that is the code directory's followed by names other than "", "." and "..", and not
  -- the one name of a protected file, or makes the directories above such a path. The code
  -- directory is an absolute path of at least one segment, all of them such names.
  pub write_files-IsContained :
      (out : WriteOutside) (files : List FileEntry)
      → All (IsContained root) (write_files out root files).ops
  unfolding write_files
  write_files-IsContained out files = entries-All out files no_push tt

  extract-All : (out : WriteOutside) (e : TarEntry) → Holds (extract_entry out root e)
  unfolding extract_entry
  extract-All out e st h = elim (Bool-cases e.is_regular) [
    | inr skipped ↦ rw skipped h
    | inl regular ↦ rw regular (elim (Bool-cases (is_valid_path (clean e.name))) [
      | inr bad ↦ rw bad h
      | inl good ↦ rw good (
          perform-All out _ _ _ st (_, valid-IsInside (clean e.name) good, refl)
            (λ s k.
              perform-All out _ _ _ s (valid-IsInside (clean e.name) good)
                (λ s k.
                  perform-All out _ _ _ s (valid-IsInside (clean e.name) good) (λ s k. k) (λ s k. k)
                    k)
                (λ s k. k) k)
            (λ s k. k) h)
    ])
  ]

  extracts-All : (out : WriteOutside) (es : List TarEntry) → Holds (extract_entries out root es)
  unfolding extract_entries
  extracts-All out [] st h = h
  extracts-All out (e ∷ rest) st h = extracts-All out rest _ (extract-All out e st h)

  -- The same of an archive: whatever its entries are called, and whether or not it can be read to
  -- its end, each call of the file system is on a path inside the code directory, or makes the
  -- directories above such a path.
  pub write_tar-IsContained :
      (out : WriteOutside) (a : Archive) → All (IsContained root) (write_tar out root a).0.ops
  unfolding write_tar
  write_tar-IsContained out a = elim (Bool-cases a.header) [
    | inl h ↦ rw h (extracts-All out a.entries no_push tt)
    | inr h ↦ rw h tt
  ]
