-- ===== src/FilePush/Guarding.antt =====
-- The endpoint as a whole: who may push, and to where.
use appx_forge.Base.{
  ℕ, ◌≡◌, refl, Bool, true, false, Bool-cases, Option-cases, Result-cases, inl, inr, Option, none,
  some, List, [], ◌∷◌, String, str_eq, ok, any, All, on_option, if◌then◌else◌, ◌⊎◌,
}
use text.Mathlib.Text.{starts_with}
use appx_forge.Auth.{UrlCodec, verify_url}
use appx_forge.FilePush.Cleaning.{Segments, is_odd}
use appx_forge.FilePush.Writer.{Push, FileEntry, write_files, write_tar}
use appx_forge.FilePush.Containment.{IsContained, write_files-IsContained, write_tar-IsContained}
use appx_forge.FilePush.Handler.{
  PushRequest, PushResponse, HandlerOutside, error_response, handle_json, handle_tar, tar_response,
  dispatch, serve_http, extract_sandbox_id,
}

-- The code directory of a sandbox: absolute, at least one segment deep, and in order.
pub record IsCodeDir (p : Segments) : Type 0 where
  pub top : String
  pub rest : Segments
  pub at : p ≡ "" ∷ top ∷ rest
  pub neat : any is_odd (top ∷ rest) ≡ false

-- The calls of the file system that an answer tells of stay inside the code directory of the sandbox
-- that the request's path names, and there are none unless its URL verified.
pub record IsGuarded (c : UrlCodec) (out : HandlerOutside) (secret : String) (now : ℕ)
    (r : PushRequest c.Text) (answer : PushResponse) : Type 0 where
  pub verified :
      (answer.push.ops ≡ []) ⊎ ((t : c.Text) × (verify_url c r.full_url secret now ≡ ok t))
  pub inside :
      (answer.push.ops ≡ [])
      ⊎ ((dir : Segments) × (out.resolve (extract_sandbox_id r.path) ≡ some dir)
          × All (IsContained dir) answer.push.ops)

module _ (c : UrlCodec) (out : HandlerOutside) (r : PushRequest c.Text) where
  if-All :
      (dir : Segments) (b : Bool) (x y : PushResponse)
      → All (IsContained dir) x.push.ops
      → All (IsContained dir) y.push.ops
      → All (IsContained dir) (if b then x else y).push.ops
  if-All dir true x y h k = h
  if-All dir false x y h k = k

  json-All :
      (dir : Segments)
      → IsCodeDir dir
      → (files : Option (List FileEntry))
      → All
          (IsContained dir)
          (on_option files
            (λ fs. record { status = 200; message = ""; push = write_files out.write dir fs })
            (error_response 400 "invalid JSON body")).push.ops
  unfolding error_response
  json-All dir code none = tt
  json-All dir code (some fs) =
      rw code.at (write_files-IsContained code.top code.rest code.neat out.write fs)

  tar-All :
      (dir : Segments) (z : Push × Bool)
      → All (IsContained dir) z.0.ops
      → All (IsContained dir) (tar_response c out z).push.ops
  unfolding tar_response
  tar-All dir (push, true) h = h
  tar-All dir (push, false) h = h

  dispatch-All :
      (dir : Segments) → IsCodeDir dir → All (IsContained dir) (dispatch c out r dir).push.ops
  unfolding dispatch handle_json handle_tar error_response tar_response
  dispatch-All dir code =
      if-All dir (starts_with r.content_type "application/json") _ _
        (if-All dir r.is_empty _ _ tt (json-All dir code r.json))
        (if-All dir (starts_with r.content_type "application/x-tar") _ _
          (if-All dir r.is_empty _ _ tt (
            tar-All dir (write_tar out.write dir r.archive) (
              rw code.at (write_tar-IsContained code.top code.rest code.neat out.write r.archive))))
          tt)

  -- Whatever a request to the file push endpoint holds, at whatever instant: if a call of the file
  -- system is made, the request's URL verified under the secret, and every such call is on the code
  -- directory that the executor gives for the sandbox in the request's path or on a path under it,
  -- which is no protected file's, or makes the directories above such a path. The directories that
  -- it gives are absolute, at least one segment deep, and without "", "." and "..".
  pub serve_http-IsGuarded :
      (secret : String) (now : ℕ)
      → ((id : String) (dir : Segments) → out.resolve id ≡ some dir → IsCodeDir dir)
      → IsGuarded c out secret now r (serve_http c out secret now r)
  unfolding serve_http error_response
  serve_http-IsGuarded secret now dirs = elim (Result-cases (verify_url c r.full_url secret now)) [
    | inr (e, refused) ↦ rw refused (record { verified = inl refl; inside = inl refl })
    | inl (t, verified) ↦ rw verified (elim (Bool-cases (str_eq (extract_sandbox_id r.path) "")) [
      | inl bad ↦ rw bad (record { verified = inl refl; inside = inl refl })
      | inr named ↦ rw named (elim (Option-cases (out.resolve (extract_sandbox_id r.path))) [
        | inl away ↦ rw away (record { verified = inl refl; inside = inl refl })
        | inr (dir, here) ↦ rw here (record {
          verified = inr (t, verified);
          inside = inr (dir, here, dispatch-All dir (dirs _ dir here));
        })
      ])
    ])
  ]
