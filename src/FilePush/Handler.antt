-- ===== src/FilePush/Handler.antt =====
-- agent/internal/filepush/handler.go, with the verification of auth and the executor's CodeDir.
use text.Mathlib.Text.{starts_with}
use appx_forge.Base.{
  ℕ, Bool, true, false, ◌&&◌, Option, List, [], ◌∷◌, String, str_eq, on_result, on_option,
  if◌then◌else◌,
}
use appx_forge.Auth.{UrlCodec, AuthErr, verify_url}
use appx_forge.FilePush.Cleaning.{Segments, is_abs}
use appx_forge.FilePush.Writer.{
  Push, no_push, WriteOutside, FileEntry, Archive, write_files, write_tar,
}

-- `full_url` is the scheme, the host and the request's URI put together; `json` and `archive` are what
-- the decoders make of the body, `none` for a body that is no such JSON.
pub record PushRequest (Text : Type 0) : Type 0 where
  pub full_url : Text
  pub path : Segments
  pub content_type : String
  pub is_empty : Bool
  pub json : Option (List FileEntry)
  pub archive : Archive

-- The status of the answer, its message where it is an error, and what was done to the files.
pub record PushResponse : Type 0 where
  pub status : ℕ
  pub message : String
  pub push : Push

unfoldable pub error_response : ℕ → String → PushResponse
error_response status message = record { status = status; message = message; push = no_push }

abbrev tail_of : Segments → Segments
tail_of [] = []
tail_of (s ∷ rest) = rest

abbrev id_in : Segments → String
id_in (v ∷ kind ∷ id ∷ files ∷ rest) =
    if str_eq v "v1" && str_eq kind "sandboxes" && str_eq files "files" then id else ""
id_in _ = ""

-- The leading "/" is trimmed first.
unfoldable pub extract_sandbox_id : Segments → String
extract_sandbox_id p = id_in (if is_abs p then tail_of p else p)

-- `message` is the text of an error of the verification.
pub record HandlerOutside : Type 0 where
  pub write : WriteOutside
  pub message : AuthErr → String
  pub resolve : String → Option Segments

module _ (c : UrlCodec) (out : HandlerOutside) where
  unfoldable pub handle_json : PushRequest c.Text → Segments → PushResponse
  handle_json r code_dir =
      if r.is_empty
      then error_response 400 "empty request body"
      else on_option r.json
          (λ files. record {
            status = 200;
            message = "";
            push = write_files out.write code_dir files;
          })
          (error_response 400 "invalid JSON body")

  unfoldable pub tar_response : Push × Bool → PushResponse
  tar_response (push, true) = record {
    status = 500;
    message = "tar extraction failed";
    push = push;
  }
  tar_response (push, false) = record { status = 200; message = ""; push = push }

  unfoldable pub handle_tar : PushRequest c.Text → Segments → PushResponse
  handle_tar r code_dir =
      if r.is_empty
      then error_response 400 "empty request body"
      else tar_response (write_tar out.write code_dir r.archive)

  unfoldable pub dispatch : PushRequest c.Text → Segments → PushResponse
  dispatch r code_dir =
      if starts_with r.content_type "application/json"
      then handle_json r code_dir
      else if starts_with r.content_type "application/x-tar"
      then handle_tar r code_dir
      else error_response 400 "unsupported content type"

  unfoldable pub serve_http : String → ℕ → PushRequest c.Text → PushResponse
  serve_http hmac_secret now r =
      on_result (verify_url c r.full_url hmac_secret now)
        (λ _.
          let id = extract_sandbox_id r.path in
          if str_eq id ""
          then error_response 400 "invalid URL path: cannot extract sandbox ID"
          else on_option (out.resolve id) (dispatch r)
              (error_response 404 "sandbox not found on this node"))
        (λ e. error_response 403 (out.message e))
