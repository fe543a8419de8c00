-- ===== src/Api/Access.antt =====
-- control/internal/api/middleware.go: the check of the bearer token before a handler.
use text.Mathlib.Text.{starts_with}
use text.Mathlib.TextPositions.{starts_with-append}
use text.Mathlib.TextEquality.{starts_with_iff}
use appx_forge.Base.{
  ◌≡◌, refl, sym, ap, ◌∙◌, Bool, true, false, not, Bool-cases, inl, inr, String, str_append, str_eq,
  str_eq_iff, trim_prefix, trim_prefix-append, arith, if◌then◌else◌,
}
use appx_forge.Store.Call.{fail}
use appx_forge.Api.{Handler, unauthorized}

-- `auth` is the request's header, empty where there is none; the comparison is of whole texts.
unfoldable pub bearer_auth : {A : Type 0} → String → String → Handler A → Handler A
bearer_auth token auth next =
    if str_eq auth ""
    then fail unauthorized
    else if not (starts_with auth "Bearer ")
    then fail unauthorized
    else if not (str_eq (trim_prefix auth "Bearer ") token)
    then fail unauthorized
    else next

-- A text that starts with the scheme and goes on with the token is the scheme and the token.
scheme_and :
    (token auth : String)
    → starts_with auth "Bearer " ≡ true
    → str_eq (trim_prefix auth "Bearer ") token ≡ true
    → str_eq auth (str_append "Bearer " token) ≡ true
scheme_and token auth s t =
    let (rest, whole) = (starts_with_iff auth "Bearer ").0 s in
    let same : rest ≡ token =
      sym (trim_prefix-append "Bearer " rest)
      ∙ ap (λ a. trim_prefix a "Bearer ") whole
      ∙ (str_eq_iff (trim_prefix auth "Bearer ") token).0 t in
    (str_eq_iff auth (str_append "Bearer " token)).1 (sym whole ∙ ap (str_append "Bearer ") same)

true-ne-false : ¬ Path Bool true false
true-ne-false k = ground arith

-- The header of a request with a token is not empty.
scheme_and_ne : (token : String) → str_eq (str_append "Bearer " token) "" ≡ false
scheme_and_ne token = elim (Bool-cases (str_eq (str_append "Bearer " token) "")) [
  | inr e ↦ e
  | inl e ↦ absurd (
      true-ne-false (
        sym (starts_with-append "Bearer " token)
        ∙ ap (λ t. starts_with t "Bearer ") ((str_eq_iff (str_append "Bearer " token) "").0 e)))
]

module _ {A : Type 0} (token : String) (next : Handler A) where
  accepted : bearer_auth token (str_append "Bearer " token) next ≡ next
  unfolding bearer_auth
  accepted =
      rw
        (
          scheme_and_ne token,
          starts_with-append "Bearer " token,
          trim_prefix-append "Bearer " token,
          (str_eq_iff token token).1 refl,
        )
        refl

  rejected :
      (auth : String)
      → str_eq auth (str_append "Bearer " token) ≡ false
      → bearer_auth token auth next ≡ fail unauthorized
  unfolding bearer_auth
  rejected auth h = elim (Bool-cases (str_eq auth "")) [
    | inl e ↦ rw e refl
    | inr e ↦ elim (Bool-cases (starts_with auth "Bearer ")) [
      | inr s ↦ rw (e, s) refl
      | inl s ↦ elim (Bool-cases (str_eq (trim_prefix auth "Bearer ") token)) [
        | inr t ↦ rw (e, s, t) refl
        | inl t ↦ absurd (true-ne-false (sym (scheme_and token auth s t) ∙ h))
      ]
    ]
  ]

  -- A request reaches the handler just where its header is the scheme and the token.
  pub bearer_auth-eq :
      (auth : String)
      → bearer_auth token auth next
        ≡ (if str_eq auth (str_append "Bearer " token) then next else fail unauthorized)
  bearer_auth-eq auth = elim (Bool-cases (str_eq auth (str_append "Bearer " token))) [
    | inl e ↦
        ap (λ a. bearer_auth token a next) ((str_eq_iff auth (str_append "Bearer " token)).0 e)
        ∙ accepted
        ∙ rw e refl
    | inr e ↦ rejected auth e ∙ rw e refl
  ]
