-- ===== src/Docker/Labels.antt =====
-- The containers that the agent creates do not have the label that its listing looks for.
use appx_forge.Base.{
  ◌≡◌, refl, ap, ◌∙◌, subst, none, List, [], ◌∷◌, ◌++◌, String, Result, ok, err, Result-cases, inl,
  inr, All,
}
use appx_forge.Base.Dict.{lookup}
use appx_forge.Executor.{SandboxSpec}
use appx_forge.Docker.{
  ContainerOptions, DockerCall, container_create, DockerOutside, ContainerItem, prepare_bind_mount,
  container_options, create_container, start_created, snapshots, list_containers, snapshot,
}

-- A creation asks Docker for a container without labels.
IsBare : DockerCall → Type 0
IsBare (container_create options) = options.labels ≡ []
IsBare _ = Unit

started-IsBare :
    (out : DockerOutside) (options : ContainerOptions) (r : Result String String)
    → options.labels ≡ []
    → All IsBare (start_created out options r).0
unfolding start_created IsBare
started-IsBare out options (err e) h = (tt, (h, tt))
started-IsBare out options (ok id) h = (tt, (h, (tt, tt)))

create_container-IsBare :
    (out : DockerOutside) (seccomp_path : String) (spec : SandboxSpec)
    → All IsBare (create_container out seccomp_path spec).0
unfolding create_container container_options
create_container-IsBare out seccomp_path spec =
    elim (Result-cases (prepare_bind_mount out spec.sandbox_dir spec.app_name)) [
      | inr (e, h) ↦ rw h tt
      | inl (path, h) ↦
          rw h (started-IsBare out (container_options out seccomp_path path spec) _ refl)
    ]

All-middle :
    (P : DockerCall → Type 0) (xs : List DockerCall) (y : DockerCall) (ys : List DockerCall)
    → All P (xs ++ y ∷ ys)
    → P y
All-middle P [] y ys h = h.0
All-middle P (x ∷ xs) y ys h = All-middle P xs y ys h.1

-- The listed container comes of a call that a creation made: its labels are those of the call, and
-- those of the image for other keys.
pub record IsMade (out : DockerOutside) (image_labels : String → List (String × String))
    (item : ContainerItem) : Type 0 where
  pub seccomp_path : String
  pub spec : SandboxSpec
  pub options : ContainerOptions
  pub before : List DockerCall
  pub after : List DockerCall
  pub calls :
      (create_container out seccomp_path spec).0 ≡ before ++ container_create options ∷ after
  pub labels : item.labels ≡ options.labels ++ image_labels options.image

module _ (out : DockerOutside) (image_labels : String → List (String × String))
    (plain : (image : String) → lookup "forge.app_name" (image_labels image) ≡ none) where
  made-unlabelled :
      (item : ContainerItem)
      → IsMade out image_labels item
      → lookup "forge.app_name" item.labels ≡ none
  unfolding IsBare
  made-unlabelled item made =
      let bare : made.options.labels ≡ [] =
        All-middle IsBare made.before (container_create made.options) made.after (
          subst (λ c. All IsBare c) made.calls
            (create_container-IsBare out made.seccomp_path made.spec)) in
      ap (lookup "forge.app_name")
        (made.labels ∙ ap (λ l. l ++ image_labels made.options.image) bare)
      ∙ plain made.options.image

  snapshots-made :
      (items : List ContainerItem) → All (IsMade out image_labels) items → snapshots items ≡ []
  unfolding snapshots
  snapshots-made [] h = refl
  snapshots-made (item ∷ items) (made, rest) =
      rw (made-unlabelled item made) (snapshots-made items rest)

  pub snapshot-made :
      (items : List ContainerItem)
      → All (IsMade out image_labels) items
      → snapshot (ok items) ≡ ok []
  unfolding snapshot list_containers
  snapshot-made items h = ap ok (snapshots-made items h)
