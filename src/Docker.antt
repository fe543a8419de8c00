-- ===== src/Docker.antt =====
-- agent/internal/docker: sandbox.go, which creates the container of a sandbox, and the listing of
-- containers in client.go and snapshot.go. Docker and the disk are oracles; the calls of Docker that a
-- creation makes are a log.
pub mod Images
pub mod Labels
use text.Mathlib.Text.{find?, starts_with}
use appx_forge.Base.{
  ℕ, zero, suc, Bool, false, true, ◌||◌, Option, none, some, List, [], ◌∷◌, map, String, str_append,
  str_eq, Result, ok, err, is_some, on_result, on_option, if◌then◌else◌,
}
use appx_forge.Base.Int.{ℤ, pos, scale64}
use appx_forge.Base.Dict.{lookup}
use appx_forge.Executor.{SandboxSpec}

-- What the source puts into Docker's ContainerCreateOptions; a field that it leaves out is Go's zero
-- value, so the labels are an empty map. A port is published at one address.
pub record ContainerOptions : Type 0 where
  pub name : String
  pub image : String
  pub env : List String
  pub labels : List (String × String)
  pub exposed_port : String
  pub host_ip : String
  pub host_port : String
  pub binds : List String
  pub memory : ℤ
  pub nano_cpus : ℤ
  pub pids_limit : ℕ
  pub security_opt : List String
  pub cap_drop : List String
  pub cap_add : List String
  pub readonly_rootfs : Bool

pub data DockerCall : Type 0 where
  container_remove : (name : String) (force : Bool) → DockerCall
  container_create : ContainerOptions → DockerCall
  container_start : String → DockerCall

pub data CreateErr : Type 0 where
  path_traversal path_separator absolute_path : CreateErr
  mkdir_failed chown_failed create_failed start_failed : String → CreateErr

-- filepath.Join, strconv.Itoa and the conversion of a number of cores; the disk; Docker's answers.
pub record DockerOutside : Type 0 where
  pub join : List String → String
  pub show : ℕ → String
  pub nano_cpus : ℕ → ℤ
  pub mkdir_all : String → Option String
  pub chown : String → Option String
  pub create : ContainerOptions → Result String String
  pub start : String → Option String

-- strings.Contains.
abbrev contains : String → String → Bool
contains text part = is_some (find? text part)

module _ (out : DockerOutside) where
  unfoldable pub prepare_bind_mount : String → String → Result CreateErr String
  prepare_bind_mount sandbox_dir app_name =
      let code_path = out.join (sandbox_dir ∷ app_name ∷ "code" ∷ []) in
      if contains app_name ".."
      then err path_traversal
      else if contains app_name "/"
      then err path_separator
      else if starts_with app_name "/"
      then err absolute_path
      else on_option (out.mkdir_all code_path) (λ e. err (mkdir_failed e))
          (on_option (out.chown code_path) (λ e. err (chown_failed e)) (ok code_path))

  abbrev pub container_name : SandboxSpec → String
  container_name spec = str_append "forge-" spec.app_name

  -- The variables in the order in which the iteration over the map meets them.
  unfoldable pub container_options : String → String → SandboxSpec → ContainerOptions
  container_options seccomp_path code_path spec = record {
    name = container_name spec;
    image = spec.image;
    env = map (λ (k, v). str_append k (str_append "=" v)) spec.env;
    labels = [];
    exposed_port = "8081/tcp";
    host_ip = "0.0.0.0";
    host_port = out.show spec.host_port;
    binds = str_append code_path ":/app/code" ∷ "/mnt/metro-cache:/mnt/metro-cache" ∷ [];
    memory = scale64 1048576 spec.memory_mb;
    nano_cpus = out.nano_cpus spec.cpu_cores;
    pids_limit = 256;
    security_opt = str_append "seccomp=" seccomp_path ∷ "no-new-privileges:true" ∷ [];
    cap_drop = "ALL" ∷ [];
    cap_add = "CHOWN" ∷ "SETUID" ∷ "SETGID" ∷ [];
    readonly_rootfs = false;
  }

  unfoldable pub start_created :
      ContainerOptions → Result String String → List DockerCall × Result CreateErr String
  start_created options (err e) =
      (container_remove options.name true ∷ container_create options ∷ [], err (create_failed e))
  start_created options (ok id) = (
    container_remove options.name true ∷ container_create options ∷ container_start id ∷ [],
    on_option (out.start id) (λ e. err (start_failed e)) (ok id),
  )

  -- Whether the removal of a former container failed is ignored. `seccomp_path` is the field of the
  -- specification that the executor leaves empty.
  unfoldable pub create_container : String → SandboxSpec → List DockerCall × Result CreateErr String
  create_container seccomp_path spec =
      on_result (prepare_bind_mount spec.sandbox_dir spec.app_name)
        (λ code_path.
          let options = container_options seccomp_path code_path spec in
          start_created options (out.create options))
        (λ e. ([], err e))

-- A container as Docker lists it; `ports` are the public ports, 0 for a port without one.
pub record ContainerItem : Type 0 where
  pub id : String
  pub labels : List (String × String)
  pub state : String
  pub ports : List ℕ

pub record ContainerSnapshot : Type 0 where
  pub app_name : String
  pub state : String
  pub host_port : ℤ
  pub container_id : String

unfoldable pub first_public : List ℕ → ℕ
first_public [] = 0
first_public (zero ∷ ps) = first_public ps
first_public (suc p ∷ ps) = suc p

-- A label that is missing reads as the empty text.
abbrev pub app_label : ContainerItem → String
app_label item = on_option (lookup "forge.app_name" item.labels) (λ s. s) ""

unfoldable pub to_snapshot : ContainerItem → ContainerSnapshot
to_snapshot item = record {
  app_name = app_label item;
  state = item.state;
  host_port = pos (first_public item.ports);
  container_id = item.id;
}

unfoldable pub snapshots : List ContainerItem → List ContainerSnapshot
snapshots [] = []
snapshots (item ∷ items) =
    let rest = snapshots items in
    if str_eq (app_label item) "" then rest else to_snapshot item ∷ rest

-- ListContainers, of what Docker answers.
unfoldable pub list_containers :
    Result String (List ContainerItem) → Result String (List ContainerSnapshot)
list_containers listed = on_result listed (λ items. ok (snapshots items)) (λ e. err e)

-- An empty slice in place of nil: the same list.
unfoldable pub snapshot :
    Result String (List ContainerItem) → Result String (List ContainerSnapshot)
snapshot listed = on_result (list_containers listed) (λ s. ok s) (λ e. err e)
