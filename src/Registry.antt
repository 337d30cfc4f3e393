-- ===== src/Registry.antt =====
-- The images of the containers: `loadRegistrySettings` and `resolveImages` (cloud/internal/api/registry.go),
-- `resolveReaderImage` (cloud/internal/api/readers.go), `imageForService` (cloud/internal/tpapi/sync.go). The
-- table `registry_config` is the list of its rows; the variable QUBE_IMAGE_REGISTRY is an argument.
pub mod Agreement
mod Tests
use qube_enterprise_home.Prelude.{Bool, ◌&&◌, ◌||◌, List, [], ◌∷◌, ◌++◌, if◌then◌else◌, ltb, length}
use qube_enterprise_home.Prelude.Text.{Text, codes, text_eq, has_prefix, replace_all}

abbrev pub Config : Type 0
Config = List (Text × Text)

-- A key of a Go map: "" when it is missing.
unfoldable pub value : Text → Config → Text
value key [] = []
value key ((k, v) ∷ rest) = if text_eq k key then v else value key rest

abbrev pub default_to : Text → Text → Text
default_to v default = if text_eq v [] then default else v

-- `getOrDefault`
unfoldable pub get_or_default : Config → Text → Text → Text
get_or_default m key default = default_to (value key m) default

-- `RegistrySettings`, less the images that are resolved.
pub record RegistrySettings : Type 0 where
  pub mode : Text
  pub arch : Text
  pub github_base : Text
  pub gitlab_base : Text
  pub images : Config

abbrev pub is_image : Text → Bool
is_image k = ltb 4 (length k) && has_prefix k (codes "img_")

unfoldable pub image_keys : Config → Config
image_keys [] = []
image_keys ((k, v) ∷ rest) =
    let kept = image_keys rest in if is_image k then (k, v) ∷ kept else kept

-- `loadRegistrySettings`, for a database that answers.
unfoldable pub load_registry_settings : Config → RegistrySettings
load_registry_settings cfg = record {
  mode = get_or_default cfg (codes "mode") (codes "github");
  arch = get_or_default cfg (codes "arch") (codes "arm64");
  github_base =
      get_or_default cfg (codes "github_base") (codes "ghcr.io/sandun-s/qube-enterprise-home");
  gitlab_base =
      get_or_default cfg (codes "gitlab_base") (codes "registry.gitlab.com/iot-team4/product");
  images = image_keys cfg;
}

-- The services of `resolveImages`, with their names on GitHub and on GitLab.
abbrev pub names : List (Text × Text × Text)
names =
    (codes "conf_agent", codes "conf-agent", codes "enterprise-conf-agent")
    ∷ (codes "influx_sql", codes "enterprise-influx-to-sql", codes "enterprise-influx-to-sql")
    ∷ (codes "core_switch", codes "core-switch", codes "core-switch")
    ∷ (codes "modbus_reader", codes "modbus-reader", codes "modbus-reader")
    ∷ (codes "snmp_reader", codes "snmp-reader", codes "snmp-reader")
    ∷ (codes "mqtt_reader", codes "mqtt-reader", codes "mqtt-reader")
    ∷ (codes "opcua_reader", codes "opcua-reader", codes "opcua-reader")
    ∷ (codes "http_reader", codes "http-reader", codes "http-reader")
    ∷ []

-- `base + "/" + name + ":" + arch + ".latest"`
abbrev pub image_of : Text → Text → Text → Text
image_of base name arch = base ++ (codes "/" ++ (name ++ (codes ":" ++ (arch ++ codes ".latest"))))

abbrev pub image_key : Text → Text
image_key service = codes "img_" ++ service

resolve_github : RegistrySettings → List (Text × Text × Text) → Config
resolve_github s [] = []
resolve_github s ((service, short, long) ∷ rest) =
    (service, image_of s.github_base short s.arch) ∷ resolve_github s rest

resolve_gitlab : RegistrySettings → List (Text × Text × Text) → Config
resolve_gitlab s [] = []
resolve_gitlab s ((service, short, long) ∷ rest) =
    (service, get_or_default s.images (image_key service) (image_of s.gitlab_base long s.arch))
    ∷ resolve_gitlab s rest

resolve_custom : RegistrySettings → List (Text × Text × Text) → Config
resolve_custom s [] = []
resolve_custom s ((service, short, long) ∷ rest) =
    (service, get_or_default s.images (image_key service) []) ∷ resolve_custom s rest

-- `resolveImages`
unfoldable pub resolve_images : RegistrySettings → Config
unfolding resolve_github resolve_gitlab resolve_custom
resolve_images s =
    if text_eq s.mode (codes "github")
    then resolve_github s names
    else if text_eq s.mode (codes "gitlab")
    then resolve_gitlab s names
    else if text_eq s.mode (codes "custom")
    then resolve_custom s names
    else []

-- `resolveReaderImage`
unfoldable pub resolve_reader_image : Config → Text → Text
resolve_reader_image cfg suffix =
    let s = load_registry_settings cfg in
    let key = image_key (replace_all b'-' (codes "_") suffix) in
    if text_eq suffix []
    then codes "busybox:latest"
    else if text_eq s.mode (codes "github")
    then image_of s.github_base suffix s.arch
    else if text_eq s.mode (codes "gitlab")
    then get_or_default s.images key (image_of s.gitlab_base suffix s.arch)
    else get_or_default s.images key (suffix ++ codes ":latest")

abbrev pub short_names : Config
short_names =
    (codes "conf_agent", codes "conf-agent")
    ∷ (codes "influx_sql", codes "enterprise-influx-to-sql")
    ∷ (codes "influx_relay", codes "influxdb-relay")
    ∷ (codes "core_switch", codes "core-switch")
    ∷ []

abbrev pub prefix_map : Config
prefix_map =
    (codes "conf_agent", codes "enterprise-conf-agent")
    ∷ (codes "influx_sql", codes "enterprise-influx-to-sql")
    ∷ (codes "influx_relay", codes "influxdb-relay")
    ∷ (codes "core_switch", codes "core-switch")
    ∷ []

-- `imageForService`; `env` is QUBE_IMAGE_REGISTRY.
unfoldable pub image_for_service : Text → Config → Text → Text
image_for_service env cfg service =
    let arch = get_or_default cfg (codes "arch") (codes "arm64") in
    let mode = value (codes "mode") cfg in
    if text_eq mode (codes "github")
    then image_of
        (get_or_default cfg (codes "github_base") (codes "ghcr.io/sandun-s/qube-enterprise-home"))
        (get_or_default short_names service service) arch
    else if text_eq mode (codes "gitlab") || text_eq mode (codes "custom")
    then get_or_default cfg (image_key service) (
        image_of
          (get_or_default cfg (codes "gitlab_base") (codes "registry.gitlab.com/iot-team4/product"))
          (get_or_default prefix_map service service) arch)
    else image_of (default_to env (codes "ghcr.io/sandun-s/qube-enterprise-home"))
        (get_or_default short_names service service) (codes "arm64")
