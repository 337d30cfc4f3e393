-- ===== src/Registry/Agreement.antt =====
-- Whether the three resolutions of an image agree (cloud/internal/api/registry.go, cloud/internal/api/readers.go,
-- cloud/internal/tpapi/sync.go).
use qube_enterprise_home.Prelude.{
  ◌≡◌, refl, sym, ap, ◌∙◌, ◌⊎◌, inl, inr, true, false, [], ◌∷◌, Bool-cases,
}
use qube_enterprise_home.Prelude.Text.{Text, codes, text_eq, text_eq_iff, replace_all, has_prefix}
use qube_enterprise_home.Registry.{
  Config, value, get_or_default, is_image, image_keys, load_registry_settings, RegistrySettings,
  resolve_images, resolve_reader_image, image_for_service, image_key, image_of, names, short_names,
  prefix_map, resolve_github, resolve_gitlab, resolve_custom,
}

-- Keys of images are found among the images.
value-image_keys :
    (k : Text) (cfg : Config) → is_image k ≡ true → value k (image_keys cfg) ≡ value k cfg
unfolding value image_keys
value-image_keys k [] h = refl
value-image_keys k ((j, v) ∷ rest) h = elim (Bool-cases (text_eq j k)) [
  | inl hit ↦ rw ((text_eq_iff j k).0 hit, h, (text_eq_iff k k).1 refl) refl
  | inr miss ↦ elim (Bool-cases (is_image j)) [
    | inl kept ↦ rw (kept, miss) (value-image_keys k rest h)
    | inr dropped ↦ rw (dropped, miss) (value-image_keys k rest h)
  ]
]

get_or_default-images :
    (k default : Text) (cfg : Config)
    → is_image k ≡ true
    → get_or_default (image_keys cfg) k default ≡ get_or_default cfg k default
unfolding get_or_default
get_or_default-images k default cfg h = rw (value-image_keys k cfg h) refl

mode-set :
    (cfg : Config) (m : Text)
    → value (codes "mode") cfg ≡ m
    → text_eq m [] ≡ false
    → (load_registry_settings cfg).mode ≡ m
unfolding load_registry_settings get_or_default
mode-set cfg m h k = rw (h, k) refl

module _ (s : RegistrySettings) where
  resolve_images-github : s.mode ≡ codes "github" → resolve_images s ≡ resolve_github s names
  unfolding resolve_images text_eq
  resolve_images-github h = rw h refl

  resolve_images-gitlab : s.mode ≡ codes "gitlab" → resolve_images s ≡ resolve_gitlab s names
  unfolding resolve_images text_eq
  resolve_images-gitlab h = rw h refl

-- The compose file's image, in the two modes.
module _ (env : Text) (cfg : Config) (service : Text) where
  image_for_service-github :
      value (codes "mode") cfg ≡ codes "github"
      → image_for_service env cfg service
        ≡ image_of
            (get_or_default cfg
              (codes "github_base")
              (codes "ghcr.io/sandun-s/qube-enterprise-home"))
            (get_or_default short_names service service)
            (get_or_default cfg (codes "arch") (codes "arm64"))
  unfolding image_for_service text_eq
  image_for_service-github h = rw h refl

  image_for_service-gitlab :
      value (codes "mode") cfg ≡ codes "gitlab"
      → image_for_service env cfg service
        ≡ get_or_default cfg (image_key service) (
            image_of
              (get_or_default cfg
                (codes "gitlab_base")
                (codes "registry.gitlab.com/iot-team4/product"))
              (get_or_default prefix_map service service)
              (get_or_default cfg (codes "arch") (codes "arm64")))
  unfolding image_for_service text_eq
  image_for_service-gitlab h = rw h refl

-- The services that the administrator's page shows and that a compose file has.
pub data Shared : Text → Type 0 where
  conf_agent : Shared (codes "conf_agent")
  influx_sql : Shared (codes "influx_sql")
  core_switch : Shared (codes "core_switch")

resolve_github-named :
    (cfg : Config) (service : Text)
    → Shared service
    → image_of
        (get_or_default cfg (codes "github_base") (codes "ghcr.io/sandun-s/qube-enterprise-home"))
        (get_or_default short_names service service)
        (get_or_default cfg (codes "arch") (codes "arm64"))
      ≡ value service (resolve_github (load_registry_settings cfg) names)
unfolding get_or_default value text_eq resolve_github load_registry_settings
resolve_github-named cfg _ conf_agent = refl
resolve_github-named cfg _ influx_sql = refl
resolve_github-named cfg _ core_switch = refl

resolve_gitlab-named :
    (cfg : Config) (service : Text)
    → Shared service
    → get_or_default cfg (image_key service) (
        image_of
          (get_or_default cfg (codes "gitlab_base") (codes "registry.gitlab.com/iot-team4/product"))
          (get_or_default prefix_map service service)
          (get_or_default cfg (codes "arch") (codes "arm64")))
      ≡ value service (resolve_gitlab (load_registry_settings cfg) names)
unfolding get_or_default value text_eq resolve_gitlab load_registry_settings has_prefix
resolve_gitlab-named cfg _ conf_agent =
    sym (get_or_default-images (codes "img_conf_agent") _ cfg refl)
resolve_gitlab-named cfg _ influx_sql =
    sym (get_or_default-images (codes "img_influx_sql") _ cfg refl)
resolve_gitlab-named cfg _ core_switch =
    sym (get_or_default-images (codes "img_core_switch") _ cfg refl)

-- In the modes "github" and "gitlab" the compose file has, for the services of both, the image that the
-- administrator's page shows, whatever else is configured.
pub image-agrees :
    (env : Text) (cfg : Config) (service : Text)
    → Shared service
    → (value (codes "mode") cfg ≡ codes "github") ⊎ (value (codes "mode") cfg ≡ codes "gitlab")
    → image_for_service env cfg service
      ≡ value service (resolve_images (load_registry_settings cfg))
unfolding text_eq
image-agrees env cfg service s (inl m) =
    image_for_service-github env cfg service m
    ∙ resolve_github-named cfg service s
    ∙ ap (value service) (
        sym (
          resolve_images-github (load_registry_settings cfg)
            (mode-set cfg (codes "github") m refl)))
image-agrees env cfg service s (inr m) =
    image_for_service-gitlab env cfg service m
    ∙ resolve_gitlab-named cfg service s
    ∙ ap (value service) (
        sym (
          resolve_images-gitlab (load_registry_settings cfg)
            (mode-set cfg (codes "gitlab") m refl)))

-- The readers, with the suffixes of their templates.
pub data ReaderImage : Text → Text → Type 0 where
  modbus : ReaderImage (codes "modbus_reader") (codes "modbus-reader")
  snmp : ReaderImage (codes "snmp_reader") (codes "snmp-reader")
  mqtt : ReaderImage (codes "mqtt_reader") (codes "mqtt-reader")
  opcua : ReaderImage (codes "opcua_reader") (codes "opcua-reader")
  http : ReaderImage (codes "http_reader") (codes "http-reader")

reader_github :
    (cfg : Config) (service suffix : Text)
    → ReaderImage service suffix
    → (load_registry_settings cfg).mode ≡ codes "github"
    → resolve_reader_image cfg suffix
      ≡ value service (resolve_github (load_registry_settings cfg) names)
unfolding resolve_reader_image value text_eq resolve_github
reader_github cfg _ _ modbus m = rw m refl
reader_github cfg _ _ snmp m = rw m refl
reader_github cfg _ _ mqtt m = rw m refl
reader_github cfg _ _ opcua m = rw m refl
reader_github cfg _ _ http m = rw m refl

reader_gitlab :
    (cfg : Config) (service suffix : Text)
    → ReaderImage service suffix
    → (load_registry_settings cfg).mode ≡ codes "gitlab"
    → resolve_reader_image cfg suffix
      ≡ value service (resolve_gitlab (load_registry_settings cfg) names)
unfolding resolve_reader_image value text_eq resolve_gitlab replace_all
reader_gitlab cfg _ _ modbus m = rw m refl
reader_gitlab cfg _ _ snmp m = rw m refl
reader_gitlab cfg _ _ mqtt m = rw m refl
reader_gitlab cfg _ _ opcua m = rw m refl
reader_gitlab cfg _ _ http m = rw m refl

-- In those modes a reader's container has the image that the administrator's page shows for its kind.
reader-agrees :
    (cfg : Config) (service suffix : Text)
    → ReaderImage service suffix
    → (value (codes "mode") cfg ≡ codes "github") ⊎ (value (codes "mode") cfg ≡ codes "gitlab")
    → resolve_reader_image cfg suffix ≡ value service (resolve_images (load_registry_settings cfg))
unfolding text_eq
reader-agrees cfg service suffix r (inl m) =
    let set = mode-set cfg (codes "github") m refl in
    reader_github cfg service suffix r set
    ∙ ap (value service) (sym (resolve_images-github (load_registry_settings cfg) set))
reader-agrees cfg service suffix r (inr m) =
    let set = mode-set cfg (codes "gitlab") m refl in
    reader_gitlab cfg service suffix r set
    ∙ ap (value service) (sym (resolve_images-gitlab (load_registry_settings cfg) set))

resolve_images-custom :
    (s : RegistrySettings) → s.mode ≡ codes "custom" → resolve_images s ≡ resolve_custom s names
unfolding resolve_images text_eq
resolve_images-custom s h = rw h refl

resolve_custom-named :
    (cfg : Config) (service : Text)
    → Shared service
    → value service (resolve_custom (load_registry_settings cfg) names)
      ≡ get_or_default cfg (image_key service) []
unfolding get_or_default value text_eq resolve_custom load_registry_settings has_prefix
resolve_custom-named cfg _ conf_agent = get_or_default-images (codes "img_conf_agent") [] cfg refl
resolve_custom-named cfg _ influx_sql = get_or_default-images (codes "img_influx_sql") [] cfg refl
resolve_custom-named cfg _ core_switch = get_or_default-images (codes "img_core_switch") [] cfg refl

-- In the mode "custom", with no image of its own, a service that the page shows without one is deployed from
-- GitLab.
custom-differs :
    (env : Text) (cfg : Config) (service : Text)
    → Shared service
    → value (codes "mode") cfg ≡ codes "custom"
    → value (image_key service) cfg ≡ []
    → (value service (resolve_images (load_registry_settings cfg)) ≡ [])
      × (image_for_service env cfg service
          ≡ image_of
              (get_or_default cfg
                (codes "gitlab_base")
                (codes "registry.gitlab.com/iot-team4/product"))
              (get_or_default prefix_map service service)
              (get_or_default cfg (codes "arch") (codes "arm64")))
unfolding image_for_service text_eq get_or_default
custom-differs env cfg service s m none_set = (
  ap (value service)
        (resolve_images-custom (load_registry_settings cfg) (mode-set cfg (codes "custom") m refl))
      ∙ resolve_custom-named cfg service s
      ∙ rw none_set refl,
  rw (m, none_set) refl,
)
