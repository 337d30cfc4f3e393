-- ===== src/Registry/Tests.antt =====
-- Images with and without settings.
use qube_enterprise_home.Prelude.{◌≡◌, refl, inr, [], ◌∷◌}
use qube_enterprise_home.Prelude.Text.{codes, text_eq, has_prefix, replace_all}
use qube_enterprise_home.Registry.{
  Config, value, get_or_default, image_keys, load_registry_settings, resolve_images,
  resolve_reader_image, image_for_service,
}
use qube_enterprise_home.Registry.Agreement.{conf_agent, image-agrees}

abbrev gitlab : Config
gitlab =
    (codes "mode", codes "gitlab")
    ∷ (codes "arch", codes "amd64")
    ∷ (codes "img_conf_agent", codes "my/agent:2")
    ∷ []

image-agrees_example :
    image_for_service [] gitlab (codes "conf_agent")
    ≡ value (codes "conf_agent") (resolve_images (load_registry_settings gitlab))
unfolding value text_eq
image-agrees_example = image-agrees [] gitlab (codes "conf_agent") conf_agent (inr refl)

test-agent : image_for_service [] gitlab (codes "conf_agent") ≡ codes "my/agent:2"
unfolding image_for_service get_or_default value text_eq
test-agent = refl

test-http :
    resolve_reader_image gitlab (codes "http-reader")
    ≡ codes "registry.gitlab.com/iot-team4/product/http-reader:amd64.latest"
unfolding resolve_reader_image load_registry_settings get_or_default value text_eq image_keys
    has_prefix replace_all
test-http = refl
