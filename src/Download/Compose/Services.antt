-- ===== src/Download/Compose/Services.antt =====
-- The services of a compose file (`buildComposeYML`, cloud/internal/tpapi/sync.go), read back from its text.
use mathlib.Core.List.{append_assoc, append-nil}
use qube_enterprise_home.Prelude.{
  ℕ, ◌≡◌, refl, ap, ◌∙◌, inl, inr, Bool, true, false, not, ◌&&◌, ◌||◌, Option, none, some, List, [],
  ◌∷◌, ◌++◌, ◌==◌, if◌then◌else◌, drop, map, arith, Bool-cases,
}
use qube_enterprise_home.Prelude.Text.{Text, codes, text_eq, has_byte, has_byte-append, has_prefix}
use qube_enterprise_home.Prelude.Lines.{split_at, split_at-append}
use qube_enterprise_home.Sensors.Names.{all_service}
use qube_enterprise_home.Download.{ContainerConfig}
use qube_enterprise_home.Registry.{Config}
use qube_enterprise_home.Download.Compose.{
  images_for, Images, unlines, heading_lines, env_line, mount_lines, deploy_lines, service_lines,
  all_service_lines, build_compose_yml,
}

abbrev with_first : ℕ → Option Text → Option Text
with_first c none = none
with_first c (some k) = some (c ∷ k)

-- A key at the end of a line.
unfoldable pub chop : Text → Option Text
chop [] = none
chop (c ∷ []) = if c == b':' then some [] else none
chop (c ∷ d ∷ s) = with_first c (chop (d ∷ s))

unfoldable pub key_body : Text → Option Text
key_body [] = none
key_body (c ∷ s) = if c == b' ' || c == b'#' then none else chop (c ∷ s)

-- The key of a line that is indented by two spaces.
unfoldable pub key_of : Text → Option Text
key_of l = if has_prefix l (codes "  ") then key_body (drop 2 l) else none

abbrev onto : Option Text → List Text → List Text
onto none ns = ns
onto (some n) ns = n ∷ ns

unfoldable pub keys : List Text → List Text
keys [] = []
keys (l ∷ ls) = onto (key_of l) (keys ls)

unfoldable pub after_services : List Text → List Text
after_services [] = []
after_services (l ∷ ls) =
    let rest = after_services ls in if text_eq l (codes "services:") then ls else rest

-- The services of a compose file: the keys with two spaces behind the line that opens them.
unfoldable pub services : Text → List Text
services yml = keys (after_services (split_at b'\n' yml))

unfoldable pub all_free : List Text → Bool
all_free [] = true
all_free (l ∷ ls) = not (has_byte b'\n' l) && all_free ls

split_at-unlines :
    (ls : List Text) → all_free ls ≡ true → split_at b'\n' (unlines ls) ≡ ls ++ ([] ∷ [])
unfolding unlines all_free split_at
split_at-unlines [] h = refl
split_at-unlines (l ∷ ls) h =
    split_at-append b'\n' l (unlines ls) (ground (arith, h))
    ∙ ap (λ xs. l ∷ xs) (split_at-unlines ls (ground (arith, h)))

onto-append : (o : Option Text) (xs ys : List Text) → onto o (xs ++ ys) ≡ onto o xs ++ ys
onto-append none xs ys = refl
onto-append (some n) xs ys = refl

keys-append : (xs ys : List Text) → keys (xs ++ ys) ≡ keys xs ++ keys ys
unfolding keys
keys-append [] ys = refl
keys-append (x ∷ xs) ys =
    ap (onto (key_of x)) (keys-append xs ys) ∙ onto-append (key_of x) (keys xs) (keys ys)

all_free-append : (xs ys : List Text) → all_free (xs ++ ys) ≡ (all_free xs && all_free ys)
unfolding all_free
all_free-append [] ys = refl
all_free-append (x ∷ xs) ys = ground (arith, all_free-append xs ys)

keys-env : (es : List (Text × Text)) → keys (map env_line es) ≡ []
unfolding keys key_of key_body has_prefix
keys-env [] = refl
keys-env (e ∷ es) = keys-env es

chop-key : (c : ℕ) (s : Text) → chop (c ∷ (s ++ (b':' ∷ []))) ≡ some (c ∷ s)
unfolding chop
chop-key c [] = refl
chop-key c (d ∷ s) = rw (chop-key d s) refl

-- The names of services: small letters, digits and dashes, and not empty.
abbrev pub is_name : Text → Bool
is_name [] = false
is_name (c ∷ s) = all_service (c ∷ s)

key_of-name : (n : Text) → is_name n ≡ true → key_of (codes "  " ++ (n ++ codes ":")) ≡ some n
unfolding key_of key_body has_prefix all_service
key_of-name [] h = cc
key_of-name (c ∷ s) h = ground (arith, chop-key c s, h)

keys-mount : keys mount_lines ≡ []
unfolding keys key_of key_body has_prefix
keys-mount = refl

keys-deploy : keys deploy_lines ≡ []
unfolding keys key_of key_body has_prefix
keys-deploy = refl

keys-service_lines :
    (env : ContainerConfig → List (Text × Text)) (c : ContainerConfig)
    → is_name c.name ≡ true
    → keys (service_lines env c) ≡ c.name ∷ []
unfolding keys key_of key_body has_prefix
keys-service_lines env c h =
    ap (λ k. onto k (keys (map env_line (env c) ++ deploy_lines))) (key_of-name c.name h)
    ∙ ap (λ ks. c.name ∷ ks)
        (keys-append (map env_line (env c)) deploy_lines ∙ ap (λ ks. ks ++ []) (keys-env (env c)))

-- What goes into the file for the containers ends no line: the names are those of services, and the images, the
-- protocols and the environments have no line end.
abbrev pub AreClean : (ContainerConfig → List (Text × Text)) → List ContainerConfig → Type 0
AreClean env [] = Unit
AreClean env (c ∷ cs) =
    (is_name c.name ≡ true)
    × (has_byte b'\n' c.image ≡ false)
    × (has_byte b'\n' c.protocol ≡ false)
    × (all_free (map env_line (env c)) ≡ true)
    × AreClean env cs

keys-all_service_lines :
    (env : ContainerConfig → List (Text × Text)) (cs : List ContainerConfig)
    → AreClean env cs
    → keys (all_service_lines env cs) ≡ map (λ c. c.name) cs
unfolding all_service_lines keys
keys-all_service_lines env [] h = refl
keys-all_service_lines env (c ∷ cs) (name, image, protocol, free, h) =
    keys-append (service_lines env c) (all_service_lines env cs)
    ∙ rw (keys-service_lines env c name, keys-all_service_lines env cs h) refl

all_service-free : (s : Text) → all_service s ≡ true → has_byte b'\n' s ≡ false
unfolding all_service has_byte
all_service-free [] h = refl
all_service-free (c ∷ s) h = ground (arith, h, all_service-free s)

is_name-free : (s : Text) → is_name s ≡ true → has_byte b'\n' s ≡ false
is_name-free [] h = cc
is_name-free (c ∷ s) h = all_service-free (c ∷ s) h

all_free-service_lines :
    (env : ContainerConfig → List (Text × Text)) (c : ContainerConfig)
    → is_name c.name ≡ true
    → has_byte b'\n' c.image ≡ false
    → has_byte b'\n' c.protocol ≡ false
    → all_free (map env_line (env c)) ≡ true
    → all_free (service_lines env c) ≡ true
unfolding all_free has_byte
all_free-service_lines env c name image protocol free =
    let clean = is_name-free c.name name in
    rw
      (
        has_byte-append b'\n' c.name (codes " (" ++ (c.protocol ++ codes ")")),
        has_byte-append b'\n' c.protocol (codes ")"),
        has_byte-append b'\n' c.name (codes ":"),
        clean,
        image,
        protocol,
        all_free-append (map env_line (env c)) deploy_lines,
        free,
      )
      refl

all_free-all_service_lines :
    (env : ContainerConfig → List (Text × Text)) (cs : List ContainerConfig)
    → AreClean env cs
    → all_free (all_service_lines env cs) ≡ true
unfolding all_service_lines all_free
all_free-all_service_lines env [] h = refl
all_free-all_service_lines env (c ∷ cs) (name, image, protocol, free, h) =
    all_free-append (service_lines env c) (all_service_lines env cs)
    ∙ rw
        (all_free-service_lines env c name image protocol free, all_free-all_service_lines env cs h)
        refl

-- The images have no line end.
abbrev pub AreFree : Images → Type 0
AreFree images =
    (has_byte b'\n' images.core_switch ≡ false)
    × (has_byte b'\n' images.influx_sql ≡ false)
    × (has_byte b'\n' images.influx_relay ≡ false)

all_free-heading_lines :
    (qube location : Text) (images : Images)
    → has_byte b'\n' qube ≡ false
    → has_byte b'\n' location ≡ false
    → AreFree images
    → all_free (heading_lines qube location images) ≡ true
unfolding all_free has_byte
all_free-heading_lines qube location images q l (cs, sql, relay) =
    rw (has_byte-append b'\n' qube (codes " | Location: " ++ location), q, l, cs, sql, relay) refl

keys-heading_lines :
    (qube location : Text) (images : Images) (ls : List Text)
    → keys (after_services (heading_lines qube location images ++ ls))
      ≡ codes "influxdb"
        ∷ codes "influxdb-relay"
        ∷ codes "core-switch"
        ∷ codes "enterprise-influx-to-sql"
        ∷ keys ls
unfolding keys key_of key_body has_prefix chop after_services text_eq
keys-heading_lines qube location images ls = refl

given_location-free :
    (location : Text)
    → has_byte b'\n' location ≡ false
    → has_byte b'\n' (if text_eq location [] then codes "unset" else location) ≡ false
unfolding has_byte
given_location-free location h = elim (Bool-cases (text_eq location [])) [
  | inl absent ↦ rw absent refl
  | inr given ↦ rw given h
]

-- The services of a compose file, read back from its text, are the four that are always there and then one for each
-- container of the Qube, in order, under its name, if nothing that is put into the text has a line end and the names
-- of the containers have only small letters, digits and dashes.
pub build_compose_yml-services :
    (env : ContainerConfig → List (Text × Text)) (registry : Text) (cfg : Config)
    (qube location : Text) (cs : List ContainerConfig)
    → has_byte b'\n' qube ≡ false
    → has_byte b'\n' location ≡ false
    → AreFree (images_for registry cfg)
    → AreClean env cs
    → services (build_compose_yml env registry cfg qube location cs)
      ≡ codes "influxdb"
        ∷ codes "influxdb-relay"
        ∷ codes "core-switch"
        ∷ codes "enterprise-influx-to-sql"
        ∷ map (λ c. c.name) cs
unfolding services build_compose_yml keys key_of has_prefix
build_compose_yml-services env registry cfg qube location cs q l free clean =
    let loc = if text_eq location [] then codes "unset" else location in
    let images = images_for registry cfg in
    let heads = heading_lines qube loc images in
    let own = all_service_lines env cs in
    ap (λ ls. keys (after_services ls))
      (split_at-unlines (heads ++ own) (
          all_free-append heads own
          ∙ rw
              (
                all_free-heading_lines qube loc images q (given_location-free location l) free,
                all_free-all_service_lines env cs clean,
              )
              refl)
        ∙ append_assoc heads own ([] ∷ []))
    ∙ (keys-heading_lines qube loc images (own ++ ([] ∷ []))
        ∙ ap
            (λ ks.
              codes "influxdb"
              ∷ codes "influxdb-relay"
              ∷ codes "core-switch"
              ∷ codes "enterprise-influx-to-sql"
              ∷ ks)
            (keys-append own ([] ∷ [])
              ∙ (append-nil (keys own) ∙ keys-all_service_lines env cs clean)))
