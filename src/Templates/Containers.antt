-- ===== src/Templates/Containers.antt =====
-- The reader templates (cloud/internal/api/templates.go, from `listReaderTemplatesHandler` on): how the container of a
-- reader is made. Only superadmins come to the three handlers that change them.
use qube_enterprise_home.Prelude.{
  ℕ, suc, ◌≡◌, refl, Bool, true, false, not, ◌&&◌, ◌||◌, Option, none, some, List, [], ◌∷◌, ◌++◌,
  String, ◌==◌, if◌then◌else◌, str_eq,
}
use qube_enterprise_home.Prelude.Text.{Text, text_eq}
use qube_enterprise_home.Qubes.{first_row, rows, update_rows, delete_rows}
use qube_enterprise_home.Templates.{
  Document, marshal, DeviceTemplate, ReaderTemplate, Catalog, is_found,
}
use qube_enterprise_home.Templates.Removal.{number_is}

-- The bodies of `createReaderTemplateHandler` and, without the protocol, of `updateReaderTemplateHandler`.
pub record ReaderRequest : Type 0 where
  pub protocol : String
  pub name : Text
  pub description : Text
  pub image_suffix : Text
  pub connection_schema : Option Document
  pub env_defaults : Option Document

abbrev pub is_row : ℕ → ReaderTemplate → Bool
is_row id t = t.id == id

-- UNIQUE (protocol, image_suffix), against the rows but `id`.
unfoldable pub same_image : ℕ → String → Text → ReaderTemplate → Bool
same_image id protocol suffix t =
    not (t.id == id) && (str_eq t.protocol protocol && text_eq t.image_suffix suffix)

abbrev pub new_reader_template : ℕ → ReaderRequest → ReaderTemplate
new_reader_template id req = record {
  id = id;
  protocol = req.protocol;
  name = req.name;
  description = req.description;
  image_suffix = req.image_suffix;
  connection_schema = marshal req.connection_schema;
  env_defaults = marshal req.env_defaults;
  version = 1;
}

-- `createReaderTemplateHandler`. `works` is also false for a protocol that is not in its table.
unfoldable pub create_reader_template : Bool → ℕ → Option ReaderRequest → Catalog → ℕ × Catalog
create_reader_template works id none c = (400, c)
create_reader_template works id (some req) c =
    if text_eq req.name [] || (str_eq req.protocol "" || text_eq req.image_suffix [])
    then (400, c)
    else if not works
    then (500, c)
    else if is_found (first_row (is_row id) c.readers)
        || is_found (first_row (same_image id req.protocol req.image_suffix) c.readers)
    then (409, c)
    else (201, record c { readers = c.readers ++ (new_reader_template id req ∷ []) })

abbrev pub rewritten_reader : ReaderRequest → ReaderTemplate → ReaderTemplate
rewritten_reader req t = record t {
  name = req.name;
  description = req.description;
  image_suffix = req.image_suffix;
  connection_schema = marshal req.connection_schema;
  env_defaults = marshal req.env_defaults;
  version = suc t.version;
}

unfoldable pub write_reader :
    Bool → ℕ → ReaderRequest → Option ReaderTemplate → Catalog → ℕ × Catalog
write_reader works id req none c = (404, c)
write_reader works id req (some t) c =
    if not works || is_found (first_row (same_image id t.protocol req.image_suffix) c.readers)
    then (404, c)
    else (200, record c { readers = update_rows (is_row id) (rewritten_reader req) c.readers })

-- `updateReaderTemplateHandler`: an error of the database is answered as a row that is not there.
unfoldable pub update_reader_template : Bool → ℕ → Option ReaderRequest → Catalog → ℕ × Catalog
update_reader_template works id none c = (400, c)
update_reader_template works id (some req) c =
    write_reader works id req (first_row (is_row id) c.readers) c

unfoldable pub based_on : ℕ → DeviceTemplate → Bool
based_on id t = number_is id t.reader_template

-- `deleteReaderTemplateHandler`. The device templates that refer to it are against the deletion; so are readers, for
-- which `works` is false.
unfoldable pub delete_reader_template : Bool → ℕ → Catalog → ℕ × Catalog
delete_reader_template works id c =
    if not works
      || (is_found (first_row (based_on id) c.devices)
          || not (is_found (first_row (is_row id) c.readers)))
    then (404, c)
    else (200, record c { readers = delete_rows (is_row id) c.readers })

-- `getReaderTemplateHandler`, which is for everyone.
unfoldable pub get_reader_template : ℕ → Catalog → Option ReaderTemplate
get_reader_template id c = first_row (is_row id) c.readers

-- `listReaderTemplatesHandler`, with `sort` for ORDER BY.
unfoldable pub list_reader_templates :
    (List ReaderTemplate → List ReaderTemplate) → String → Catalog → List ReaderTemplate
list_reader_templates sort protocol c =
    if str_eq protocol ""
    then sort c.readers
    else sort (rows (λ t. str_eq t.protocol protocol) c.readers)

-- A reader template that a device template is based on, or whose new image another one of its protocol has, is
-- reported as not found by the request to delete it or to rewrite it, which changes nothing, while a request to get
-- it finds it.
reader_template-not_found :
    (works : Bool) (id : ℕ) (req : ReaderRequest) (t : ReaderTemplate) (d : DeviceTemplate)
    (u : ReaderTemplate) (c : Catalog)
    → get_reader_template id c ≡ some t
    → first_row (based_on id) c.devices ≡ some d
    → first_row (same_image id t.protocol req.image_suffix) c.readers ≡ some u
    → (delete_reader_template works id c ≡ (404, c))
      × (update_reader_template works id (some req) c ≡ (404, c))
unfolding get_reader_template delete_reader_template update_reader_template write_reader
reader_template-not_found true id req t d u c found based taken =
    (rw based refl, rw (found, taken) refl)
reader_template-not_found false id req t d u c found based taken = (refl, rw found refl)
