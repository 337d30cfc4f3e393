-- ===== src/Agent/Env.antt =====
-- The file `.env` of a device (`saveTokenToEnv`, conf-agent/agent/agent.go).
pub mod Keys
pub mod Saving
use qube_enterprise_home.Prelude.{
  ℕ, ◌≡◌, refl, sym, ap, ◌∙◌, inl, inr, Bool, true, false, ◌||◌, Option, none, some, List, [], ◌∷◌,
  ◌++◌, arith, if◌then◌else◌, Bool-cases, ◌==◌,
}
use mathlib.Core.Path.{subst}
use mathlib.Core.List.{append-nil}
use qube_enterprise_home.Prelude.Text.{Text, codes, has_prefix, has_byte, has_byte-append}
use qube_enterprise_home.Prelude.Lines.{
  split_at, join_with, AreFree, split_at-join_lines, split_at-AreFree, NonEmpty, split_at-NonEmpty,
}

abbrev pub token_key : Text
token_key = codes "QUBE_TOKEN="

abbrev pub id_key : Text
id_key = codes "QUBE_ID="

-- The first test of the loop, and the second, on the line as it was.
unfoldable pub set_line : Text → Text → Text → Text
set_line id token line =
    if has_prefix line id_key
    then id_key ++ id
    else if has_prefix line token_key
    then token_key ++ token
    else line

unfoldable pub set_lines : Text → Text → List Text → List Text
unfolding set_line
set_lines id token [] = []
set_lines id token (line ∷ rest) = set_line id token line ∷ set_lines id token rest

unfoldable pub any_prefix : Text → List Text → Bool
any_prefix key [] = false
any_prefix key (line ∷ rest) = has_prefix line key || any_prefix key rest

-- The lines behind the loop, with those that were not found.
unfoldable pub with_lines : Text → Text → List Text → List Text
with_lines id token lines =
    set_lines id token lines
    ++ ((if any_prefix token_key lines then [] else (token_key ++ token) ∷ [])
        ++ (if any_prefix id_key lines then [] else (id_key ++ id) ∷ []))

abbrev pub existing : Option Text → Text
existing none = []
existing (some file) = file

-- `saveTokenToEnv`: what it writes; `none` is a file that cannot be read.
unfoldable pub save_token_to_env : Option Text → Text → Text → Text
save_token_to_env file id token =
    join_with b'\n' (with_lines id token (split_at b'\n' (existing file)))

-- What is behind a prefix.
unfoldable pub drop_text : Text → Text → Text
drop_text [] s = s
drop_text (p ∷ ps) [] = []
drop_text (p ∷ ps) (x ∷ xs) = drop_text ps xs

-- A reader of the file: the value of the first line with a key.
unfoldable pub read_key : Text → List Text → Option Text
read_key key [] = none
read_key key (line ∷ rest) =
    if has_prefix line key then some (drop_text key line) else read_key key rest
