-- ===== src/Agent/Env/Saving.antt =====
-- What the saved `.env` says (`saveTokenToEnv`, conf-agent/agent/agent.go).
use qube_enterprise_home.Prelude.{
  ◌≡◌, refl, ap, ◌∙◌, inl, inr, false, ◌||◌, Option, some, List, [], ◌∷◌, ◌++◌, arith,
  if◌then◌else◌, Bool-cases,
}
use mathlib.Core.List.{append-nil}
use qube_enterprise_home.Prelude.Text.{Text, has_prefix, has_byte, has_byte-append}
use qube_enterprise_home.Prelude.Lines.{
  split_at, AreFree, split_at-join_lines, split_at-AreFree, NonEmpty, split_at-NonEmpty,
}
use qube_enterprise_home.Agent.Env.{
  token_key, id_key, set_line, set_lines, any_prefix, with_lines, existing, save_token_to_env,
  read_key,
}
use qube_enterprise_home.Agent.Env.Keys.{
  has_prefix-append, id-not_token, prefix-set_line, read-with_lines,
}

-- The lines of neither key.
unfoldable pub others : List Text → List Text
others [] = []
others (line ∷ rest) =
    if has_prefix line token_key || has_prefix line id_key then others rest else line ∷ others rest

others-append : (xs ys : List Text) → others (xs ++ ys) ≡ others xs ++ others ys
unfolding others
others-append [] ys = refl
others-append (x ∷ xs) ys = elim (Bool-cases (has_prefix x token_key || has_prefix x id_key)) [
  | inl key ↦ rw key (others-append xs ys)
  | inr other ↦ rw (other, others-append xs ys) refl
]

module _ (id token : Text) where
  set_line-other :
      (line : Text)
      → (has_prefix line token_key || has_prefix line id_key) ≡ false
      → set_line id token line ≡ line
  unfolding set_line
  set_line-other line h = ground arith

  others-set_lines : (lines : List Text) → others (set_lines id token lines) ≡ others lines
  unfolding others set_lines
  others-set_lines [] = refl
  others-set_lines (line ∷ rest) =
      let (t, i) = prefix-set_line id token line in
      elim (Bool-cases (has_prefix line token_key || has_prefix line id_key)) [
        | inl key ↦ rw (t, i, key) (others-set_lines rest)
        | inr other ↦
            rw (t, i, other, others-set_lines rest)
              (ap (λ l. l ∷ others rest) (set_line-other line other))
      ]

  added : List Text → List Text
  added lines =
      (if any_prefix token_key lines then [] else (token_key ++ token) ∷ [])
      ++ (if any_prefix id_key lines then [] else (id_key ++ id) ∷ [])

  others-added : (lines : List Text) → others (added lines) ≡ []
  unfolding others added
  others-added lines = elim (Bool-cases (any_prefix token_key lines)) [
    | inl there ↦ elim (Bool-cases (any_prefix id_key lines)) [
      | inl there' ↦ rw (there, there') refl
      | inr new ↦ rw (there, new, id-not_token id, has_prefix-append id_key id) refl
    ]
    | inr new ↦ elim (Bool-cases (any_prefix id_key lines)) [
      | inl there ↦ rw (new, there, has_prefix-append token_key token) refl
      | inr new' ↦
          rw
            (
              new,
              new',
              has_prefix-append token_key token,
              id-not_token id,
              has_prefix-append id_key id,
            )
            refl
    ]
  ]

  module _ (clean_id : has_byte b'\n' id ≡ false) (clean_token : has_byte b'\n' token ≡ false) where
    free-key :
        (key s : Text)
        → has_byte b'\n' key ≡ false
        → has_byte b'\n' s ≡ false
        → has_byte b'\n' (key ++ s) ≡ false
    free-key key s h k = rw (has_byte-append b'\n' key s, h, k) refl

    free-token : has_byte b'\n' (token_key ++ token) ≡ false
    unfolding has_byte
    free-token = free-key token_key token refl clean_token

    free-id : has_byte b'\n' (id_key ++ id) ≡ false
    unfolding has_byte
    free-id = free-key id_key id refl clean_id

    set_line-free :
        (line : Text)
        → has_byte b'\n' line ≡ false
        → has_byte b'\n' (set_line id token line) ≡ false
    unfolding set_line
    set_line-free line h = elim (Bool-cases (has_prefix line id_key)) [
      | inl is_id ↦ rw is_id free-id
      | inr not_id ↦ elim (Bool-cases (has_prefix line token_key)) [
        | inl is_token ↦ rw (not_id, is_token) free-token
        | inr other ↦ rw (not_id, other) h
      ]
    ]

    set_lines-AreFree :
        (lines : List Text) → AreFree b'\n' lines → AreFree b'\n' (set_lines id token lines)
    unfolding set_lines set_line
    set_lines-AreFree [] h = tt
    set_lines-AreFree (line ∷ rest) h = (set_line-free line h.0, set_lines-AreFree rest h.1)

    AreFree-append :
        (xs ys : List Text) → AreFree b'\n' xs → AreFree b'\n' ys → AreFree b'\n' (xs ++ ys)
    AreFree-append [] ys h k = k
    AreFree-append (x ∷ xs) ys h k = (h.0, AreFree-append xs ys h.1 k)

    added-AreFree : (lines : List Text) → AreFree b'\n' (added lines)
    unfolding added
    added-AreFree lines = elim (Bool-cases (any_prefix token_key lines)) [
      | inl there ↦ elim (Bool-cases (any_prefix id_key lines)) [
        | inl there' ↦ rw (there, there') tt
        | inr new ↦ rw (there, new) (free-id, tt)
      ]
      | inr new ↦ elim (Bool-cases (any_prefix id_key lines)) [
        | inl there ↦ rw (new, there) (free-token, tt)
        | inr new' ↦ rw (new, new') (free-token, (free-id, tt))
      ]
    ]

    NonEmpty-set_lines :
        (lines ys : List Text) → NonEmpty lines → NonEmpty (set_lines id token lines ++ ys)
    unfolding set_lines
    NonEmpty-set_lines [] ys n = absurd n
    NonEmpty-set_lines (line ∷ rest) ys n = tt

    saved_lines :
        (file : Option Text)
        → split_at b'\n' (save_token_to_env file id token)
          ≡ with_lines id token (split_at b'\n' (existing file))
    unfolding save_token_to_env with_lines added
    saved_lines file =
        let lines = split_at b'\n' (existing file) in
        split_at-join_lines b'\n' (with_lines id token lines)
          (NonEmpty-set_lines lines _ (split_at-NonEmpty b'\n' (existing file)))
          (AreFree-append (set_lines id token lines) (added lines)
            (set_lines-AreFree lines (split_at-AreFree b'\n' (existing file)))
            (added-AreFree lines))

    -- The file that is written names the token and the id, whatever stood in it before, and keeps every other line
    -- in its order; neither value has a line break.
    pub save_token-read :
        (file : Option Text)
        → let lines = split_at b'\n' (save_token_to_env file id token) in
          (read_key token_key lines ≡ some token)
          × (read_key id_key lines ≡ some id)
          × (others lines ≡ others (split_at b'\n' (existing file)))
    unfolding with_lines added
    save_token-read file =
        let lines = split_at b'\n' (existing file) in
        let (t, i) = read-with_lines id token lines in
        rw (saved_lines file) (
          t,
          i,
          others-append (set_lines id token lines) (added lines)
              ∙ rw (others-set_lines lines, others-added lines) (append-nil (others lines)),
        )
