-- ===== src/Agent/Env/Keys.antt =====
-- The lines of the two keys in `.env` (`saveTokenToEnv`, conf-agent/agent/agent.go).
use qube_enterprise_home.Prelude.{
  ◌≡◌, refl, sym, ◌∙◌, inl, inr, true, false, some, List, [], ◌∷◌, ◌++◌, arith, if◌then◌else◌,
  Bool-cases,
}
use mathlib.Core.Path.{subst}
use qube_enterprise_home.Prelude.Text.{Text, has_prefix}
use qube_enterprise_home.Agent.Env.{
  token_key, id_key, set_line, set_lines, any_prefix, with_lines, drop_text, read_key,
}

true-ne-false : true ≡ false → ⊥
true-ne-false h = cc

pub has_prefix-append : (p s : Text) → has_prefix (p ++ s) p ≡ true
unfolding has_prefix
has_prefix-append [] s = refl
has_prefix-append (x ∷ xs) s = ground (arith, has_prefix-append xs s)

drop_text-append : (p s : Text) → drop_text p (p ++ s) ≡ s
unfolding drop_text
drop_text-append [] s = refl
drop_text-append (x ∷ xs) s = drop_text-append xs s

pub id-not_token : (s : Text) → has_prefix (id_key ++ s) token_key ≡ false
unfolding has_prefix
id-not_token s = refl

token-not_id : (s : Text) → has_prefix (token_key ++ s) id_key ≡ false
unfolding has_prefix
token-not_id s = refl

prefix-split : (s p : Text) → has_prefix s p ≡ true → s ≡ p ++ drop_text p s
unfolding has_prefix drop_text
prefix-split s [] h = refl
prefix-split [] (p ∷ ps) h = cc
prefix-split (x ∷ xs) (p ∷ ps) h = ground (arith, prefix-split xs ps)

-- The two keys exclude each other.
token-excludes_id :
    (line : Text) → has_prefix line token_key ≡ true → has_prefix line id_key ≡ false
token-excludes_id line h =
    subst (λ l. has_prefix l id_key ≡ false) (sym (prefix-split line token_key h))
      (token-not_id (drop_text token_key line))

module _ (id token : Text) where
  pub prefix-set_line :
      (line : Text)
      → (has_prefix (set_line id token line) token_key ≡ has_prefix line token_key)
        × (has_prefix (set_line id token line) id_key ≡ has_prefix line id_key)
  unfolding set_line
  prefix-set_line line = elim (Bool-cases (has_prefix line id_key)) [
    | inl is_id ↦ elim (Bool-cases (has_prefix line token_key)) [
      | inl both ↦ absurd (true-ne-false (sym is_id ∙ token-excludes_id line both))
      | inr other ↦ rw (is_id, other) (id-not_token id, has_prefix-append id_key id)
    ]
    | inr not_id ↦ elim (Bool-cases (has_prefix line token_key)) [
      | inl is_token ↦ rw (not_id, is_token) (has_prefix-append token_key token, token-not_id token)
      | inr other ↦ rw (not_id, other, not_id, other) (refl, refl)
    ]
  ]

  set_line-set_line :
      (before line : Text) → set_line id token (set_line id before line) ≡ set_line id token line
  unfolding set_line
  set_line-set_line before line = elim (Bool-cases (has_prefix line id_key)) [
    | inl is_id ↦ rw (is_id, has_prefix-append id_key id) refl
    | inr not_id ↦ elim (Bool-cases (has_prefix line token_key)) [
      | inl is_token ↦
          rw (not_id, is_token, token-not_id before, has_prefix-append token_key before) refl
      | inr other ↦ rw (not_id, other, not_id, other) refl
    ]
  ]

  any_prefix-set_lines :
      (lines : List Text)
      → (any_prefix token_key (set_lines id token lines) ≡ any_prefix token_key lines)
        × (any_prefix id_key (set_lines id token lines) ≡ any_prefix id_key lines)
  unfolding set_lines any_prefix
  any_prefix-set_lines [] = (refl, refl)
  any_prefix-set_lines (line ∷ rest) =
      let (t, i) = prefix-set_line line in
      let (t', i') = any_prefix-set_lines rest in (rw (t, t') refl, rw (i, i') refl)

  set_lines-append :
      (xs ys : List Text)
      → set_lines id token (xs ++ ys) ≡ set_lines id token xs ++ set_lines id token ys
  unfolding set_lines
  set_lines-append [] ys = refl
  set_lines-append (x ∷ xs) ys = rw (set_lines-append xs ys) refl

  set_lines-set_lines :
      (before : Text) (lines : List Text)
      → set_lines id token (set_lines id before lines) ≡ set_lines id token lines
  unfolding set_lines
  set_lines-set_lines before [] = refl
  set_lines-set_lines before (line ∷ rest) =
      rw (set_line-set_line before line, set_lines-set_lines before rest) refl

  -- What a reader finds in lines that were set, and behind them.
  read-set_lines :
      (lines rest : List Text)
      → (read_key token_key (set_lines id token lines ++ rest)
          ≡ (if any_prefix token_key lines then some token else read_key token_key rest))
        × (read_key id_key (set_lines id token lines ++ rest)
            ≡ (if any_prefix id_key lines then some id else read_key id_key rest))
  unfolding set_lines read_key any_prefix set_line
  read-set_lines [] rest = (refl, refl)
  read-set_lines (line ∷ lines) rest =
      let (t, i) = read-set_lines lines rest in
      elim (Bool-cases (has_prefix line id_key)) [
        | inl is_id ↦ elim (Bool-cases (has_prefix line token_key)) [
          | inl both ↦ absurd (true-ne-false (sym is_id ∙ token-excludes_id line both))
          | inr other ↦
              rw
                (
                  is_id,
                  other,
                  id-not_token id,
                  has_prefix-append id_key id,
                  drop_text-append id_key id,
                )
                (t, refl)
        ]
        | inr not_id ↦ elim (Bool-cases (has_prefix line token_key)) [
          | inl is_token ↦
              rw
                (
                  not_id,
                  is_token,
                  token-not_id token,
                  has_prefix-append token_key token,
                  drop_text-append token_key token,
                )
                (refl, i)
          | inr other ↦ rw (not_id, other, not_id, other) (t, i)
        ]
      ]

  pub read-with_lines :
      (lines : List Text)
      → (read_key token_key (with_lines id token lines) ≡ some token)
        × (read_key id_key (with_lines id token lines) ≡ some id)
  unfolding with_lines read_key
  read-with_lines lines =
      let added =
        (if any_prefix token_key lines then [] else (token_key ++ token) ∷ [])
        ++ (if any_prefix id_key lines then [] else (id_key ++ id) ∷ []) in
      let (t, i) = read-set_lines lines added in
      (
        t ∙ elim (Bool-cases (any_prefix token_key lines)) [
          | inl there ↦ rw there refl
          | inr new ↦
              rw (new, has_prefix-append token_key token, drop_text-append token_key token) refl
        ],
        i ∙ elim (Bool-cases (any_prefix id_key lines)) [
          | inl there ↦ rw there refl
          | inr new ↦ elim (Bool-cases (any_prefix token_key lines)) [
            | inl there ↦
                rw (new, there, has_prefix-append id_key id, drop_text-append id_key id) refl
            | inr new' ↦
                rw
                  (
                    new,
                    new',
                    token-not_id token,
                    has_prefix-append id_key id,
                    drop_text-append id_key id,
                  )
                  refl
          ]
        ],
      )
