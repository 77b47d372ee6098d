-- ===== src/Spring/Names/Sanitize.antt =====
-- sanitizeName and envReady of pkg/controller/virtualdatabase/convert-ds-properties.go.
use teiid_operator.Prelude.{
  ℕ, ◌≡◌, refl, Bool, true, List, [], ◌∷◌, ◌++◌, arith, All, Bool-cases, inl, inr, ◌∙◌,
  append_assoc, append-nil, not, nat_Eq, ◌==◌, if◌then◌else◌, ◌&&◌, leb,
}
use teiid_operator.Text.{
  Str, codes, to_lower, upper, remove_byte-append, to_lower-append, to_lower_idem,
}
use teiid_operator.Spring.Names.{
  sanitize_name, sanitize_tokens, sanitize_rest, glues, remove_dash, tokenize_at_upper_case,
  env_ready,
}
use teiid_operator.Spring.Names.Tokens.{concat, concat-words, tokenize_at_upper_case-eq-words}

remove_dash-append : (s t : Str) → remove_dash (s ++ t) ≡ remove_dash s ++ remove_dash t
unfolding remove_dash
remove_dash-append s t = remove_byte-append b'-' s t

remove_dash-dash : (s t : Str) → remove_dash (s ++ codes "-" ++ t) ≡ remove_dash s ++ remove_dash t
remove_dash-dash s t =
    rw (remove_dash-append (s ++ codes "-") t, remove_dash-append s (codes "-"))
      (unfold remove_dash in rw append-nil)

to_lower-dash : (s t : Str) → to_lower (s ++ codes "-" ++ t) ≡ to_lower s ++ codes "-" ++ to_lower t
to_lower-dash s t =
    rw (to_lower-append (s ++ codes "-") t, to_lower-append s (codes "-")) (unfold to_lower in refl)

concat-cons :
    (w : Str) (ws : List Str) → to_lower (concat (w ∷ ws)) ≡ to_lower w ++ to_lower (concat ws)
concat-cons w ws = unfold concat in to_lower-append w (concat ws)

concat-nil : to_lower (concat []) ≡ []
unfolding concat to_lower
concat-nil = refl

remove_dash-nil : remove_dash [] ≡ []
unfolding remove_dash
remove_dash-nil = refl

ruleset letters = (remove_dash-append, remove_dash-dash, append_assoc)

sanitize_rest-letters :
    (m prev : Str) (tokens : List Str)
    → remove_dash (sanitize_rest m prev tokens)
      ≡ remove_dash m ++ remove_dash (to_lower (concat tokens))
unfolding sanitize_rest
sanitize_rest-letters m prev [] = rw (concat-nil, remove_dash-nil, append-nil)
sanitize_rest-letters m prev (w ∷ tokens) = elim (Bool-cases (glues prev)) [
  | inl e ↦
      rw (e, sanitize_rest-letters (m ++ to_lower w) w tokens, concat-cons w tokens)
        (rw (
          remove_dash-append m (to_lower w),
          remove_dash-append (to_lower w) (to_lower (concat tokens)),
          append_assoc,
        ))
  | inr e ↦
      rw (e, sanitize_rest-letters (m ++ codes "-" ++ to_lower w) w tokens, concat-cons w tokens)
        (rw (
          remove_dash-dash m (to_lower w),
          remove_dash-append (to_lower w) (to_lower (concat tokens)),
          append_assoc,
        ))
]

sanitize_rest-lower :
    (m prev : Str) (tokens : List Str)
    → to_lower m ≡ m
    → to_lower (sanitize_rest m prev tokens) ≡ sanitize_rest m prev tokens
unfolding sanitize_rest
sanitize_rest-lower m prev [] h = h
sanitize_rest-lower m prev (w ∷ tokens) h = elim (Bool-cases (glues prev)) [
  | inl e ↦ rw e (
      sanitize_rest-lower (m ++ to_lower w) w tokens
        (rw (to_lower-append m (to_lower w), h, to_lower_idem w)))
  | inr e ↦ rw e (
      sanitize_rest-lower (m ++ codes "-" ++ to_lower w) w tokens
        (rw (to_lower-dash m (to_lower w), h, to_lower_idem w)))
]

sanitize_tokens-letters :
    (tokens : List Str)
    → remove_dash (sanitize_tokens tokens) ≡ remove_dash (to_lower (concat tokens))
unfolding sanitize_tokens
sanitize_tokens-letters [] = rw concat-nil
sanitize_tokens-letters (w ∷ tokens) =
    sanitize_rest-letters (to_lower w) w tokens
    ∙ rw (concat-cons w tokens, remove_dash-append (to_lower w) (to_lower (concat tokens)))

sanitize_tokens-lower :
    (tokens : List Str) → to_lower (sanitize_tokens tokens) ≡ sanitize_tokens tokens
unfolding sanitize_tokens
sanitize_tokens-lower [] = unfold to_lower in refl
sanitize_tokens-lower (w ∷ tokens) = sanitize_rest-lower (to_lower w) w tokens (to_lower_idem w)

-- A sanitized name is the name in lower case, but for the dashes, and it has no capitals.
pub sanitize_name-letters :
    (v : Str)
    → (remove_dash (sanitize_name v) ≡ remove_dash (to_lower v))
      × (to_lower (sanitize_name v) ≡ sanitize_name v)
unfolding sanitize_name
sanitize_name-letters v = (
  sanitize_tokens-letters (tokenize_at_upper_case v)
      ∙ rw (tokenize_at_upper_case-eq-words v, concat-words v),
  sanitize_tokens-lower (tokenize_at_upper_case v),
)

-- The bytes that envReady leaves.
abbrev pub is_ready : ℕ → Bool
is_ready c = not (c == b'.') && (not (c == b'-') && not (leb b'a' c && leb c b'z'))

abbrev ready : ℕ → ℕ
ready c =
    upper (if (if c == b'.' then b'_' else c) == b'-' then b'_' else if c == b'.' then b'_' else c)

ready-is_ready : (c : ℕ) → is_ready (ready c) ≡ true
unfolding upper
ready-is_ready c = ground arith

-- No dot, dash or small letter is left.
pub env_ready-All : (v : Str) → All (λ c. is_ready c ≡ true) (env_ready v)
unfolding env_ready
env_ready-All [] = tt
env_ready-All (c ∷ v) = (ready-is_ready c, env_ready-All v)
