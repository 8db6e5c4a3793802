-- ===== src/Server/Guard.antt =====
-- server/server.go and core/config.go: a server that is reached from other boxes is guarded.
use supergraph.Common.{
  ◌≡◌, ◌≢◌, refl, ap, sym, ◌∙◌, inl, inr, Bool, true, false, ◌&&◌, ◌||◌, ◌↔◌, eqb, eqb_iff, not,
  Option, none, some, List, [], ◌∷◌, ◌++◌, codes, bytes_eq, ◌==◌, arith, Bool-cases,
}
use supergraph.Common.Bytes.{Text, after_prefix, after_prefix-append, trim_space}
use supergraph.Core.Config.{
  Config, System, loaded, has_no_tokens, listen_is_loopback, checked_tokens, parsed, content_read,
  load_config, apply_defaults,
}
use supergraph.Server.{token_matches, prefix_matches, bearer_auth, admits}

-- A token of the configuration.
unfoldable pub is_token : Text → List (Text × Text) → Bool
is_token t [] = false
is_token t ((name, want) ∷ tokens) = want == t || is_token t tokens

is_token-token_matches :
    (t : Text) (tokens : List (Text × Text)) → token_matches t tokens ≡ is_token t tokens
unfolding token_matches is_token
is_token-token_matches t [] = refl
is_token-token_matches t ((name, want) ∷ tokens) =
    ground
      (arith, is_token-token_matches t tokens, bytes_eq.same_iff t want, bytes_eq.same_iff want t)

after_prefix_sound : (p h t : Text) → after_prefix p h ≡ some t → h ≡ p ++ t
unfolding after_prefix
after_prefix_sound [] h t e = cc
after_prefix_sound (x ∷ p) [] t e = absurd (cc)
after_prefix_sound (x ∷ p) (y ∷ h) t e = elim (Bool-cases (eqb y x)) [
  | inl same ↦
      let e' = rw same at e in
      rw ((eqb_iff y x).0 same) (ap (λ u. x ∷ u) (after_prefix_sound p h t e'))
  | inr differs ↦ absurd (let e' = rw differs at e in cc)
]

loaded_inj : {a b : Config} → loaded a ≡ loaded b → a ≡ b
loaded_inj e = cc

abbrev refuses : System → Config → Bool
refuses y c = not (listen_is_loopback y c.listen) && has_no_tokens c.tokens

checked_lem :
    (y : System) (d c : Config)
    → checked_tokens y d ≡ loaded c
    → listen_is_loopback y c.listen ≡ false
    → c.tokens ≢ []
checked_lem y d c e o none_left = elim (Bool-cases (refuses y d)) [
  | inl f ↦ absurd (let e' = rw f at e in cc)
  | inr f ↦ absurd (
      let f' = ap (refuses y) (sym (loaded_inj (rw f at e))) ∙ f in
      let g = rw (o, none_left) at f' in cc)
]

loaded_lem :
    (y : System) (path : Text) (c : Config)
    → load_config y path ≡ loaded c
    → listen_is_loopback y c.listen ≡ false
    → c.tokens ≢ []
unfolding load_config
loaded_lem y path c e o = go (y.read_file path) e
  where
    parses : (x : Option Config) → parsed y x ≡ loaded c → c.tokens ≢ []
    parses none e = absurd (cc)
    parses (some d) e = elim (Bool-cases (trim_space d.host_id == [])) [
      | inl h ↦ absurd (let e' = rw h at e in cc)
      | inr h ↦ checked_lem y (apply_defaults y d) c (rw h at e) o
    ]

    go : (x : Option Text) → content_read y x ≡ loaded c → c.tokens ≢ []
    go none e = absurd (cc)
    go (some content) e = parses (y.parse content) e

-- A configuration that loads and whose listen address other boxes reach has a token, and the server
-- hands a request on exactly if its Authorization header is `Bearer ` and one of the tokens.
pub admits-load_config :
    (y : System) (path : Text) (c : Config) (header : Text)
    → load_config y path ≡ loaded c
    → listen_is_loopback y c.listen ≡ false
    → (c.tokens ≢ [])
      × ((admits y c header ≡ true)
          ↔ ((t : Text) × (header ≡ codes "Bearer " ++ t) × (is_token t c.tokens ≡ true)))
unfolding admits bearer_auth
admits-load_config y path c header e o = (
  loaded_lem y path c e o,
  (
    (λ h. read (after_prefix (codes "Bearer ") header) refl (rw o at h)),
    (λ (t, h, k).
        rw (o, h, after_prefix-append (codes "Bearer ") t) (is_token-token_matches t c.tokens ∙ k)),
  ),
)
  where
    read :
        (x : Option Text)
        → after_prefix (codes "Bearer ") header ≡ x
        → prefix_matches c.tokens x ≡ true
        → (t : Text) × (header ≡ codes "Bearer " ++ t) × (is_token t c.tokens ≡ true)
    read none q m = absurd (cc)
    read (some t) q m = (
      t,
      after_prefix_sound (codes "Bearer ") header t q,
      sym (is_token-token_matches t c.tokens) ∙ m,
    )
