-- ===== src/Tmux/Keys/RoundTrip.antt =====
-- plugins/tmux/keys.go: a pane's key is read back.
use supergraph.Common.{
  ℕ, ◌≡◌, refl, ap, ◌∙◌, false, some, [], ◌∷◌, ◌++◌, codes, bytes_eq, bytes_eqb,
}
use mathlib.Core.List.{append_assoc}
use supergraph.Common.Int.{ℤ}
use supergraph.Common.Bytes.{Text, cut, has_code, Lacks, cut-append, cut_last-append}
use supergraph.Common.Decimal.{print_int, atoi-print_int, InRange, print_int-Lacks}
use supergraph.Tmux.Keys.{server_key, session_key, pane_key, parse_pane_key, split_host, typename}

has_code-Lacks : (c : ℕ) (t : Text) → Lacks c t → has_code c t ≡ false
unfolding has_code
has_code-Lacks c [] _ = refl
has_code-Lacks c (x ∷ t) (h, hs) = rw (h, has_code-Lacks c t hs)

abbrev rest_of : ℤ → ℤ → Text
rest_of window pane = print_int window ++ b'.' ∷ print_int pane

abbrev scope_of : Text → ℤ → ℤ → Text
scope_of session window pane = session ++ b':' ∷ rest_of window pane

pane_key_split :
    (session : Text) (window pane : ℤ) (host : Text)
    → pane_key session window pane host
      ≡ (codes "pane:" ++ scope_of session window pane) ++ b'@' ∷ host
unfolding pane_key
pane_key_split session window pane host =
    ap (λ t. t ++ b'@' ∷ host)
      (ap (λ t. t ++ b'.' ∷ print_int pane)
          (append_assoc (codes "pane:") session (b':' ∷ print_int window))
        ∙ append_assoc (codes "pane:") (session ++ b':' ∷ print_int window) (b'.' ∷ print_int pane)
        ∙ ap (λ t. codes "pane:" ++ t)
            (append_assoc session (b':' ∷ print_int window) (b'.' ∷ print_int pane)))

split_host-pane_key :
    (session : Text) (window pane : ℤ) (c : ℕ) (host : Text)
    → Lacks b'@' (c ∷ host)
    → split_host (pane_key session window pane (c ∷ host))
      ≡ some (codes "pane:" ++ scope_of session window pane, c ∷ host)
unfolding split_host
split_host-pane_key session window pane c host h =
    rw
      (
        pane_key_split session window pane (c ∷ host),
        cut_last-append b'@' (codes "pane:" ++ scope_of session window pane) (c ∷ host) h,
      )
      refl

cut_body : (scope : Text) → cut b':' (codes "pane:" ++ scope) ≡ some (codes "pane", scope)
unfolding cut
cut_body scope = refl

-- A pane's key is read back as its parts, where the session has no `:` and is not empty, the host
-- has no `@` and is not empty, and both indices are in the range of an int.
pub parse_pane_key-pane_key :
    (x : ℕ) (s : Text) (window pane : ℤ) (c : ℕ) (host : Text)
    → Lacks b':' (x ∷ s)
    → Lacks b'@' (c ∷ host)
    → InRange window
    → InRange pane
    → parse_pane_key (pane_key (x ∷ s) window pane (c ∷ host))
      ≡ some (record { session = x ∷ s; window = window; pane = pane; host = c ∷ host })
unfolding parse_pane_key bytes_eqb
parse_pane_key-pane_key x s window pane c host hs hh hw hp =
    rw
      (
        split_host-pane_key (x ∷ s) window pane c host hh,
        cut_body (scope_of (x ∷ s) window pane),
        cut-append b':' (x ∷ s) (rest_of window pane) hs,
        cut-append b'.' (print_int window) (print_int pane) (print_int-Lacks b'.' refl refl window),
        has_code-Lacks b':' (print_int pane) (print_int-Lacks b':' refl refl pane),
        has_code-Lacks b'.' (print_int pane) (print_int-Lacks b'.' refl refl pane),
        atoi-print_int window hw,
        atoi-print_int pane hp,
      )
      refl

-- The key of each kind of row names its type, for any parts.
typename_of_keys :
    (session host : Text) (window pane : ℤ)
    → (typename (server_key host) ≡ codes "TmuxServer")
      × (typename (session_key session host) ≡ codes "TmuxSession")
      × (typename (pane_key session window pane host) ≡ codes "TmuxPane")
unfolding typename server_key session_key pane_key cut bytes_eqb
typename_of_keys session host window pane = (refl, refl, refl)
