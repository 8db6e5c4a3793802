-- ===== src/Github/Webhook/Delivery.antt =====
-- plugins/github/webhook.go: what a delivery does, once, twice and when it fails.
use supergraph.Common.{
  ℕ, ◌≡◌, ◌≢◌, refl, ap, ◌∙◌, inl, inr, Bool, true, false, ◌||◌, not, Option, none, some, List, [],
  ◌∷◌, bytes_eq, ◌==◌, if◌then◌else◌, arith, Bool-cases, contains, beq_refl,
}
use supergraph.Common.Dict.{lookup}
use supergraph.Common.Bytes.{Text}
use supergraph.Github.Events.{event_key, related_keys}
use supergraph.Github.Store.{Tables, Driver, purge, delivery_seen, mark_delivery}
use supergraph.Github.Store.Purge.{IsCalm, purge_exact, is_evicted}
use supergraph.Github.Plugin.{Plugin, GithubEvent, node_updated, node_purged}
use supergraph.Github.Webhook.{
  Request, Body, body, too_large, unreadable, ok, Outside, verify_signature, purge_into,
  purge_related, answered, handle_event, deliver, received, handle_webhook,
}

purge_into_tables :
    (p : Plugin) (key : Text) (r : Tables × Option (List Text)) → (purge_into p key r).tables ≡ r.0
purge_into_tables p key (t, none) = refl
purge_into_tables p key (t, some gone) = refl

-- The purges of a loop never bring a node back.
purge_related_absent :
    (d : Driver) (key : Text) (rks : List Text) (p : Plugin) (j : Text)
    → IsCalm d
    → lookup j p.tables.github_nodes ≡ none
    → lookup j (purge_related d key rks p).tables.github_nodes ≡ none
unfolding purge_related
purge_related_absent d key [] p j calm h = h
purge_related_absent d key (rk ∷ rks) p j calm h = elim (Bool-cases (rk == key)) [
  | inl e ↦ rw e (purge_related_absent d key rks p j calm h)
  | inr e ↦ rw e (
      purge_related_absent d key rks (purge_into p rk (purge d rk p.tables)) j calm (
        ap (λ t. lookup j t.github_nodes) (purge_into_tables p rk (purge d rk p.tables))
        ∙ (purge_exact d rk j [] p.tables calm).1
        ∙ ground (arith, h)))
]

other : (a b c : Text) → (a == b) ≡ true → (b == c) ≡ false → (a == c) ≡ false
other a b c e n = ground (arith, bytes_eq.same_iff a b)

rest_contains :
    (rk : Text) (rks : List Text) (j : Text)
    → (rk == j) ≡ false
    → contains (rk ∷ rks) j ≡ true
    → contains rks j ≡ true
unfolding contains
rest_contains rk rks j e h = ground (arith, e, h)

purge_related_gone :
    (d : Driver) (key : Text) (rks : List Text) (p : Plugin) (j : Text)
    → IsCalm d
    → contains rks j ≡ true
    → (j == key) ≡ false
    → lookup j (purge_related d key rks p).tables.github_nodes ≡ none
unfolding purge_related contains
purge_related_gone d key [] p j calm h n = absurd (cc)
purge_related_gone d key (rk ∷ rks) p j calm h n = elim (Bool-cases (rk == j)) [
  | inl e ↦ rw (other rk j key e n) (
      purge_related_absent d key rks (purge_into p rk (purge d rk p.tables)) j calm (
        ap (λ t. lookup j t.github_nodes) (purge_into_tables p rk (purge d rk p.tables))
        ∙ (purge_exact d rk j [] p.tables calm).1
        ∙ ground (arith, e, bytes_eq.same_iff rk j, bytes_eq.same_iff j rk)))
  | inr e ↦ elim (Bool-cases (rk == key)) [
    | inl k ↦ rw k (purge_related_gone d key rks p j calm (rest_contains rk rks j e h) n)
    | inr k ↦ rw k (
        purge_related_gone d key rks (purge_into p rk (purge d rk p.tables)) j calm
          (rest_contains rk rks j e h) n)
  ]
]

-- The keys that an event evicts.
abbrev pub is_touched : Text → List Text → Text → Tables → Bool
is_touched key related j t = is_evicted key j t || contains related j

purge_ends :
    (d : Driver) (key : Text) (related : List Text) (p : Plugin) (j : Text)
    → IsCalm d
    → is_touched key related j p.tables ≡ true
    → ((answered d key related p (purge d key p.tables)).1 ≡ ok)
      × (lookup j (answered d key related p (purge d key p.tables)).0.tables.github_nodes ≡ none)
purge_ends d key related p j calm h =
    go (purge d key p.tables) (purge_exact d key j [] p.tables calm).0
      (purge_exact d key j [] p.tables calm).1
  where
    go :
        (r : Tables × Option (List Text))
        → r.1 ≢ none
        → lookup j r.0.github_nodes
          ≡ (if is_evicted key j p.tables then none else lookup j p.tables.github_nodes)
        → ((answered d key related p r).1 ≡ ok)
          × (lookup j (answered d key related p r).0.tables.github_nodes ≡ none)
    go (t, none) ne e = absurd (ne refl)
    go (t, some gone) ne e = (
      refl,
      elim (Bool-cases (is_evicted key j p.tables)) [
        | inl hit ↦
            purge_related_absent d key related (purge_into p key (t, some gone)) j calm
              (e ∙ rw hit refl)
        | inr miss ↦
            purge_related_gone d key related (purge_into p key (t, some gone)) j calm
              (ground (arith, h, miss)) (ground (arith, miss))
      ],
    )

-- What a request must carry to be looked at: a body that is read and a signature that verifies.
abbrev pub is_verified : Outside → Request → Body → Bool
is_verified o r (body content) = verify_signature o content r.signature
is_verified o r too_large = false
is_verified o r unreadable = false

-- A request whose body is too large, cannot be read or does not carry the signature of the secret
-- changes no table and emits nothing, and is not answered with ok; a plugin without a secret takes no
-- request.
handle_webhook-unverified :
    (o : Outside) (d : Driver) (now : ℕ) (r : Request) (p : Plugin)
    → is_verified o r r.content ≡ false
    → ((handle_webhook o d now r p).0 ≡ p) × ((handle_webhook o d now r p).1 ≢ ok)
unfolding handle_webhook
handle_webhook-unverified o d now r p h = go r.content h
  where
    go :
        (b : Body)
        → is_verified o r b ≡ false
        → ((received o d now r p b).0 ≡ p) × ((received o d now r p b).1 ≢ ok)
    go too_large h = (refl, (λ e. cc))
    go unreadable h = (refl, (λ e. cc))
    go (body content) h = rw h (refl, (λ e. cc))

-- Whether a purge of a key was announced.
unfoldable pub announces : Text → List GithubEvent → Bool
announces key [] = false
announces key (node_purged k ∷ es) = k == key || announces key es
announces key (node_updated n ∷ es) = announces key es

announces-purge_into :
    (key rk : Text) (p : Plugin) (r : Tables × Option (List Text))
    → announces key p.emitted ≡ true
    → announces key (purge_into p rk r).emitted ≡ true
unfolding announces
announces-purge_into key rk p (t, none) h = h
announces-purge_into key rk p (t, some gone) h = ground (arith, h)

announces-purge_related :
    (d : Driver) (key k : Text) (rks : List Text) (p : Plugin)
    → announces k p.emitted ≡ true
    → announces k (purge_related d key rks p).emitted ≡ true
unfolding purge_related
announces-purge_related d key k [] p h = h
announces-purge_related d key k (rk ∷ rks) p h = elim (Bool-cases (rk == key)) [
  | inl e ↦ rw e (announces-purge_related d key k rks p h)
  | inr e ↦ rw e (
      announces-purge_related d key k rks (purge_into p rk (purge d rk p.tables))
        (announces-purge_into k rk p (purge d rk p.tables) h))
]

answered-announces :
    (d : Driver) (key : Text) (related : List Text) (p : Plugin) (r : Tables × Option (List Text))
    → r.1 ≢ none
    → announces key (answered d key related p r).0.emitted ≡ true
unfolding announces
answered-announces d key related p (t, none) ne = absurd (ne refl)
answered-announces d key related p (t, some gone) ne =
    announces-purge_related d key key related (purge_into p key (t, some gone))
      (ground (arith, beq_refl key))

unfoldable pub marked : Driver → ℕ → Text → Plugin → Plugin
marked d now id p = if id == [] then p else record p { tables = mark_delivery d id now p.tables }

unfoldable pub is_new : Driver → Text → Plugin → Bool
is_new d id p = id == [] || not (delivery_seen d id p.tables)

pub deliver_new :
    (o : Outside) (d : Driver) (now : ℕ) (content : Text) (r : Request) (p : Plugin)
    → is_new d r.delivery p ≡ true
    → deliver o d now content r p ≡ handle_event o d r.event content (marked d now r.delivery p)
unfolding deliver marked is_new
deliver_new o d now content r p h = elim (Bool-cases (r.delivery == [])) [
  | inl e ↦ rw e refl
  | inr e ↦ rw (e, not_seen e) refl
]
  where
    not_seen : (r.delivery == []) ≡ false → delivery_seen d r.delivery p.tables ≡ false
    not_seen e = ground (arith, h, e)

marked_keeps :
    (d : Driver) (now : ℕ) (id : Text) (p : Plugin)
    → ((marked d now id p).tables.github_nodes ≡ p.tables.github_nodes)
      × ((marked d now id p).tables.github_tags ≡ p.tables.github_tags)
unfolding marked mark_delivery
marked_keeps d now id p = elim (Bool-cases (id == [])) [
  | inl e ↦ rw e (refl, refl)
  | inr e ↦ rw e (elim (Bool-cases (d.mark_fails id)) [
    | inl f ↦ rw f (refl, refl)
    | inr f ↦ rw f (refl, refl)
  ])
]

pub verified_deliver :
    (o : Outside) (d : Driver) (now : ℕ) (r : Request) (p : Plugin) (content : Text)
    → r.content ≡ body content
    → verify_signature o content r.signature ≡ true
    → handle_webhook o d now r p ≡ deliver o d now content r p
unfolding handle_webhook
verified_deliver o d now r p content b v = ap (received o d now r p) b ∙ rw v refl

is_touched-marked :
    (d : Driver) (now : ℕ) (id key : Text) (related : List Text) (p : Plugin) (j : Text)
    → is_touched key related j (marked d now id p).tables ≡ is_touched key related j p.tables
is_touched-marked d now id key related p j = rw ((marked_keeps d now id p).1) refl

-- A verified delivery that was not seen before and addresses an object, with no statement that fails,
-- is answered with ok and announces the purge of the object's key, and no key that the event touches
-- (the object's, that of a list result with its composite, and those of the pull requests that a check
-- ran against) has a node in the cache after it.
pub handle_webhook-evicts :
    (o : Outside) (d : Driver) (now : ℕ) (r : Request) (p : Plugin) (content key j : Text)
    → r.content ≡ body content
    → verify_signature o content r.signature ≡ true
    → is_new d r.delivery p ≡ true
    → event_key o.print_other r.event (o.decode content) ≡ some key
    → IsCalm d
    → is_touched key (related_keys o.print_other r.event (o.decode content)) j p.tables ≡ true
    → ((handle_webhook o d now r p).1 ≡ ok)
      × (announces key (handle_webhook o d now r p).0.emitted ≡ true)
      × (lookup j (handle_webhook o d now r p).0.tables.github_nodes ≡ none)
unfolding handle_event
handle_webhook-evicts o d now r p content key j b v n k calm h =
    rw (verified_deliver o d now r p content b v, deliver_new o d now content r p n, k)
      (
        ends.0,
        answered-announces d key related q (purge d key q.tables)
            (purge_exact d key key [] q.tables calm).0,
        ends.1,
      )
  where
    q : Plugin
    q = marked d now r.delivery p

    related : List Text
    related = related_keys o.print_other r.event (o.decode content)

    ends :
        ((answered d key related q (purge d key q.tables)).1 ≡ ok)
        × (lookup j (answered d key related q (purge d key q.tables)).0.tables.github_nodes ≡ none)
    ends =
        purge_ends d key related q j calm (is_touched-marked d now r.delivery key related p j ∙ h)
