-- ===== src/Github/Webhook/Once.antt =====
-- plugins/github/webhook.go: a delivery that is sent again.
use supergraph.Common.{
  ℕ, ◌≡◌, refl, ap, ◌∙◌, inl, inr, Bool, true, false, ◌&&◌, not, Option, none, some, List, [], ◌∷◌,
  bytes_eq, ◌==◌, if◌then◌else◌, arith, Bool-cases, is_some, beq_refl,
}
use supergraph.Common.Dict.{lookup, lookup-insert}
use supergraph.Common.Bytes.{Text}
use supergraph.Github.Keys.{composite}
use supergraph.Github.Events.{event_key, related_keys}
use supergraph.Github.Store.{
  Tables, Driver, evict, evict_all, evict_next, purge, purge_key, purged, listed, ignore_known,
  delivery_seen, mark_delivery,
}
use supergraph.Github.Webhook.Delivery.{verified_deliver, deliver_new, marked, is_new}
use supergraph.Github.Plugin.{Plugin}
use supergraph.Github.Webhook.{
  Request, body, ok, Outside, verify_signature, purge_into, purge_related, answered, invalidated,
  handle_event, deliver, handle_webhook,
}

evict_deliveries :
    (d : Driver) (k : Text) (t : Tables) → (evict d k t).0.github_deliveries ≡ t.github_deliveries
unfolding evict
evict_deliveries d k t = elim (Bool-cases (d.delete_fails k)) [
  | inl e ↦ rw e refl
  | inr e ↦ rw e (elim (Bool-cases (d.untag_fails k)) [ inl f ↦ rw f refl | inr f ↦ rw f refl ])
]

evict_all_deliveries :
    (d : Driver) (ks : List Text) (t : Tables)
    → (evict_all d ks t).0.github_deliveries ≡ t.github_deliveries
unfolding evict_all
evict_all_deliveries d [] t = refl
evict_all_deliveries d (k ∷ ks) t =
    go (evict_all_deliveries d ks) (evict d k t) (evict_deliveries d k t)
  where
    go :
        ((u : Tables) → (evict_all d ks u).0.github_deliveries ≡ u.github_deliveries)
        → (r : Tables × Bool) → r.0.github_deliveries ≡ t.github_deliveries
        → (evict_next (evict_all d ks) r).0.github_deliveries ≡ t.github_deliveries
    go rest (u, true) e = rest u ∙ e
    go rest (u, false) e = e

purged_deliveries :
    (key : Text) (lists : List Text) (there : Bool) (r : Tables × Bool)
    → (purged key lists there r).0.github_deliveries ≡ r.0.github_deliveries
purged_deliveries key lists there (t, true) = refl
purged_deliveries key lists there (t, false) = refl

purge_key_deliveries :
    (d : Driver) (key : Text) (lists : List Text) (r : Tables × Bool)
    → (purge_key d key lists r).0.github_deliveries ≡ r.0.github_deliveries
purge_key_deliveries d key lists (t, true) =
    purged_deliveries key lists (is_some (lookup key t.github_nodes)) (evict d key t)
    ∙ evict_deliveries d key t
purge_key_deliveries d key lists (t, false) = refl

purge_deliveries :
    (d : Driver) (key : Text) (t : Tables)
    → (purge d key t).0.github_deliveries ≡ t.github_deliveries
unfolding purge
purge_deliveries d key t = elim (Bool-cases (not (composite key == []) && d.scan_tags_fails)) [
  | inl e ↦ rw e refl
  | inr e ↦ rw e (
      purge_key_deliveries d key (listed (composite key) t)
        (evict_all d (listed (composite key) t) t)
      ∙ evict_all_deliveries d (listed (composite key) t) t)
]

purge_into_deliveries :
    (p : Plugin) (key : Text) (r : Tables × Option (List Text))
    → (purge_into p key r).tables.github_deliveries ≡ r.0.github_deliveries
purge_into_deliveries p key (t, none) = refl
purge_into_deliveries p key (t, some gone) = refl

purge_related_deliveries :
    (d : Driver) (key : Text) (rks : List Text) (p : Plugin)
    → (purge_related d key rks p).tables.github_deliveries ≡ p.tables.github_deliveries
unfolding purge_related
purge_related_deliveries d key [] p = refl
purge_related_deliveries d key (rk ∷ rks) p = elim (Bool-cases (rk == key)) [
  | inl e ↦ rw e (purge_related_deliveries d key rks p)
  | inr e ↦ rw e (
      purge_related_deliveries d key rks (purge_into p rk (purge d rk p.tables))
      ∙ purge_into_deliveries p rk (purge d rk p.tables)
      ∙ purge_deliveries d rk p.tables)
]

answered_deliveries :
    (d : Driver) (key : Text) (related : List Text) (p : Plugin) (r : Tables × Option (List Text))
    → (answered d key related p r).0.tables.github_deliveries ≡ r.0.github_deliveries
answered_deliveries d key related p (t, none) = refl
answered_deliveries d key related p (t, some gone) =
    purge_related_deliveries d key related (purge_into p key (t, some gone))

handle_event_deliveries :
    (o : Outside) (d : Driver) (event content : Text) (p : Plugin)
    → (handle_event o d event content p).0.tables.github_deliveries ≡ p.tables.github_deliveries
unfolding handle_event
handle_event_deliveries o d event content p = go (event_key o.print_other event (o.decode content))
  where
    related : List Text
    related = related_keys o.print_other event (o.decode content)

    go :
        (k : Option Text)
        → (invalidated d related p k).0.tables.github_deliveries ≡ p.tables.github_deliveries
    go none = refl
    go (some key) =
        answered_deliveries d key related p (purge d key p.tables) ∙ purge_deliveries d key p.tables

-- A second request with the id of a delivery that the table holds.
seen_again :
    (o : Outside) (d : Driver) (now : ℕ) (r : Request) (p : Plugin) (content : Text)
    → r.content ≡ body content
    → verify_signature o content r.signature ≡ true
    → (r.delivery == []) ≡ false
    → delivery_seen d r.delivery p.tables ≡ true
    → handle_webhook o d now r p ≡ (p, ok)
seen_again o d now r p content b v n s =
    verified_deliver o d now r p content b v ∙ (unfold deliver in rw (n, s) refl)

seen-mark_delivery :
    (d d2 : Driver) (id : Text) (now : ℕ) (t : Tables)
    → d.mark_fails id ≡ false
    → d2.select_fails id ≡ false
    → delivery_seen d2 id (mark_delivery d id now t) ≡ true
unfolding delivery_seen mark_delivery
seen-mark_delivery d d2 id now t f s = rw (f, s) (go (lookup id t.github_deliveries) refl)
  where
    go :
        (x : Option ℕ)
        → lookup id t.github_deliveries ≡ x
        → is_some (lookup id (ignore_known id now t.github_deliveries x)) ≡ true
    go none e = ground (arith, lookup-insert id id now t.github_deliveries, beq_refl id)
    go (some at) e = rw e refl

-- A request that verifies and carries a delivery id is acted on at most once: after it was handled,
-- however its purges ended, provided its id could be written, a request with that id, body and
-- signature, read by a driver that can look the id up, changes nothing and is answered with ok.
pub handle_webhook-once :
    (o : Outside) (d d2 : Driver) (now later : ℕ) (r : Request) (p : Plugin) (content : Text)
    → r.content ≡ body content
    → verify_signature o content r.signature ≡ true
    → (r.delivery == []) ≡ false
    → d.mark_fails r.delivery ≡ false
    → d2.select_fails r.delivery ≡ false
    → handle_webhook o d2 later r (handle_webhook o d now r p).0
      ≡ ((handle_webhook o d now r p).0, ok)
unfolding delivery_seen is_new marked
handle_webhook-once o d d2 now later r p content b v n f s =
    seen_again o d2 later r p2 content b v n
      (elim (Bool-cases (delivery_seen d r.delivery p.tables)) [
        | inl e ↦
            ap (λ x. delivery_seen d2 r.delivery x.0.tables)
              (seen_again o d now r p content b v n e)
            ∙ still e
        | inr e ↦
            ap (λ m. not (d2.select_fails r.delivery) && is_some (lookup r.delivery m)) (recorded e)
            ∙ seen-mark_delivery d d2 r.delivery now p.tables f s
      ])
  where
    p2 : Plugin
    p2 = (handle_webhook o d now r p).0

    entered : Plugin
    entered = record p { tables = mark_delivery d r.delivery now p.tables }

    still : delivery_seen d r.delivery p.tables ≡ true → delivery_seen d2 r.delivery p.tables ≡ true
    still e = ground (arith, e, s)

    fresh : delivery_seen d r.delivery p.tables ≡ false → is_new d r.delivery p ≡ true
    fresh e = ground (arith, e)

    recorded :
        delivery_seen d r.delivery p.tables ≡ false
        → p2.tables.github_deliveries ≡ (mark_delivery d r.delivery now p.tables).github_deliveries
    recorded e =
        ap (λ x. x.0.tables.github_deliveries)
          (verified_deliver o d now r p content b v ∙ deliver_new o d now content r p (fresh e))
        ∙ handle_event_deliveries o d r.event content (marked d now r.delivery p)
        ∙ ap (λ x. (if x then p else entered).tables.github_deliveries) n
