-- ===== src/Github/Webhook.antt =====
-- plugins/github/webhook.go: the handler of a webhook. The signature of a body, the decoding of a body
-- and the text of a nested value are parameters.
pub mod Delivery
pub mod Once
use supergraph.Common.{
  ℕ, ◌≡◌, Bool, true, false, ◌&&◌, ◌||◌, not, Option, none, some, List, [], ◌∷◌, bytes_eq,
  bytes_eqb, ◌==◌, if◌then◌else◌,
}
use supergraph.Common.Bytes.{Text}
use supergraph.Common.Json.{Value, Fields}
use supergraph.Github.Events.{event_key, related_keys}
use supergraph.Github.Plugin.{Plugin, GithubEvent, node_purged}
use supergraph.Github.Store.{Tables, Driver, purge, delivery_seen, mark_delivery}

-- The body that could be read, within the limit of its size.
pub data Body : Type 0 where
  body : Text → Body
  too_large : Body
  unreadable : Body

pub record Request : Type 0 where
  pub content : Body
  pub signature : Text
  pub delivery : Text
  pub event : Text

pub data Status : Type 0 where
  ok : Status
  unauthorized : Status
  bad_request : Status
  entity_too_large : Status
  purge_failed : Status

pub record Outside : Type 0 where
  pub secret : Text
  pub sign : Text → Text → Text
  pub decode : Text → Fields
  pub print_other : Value → Text

unfoldable pub verify_signature : Outside → Text → Text → Bool
verify_signature o content sig = not (o.secret == [] || sig == []) && o.sign o.secret content == sig

abbrev purge_into : Plugin → Text → Tables × Option (List Text) → Plugin
purge_into p key (t, none) = record p { tables = t }
purge_into p key (t, some _) = record p { tables = t; emitted = node_purged key ∷ p.emitted }

-- A failure of a related key does not end the loop.
unfoldable pub purge_related : Driver → Text → List Text → Plugin → Plugin
purge_related d key [] p = p
purge_related d key (rk ∷ rks) p =
    let skip = purge_related d key rks p in
    let next = purge_related d key rks (purge_into p rk (purge d rk p.tables)) in
    if rk == key then skip else next

abbrev answered : Driver → Text → List Text → Plugin → Tables × Option (List Text) → Plugin × Status
answered d key related p (t, none) = (record p { tables = t }, purge_failed)
answered d key related p (t, some gone) =
    (purge_related d key related (purge_into p key (t, some gone)), ok)

abbrev invalidated : Driver → List Text → Plugin → Option Text → Plugin × Status
invalidated d related p none = (p, ok)
invalidated d related p (some key) = answered d key related p (purge d key p.tables)

unfoldable pub handle_event : Outside → Driver → Text → Text → Plugin → Plugin × Status
handle_event o d event content p =
    invalidated d (related_keys o.print_other event (o.decode content)) p
      (event_key o.print_other event (o.decode content))

unfoldable pub deliver : Outside → Driver → ℕ → Text → Request → Plugin → Plugin × Status
deliver o d now content r p =
    if r.delivery == []
    then handle_event o d r.event content p
    else if delivery_seen d r.delivery p.tables
    then (p, ok)
    else handle_event o d r.event content
        (record p { tables = mark_delivery d r.delivery now p.tables })

abbrev received : Outside → Driver → ℕ → Request → Plugin → Body → Plugin × Status
received o d now r p too_large = (p, entity_too_large)
received o d now r p unreadable = (p, bad_request)
received o d now r p (body content) =
    if verify_signature o content r.signature
    then deliver o d now content r p
    else (p, unauthorized)

unfoldable pub handle_webhook : Outside → Driver → ℕ → Request → Plugin → Plugin × Status
handle_webhook o d now r p = received o d now r p r.content
