-- ===== src/Github/Executor/Members.antt =====
-- plugins/github/executor.go: what a list operation writes into the cache.
use supergraph.Common.{
  ◌≡◌, refl, ap, ◌∙◌, inl, inr, Bool, true, false, Option, some, List, [], ◌∷◌, bytes_eq, ◌==◌,
  if◌then◌else◌, or_else, Bool-cases,
}
use supergraph.Common.Bytes.{Text}
use supergraph.Common.Dict.{lookup, insert, lookup-insert}
use supergraph.Common.Json.{obj, Fields}
use supergraph.Github.Keys.{list_key}
use supergraph.Github.Plugin.{Plugin}
use supergraph.Github.Store
use supergraph.Github.Store.{
  Node, Tables, Driver, Got, got, upsert, put_list, tagged, list_node, add_tag,
}
use supergraph.Github.Template.{NamedOp, placeholders, collect_objects, substitute, object_key}
use supergraph.Github.Executor.{
  NodeResult, result_of, Context, member, store_members, extract_and_store, extract_keys,
  append_nodes, list_tag, put_members, put_result, run_op, cons_result, joined,
}

-- The member that the last object of a key gives, or what was there.
abbrev pub latest : Text → List Node → Option Node → Option Node
latest k [] before = before
latest k (n ∷ ns) before = latest k ns (if n.key == k then some n else before)

abbrev pub AlwaysWrites : Driver → Type 0
AlwaysWrites d = (key : Text) → d.upsert_fails key ≡ false

module _ (c : Context) where
  unfoldable pub members : Text → List Text → List Fields → List Node
  members key want [] = []
  members key want (object ∷ objects) =
      member c (object_key c.graphql.print_other key want object) object ∷ members key want objects

  abbrev with_node : Node → Plugin → Plugin
  with_node n p = record p {
    tables = record p.tables { github_nodes = insert n.key n p.tables.github_nodes };
  }

  upsert_works :
      (n : Node) (p : Plugin)
      → AlwaysWrites c.driver
      → upsert c.driver n p.tables ≡ some (with_node n p).tables
  unfolding upsert
  upsert_works n p w = rw (w n.key) refl

  cons_result_state : (r : NodeResult) (x : Plugin × List NodeResult) → (cons_result r x).0 ≡ x.0
  cons_result_state r (p, rs) = refl

  store_none :
      (key : Text) (want : List Text) (p : Plugin) → store_members c key want [] p ≡ (p, [])
  unfolding store_members
  store_none key want p = refl

  store_step :
      (key : Text) (want : List Text) (object : Fields) (objects : List Fields) (p : Plugin)
      → AlwaysWrites c.driver
      → (store_members c key want (object ∷ objects) p).0
        ≡ (store_members c key want objects
            (with_node (member c (object_key c.graphql.print_other key want object) object) p)).0
  unfolding store_members
  store_step key want object objects p w =
      let n = member c (object_key c.graphql.print_other key want object) object in
      rw (upsert_works n p w)
        (cons_result_state (result_of n) (store_members c key want objects (with_node n p)))

  store_members_exact :
      (key : Text) (want : List Text) (objects : List Fields) (p : Plugin) (k : Text)
      → AlwaysWrites c.driver
      → lookup k (store_members c key want objects p).0.tables.github_nodes
        ≡ latest k (members key want objects) (lookup k p.tables.github_nodes)
  unfolding members
  store_members_exact key want [] p k w = rw (store_none key want p) refl
  store_members_exact key want (object ∷ objects) p k w =
      let n = member c (object_key c.graphql.print_other key want object) object in
      rw (store_step key want object objects p w) (
        store_members_exact key want objects (with_node n p) k w
        ∙ ap (latest k (members key want objects)) (lookup-insert n.key k n p.tables.github_nodes))

  joined_state : (rs : List NodeResult) (x : Plugin × List NodeResult) → (joined rs x).0 ≡ x.0
  joined_state rs (p, ss) = refl

  append_none :
      (vars object : Fields) (x : Plugin × List NodeResult)
      → (append_nodes x (extract_keys c [] vars object)).0 ≡ x.0
  unfolding extract_keys
  append_none vars object (p, rs) = refl

  one_template :
      (kt : Text) (vars object : Fields) (p : Plugin)
      → (extract_keys c (kt ∷ []) vars object p).0 ≡ (extract_and_store c kt vars object p).0
  unfolding extract_keys
  one_template kt vars object p = append_none vars object (extract_and_store c kt vars object p)

  -- The writes of a list op with one template.
  extract_keys_one :
      (kt : Text) (vars object : Fields) (p : Plugin) (f : Text) (want : List Text)
      → placeholders (substitute c.graphql.print_other kt vars) ≡ f ∷ want
      → (extract_keys c (kt ∷ []) vars object p).0
        ≡ (store_members c
            (substitute c.graphql.print_other kt vars)
            (f ∷ want)
            (collect_objects (obj object) (f ∷ want))
            p).0
  extract_keys_one kt vars object p f want h =
      one_template kt vars object p ∙ (unfold extract_and_store in rw h refl)

  lookup-put_list :
      (lk raw comp k : Text) (t : Tables)
      → AlwaysWrites c.driver
      → lookup k (put_list c.driver lk raw comp c.now t).0.github_nodes
        ≡ (if lk == k then some (list_node lk raw c.now) else lookup k t.github_nodes)
  unfolding put_list upsert
  lookup-put_list lk raw comp k t w = rw (w lk) (elim (Bool-cases (comp == [])) [
    | inl e ↦ rw e (lookup-insert lk k (list_node lk raw c.now) t.github_nodes)
    | inr e ↦ rw e (elim (Bool-cases (c.driver.tag_fails lk)) [
      | inl g ↦ rw g (lookup-insert lk k (list_node lk raw c.now) t.github_nodes)
      | inr g ↦ rw g (lookup-insert lk k (list_node lk raw c.now) t.github_nodes)
    ])
  ])

  put_result_state :
      (name scope raw : Text) (p : Plugin) (nodes : List NodeResult) (x : Tables × Bool)
      → (put_result c name scope raw p nodes x).0 ≡ record p { tables = x.0 }
  put_result_state name scope raw p nodes (t, true) = refl
  put_result_state name scope raw p nodes (t, false) = refl

  put_members_state :
      (op : NamedOp) (scope raw : Text) (x : Plugin × List NodeResult)
      → (put_members c op scope raw x).0 ≡ record x.0 {
        tables =
            (put_list c.driver
              (list_key op.name scope)
              raw
              (list_tag c scope op.keys)
              c.now
              x.0.tables).0;
      }
  put_members_state op scope raw (p, nodes) =
      put_result_state op.name scope raw p nodes
        (put_list c.driver (list_key op.name scope) raw (list_tag c scope op.keys) c.now p.tables)

  -- Where a list is cached, its op writes each of the list's members again from the body of the cached
  -- list, so that under a member's key stands afterwards what the list held when it was fetched, with
  -- its last object of that key, whatever newer node was cached there; under the list's own key stands
  -- the list, fetched now, and under every other key what was there. The op has one
  -- template of a key, with a name that the variables do not settle, and no write fails.
  pub run_op_rewrites :
      (op : NamedOp) (vars : Fields) (p : Plugin) (n : Node) (kt f : Text) (want : List Text)
      (k : Text)
      → (op.scope == []) ≡ false
      → op.keys ≡ kt ∷ []
      → placeholders (substitute c.graphql.print_other kt vars) ≡ f ∷ want
      → Store.get c.driver
          (list_key op.name (substitute c.graphql.print_other op.scope vars))
          p.tables
        ≡ got (some n)
      → AlwaysWrites c.driver
      → lookup k (run_op c op vars p).0.tables.github_nodes ≡ (
          if list_key op.name (substitute c.graphql.print_other op.scope vars) == k
          then some (
              list_node
                (list_key op.name (substitute c.graphql.print_other op.scope vars))
                (or_else (c.upstream.marshal (c.upstream.decode n.json)) [])
                c.now)
          else latest k
              (members
                (substitute c.graphql.print_other kt vars)
                (f ∷ want)
                (collect_objects (obj (c.upstream.decode n.json)) (f ∷ want)))
              (lookup k p.tables.github_nodes))
  unfolding run_op
  run_op_rewrites op vars p n kt f want k s ks h g w =
      rw (s, g, state)
        (lookup-put_list lk raw (list_tag c scope op.keys) k x.0.tables w
          ∙ ap (λ m. if lk == k then some (list_node lk raw c.now) else m)
              (ap (λ q. lookup k q.tables.github_nodes) written ∙ stored))
    where
      scope : Text
      scope = substitute c.graphql.print_other op.scope vars

      lk : Text
      lk = list_key op.name scope

      object : Fields
      object = c.upstream.decode n.json

      raw : Text
      raw = or_else (c.upstream.marshal object) []

      x : Plugin × List NodeResult
      x = extract_keys c op.keys vars object p

      state : (put_members c op scope raw x).0 ≡ record x.0 {
        tables = (put_list c.driver lk raw (list_tag c scope op.keys) c.now x.0.tables).0;
      }
      state = put_members_state op scope raw x

      written :
          x.0
          ≡ (store_members c
              (substitute c.graphql.print_other kt vars)
              (f ∷ want)
              (collect_objects (obj object) (f ∷ want))
              p).0
      written =
          ap (λ keys. (extract_keys c keys vars object p).0) ks
          ∙ extract_keys_one kt vars object p f want h

      stored :
          lookup k
            (store_members c
              (substitute c.graphql.print_other kt vars)
              (f ∷ want)
              (collect_objects (obj object) (f ∷ want))
              p).0.tables.github_nodes
          ≡ latest k
              (members
                (substitute c.graphql.print_other kt vars)
                (f ∷ want)
                (collect_objects (obj object) (f ∷ want)))
              (lookup k p.tables.github_nodes)
      stored =
          store_members_exact (substitute c.graphql.print_other kt vars) (f ∷ want)
            (collect_objects (obj object) (f ∷ want)) p k w
