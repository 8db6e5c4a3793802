-- ===== src/Github/Executor/Lists.antt =====
-- plugins/github/executor.go: the list of an operation and the purge of what it lists.
use supergraph.Common.{
  ℕ, ◌≡◌, refl, ap, sym, ◌∙◌, inl, inr, Bool, true, false, Option, none, some, List, [], ◌∷◌, ◌++◌,
  bytes_eq, bytes_eqb, ◌==◌, or_else, arith, Bool-cases, beq_refl,
}
use supergraph.Common.Bytes.{Text}
use supergraph.Common.Dict.{lookup}
use supergraph.Common.Json.{Fields}
use supergraph.Github.Keys.{composite, kind_of, list_key}
use supergraph.Github.Plugin.{Plugin}
use supergraph.Github.Store
use supergraph.Github.Store.{
  Tables, Driver, has_tag, add_tag, purge, put_list, upsert, tagged, list_node,
}
use supergraph.Github.Store.Purge.{IsCalm, purge_exact, has_tag-add_tag, is_evicted}
use supergraph.Github.Template.{NamedOp, substitute}
use supergraph.Github.Executor.{
  NodeResult, QueryResult, Context, extract_keys, list_tag, put_members, put_result, list_data,
  list_result, run_list, run_op,
}

has_tag-tagged :
    (d : Driver) (lk comp : Text) (x : Option Tables) (t : Tables)
    → (comp == []) ≡ false
    → (tagged d lk comp x t).1 ≡ true
    → has_tag comp lk (tagged d lk comp x t).0.github_tags ≡ true
has_tag-tagged d lk comp none t h e = absurd (cc)
has_tag-tagged d lk comp (some s) t h e = elim (Bool-cases (d.tag_fails lk)) [
  | inl g ↦ absurd (let e' = rw (h, g) at e in cc)
  | inr g ↦
      rw (h, g)
        (ground (arith, has_tag-add_tag comp lk comp lk s.github_tags, beq_refl comp, beq_refl lk))
]

has_tag-put_list :
    (d : Driver) (lk raw comp : Text) (at : ℕ) (t : Tables)
    → (comp == []) ≡ false
    → (put_list d lk raw comp at t).1 ≡ true
    → has_tag comp lk (put_list d lk raw comp at t).0.github_tags ≡ true
unfolding put_list
has_tag-put_list d lk raw comp at t h e =
    has_tag-tagged d lk comp (upsert d (list_node lk raw at) t) t h e

not_empty : (a : Text) (c : ℕ) (b : Text) → ((a ++ c ∷ b) == []) ≡ false
unfolding bytes_eqb
not_empty [] c b = refl
not_empty (x ∷ a) c b = refl

module _ (c : Context) where
  put_result_tag :
      (name scope raw lk comp : Text) (p : Plugin) (nodes : List NodeResult) (x : Tables × Bool)
      (r : QueryResult)
      → (put_result c name scope raw p nodes x).1 ≡ some r
      → (x.1 ≡ true → has_tag comp lk x.0.github_tags ≡ true)
      → has_tag comp lk (put_result c name scope raw p nodes x).0.tables.github_tags ≡ true
  put_result_tag name scope raw lk comp p nodes (t, true) r e h = h refl
  put_result_tag name scope raw lk comp p nodes (t, false) r e h = absurd (cc)

  list_result_tag :
      (op : NamedOp) (scope kt : Text) (keys : List Text) (vars : Fields) (p : Plugin)
      (x : Option Fields) (r : QueryResult)
      → op.keys ≡ kt ∷ keys
      → (list_result c op scope vars p x).1 ≡ some r
      → has_tag
          (scope ++ b'|' ∷ kind_of kt)
          (list_key op.name scope)
          (list_result c op scope vars p x).0.tables.github_tags
        ≡ true
  list_result_tag op scope kt keys vars p none r k e = absurd (cc)
  list_result_tag op scope kt keys vars p (some object) r k e =
      go (extract_keys c op.keys vars object p) e
    where
      raw : Text
      raw = or_else (c.upstream.marshal object) []

      here :
          (q : Plugin)
          → (put_list c.driver
              (list_key op.name scope)
              raw
              (list_tag c scope op.keys)
              c.now
              q.tables).1
            ≡ true
          → has_tag
              (scope ++ b'|' ∷ kind_of kt)
              (list_key op.name scope)
              (put_list c.driver
                (list_key op.name scope)
                raw
                (list_tag c scope op.keys)
                c.now
                q.tables).0.github_tags
            ≡ true
      here q = rw k (
          has_tag-put_list c.driver (list_key op.name scope) raw (scope ++ b'|' ∷ kind_of kt) c.now
            q.tables (not_empty scope b'|' (kind_of kt)))

      go :
          (x : Plugin × List NodeResult)
          → (put_members c op scope raw x).1 ≡ some r
          → has_tag
              (scope ++ b'|' ∷ kind_of kt)
              (list_key op.name scope)
              (put_members c op scope raw x).0.tables.github_tags
            ≡ true
      go (q, nodes) e =
          put_result_tag op.name scope raw (list_key op.name scope) (scope ++ b'|' ∷ kind_of kt) q
            nodes
            (put_list c.driver (list_key op.name scope) raw (list_tag c scope op.keys) c.now
              q.tables)
            r e (λ h. here q h)

  -- After a list op that did not fail, whether its list was cached or fetched, a purge of any object
  -- of the scope and of the kind of the op's first template evicts the list, if no statement of the
  -- purge fails.
  pub run_op-purge :
      (d : Driver) (op : NamedOp) (vars : Fields) (p : Plugin) (kt : Text) (keys : List Text)
      (r : QueryResult) (key : Text)
      → (op.scope == []) ≡ false
      → op.keys ≡ kt ∷ keys
      → (run_op c op vars p).1 ≡ some r
      → composite key ≡ substitute c.graphql.print_other op.scope vars ++ b'|' ∷ kind_of kt
      → IsCalm d
      → lookup
          (list_key op.name (substitute c.graphql.print_other op.scope vars))
          (purge d key (run_op c op vars p).0.tables).0.github_nodes
        ≡ none
  unfolding run_op
  run_op-purge d op vars p kt keys r key s k e m calm =
      (purge_exact d key lk [] (run_op c op vars p).0.tables calm).1 ∙ rw evicted refl
    where
      scope : Text
      scope = substitute c.graphql.print_other op.scope vars

      lk : Text
      lk = list_key op.name scope

      listed : (run_op c op vars p) ≡ run_list c op scope vars p
      listed = rw s refl

      tag :
          has_tag (scope ++ b'|' ∷ kind_of kt) lk (run_list c op scope vars p).0.tables.github_tags
          ≡ true
      tag =
          list_result_tag op scope kt keys vars p
            (list_data c op vars (Store.get c.driver lk p.tables)) r k
            (ap (λ x. x.1) (sym listed) ∙ e)

      evicted : is_evicted key lk (run_op c op vars p).0.tables ≡ true
      evicted = rw (listed, m, not_empty scope b'|' (kind_of kt), tag) (ground arith)
