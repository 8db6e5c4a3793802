-- ===== src/Github/Store/Purge.antt =====
-- plugins/github/store.go: what a purge evicts and what it keeps.
use supergraph.Common.{
  ℕ, ◌≡◌, ◌≢◌, refl, ◌∙◌, inl, inr, ◌⊎◌, is_some, beq_refl, Bool, true, false, ◌&&◌, ◌||◌, not,
  none, some, List, [], ◌∷◌, ◌++◌, bytes_eq, ◌==◌, if◌then◌else◌, arith, Bool-cases, contains,
  beq_sym,
}
use supergraph.Common.Dict.{lookup, lookup-remove, insert, lookup-insert}
use supergraph.Common.Bytes.{Text}
use supergraph.Github.Keys.{composite}
use supergraph.Github.Store.{
  Tables, Driver, has_tag, keys_tagged, untag, without_node, without_tags, evict, evict_all, listed,
  purge, put_list, add_tag, upsert, list_node,
}

-- The driver fails at none of the statements of a purge.
pub record IsCalm (d : Driver) : Type 0 where
  pub scans : d.scan_tags_fails ≡ false
  pub deletes : (k : Text) → d.delete_fails k ≡ false
  pub untags : (k : Text) → d.untag_fails k ≡ false

contains-keys_tagged :
    (tag key : Text) (tags : List (Text × Text))
    → contains (keys_tagged tag tags) key ≡ has_tag tag key tags
unfolding contains keys_tagged has_tag
contains-keys_tagged tag key [] = refl
contains-keys_tagged tag key ((c, k) ∷ tags) = ground (arith, contains-keys_tagged tag key tags)

has_tag-untag :
    (tag key j : Text) (tags : List (Text × Text))
    → has_tag tag key (untag j tags) ≡ (if j == key then false else has_tag tag key tags)
unfolding has_tag untag
has_tag-untag tag key j [] = ground arith
has_tag-untag tag key j ((c, k) ∷ tags) = ground (
  arith,
  has_tag-untag tag key j tags,
  bytes_eq.same_iff k j,
  bytes_eq.same_iff k key,
  bytes_eq.same_iff j key,
)

-- The tables without the rows and the tags of some keys.
without : List Text → Tables → Tables
without [] t = t
without (k ∷ ks) t = without ks (without_tags k (without_node k t))

evict_calm :
    (d : Driver) (k : Text) (t : Tables)
    → IsCalm d
    → evict d k t ≡ (without_tags k (without_node k t), true)
unfolding evict
evict_calm d k t calm = rw (calm.deletes k, calm.untags k) refl

evict_all_calm :
    (d : Driver) (ks : List Text) (t : Tables) → IsCalm d → evict_all d ks t ≡ (without ks t, true)
unfolding evict_all without
evict_all_calm d [] t calm = refl
evict_all_calm d (k ∷ ks) t calm =
    rw (evict_calm d k t calm) (evict_all_calm d ks (without_tags k (without_node k t)) calm)

lookup-without :
    (ks : List Text) (t : Tables) (j : Text)
    → lookup j (without ks t).github_nodes
      ≡ (if contains ks j then none else lookup j t.github_nodes)
unfolding without contains
lookup-without [] t j = refl
lookup-without (k ∷ ks) t j = ground (
  arith,
  lookup-without ks (without_tags k (without_node k t)) j,
  lookup-remove k j t.github_nodes,
)

has_tag-without :
    (ks : List Text) (t : Tables) (tag j : Text)
    → has_tag tag j (without ks t).github_tags
      ≡ (if contains ks j then false else has_tag tag j t.github_tags)
unfolding without contains
has_tag-without [] t tag j = refl
has_tag-without (k ∷ ks) t tag j = ground (
  arith,
  has_tag-without ks (without_tags k (without_node k t)) tag j,
  has_tag-untag tag j k t.github_tags,
)

-- The list results that are tagged with a composite.
abbrev pub on_list : Text → Text → Tables → Bool
on_list comp j t = not (comp == []) && has_tag comp j t.github_tags

abbrev pub is_evicted : Text → Text → Tables → Bool
is_evicted key j t = j == key || on_list (composite key) j t

contains-listed : (comp j : Text) (t : Tables) → contains (listed comp t) j ≡ on_list comp j t
unfolding contains
contains-listed comp j t = elim (Bool-cases (comp == [])) [
  | inl e ↦ rw e refl
  | inr e ↦ rw e (contains-keys_tagged comp j t.github_tags)
]

-- A purge of a key whose statements all succeed ends without an error.
purge_calm :
    (d : Driver) (key : Text) (t : Tables)
    → IsCalm d
    → (deleted : List Text) × (purge d key t ≡ (
      without_tags key (without_node key (without (listed (composite key) t) t)),
      some deleted,
    ))
unfolding purge
purge_calm d key t calm =
    let lists = listed (composite key) t in
    let there = is_some (lookup key (without lists t).github_nodes) in
    (
      lists ++ (if there then key ∷ [] else []),
      rw (scan, evict_all_calm d lists t calm) (rw (evict_calm d key (without lists t) calm) refl),
    )
  where
    scan : (not (composite key == []) && d.scan_tags_fails) ≡ false
    scan = ground (arith, calm.scans)

-- A purge whose statements all succeed ends without an error, and takes out the node and the tags of
-- its key and of each list result that is tagged with the key's composite, and nothing else.
pub purge_exact :
    (d : Driver) (key j tag : Text) (t : Tables)
    → IsCalm d
    → ((purge d key t).1 ≢ none)
      × (lookup j (purge d key t).0.github_nodes
          ≡ (if is_evicted key j t then none else lookup j t.github_nodes))
      × (has_tag tag j (purge d key t).0.github_tags
          ≡ (if is_evicted key j t then false else has_tag tag j t.github_tags))
purge_exact d key j tag t calm =
    let (deleted, e) = purge_calm d key t calm in
    let lists = listed (composite key) t in
    rw e (
      (λ h. cc),
      ground (
        arith,
        lookup-remove key j (without lists t).github_nodes,
        lookup-without lists t j,
        contains-listed (composite key) j t,
        beq_sym j key,
      ),
      ground (
        arith,
        has_tag-untag tag j key (without lists t).github_tags,
        has_tag-without lists t tag j,
        contains-listed (composite key) j t,
        beq_sym j key,
      ),
    )

pub has_tag-add_tag :
    (c k tag j : Text) (tags : List (Text × Text))
    → has_tag tag j (add_tag c k tags) ≡ ((c == tag && k == j) || has_tag tag j tags)
unfolding add_tag
has_tag-add_tag c k tag j tags = elim (Bool-cases (has_tag c k tags)) [
  | inl e ↦ rw e (again e (Bool-cases (c == tag && k == j)))
  | inr e ↦ rw e (unfold has_tag in refl)
]
  where
    again :
        has_tag c k tags ≡ true
        → ((c == tag && k == j) ≡ true) ⊎ ((c == tag && k == j) ≡ false)
        → has_tag tag j tags ≡ ((c == tag && k == j) || has_tag tag j tags)
    again e (inl h) = ground (arith, bytes_eq.same_iff c tag, bytes_eq.same_iff k j)
    again e (inr h) = rw h refl

put_list_calm :
    (d : Driver) (lk body comp : Text) (at : ℕ) (t : Tables)
    → (comp == []) ≡ false
    → d.upsert_fails lk ≡ false
    → d.tag_fails lk ≡ false
    → put_list d lk body comp at t ≡ (
      record t {
        github_nodes = insert lk (list_node lk body at) t.github_nodes;
        github_tags = add_tag comp lk t.github_tags;
      },
      true,
    )
unfolding put_list upsert
put_list_calm d lk body comp at t h u g = rw (u, h, g) refl

-- A list result that was stored under a composite, with no statement that fails, is evicted by the
-- purge of a key with that composite, by that of its own key, and by that of a key with a composite
-- that it was tagged with before; after the purge of any other key it is still there, as stored.
purge-put_list :
    (d : Driver) (key lk body comp : Text) (at : ℕ) (t : Tables)
    → IsCalm d
    → (comp == []) ≡ false
    → d.upsert_fails lk ≡ false
    → d.tag_fails lk ≡ false
    → lookup lk (purge d key (put_list d lk body comp at t).0).0.github_nodes ≡ (
        if lk == key || comp == composite key || on_list (composite key) lk t
        then none
        else some (list_node lk body at))
purge-put_list d key lk body comp at t calm h u g = rw (put_list_calm d lk body comp at t h u g) (
    (purge_exact d key lk comp stored calm).1
    ∙ ground (
      arith,
      lookup-insert lk lk (list_node lk body at) t.github_nodes,
      beq_refl lk,
      has_tag-add_tag comp lk (composite key) lk t.github_tags,
      bytes_eq.same_iff comp (composite key),
    ))
  where
    stored : Tables
    stored = record t {
      github_nodes = insert lk (list_node lk body at) t.github_nodes;
      github_tags = add_tag comp lk t.github_tags;
    }
