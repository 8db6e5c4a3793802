-- ===== src/Github/Ingest/Redelivery.antt =====
-- What a redelivery asks for, and that it asks once.
use supergraph.Common.{
  ◌≡◌, refl, ap, sym, ◌∙◌, codes, map, ◌++◌, true, false, Option, none, some, List, [], ◌∷◌,
  bytes_eq, ◌==◌, if◌then◌else◌, All, arith, Bool-cases, inl, inr, beq_refl,
}
use mathlib.Core.List.{append-nil, append_assoc}
use supergraph.Common.Int.{ℤ, pos, ltb_ℤ}
use supergraph.Common.Dict.{lookup-insert}
use supergraph.Common.Bytes.{Text}
use supergraph.Github.Store.{Tables}
use supergraph.Github.Ingest.{
  Delivery, Hook, World, Ingest, cursor_name, attempt_path, missed, max_id, advanced, replayed,
  redeliver_hooks, redeliver,
}
use supergraph.Github.Ingest.Cursors.{
  IsBelow, ltb_irrefl, le_trans, max_id-IsBelow, max_id_below, missed_below, IsBelow-larger, at,
  last_of-at, advanced-ge,
}

-- The cursor of a hook is not behind any delivery that GitHub lists for it.
abbrev AreBelow : ℤ → Option (List Delivery) → Type 0
AreBelow m none = Unit
AreBelow m (some ds) = IsBelow m ds

abbrev pub IsCaughtUp : World → Hook → List (Text × ℤ) → Type 0
IsCaughtUp w h cursors = AreBelow (at (cursor_name h) cursors) (w.deliveries h)

AreBelow-larger :
    (m n : ℤ) (o : Option (List Delivery)) → ltb_ℤ n m ≡ false → AreBelow m o → AreBelow n o
AreBelow-larger m n none h v = tt
AreBelow-larger m n (some ds) h v = IsBelow-larger m n ds h v

module _ (w : World) (readable : (name : Text) → w.cursor_fails name ≡ false) where
  replayed-ge :
      (h : Hook) (o : Option (List Delivery)) (s : Ingest) (other : Text)
      → ltb_ℤ (at other (replayed w h o s).cursors) (at other s.cursors) ≡ false
  replayed-ge h none s other = ltb_irrefl (at other s.cursors)
  replayed-ge h (some ds) s other =
      rw (last_of-at w h s.cursors (readable (cursor_name h)))
        (advanced-ge w h (max_id (at (cursor_name h) s.cursors) ds) s.cursors other)

  redeliver_hooks-ge :
      (hs : List Hook) (s : Ingest) (other : Text)
      → ltb_ℤ (at other (redeliver_hooks w hs s).cursors) (at other s.cursors) ≡ false
  unfolding redeliver_hooks
  redeliver_hooks-ge [] s other = ltb_irrefl (at other s.cursors)
  redeliver_hooks-ge (h ∷ hs) s other =
      let next = replayed w h (w.deliveries h) s in
      le_trans (at other (redeliver_hooks w hs next).cursors) (at other next.cursors)
        (at other s.cursors) (redeliver_hooks-ge hs next other)
        (replayed-ge h (w.deliveries h) s other)

  advanced-last :
      (h : Hook) (m : ℤ) (cursors : List (Text × ℤ))
      → w.set_cursor_fails (cursor_name h) ≡ false
      → ltb_ℤ (at (cursor_name h) (advanced w h (at (cursor_name h) cursors) m cursors)) m ≡ false
  advanced-last h m cursors sound = elim (Bool-cases (ltb_ℤ (at (cursor_name h) cursors) m)) [
    | inr p ↦ rw p p
    | inl p ↦
        rw
          (
            p,
            sound,
            lookup-insert (cursor_name h) (cursor_name h) m cursors,
            beq_refl (cursor_name h),
          )
          (ltb_irrefl m)
  ]

  replayed-IsCaughtUp :
      (h : Hook) (o : Option (List Delivery)) (s : Ingest)
      → w.set_cursor_fails (cursor_name h) ≡ false
      → AreBelow (at (cursor_name h) (replayed w h o s).cursors) o
  replayed-IsCaughtUp h none s sound = tt
  replayed-IsCaughtUp h (some ds) s sound =
      let m = max_id (at (cursor_name h) s.cursors) ds in
      rw (last_of-at w h s.cursors (readable (cursor_name h))) (
        IsBelow-larger m
          (at (cursor_name h) (advanced w h (at (cursor_name h) s.cursors) m s.cursors)) ds
          (advanced-last h m s.cursors sound) (max_id-IsBelow (at (cursor_name h) s.cursors) ds))

  redeliver_hooks-IsCaughtUp :
      (hs : List Hook) (s : Ingest)
      → ((name : Text) → w.set_cursor_fails name ≡ false)
      → All (λ h. IsCaughtUp w h (redeliver_hooks w hs s).cursors) hs
  unfolding redeliver_hooks
  redeliver_hooks-IsCaughtUp [] s sound = tt
  redeliver_hooks-IsCaughtUp (h ∷ hs) s sound =
      let next = replayed w h (w.deliveries h) s in
      (
        AreBelow-larger (at (cursor_name h) next.cursors)
            (at (cursor_name h) (redeliver_hooks w hs next).cursors) (w.deliveries h)
            (redeliver_hooks-ge hs next (cursor_name h))
            (replayed-IsCaughtUp h (w.deliveries h) s (sound (cursor_name h))),
        redeliver_hooks-IsCaughtUp hs next sound,
      )

  replayed_again :
      (h : Hook) (o : Option (List Delivery)) (s : Ingest)
      → AreBelow (at (cursor_name h) s.cursors) o
      → replayed w h o s ≡ s
  replayed_again h none s v = refl
  replayed_again h (some ds) s v =
      rw
        (
          last_of-at w h s.cursors (readable (cursor_name h)),
          max_id_below (at (cursor_name h) s.cursors) ds v,
          missed_below (at (cursor_name h) s.cursors) ds v,
          ltb_irrefl (at (cursor_name h) s.cursors),
        )
        (rw append-nil)

  redeliver_hooks_again :
      (hs : List Hook) (s : Ingest)
      → All (λ h. IsCaughtUp w h s.cursors) hs
      → redeliver_hooks w hs s ≡ s
  unfolding redeliver_hooks
  redeliver_hooks_again [] s _ = refl
  redeliver_hooks_again (h ∷ hs) s (p, ps) =
      rw (replayed_again h (w.deliveries h) s p) (redeliver_hooks_again hs s ps)

redeliver-hooks :
    (w : World) (t : Tables) (s : Ingest)
    → w.hooks_fail ≡ false
    → redeliver w t s ≡ redeliver_hooks w t.github_hooks s
unfolding redeliver
redeliver-hooks w t s up = simp up

-- The same answers of GitHub, and a driver that reads no cursor.
abbrev pub unread : World → World
unread w = record w { cursor_fails = λ _. true }

-- The attempts for the failed deliveries that are listed for a hook.
abbrev pub failed_of : Hook → List Delivery → List Text
failed_of h [] = []
failed_of h (d ∷ ds) =
    let rest = failed_of h ds in
    if d.status == codes "OK"
    then rest
    else if ltb_ℤ (pos 0) d.id
    then attempt_path h d.id ∷ rest
    else rest

abbrev listed : Hook → Option (List Delivery) → List Text
listed h none = []
listed h (some ds) = failed_of h ds

abbrev pub all_failed : World → List Hook → List Text
all_failed w [] = []
all_failed w (h ∷ hs) = listed h (w.deliveries h) ++ all_failed w hs

map-missed :
    (h : Hook) (ds : List Delivery) → map (attempt_path h) (missed (pos 0) ds) ≡ failed_of h ds
unfolding missed
map-missed h [] = refl
map-missed h (d ∷ ds) = ground (arith, map-missed h ds)

replayed-unread :
    (w : World) (h : Hook) (o : Option (List Delivery)) (s : Ingest)
    → (replayed (unread w) h o s).attempts ≡ s.attempts ++ listed h o
replayed-unread w h none s = sym (append-nil s.attempts)
replayed-unread w h (some ds) s = ap (λ l. s.attempts ++ l) (map-missed h ds)

redeliver_hooks-unread :
    (w : World) (hs : List Hook) (s : Ingest)
    → (redeliver_hooks (unread w) hs s).attempts ≡ s.attempts ++ all_failed w hs
unfolding redeliver_hooks
redeliver_hooks-unread w [] s = sym (append-nil s.attempts)
redeliver_hooks-unread w (h ∷ hs) s =
    redeliver_hooks-unread w hs (replayed (unread w) h (w.deliveries h) s)
    ∙ ap (λ l. l ++ all_failed w hs) (replayed-unread w h (w.deliveries h) s)
    ∙ append_assoc s.attempts (listed h (w.deliveries h)) (all_failed w hs)

-- Where the hooks and the cursors can be read and the cursors written: whatever GitHub answered to the
-- attempts of a redelivery, the next one, with the same lists of deliveries, attempts nothing and
-- moves no cursor, and the cursor of each hook is behind none of the deliveries that are listed for
-- it. But a next one whose reads of the cursors fail attempts every failed delivery with a positive
-- id that is listed, those of the first one included.
pub redeliver_again :
    (w : World) (t : Tables) (s : Ingest)
    → ((name : Text) → w.cursor_fails name ≡ false)
    → ((name : Text) → w.set_cursor_fails name ≡ false)
    → w.hooks_fail ≡ false
    → (redeliver w t (redeliver w t s) ≡ redeliver w t s)
      × All (λ h. IsCaughtUp w h (redeliver w t s).cursors) t.github_hooks
      × ((redeliver (unread w) t (redeliver w t s)).attempts
          ≡ (redeliver w t s).attempts ++ all_failed w t.github_hooks)
redeliver_again w t s readable sound up =
    let once = redeliver_hooks w t.github_hooks s in
    let done = redeliver_hooks-IsCaughtUp w readable t.github_hooks s sound in
    rw (redeliver-hooks w t s up, redeliver-hooks w t once up, redeliver-hooks (unread w) t once up)
      (
        redeliver_hooks_again w readable t.github_hooks once done,
        done,
        redeliver_hooks-unread w t.github_hooks once,
      )
