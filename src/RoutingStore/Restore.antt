-- ===== src/RoutingStore/Restore.antt =====
-- After a failed smoke test publish_capability_setup of backend/modeldeck/v2_api.py activates the
-- snapshots again that were active before.
use mathlib.Core.List.{append_assoc, append-nil}
use model_deck.Base.{
  ℕ, ◌≡◌, refl, sym, subst, ap, ap₂, ◌∙◌, inl, inr, String, Bool, true, false, ◌&&◌, ◌||◌, some,
  List, [], ◌∷◌, ◌++◌, arith, Option-cases, str_eq, eq_iff,
}
use model_deck.Text.{member}
use model_deck.RoutingStore.{
  ProfileDocument, Snapshot, Active, Store, done, has_profile, find_revision, routing_snapshot,
  without_active, set_active_routing_profile, activate_revision,
}
use model_deck.RoutingStore.Handlers.{
  all_distinct, unique_capabilities, reactivate_all, snapshots_of, success,
}
use model_deck.RoutingStore.Names.{served_names, all_distinct-append, shares-cons}
use model_deck.RoutingStore.Sound.{
  active_ids, snapshot_at, Backed, well_kept, find_revision-well_kept,
}
use model_deck.RoutingStore.ActiveRows.{active_ids-append}
use model_deck.RoutingStore.Collisions.{put_active-next, collides-next}

module _ (casefold : String → String)
    (nonempty-casefold : (x : String)
      → str_eq x "" ≡ false
      → str_eq (casefold x) (casefold "") ≡ false) where
  abbrev published_row : ProfileDocument → ℕ → Active
  published_row p n = record { profile_id = p.id; revision = n; routing = routing_snapshot p n }

  -- the hypotheses on the rows that are back and on those that are to come
  abbrev rows_differ : List Active → Bool
  rows_differ rows = all_distinct (active_ids rows) && all_distinct (served_names casefold rows)

  others_differ :
      (a : Active) (rest finished : List Active)
      → all_distinct (active_ids (finished ++ a ∷ rest)) ≡ true
      → (member a.profile_id (active_ids rest) || member a.profile_id (active_ids finished)) ≡ false
  others_differ a rest finished h = ground (
    arith,
    h,
    active_ids-append finished (a ∷ rest),
    all_distinct-append (active_ids finished) (a.profile_id ∷ active_ids rest),
    shares-cons a.profile_id (active_ids finished) (active_ids rest),
  )

  activate_revision-next :
      (id : String) (p : ProfileDocument) (n : ℕ) (rest finished : List Active) (s : Store)
      → find_revision p.id n s.revisions ≡ some p
      → has_profile p.id s.profiles ≡ true
      → rows_differ (finished ++ published_row p n ∷ rest) ≡ true
      → activate_revision casefold p.id n
          (routing_snapshot p n)
          (record s { active = without_active id (published_row p n ∷ rest) ++ finished })
        ≡ (
          record s { active = without_active id rest ++ (finished ++ published_row p n ∷ []) },
          done,
        )
  unfolding activate_revision set_active_routing_profile
  activate_revision-next id p n rest finished s f k d =
      let a = published_row p n in
      let c = collides-next casefold nonempty-casefold id a rest finished (ground (arith, d)) in
      let o = others_differ a rest finished (ground (arith, d)) in
      rw (f, c, k)
        (ap (λ rows. (record s { active = rows }, done))
          (put_active-next id a rest finished (ground (arith, o)) (ground (arith, o))))

  abbrev active_row : String → ℕ → Snapshot → Active
  active_row id n routing = record { profile_id = id; revision = n; routing = routing }

  -- a row that is the snapshot of a revision
  abbrev IsRowOf : Store → Active → ProfileDocument → ℕ → Type 0
  IsRowOf s a p n =
      (a ≡ published_row p n)
      × (find_revision p.id n s.revisions ≡ some p)
      × ((has_profile p.id s.profiles && unique_capabilities casefold p) ≡ true)

  backing_row :
      (s : Store) (a : Active) (p : ProfileDocument)
      → well_kept casefold s.profiles s.revisions ≡ true
      → find_revision a.profile_id a.revision s.revisions ≡ some p
      → routing_snapshot p a.revision ≡ a.routing
      → IsRowOf s a p a.revision
  backing_row s a p h f e =
      let w =
        find_revision-well_kept casefold a.profile_id a.revision s.profiles s.revisions p h f in
      let same : p.id ≡ a.profile_id = ground (arith, w, eq_iff p.id a.profile_id) in
      (
        ap₂ (λ k routing. active_row k a.revision routing) (sym same) (sym e),
        subst (λ k. find_revision k a.revision s.revisions ≡ some p) (sym same) f,
        ground (arith, w, same),
      )

  backed_row :
      (s : Store) (a : Active)
      → well_kept casefold s.profiles s.revisions ≡ true
      → snapshot_at a.profile_id a.revision s.revisions ≡ some a.routing
      → (p : ProfileDocument) × IsRowOf s a p a.revision
  backed_row s a h b = elim (Option-cases (find_revision a.profile_id a.revision s.revisions)) [
    | inl e ↦ absurd (ground (arith, e, b))
    | inr (p, e) ↦ (p, backing_row s a p h e (ground (arith, e, b)))
  ]

  reactivate_all-next :
      (id : String) (previous : List Snapshot) (p : ProfileDocument) (n : ℕ)
      (rest finished : List Active) (s : Store)
      → find_revision p.id n s.revisions ≡ some p
      → (has_profile p.id s.profiles && unique_capabilities casefold p) ≡ true
      → rows_differ (finished ++ published_row p n ∷ rest) ≡ true
      → reactivate_all casefold
          (routing_snapshot p n ∷ previous)
          (record s { active = without_active id (published_row p n ∷ rest) ++ finished })
        ≡ reactivate_all casefold previous
            (record s { active = without_active id rest ++ (finished ++ published_row p n ∷ []) })
  unfolding reactivate_all
  reactivate_all-next id previous p n rest finished s f k d =
      let e = activate_revision-next id p n rest finished s f (ground (arith, k)) d in
      let u : unique_capabilities casefold p ≡ true = ground (arith, k) in
      rw (reactivate_all, f, u, e) refl

  pub reactivate_all-rows :
      (id : String) (rows finished : List Active) (s : Store)
      → well_kept casefold s.profiles s.revisions ≡ true
      → Backed s.revisions rows
      → rows_differ (finished ++ rows) ≡ true
      → reactivate_all casefold
          (snapshots_of rows)
          (record s { active = without_active id rows ++ finished })
        ≡ (record s { active = finished ++ rows }, success)
  unfolding reactivate_all
  reactivate_all-rows id [] finished s h b d =
      ap (λ rows. (record s { active = rows }, success)) (sym (append-nil finished))
  reactivate_all-rows id (a ∷ rest) finished s h (b, bs) d =
      let (p, (e, f, k)) = backed_row s a h b in
      let row = published_row p a.revision in
      let rest_back = reactivate_all-rows id rest (finished ++ row ∷ []) s h bs in
      subst
        (λ (x : Active).
          rows_differ (finished ++ x ∷ rest) ≡ true
          → reactivate_all casefold (x.routing ∷ snapshots_of rest)
              (record s { active = without_active id (x ∷ rest) ++ finished })
            ≡ (record s { active = finished ++ x ∷ rest }, success))
        (sym e)
        (λ d'.
          reactivate_all-next id (snapshots_of rest) p a.revision rest finished s f k d'
          ∙ subst
              (λ (xs : List Active).
                rows_differ xs ≡ true
                → reactivate_all casefold (snapshots_of rest)
                    (record s { active = without_active id rest ++ (finished ++ row ∷ []) })
                  ≡ (record s { active = xs }, success))
              (append_assoc finished (row ∷ []) rest) rest_back d')
        d
