-- ===== src/RoutingStore/Unique.antt =====
-- The public names of what is active, under the operations of
-- backend/modeldeck/compatibility/store.py.
use model_deck.Base.{
  ℕ, suc, ◌≡◌, refl, inl, inr, String, Bool, true, false, List, ◌∷◌, arith, Bool-cases,
}
use model_deck.RoutingStore.{
  ProfileDocument, Snapshot, Revision, Active, Store, StoreOutcome, done, fails, has_profile,
  save_draft, routing_snapshot, without_active, put_active, requested, folded_names, collides,
  set_active_routing_profile, or_rollback, publish_routing_profile, activate_revision, deactivate,
  delete_profile, rebind_drafts, empty_store, max_revision,
}
use model_deck.RoutingStore.Handlers.{all_distinct, Request, serve_all}
use model_deck.RoutingStore.Invariant.{IsInvariant, serve_all-keeps}
use model_deck.RoutingStore.Names.{
  served_names, served_names-put, requested-all_distinct, collides-shares,
  without_active-all_distinct,
}

module _ (casefold : String → String) where
  abbrev pub names_differ : Store → Bool
  names_differ s = all_distinct (served_names casefold s.active)

  put_active-names_differ :
      (a : Active) (rows : List Active)
      → all_distinct (served_names casefold rows) ≡ true
      → all_distinct (folded_names casefold a.routing.capabilities) ≡ true
      → collides casefold a.profile_id (requested casefold a.routing.capabilities) rows ≡ false
      → all_distinct (served_names casefold (put_active a rows)) ≡ true
  put_active-names_differ a rows d u c = ground (
    arith,
    served_names-put casefold (without_active a.profile_id rows) a,
    without_active-all_distinct casefold a.profile_id rows d,
    requested-all_distinct casefold a.routing.capabilities u,
    collides-shares casefold a.profile_id (requested casefold a.routing.capabilities) rows c,
  )

  set_active_routing_profile-names_differ :
      (id : String) (n : ℕ) (routing : Snapshot) (s : Store)
      → all_distinct (folded_names casefold routing.capabilities) ≡ true
      → names_differ s ≡ true
      → names_differ (set_active_routing_profile casefold id n routing s).0 ≡ true
  unfolding set_active_routing_profile
  set_active_routing_profile-names_differ id n routing s u d =
      elim (Bool-cases (collides casefold id (requested casefold routing.capabilities) s.active)) [
        | inl c ↦ rw c d
        | inr c ↦ elim (Bool-cases (has_profile id s.profiles)) [
          | inr h ↦ rw (c, h) d
          | inl h ↦
              rw (c, h)
                (put_active-names_differ
                  (record {
                    profile_id = id;
                    revision = n;
                    routing = record routing { revision = n };
                  })
                  s.active d u c)
        ]
      ]

  or_rollback-names_differ :
      (before : Store) (r : Store × StoreOutcome)
      → names_differ before ≡ true
      → names_differ r.0 ≡ true
      → names_differ (or_rollback before r).0 ≡ true
  or_rollback-names_differ before (after, done) d e = e
  or_rollback-names_differ before (after, fails f) d e = d

  publish_routing_profile-names_differ :
      (p : ProfileDocument) (routing : Snapshot) (s : Store)
      → all_distinct (folded_names casefold routing.capabilities) ≡ true
      → names_differ s ≡ true
      → names_differ (publish_routing_profile casefold p routing s).0 ≡ true
  unfolding publish_routing_profile
  publish_routing_profile-names_differ p routing s u d =
      let n = suc (max_revision p.id s.revisions) in
      let row : Revision = record { profile_id = p.id; revision = n; definition = p } in
      let after =
        set_active_routing_profile casefold p.id n routing
          (record s { revisions = row ∷ s.revisions }) in
      elim (Bool-cases (has_profile p.id s.profiles)) [
        | inr h ↦ rw h d
        | inl h ↦ rw h (
            or_rollback-names_differ s after d
              (set_active_routing_profile-names_differ p.id n routing _ u d))
      ]

  activate_revision-names_differ :
      (id : String) (n : ℕ) (routing : Snapshot) (s : Store)
      → all_distinct (folded_names casefold routing.capabilities) ≡ true
      → names_differ s ≡ true
      → names_differ (activate_revision casefold id n routing s).0 ≡ true
  unfolding activate_revision
  activate_revision-names_differ id n routing s u d =
      ground (arith, set_active_routing_profile-names_differ id n routing s u d)

  names_differ-IsInvariant : IsInvariant casefold (λ s. names_differ s ≡ true)
  unfolding save_draft rebind_drafts deactivate delete_profile
  names_differ-IsInvariant = record {
    saves_keep = λ p s d. d;
    rebinds_keep = λ old new s d. d;
    deactivates_keep = λ id s d. without_active-all_distinct casefold id s.active d;
    deletes_keep = λ id s d. ground arith;
    publishes_keep =
        λ p s u d. publish_routing_profile-names_differ p (routing_snapshot p 0) s (ground arith) d;
    activates_keep = λ id n p s u f d. (
      activate_revision-names_differ id n (routing_snapshot p n) s (ground arith) d,
      activate_revision-names_differ p.id n (routing_snapshot p n) s (ground arith) d,
    );
  }

  -- Whatever profiles are created, edited, published, activated again, deactivated, deleted or rebound,
  -- in whatever order and with whatever outcome, and also when a failed smoke test puts snapshots back,
  -- no public name is ever served by two active capabilities, where names differ if casefold tells them
  -- apart.
  pub serve_all-names_differ :
      (requests : List Request) → names_differ (serve_all casefold requests empty_store) ≡ true
  serve_all-names_differ requests =
      serve_all-keeps casefold (λ s. names_differ s ≡ true) names_differ-IsInvariant requests
        empty_store refl
