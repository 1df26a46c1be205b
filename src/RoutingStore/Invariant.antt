-- ===== src/RoutingStore/Invariant.antt =====
-- Invariants of the routing tables under the requests of backend/modeldeck/v2_api.py, from the
-- operations of backend/modeldeck/compatibility/store.py.
use model_deck.Base.{
  ℕ, ◌≡◌, inl, inr, String, Bool, true, some, List, [], ◌∷◌, arith, Bool-cases, Option-cases,
}
use model_deck.RoutingStore.{
  ProfileDocument, Snapshot, Store, StoreOutcome, done, fails, save_draft, find_revision,
  routing_snapshot, publish_routing_profile, activate_revision, deactivate, delete_profile,
  discard_draft, rebind_drafts, max_revision,
}
use model_deck.RoutingStore.Handlers.{
  Answer, answer_of, or_failure, find_profile, unique_capabilities, create_routing_profile,
  save_routing_profile_draft, publish_profile, reactivate_revision, publish_guided, reactivate_all,
  restore_routing, Request, creates, saves, discards, deletes, deactivates, publishes, reactivates,
  publishes_guided, restores, rebinds, serve, serve_all,
}

module _ (casefold : String → String) where
  pub record IsInvariant (P : Store → Type 0) : Type 0 where
    pub saves_keep : (p : ProfileDocument) (s : Store) → P s → P (save_draft p s)
    pub rebinds_keep : (old new : String) (s : Store) → P s → P (rebind_drafts old new s)
    pub deactivates_keep : (id : String) (s : Store) → P s → P (deactivate id s)
    pub deletes_keep : (id : String) (s : Store) → P s → P (delete_profile id s).0
    pub publishes_keep :
        (p : ProfileDocument) (s : Store)
        → unique_capabilities casefold p ≡ true
        → P s
        → P (publish_routing_profile casefold p (routing_snapshot p 0) s).0
    -- the id of the row, or that of its document
    pub activates_keep :
        (id : String) (n : ℕ) (p : ProfileDocument) (s : Store)
        → unique_capabilities casefold p ≡ true
        → find_revision id n s.revisions ≡ some p
        → P s
        → P (activate_revision casefold id n (routing_snapshot p n) s).0
          × P (activate_revision casefold p.id n (routing_snapshot p n) s).0

  module _ (P : Store → Type 0) (keeps : IsInvariant P) where
    answer_of-keeps : (r : Store × StoreOutcome) → P r.0 → P (answer_of r).0
    answer_of-keeps (s, done) h = h
    answer_of-keeps (s, fails e) h = h

    or_failure-keeps :
        (r : Store × StoreOutcome) (rest : Store × Answer)
        → P r.0
        → P rest.0
        → P (or_failure r rest).0
    or_failure-keeps (s, done) rest h k = k
    or_failure-keeps (s, fails e) rest h k = h

    publish_profile-keeps :
        (id : String) (valid : Bool) (s : Store) → P s → P (publish_profile casefold id valid s).0
    unfolding publish_profile
    publish_profile-keeps id valid s h = elim (Option-cases (find_profile id s.profiles)) [
      | inl e ↦ rw (publish_profile, e) h
      | inr (p, e) ↦ elim (Bool-cases (unique_capabilities casefold p)) [
        | inr u ↦ rw (publish_profile, e, u) h
        | inl u ↦ elim (Bool-cases valid) [
          | inr v ↦ rw (publish_profile, e, u, v) h
          | inl v ↦ rw (publish_profile, e, u, v) (answer_of-keeps _ (keeps.publishes_keep p s u h))
        ]
      ]
    ]

    reactivate_revision-keeps :
        (id : String) (n : ℕ) (valid : Bool) (s : Store)
        → P s
        → P (reactivate_revision casefold id n valid s).0
    unfolding reactivate_revision
    reactivate_revision-keeps id n valid s h =
        elim (Option-cases (find_revision id n s.revisions)) [
          | inl e ↦ rw (reactivate_revision, e) h
          | inr (p, e) ↦ elim (Bool-cases (unique_capabilities casefold p)) [
            | inr u ↦ rw (reactivate_revision, e, u) h
            | inl u ↦ elim (Bool-cases valid) [
              | inr v ↦ rw (reactivate_revision, e, u, v) h
              | inl v ↦
                  rw (reactivate_revision, e, u, v)
                    (answer_of-keeps _ (keeps.activates_keep id n p s u e h).0)
            ]
          ]
        ]

    publish_guided-keeps :
        (p : ProfileDocument) (valid : Bool) (s : Store)
        → P s
        → P (publish_guided casefold p valid s).0
    unfolding publish_guided
    publish_guided-keeps p valid s h = elim (Bool-cases (unique_capabilities casefold p)) [
      | inr u ↦ rw u h
      | inl u ↦ elim (Bool-cases valid) [
        | inr v ↦ rw (u, v) h
        | inl v ↦
            rw (u, v)
              (answer_of-keeps _
                (keeps.publishes_keep p (save_draft p s) u (keeps.saves_keep p s h)))
      ]
    ]

    reactivate_all-keeps :
        (previous : List Snapshot) (s : Store) → P s → P (reactivate_all casefold previous s).0
    unfolding reactivate_all
    reactivate_all-keeps [] s h = h
    reactivate_all-keeps (r ∷ previous) s h =
        elim (Option-cases (find_revision r.profile_id r.revision s.revisions)) [
          | inl e ↦ rw (reactivate_all, e) (reactivate_all-keeps previous s h)
          | inr (p, e) ↦ elim (Bool-cases (unique_capabilities casefold p)) [
            | inr u ↦ rw (reactivate_all, e, u) h
            | inl u ↦
                let next = (keeps.activates_keep r.profile_id r.revision p s u e h).1 in
                rw (reactivate_all, e, u)
                  (or_failure-keeps _ _ next (reactivate_all-keeps previous _ next))
          ]
        ]

    discard_draft-keeps : (id : String) (s : Store) → P s → P (discard_draft id s).0
    unfolding discard_draft
    discard_draft-keeps id s h =
        elim (Option-cases (find_revision id (max_revision id s.revisions) s.revisions)) [
          | inl e ↦ rw (discard_draft, e) h
          | inr (p, e) ↦ rw (discard_draft, e) (keeps.saves_keep p s h)
        ]

    create_routing_profile-keeps :
        (p : ProfileDocument) (s : Store) → P s → P (create_routing_profile casefold p s).0
    unfolding create_routing_profile
    create_routing_profile-keeps p s h = ground (arith, keeps.saves_keep p s h)

    save_routing_profile_draft-keeps :
        (id : String) (p : ProfileDocument) (s : Store)
        → P s
        → P (save_routing_profile_draft casefold id p s).0
    unfolding save_routing_profile_draft
    save_routing_profile_draft-keeps id p s h = ground (arith, keeps.saves_keep p s h)

    pub serve-keeps : (r : Request) (s : Store) → P s → P (serve casefold r s)
    unfolding serve restore_routing
    serve-keeps (creates p) s h = create_routing_profile-keeps p s h
    serve-keeps (saves id p) s h = save_routing_profile_draft-keeps id p s h
    serve-keeps (discards id) s h = discard_draft-keeps id s h
    serve-keeps (deletes id) s h = keeps.deletes_keep id s h
    serve-keeps (deactivates id) s h = keeps.deactivates_keep id s h
    serve-keeps (publishes id valid) s h = publish_profile-keeps id valid s h
    serve-keeps (reactivates id n valid) s h = reactivate_revision-keeps id n valid s h
    serve-keeps (publishes_guided p valid) s h = publish_guided-keeps p valid s h
    serve-keeps (restores id previous) s h =
        reactivate_all-keeps previous _ (keeps.deactivates_keep id s h)
    serve-keeps (rebinds old new) s h = keeps.rebinds_keep old new s h

    pub serve_all-keeps : (rs : List Request) (s : Store) → P s → P (serve_all casefold rs s)
    unfolding serve_all
    serve_all-keeps [] s h = h
    serve_all-keeps (r ∷ rs) s h = serve_all-keeps rs (serve casefold r s) (serve-keeps r s h)
