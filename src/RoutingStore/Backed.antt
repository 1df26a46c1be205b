-- ===== src/RoutingStore/Backed.antt =====
-- The active rows of backend/modeldeck/compatibility/store.py and the revisions that they name.
use model_deck.Base.{
  ℕ, suc, ◌≡◌, refl, sym, subst, inl, inr, String, true, ◌||◌, some, List, ◌∷◌, arith, Bool-cases,
  eq_iff,
}
use model_deck.RoutingStore.{
  ProfileDocument, Snapshot, Revision, Store, StoreOutcome, done, fails, has_profile, save_draft,
  find_revision, routing_snapshot, without_active, requested, collides, set_active_routing_profile,
  or_rollback, publish_routing_profile, activate_revision, deactivate, delete_profile,
  rebind_drafts, empty_store, max_revision, has_revision, is_active,
}
use model_deck.RoutingStore.Handlers.{unique_capabilities, Request, serve_all}
use model_deck.RoutingStore.Invariant.{IsInvariant, serve_all-keeps}
use model_deck.RoutingStore.Sound.{
  snapshot_at, IsSound, put_profile-well_kept, rebind_profiles-well_kept, without_profile-well_kept,
  find_revision-well_kept,
}
use model_deck.RoutingStore.ActiveRows.{
  without_active-Backed, append-Backed, next-Backed, without_active-one_row, put_active-one_row,
}

module _ (casefold : String → String) where
  set_active_routing_profile-IsSound :
      (id : String) (n : ℕ) (routing : Snapshot) (s : Store)
      → snapshot_at id n s.revisions ≡ some (record routing { revision = n })
      → IsSound casefold s
      → IsSound casefold (set_active_routing_profile casefold id n routing s).0
  unfolding set_active_routing_profile
  set_active_routing_profile-IsSound id n routing s e h =
      elim (Bool-cases (collides casefold id (requested casefold routing.capabilities) s.active)) [
        | inl c ↦ rw c h
        | inr c ↦ elim (Bool-cases (has_profile id s.profiles)) [
          | inr k ↦ rw (c, k) h
          | inl k ↦
              rw (c, k)
                (record {
                  kept = h.kept;
                  backed =
                      append-Backed s.revisions (without_active id s.active) _
                        (without_active-Backed id s.revisions s.active h.backed) (e, tt);
                  one_row_each =
                      put_active-one_row
                        (record {
                          profile_id = id;
                          revision = n;
                          routing = record routing { revision = n };
                        })
                        s.active h.one_row_each;
                })
        ]
      ]

  document_id :
      (id : String) (n : ℕ) (p : ProfileDocument) (s : Store)
      → find_revision id n s.revisions ≡ some p
      → IsSound casefold s
      → p.id ≡ id
  document_id id n p s f h = ground (
    arith,
    eq_iff p.id id,
    find_revision-well_kept casefold id n s.profiles s.revisions p h.kept f,
  )

  snapshot_at-first :
      (p : ProfileDocument) (n : ℕ) (rs : List Revision)
      → snapshot_at p.id n (record { profile_id = p.id; revision = n; definition = p } ∷ rs)
        ≡ some (routing_snapshot p n)
  unfolding find_revision
  snapshot_at-first p n rs = ground (arith, eq_iff p.id p.id)

  or_rollback-IsSound :
      (before : Store) (r : Store × StoreOutcome)
      → IsSound casefold before
      → IsSound casefold r.0
      → IsSound casefold (or_rollback before r).0
  or_rollback-IsSound before (after, done) h k = k
  or_rollback-IsSound before (after, fails e) h k = h

  publish_routing_profile-IsSound :
      (p : ProfileDocument) (s : Store)
      → unique_capabilities casefold p ≡ true
      → IsSound casefold s
      → IsSound casefold (publish_routing_profile casefold p (routing_snapshot p 0) s).0
  unfolding publish_routing_profile
  publish_routing_profile-IsSound p s u h = elim (Bool-cases (has_profile p.id s.profiles)) [
    | inr e ↦ rw e h
    | inl e ↦
        let n = suc (max_revision p.id s.revisions) in
        let row : Revision = record { profile_id = p.id; revision = n; definition = p } in
        rw e (
          or_rollback-IsSound s _ h (
            set_active_routing_profile-IsSound p.id n (routing_snapshot p 0) _
              (snapshot_at-first p n s.revisions)
              (record {
                kept = ground (arith, e, u, h.kept, eq_iff p.id p.id);
                backed = next-Backed s.revisions p p.id s.active h.backed;
                one_row_each = h.one_row_each;
              })))
  ]

  activate_revision-IsSound :
      (id : String) (n : ℕ) (p : ProfileDocument) (s : Store)
      → find_revision id n s.revisions ≡ some p
      → IsSound casefold s
      → IsSound casefold (activate_revision casefold id n (routing_snapshot p n) s).0
  unfolding activate_revision
  activate_revision-IsSound id n p s f h =
      rw f (set_active_routing_profile-IsSound id n (routing_snapshot p n) s (ground (arith, f)) h)

  delete_profile-IsSound :
      (id : String) (s : Store) → IsSound casefold s → IsSound casefold (delete_profile id s).0
  unfolding delete_profile
  delete_profile-IsSound id s h =
      elim (Bool-cases (is_active id s.active || has_revision id s.revisions)) [
        | inl e ↦ rw e h
        | inr e ↦ rw e (record {
          kept =
              without_profile-well_kept casefold id s.profiles s.revisions (ground (arith, e))
                h.kept;
          backed = h.backed;
          one_row_each = h.one_row_each;
        })
      ]

  pub IsSound-IsInvariant : IsInvariant casefold (IsSound casefold)
  unfolding save_draft rebind_drafts deactivate
  IsSound-IsInvariant = record {
    saves_keep = λ p s h. record {
      kept = put_profile-well_kept casefold p s.profiles s.revisions h.kept;
      backed = h.backed;
      one_row_each = h.one_row_each;
    };
    rebinds_keep = λ old new s h. record {
      kept = rebind_profiles-well_kept casefold old new s.profiles s.revisions h.kept;
      backed = h.backed;
      one_row_each = h.one_row_each;
    };
    deactivates_keep = λ id s h. record {
      kept = h.kept;
      backed = without_active-Backed id s.revisions s.active h.backed;
      one_row_each = without_active-one_row id s.active h.one_row_each;
    };
    deletes_keep = λ id s h. delete_profile-IsSound id s h;
    publishes_keep = λ p s u h. publish_routing_profile-IsSound p s u h;
    activates_keep = λ id n p s u f h. (
      activate_revision-IsSound id n p s f h,
      activate_revision-IsSound p.id n p s
          (subst (λ k. find_revision k n s.revisions ≡ some p) (sym (document_id id n p s f h)) f)
          h,
    );
  }

  -- Whatever the handlers do from an empty store, and whether it succeeds or not: every revision has its
  -- profile and a document with the profile's id that was validated; every active row has the snapshot
  -- of the revision that it names; and a profile has one active row at most.
  pub serve_all-IsSound :
      (requests : List Request) → IsSound casefold (serve_all casefold requests empty_store)
  serve_all-IsSound requests =
      serve_all-keeps casefold (IsSound casefold) IsSound-IsInvariant requests empty_store
        (record { kept = refl; backed = tt; one_row_each = refl })
