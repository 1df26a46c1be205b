-- ===== src/RoutingStore/Revisions.antt =====
-- The published revisions of backend/modeldeck/compatibility/store.py, under its operations.
use model_deck.Base.{
  ℕ, suc, ◌≡◌, inl, inr, String, true, some, List, [], ◌∷◌, leb, arith, Bool-cases, eq_iff,
}
use model_deck.RoutingStore.{
  ProfileDocument, Snapshot, Revision, Store, StoreOutcome, done, fails, has_profile, save_draft,
  find_revision, routing_snapshot, set_active_routing_profile, or_rollback, publish_routing_profile,
  activate_revision, deactivate, delete_profile, rebind_drafts, max_revision,
}
use model_deck.RoutingStore.Handlers.{Request, serve_all}
use model_deck.RoutingStore.Invariant.{IsInvariant, serve_all-keeps}

-- A number that has a row is at most the largest.
find_revision-max_revision :
    (id : String) (n : ℕ) (rs : List Revision) (p : ProfileDocument)
    → find_revision id n rs ≡ some p
    → leb n (max_revision id rs) ≡ true
unfolding find_revision max_revision
find_revision-max_revision id n [] p h = ground (arith, h)
find_revision-max_revision id n (r ∷ rs) p h =
    ground (arith, h, find_revision-max_revision id n rs p)

-- The next revision of any profile hides no row.
pub find_revision-next :
    (id : String) (n : ℕ) (rs : List Revision) (p : ProfileDocument) (q : ProfileDocument)
    (k : String)
    → find_revision id n rs ≡ some p
    → find_revision id n
        (record { profile_id = k; revision = suc (max_revision k rs); definition = q } ∷ rs)
      ≡ some p
unfolding find_revision
find_revision-next id n rs p q k h =
    ground (arith, h, find_revision-max_revision id n rs p h, eq_iff k id)

module _ (casefold : String → String) where
  module _ (id : String) (n : ℕ) (p : ProfileDocument) where
    abbrev KeepsRevision : Store → Type 0
    KeepsRevision s = find_revision id n s.revisions ≡ some p

    set_active_routing_profile-KeepsRevision :
        (k : String) (m : ℕ) (routing : Snapshot) (s : Store)
        → KeepsRevision s
        → KeepsRevision (set_active_routing_profile casefold k m routing s).0
    unfolding set_active_routing_profile
    set_active_routing_profile-KeepsRevision k m routing s h = ground (arith, h)

    or_rollback-KeepsRevision :
        (before : Store) (r : Store × StoreOutcome)
        → KeepsRevision before
        → KeepsRevision r.0
        → KeepsRevision (or_rollback before r).0
    or_rollback-KeepsRevision before (after, done) h k = k
    or_rollback-KeepsRevision before (after, fails e) h k = h

    publish_routing_profile-KeepsRevision :
        (q : ProfileDocument) (routing : Snapshot) (s : Store)
        → KeepsRevision s
        → KeepsRevision (publish_routing_profile casefold q routing s).0
    unfolding publish_routing_profile
    publish_routing_profile-KeepsRevision q routing s h =
        elim (Bool-cases (has_profile q.id s.profiles)) [
          | inr e ↦ rw e h
          | inl e ↦ rw e (
              or_rollback-KeepsRevision s _ h (
                set_active_routing_profile-KeepsRevision q.id _ routing _
                  (find_revision-next id n s.revisions p q q.id h)))
        ]

    KeepsRevision-IsInvariant : IsInvariant casefold KeepsRevision
    unfolding save_draft rebind_drafts deactivate delete_profile activate_revision
    KeepsRevision-IsInvariant = record {
      saves_keep = λ q s h. h;
      rebinds_keep = λ old new s h. h;
      deactivates_keep = λ k s h. h;
      deletes_keep = λ k s h. ground (arith, h);
      publishes_keep =
          λ q s u h. publish_routing_profile-KeepsRevision q (routing_snapshot q 0) s h;
      activates_keep = λ k m q s u f h. (
        ground (arith, h, set_active_routing_profile-KeepsRevision k m (routing_snapshot q m) s h),
        ground
            (arith, h, set_active_routing_profile-KeepsRevision q.id m (routing_snapshot q m) s h),
      );
    }

  -- A revision that was published once stays as it was published: no request, whatever follows it and
  -- whether it succeeds or not, removes it or changes its document.
  pub serve_all-KeepsRevision :
      (id : String) (n : ℕ) (p : ProfileDocument) (s : Store) (requests : List Request)
      → find_revision id n s.revisions ≡ some p
      → find_revision id n (serve_all casefold requests s).revisions ≡ some p
  serve_all-KeepsRevision id n p s requests h =
      serve_all-keeps casefold (KeepsRevision id n p) (KeepsRevision-IsInvariant id n p) requests s
        h
