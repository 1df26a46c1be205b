-- ===== src/RoutingStore/Rollback.antt =====
-- A guided publication whose smoke test fails, in publish_capability_setup of
-- backend/modeldeck/v2_api.py.
use mathlib.Core.List.{append-nil}
use model_deck.Base.{
  ℕ, ◌≡◌, refl, sym, inl, inr, String, Bool, true, false, ◌&&◌, some, List, [], ◌∷◌, arith,
  Bool-cases, Option-cases, str_eq, eq_iff,
}
use model_deck.RoutingStore.{
  ProfileDocument, Snapshot, Active, Store, StoreOutcome, done, fails, has_profile, save_draft,
  find_revision, routing_snapshot, without_active, put_active, set_active_routing_profile,
  or_rollback, publish_routing_profile, deactivate, empty_store,
}
use model_deck.RoutingStore.Handlers.{
  answer_of, all_distinct, Request, serve, serve_all, publish_guided, restore_routing, snapshots_of,
  success, publishes_guided,
}
use model_deck.RoutingStore.Sound.{active_ids, snapshot_at, Backed, well_kept, IsSound}
use model_deck.RoutingStore.ActiveRows.{active_ids-without_active}
use model_deck.RoutingStore.Backed.{serve_all-IsSound, IsSound-IsInvariant}
use model_deck.RoutingStore.Invariant.{serve-keeps}
use model_deck.RoutingStore.Revisions.{serve_all-KeepsRevision}
use model_deck.RoutingStore.Unique.{names_differ, serve_all-names_differ}
use model_deck.RoutingStore.Restore.{reactivate_all-rows}
use model_deck.RoutingStore.Collisions.{without_active-absent, without_active-append}

module _ (casefold : String → String) where
  serve_all-snapshot_at :
      (id : String) (n : ℕ) (s : Store) (requests : List Request) (snapshot : Snapshot)
      → snapshot_at id n s.revisions ≡ some snapshot
      → snapshot_at id n (serve_all casefold requests s).revisions ≡ some snapshot
  serve_all-snapshot_at id n s requests snapshot h =
      elim (Option-cases (find_revision id n s.revisions)) [
        | inl e ↦ ground (arith, e, h)
        | inr (p, e) ↦ ground (arith, e, h, serve_all-KeepsRevision casefold id n p s requests e)
      ]

  serve_all-Backed :
      (s : Store) (requests : List Request) (rows : List Active)
      → Backed s.revisions rows
      → Backed (serve_all casefold requests s).revisions rows
  serve_all-Backed s requests [] b = b
  serve_all-Backed s requests (a ∷ rows) (b, bs) = (
    serve_all-snapshot_at a.profile_id a.revision s requests a.routing b,
    serve_all-Backed s requests rows bs,
  )

  -- No operation on a profile touches the active rows of the others.
  put_active-others :
      (a : Active) (rows : List Active)
      → without_active a.profile_id (put_active a rows) ≡ without_active a.profile_id rows
  put_active-others a rows =
      let others = without_active a.profile_id rows in
      let absent = without_active-absent a.profile_id others (
        ground (
          arith,
          active_ids-without_active a.profile_id a.profile_id rows,
          eq_iff a.profile_id a.profile_id,
        )) in
      rw (without_active-append a.profile_id others (a ∷ []), absent)
        (ground (arith, eq_iff a.profile_id a.profile_id, append-nil others))

  set_active_routing_profile-others :
      (id : String) (n : ℕ) (routing : Snapshot) (s : Store)
      → without_active id (set_active_routing_profile casefold id n routing s).0.active
        ≡ without_active id s.active
  unfolding set_active_routing_profile
  set_active_routing_profile-others id n routing s = ground (
    arith,
    put_active-others
        (record { profile_id = id; revision = n; routing = record routing { revision = n } })
        s.active,
  )

  or_rollback-others :
      (id : String) (before : Store) (r : Store × StoreOutcome)
      → without_active id r.0.active ≡ without_active id before.active
      → without_active id (or_rollback before r).0.active ≡ without_active id before.active
  or_rollback-others id before (after, done) h = h
  or_rollback-others id before (after, fails e) h = refl

  publish_routing_profile-others :
      (p : ProfileDocument) (routing : Snapshot) (s : Store)
      → without_active p.id (publish_routing_profile casefold p routing s).0.active
        ≡ without_active p.id s.active
  unfolding publish_routing_profile
  publish_routing_profile-others p routing s = elim (Bool-cases (has_profile p.id s.profiles)) [
    | inr e ↦ rw e refl
    | inl e ↦
        rw e (or_rollback-others p.id s _ (set_active_routing_profile-others p.id _ routing _))
  ]

  answer_of-store : (r : Store × StoreOutcome) → (answer_of r).0 ≡ r.0
  answer_of-store (s, done) = refl
  answer_of-store (s, fails e) = refl

  publish_guided-others :
      (p : ProfileDocument) (valid : Bool) (s : Store)
      → without_active p.id (publish_guided casefold p valid s).0.active
        ≡ without_active p.id s.active
  unfolding publish_guided save_draft
  publish_guided-others p valid s = ground (
    arith,
    publish_routing_profile-others p (routing_snapshot p 0) (save_draft p s),
    answer_of-store (publish_routing_profile casefold p (routing_snapshot p 0) (save_draft p s)),
  )

  module _
      (nonempty-casefold : (x : String)
        → str_eq x "" ≡ false
        → str_eq (casefold x) (casefold "") ≡ false) where
    -- After any requests that leave the active rows of the other profiles as they were, the snapshots of
    -- a sound store bring its active rows back.
    restore_routing-rows :
        (id : String) (s after : Store)
        → well_kept casefold after.profiles after.revisions ≡ true
        → Backed after.revisions s.active
        → (all_distinct (active_ids s.active) && names_differ casefold s) ≡ true
        → without_active id after.active ≡ without_active id s.active
        → restore_routing casefold id (snapshots_of s.active) after
          ≡ (record after { active = s.active }, success)
    unfolding restore_routing deactivate
    restore_routing-rows id s after k b d e =
        rw (e, sym (append-nil (without_active id s.active)))
          (reactivate_all-rows casefold nonempty-casefold id s.active [] after k b d)

    -- Where casefold makes no other string the fold of the empty one: from the tables that any requests
    -- have left, a guided publication that is taken back brings the routing tables' active rows back as
    -- they were, in their order and with the snapshots they had, and reports no error, whether the
    -- publication had succeeded or not. The draft and the revision that it wrote stay.
    pub restore_routing-publish_guided :
        (requests : List Request) (p : ProfileDocument) (valid : Bool)
        → restore_routing casefold p.id
            (snapshots_of (serve_all casefold requests empty_store).active)
            (publish_guided casefold p valid (serve_all casefold requests empty_store)).0
          ≡ (
            record (publish_guided casefold p valid (serve_all casefold requests empty_store)).0 {
              active = (serve_all casefold requests empty_store).active;
            },
            success,
          )
    unfolding serve serve_all
    restore_routing-publish_guided requests p valid =
        let s = serve_all casefold requests empty_store in
        let sound = serve_all-IsSound casefold requests in
        let one = publishes_guided p valid in
        let kept =
          (serve-keeps casefold (IsSound casefold) (IsSound-IsInvariant casefold) one s
            sound).kept in
        restore_routing-rows p.id s (publish_guided casefold p valid s).0 kept
          (serve_all-Backed s (one ∷ []) s.active sound.backed)
          (ground (arith, sound.one_row_each, serve_all-names_differ casefold requests))
          (publish_guided-others p valid s)
