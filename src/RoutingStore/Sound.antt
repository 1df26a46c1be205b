-- ===== src/RoutingStore/Sound.antt =====
-- How the rows of backend/modeldeck/compatibility/store.py are to fit together, with what the
-- operations on drafts do to it.
use model_deck.Base.{
  ℕ, ◌≡◌, refl, String, Bool, true, false, ◌&&◌, Option, none, some, List, [], ◌∷◌, arith, all,
  str_eq, eq_iff,
}
use model_deck.RoutingStore.{
  ProfileDocument, Snapshot, Revision, Active, Store, has_profile, find_revision, routing_snapshot,
  put_profile, rebind_profiles, without_profile, has_revision,
}
use model_deck.RoutingStore.Handlers.{all_distinct, unique_capabilities}

abbrev pub active_ids : List Active → List String
active_ids [] = []
active_ids (a ∷ rows) = a.profile_id ∷ active_ids rows

-- The snapshot of the document of a revision.
abbrev pub snapshot_at : String → ℕ → List Revision → Option Snapshot
snapshot_at id n rs = elim (find_revision id n rs) [
  | none ↦ none
  | some p ↦ some (routing_snapshot p n)
]

-- Every active row has the snapshot of its revision.
abbrev pub Backed : List Revision → List Active → Type 0
Backed rs [] = Unit
Backed rs (a ∷ rows) = (snapshot_at a.profile_id a.revision rs ≡ some a.routing) × Backed rs rows

module _ (casefold : String → String) where
  -- Every revision has its profile, its document has the profile's id, and was validated.
  abbrev pub well_kept : List ProfileDocument → List Revision → Bool
  well_kept ps rs =
      all
        (λ (r : Revision).
          str_eq r.definition.id r.profile_id
          && has_profile r.profile_id ps
          && unique_capabilities casefold r.definition)
        rs

  pub record IsSound (s : Store) : Type 0 where
    pub kept : well_kept s.profiles s.revisions ≡ true
    pub backed : Backed s.revisions s.active
    pub one_row_each : all_distinct (active_ids s.active) ≡ true

put_profile-has_profile :
    (k : String) (p : ProfileDocument) (ps : List ProfileDocument)
    → has_profile k ps ≡ true
    → has_profile k (put_profile p ps) ≡ true
put_profile-has_profile k p [] h = ground (arith, h)
put_profile-has_profile k p (q ∷ qs) h =
    ground (arith, h, put_profile-has_profile k p qs, eq_iff q.id p.id)

rebind_profiles-has_profile :
    (k old new : String) (ps : List ProfileDocument)
    → has_profile k (rebind_profiles old new ps) ≡ has_profile k ps
rebind_profiles-has_profile k old new [] = refl
rebind_profiles-has_profile k old new (p ∷ ps) =
    ground (arith, rebind_profiles-has_profile k old new ps)

without_profile-has_profile :
    (k id : String) (ps : List ProfileDocument)
    → str_eq k id ≡ false
    → has_profile k ps ≡ true
    → has_profile k (without_profile id ps) ≡ true
without_profile-has_profile k id [] e h = h
without_profile-has_profile k id (p ∷ ps) e h =
    ground (arith, e, h, without_profile-has_profile k id ps e, eq_iff p.id k)

module _ (casefold : String → String) where
  pub put_profile-well_kept :
      (p : ProfileDocument) (ps : List ProfileDocument) (rs : List Revision)
      → well_kept casefold ps rs ≡ true
      → well_kept casefold (put_profile p ps) rs ≡ true
  put_profile-well_kept p ps [] h = refl
  put_profile-well_kept p ps (r ∷ rs) h =
      ground (arith, h, put_profile-well_kept p ps rs, put_profile-has_profile r.profile_id p ps)

  pub rebind_profiles-well_kept :
      (old new : String) (ps : List ProfileDocument) (rs : List Revision)
      → well_kept casefold ps rs ≡ true
      → well_kept casefold (rebind_profiles old new ps) rs ≡ true
  rebind_profiles-well_kept old new ps [] h = refl
  rebind_profiles-well_kept old new ps (r ∷ rs) h = ground (
    arith,
    h,
    rebind_profiles-well_kept old new ps rs,
    rebind_profiles-has_profile r.profile_id old new ps,
  )

  pub without_profile-well_kept :
      (id : String) (ps : List ProfileDocument) (rs : List Revision)
      → has_revision id rs ≡ false
      → well_kept casefold ps rs ≡ true
      → well_kept casefold (without_profile id ps) rs ≡ true
  without_profile-well_kept id ps [] e h = refl
  without_profile-well_kept id ps (r ∷ rs) e h = ground (
    arith,
    e,
    h,
    without_profile-well_kept id ps rs,
    without_profile-has_profile r.profile_id id ps,
  )

  -- What a revision's row says of its document.
  pub find_revision-well_kept :
      (id : String) (n : ℕ) (ps : List ProfileDocument) (rs : List Revision) (p : ProfileDocument)
      → well_kept casefold ps rs ≡ true
      → find_revision id n rs ≡ some p
      → (str_eq p.id id && has_profile id ps && unique_capabilities casefold p) ≡ true
  unfolding find_revision
  find_revision-well_kept id n ps [] p h f = ground (arith, f)
  find_revision-well_kept id n ps (r ∷ rs) p h f =
      ground (arith, h, f, find_revision-well_kept id n ps rs p, eq_iff r.profile_id id)
