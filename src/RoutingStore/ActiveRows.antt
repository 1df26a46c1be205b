-- ===== src/RoutingStore/ActiveRows.antt =====
-- Changes of the active rows of backend/modeldeck/compatibility/store.py.
use model_deck.Base.{
  ℕ, suc, ◌≡◌, refl, inl, inr, String, true, not, ◌&&◌, some, List, [], ◌∷◌, ◌++◌, arith,
  Bool-cases, Option-cases, str_eq, eq_iff,
}
use model_deck.Text.{member}
use model_deck.RoutingStore.{
  ProfileDocument, Snapshot, Revision, Active, find_revision, without_active, put_active,
  max_revision,
}
use model_deck.RoutingStore.Handlers.{all_distinct}
use model_deck.RoutingStore.Names.{all_distinct-append, shares_comm}
use model_deck.RoutingStore.Revisions.{find_revision-next}
use model_deck.RoutingStore.Sound.{active_ids, snapshot_at, Backed}

pub without_active-Backed :
    (id : String) (rs : List Revision) (rows : List Active)
    → Backed rs rows
    → Backed rs (without_active id rows)
without_active-Backed id rs [] b = b
without_active-Backed id rs (a ∷ rows) (b, bs) = elim (Bool-cases (str_eq a.profile_id id)) [
  | inl e ↦ rw e (without_active-Backed id rs rows bs)
  | inr e ↦ rw e (b, without_active-Backed id rs rows bs)
]

pub append-Backed :
    (rs : List Revision) (xs ys : List Active) → Backed rs xs → Backed rs ys → Backed rs (xs ++ ys)
append-Backed rs [] ys b c = c
append-Backed rs (x ∷ xs) ys (b, bs) c = (b, append-Backed rs xs ys bs c)

pub snapshot_at-next :
    (id : String) (n : ℕ) (rs : List Revision) (q : ProfileDocument) (k : String)
    (snapshot : Snapshot)
    → snapshot_at id n rs ≡ some snapshot
    → snapshot_at id n
        (record { profile_id = k; revision = suc (max_revision k rs); definition = q } ∷ rs)
      ≡ some snapshot
snapshot_at-next id n rs q k snapshot h = elim (Option-cases (find_revision id n rs)) [
  | inl e ↦ ground (arith, e, h)
  | inr (p, e) ↦ ground (arith, e, h, find_revision-next id n rs p q k e)
]

pub next-Backed :
    (rs : List Revision) (q : ProfileDocument) (k : String) (rows : List Active)
    → Backed rs rows
    → Backed
        (record { profile_id = k; revision = suc (max_revision k rs); definition = q } ∷ rs)
        rows
next-Backed rs q k [] b = b
next-Backed rs q k (a ∷ rows) (b, bs) =
    (snapshot_at-next a.profile_id a.revision rs q k a.routing b, next-Backed rs q k rows bs)

pub active_ids-without_active :
    (x id : String) (rows : List Active)
    → member x (active_ids (without_active id rows))
      ≡ (member x (active_ids rows) && not (str_eq x id))
active_ids-without_active x id [] = refl
active_ids-without_active x id (a ∷ rows) = ground (
  arith,
  active_ids-without_active x id rows,
  eq_iff a.profile_id id,
  eq_iff x id,
  eq_iff x a.profile_id,
  eq_iff a.profile_id x,
)

pub without_active-one_row :
    (id : String) (rows : List Active)
    → all_distinct (active_ids rows) ≡ true
    → all_distinct (active_ids (without_active id rows)) ≡ true
without_active-one_row id [] h = h
without_active-one_row id (a ∷ rows) h =
    ground
      (arith, h, without_active-one_row id rows, active_ids-without_active a.profile_id id rows)

pub active_ids-append :
    (xs ys : List Active) → active_ids (xs ++ ys) ≡ active_ids xs ++ active_ids ys
active_ids-append [] ys = refl
active_ids-append (x ∷ xs) ys = simp (active_ids-append xs ys)

pub put_active-one_row :
    (a : Active) (rows : List Active)
    → all_distinct (active_ids rows) ≡ true
    → all_distinct (active_ids (put_active a rows)) ≡ true
put_active-one_row a rows h =
    let others = active_ids (without_active a.profile_id rows) in
    rw (active_ids-append (without_active a.profile_id rows) (a ∷ [])) (
      ground (
        arith,
        all_distinct-append others (a.profile_id ∷ []),
        without_active-one_row a.profile_id rows h,
        shares_comm others (a.profile_id ∷ []),
        active_ids-without_active a.profile_id a.profile_id rows,
        eq_iff a.profile_id a.profile_id,
      ))
