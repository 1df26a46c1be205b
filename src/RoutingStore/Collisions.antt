-- ===== src/RoutingStore/Collisions.antt =====
-- Rows that are activated again in backend/modeldeck/compatibility/store.py: their places, and what
-- the test for collisions meets.
use mathlib.Core.List.{append_assoc}
use model_deck.Base.{
  ◌≡◌, refl, ap, ◌∙◌, String, true, false, List, [], ◌∷◌, ◌++◌, arith, str_eq, eq_iff,
}
use model_deck.Text.{member}
use model_deck.RoutingStore.{
  Binding, Active, without_active, put_active, requested, folded_names, collides, shares,
}
use model_deck.RoutingStore.Handlers.{all_distinct}
use model_deck.RoutingStore.Names.{
  served_names, served_names-append, all_distinct-append, shares_comm, shares-cons, shares-append,
  shares-without_active,
}
use model_deck.RoutingStore.Sound.{active_ids}
use model_deck.RoutingStore.ActiveRows.{active_ids-without_active}

pub without_active-absent :
    (id : String) (rows : List Active)
    → member id (active_ids rows) ≡ false
    → without_active id rows ≡ rows
without_active-absent id [] h = refl
without_active-absent id (a ∷ rows) h =
    ground (arith, h, without_active-absent id rows, eq_iff id a.profile_id, eq_iff a.profile_id id)

pub without_active-append :
    (id : String) (xs ys : List Active)
    → without_active id (xs ++ ys) ≡ without_active id xs ++ without_active id ys
without_active-append id [] ys = refl
without_active-append id (x ∷ xs) ys = ground (arith, without_active-append id xs ys)

-- Activating the next of the rows again puts it behind those that are back already.
pub put_active-next :
    (id : String) (a : Active) (rest finished : List Active)
    → member a.profile_id (active_ids rest) ≡ false
    → member a.profile_id (active_ids finished) ≡ false
    → put_active a (without_active id (a ∷ rest) ++ finished)
      ≡ without_active id rest ++ (finished ++ a ∷ [])
put_active-next id a rest finished h k =
    rw
      (
        without_active-append a.profile_id (without_active id (a ∷ rest)) finished,
        without_active-absent a.profile_id finished k,
      )
      (ap (λ xs. (xs ++ finished) ++ a ∷ [])
          (ground (
            arith,
            h,
            without_active-absent a.profile_id (without_active id rest),
            active_ids-without_active a.profile_id id rest,
            eq_iff a.profile_id a.profile_id,
          ))
        ∙ append_assoc (without_active id rest) finished (a ∷ []))

module _ (casefold : String → String)
    (nonempty-casefold : (x : String)
      → str_eq x "" ≡ false
      → str_eq (casefold x) (casefold "") ≡ false) where
  requested-nonempty : (bs : List Binding) → member (casefold "") (requested casefold bs) ≡ false
  requested-nonempty [] = refl
  requested-nonempty (b ∷ bs) = ground (
    arith,
    requested-nonempty bs,
    nonempty-casefold b.public_name,
    eq_iff (casefold "") (casefold b.public_name),
    eq_iff (casefold b.public_name) (casefold ""),
  )

  shares-folded_names :
      (names : List String) (bs : List Binding)
      → member (casefold "") names ≡ false
      → shares names (requested casefold bs) ≡ false
      → shares names (folded_names casefold bs) ≡ false
  shares-folded_names names [] h k = k
  shares-folded_names names (b ∷ bs) h k = ground (
    arith,
    h,
    k,
    shares-folded_names names bs h,
    shares-cons (casefold b.public_name) names (requested casefold bs),
    shares-cons (casefold b.public_name) names (folded_names casefold bs),
    eq_iff b.public_name "",
  )

  collides-apart :
      (id : String) (names : List String) (rows : List Active)
      → member (casefold "") names ≡ false
      → shares names (served_names casefold rows) ≡ false
      → collides casefold id names rows ≡ false
  unfolding collides
  collides-apart id names [] h k = refl
  collides-apart id names (a ∷ rows) h k = ground (
    arith,
    h,
    k,
    collides-apart id names rows h,
    shares-folded_names names a.routing.capabilities h,
    shares-append names (requested casefold a.routing.capabilities) (served_names casefold rows),
  )

  apart_from_others :
      (id : String) (a : Active) (rest finished : List Active)
      → all_distinct (served_names casefold (finished ++ a ∷ rest)) ≡ true
      → shares
          (requested casefold a.routing.capabilities)
          (served_names casefold (without_active id rest ++ finished))
        ≡ false
  apart_from_others id a rest finished h =
      let names = requested casefold a.routing.capabilities in
      let before = served_names casefold finished in
      let behind = served_names casefold rest in
      ground (
        arith,
        h,
        served_names-append casefold finished (a ∷ rest),
        served_names-append casefold (without_active id rest) finished,
        all_distinct-append before (names ++ behind),
        all_distinct-append names behind,
        shares-append before names behind,
        shares_comm before names,
        shares-append names (served_names casefold (without_active id rest)) before,
        shares-without_active casefold id names rest,
      )

  -- What activating a row again meets: the names of no other row.
  pub collides-next :
      (id : String) (a : Active) (rest finished : List Active)
      → all_distinct (served_names casefold (finished ++ a ∷ rest)) ≡ true
      → collides casefold a.profile_id
          (requested casefold a.routing.capabilities)
          (without_active id (a ∷ rest) ++ finished)
        ≡ false
  unfolding collides
  collides-next id a rest finished h =
      let names = requested casefold a.routing.capabilities in
      ground (
        arith,
        collides-apart a.profile_id names (without_active id rest ++ finished)
            (requested-nonempty a.routing.capabilities) (apart_from_others id a rest finished h),
        eq_iff a.profile_id a.profile_id,
      )
