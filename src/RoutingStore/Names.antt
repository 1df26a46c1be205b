-- ===== src/RoutingStore/Names.antt =====
-- The public names of the active routing profiles of backend/modeldeck/compatibility/store.py.
use mathlib.Core.List.{append_assoc, append-nil}
use model_deck.Base.{
  ◌≡◌, refl, ◌∙◌, String, true, false, not, ◌&&◌, ◌||◌, List, [], ◌∷◌, ◌++◌, arith, eq_iff,
}
use model_deck.Text.{member}
use model_deck.RoutingStore.{
  Binding, Active, without_active, shares, requested, folded_names, collides,
}
use model_deck.RoutingStore.Handlers.{all_distinct}

member-append :
    (x : String) (xs ys : List String) → member x (xs ++ ys) ≡ (member x xs || member x ys)
member-append x [] ys = refl
member-append x (y ∷ xs) ys = ground (arith, member-append x xs ys)

pub all_distinct-append :
    (xs ys : List String)
    → all_distinct (xs ++ ys) ≡ (all_distinct xs && all_distinct ys && not (shares xs ys))
all_distinct-append [] ys = ground arith
all_distinct-append (x ∷ xs) ys = ground (arith, all_distinct-append xs ys, member-append x xs ys)

pub shares-nil : (xs : List String) → shares xs [] ≡ false
shares-nil [] = refl
shares-nil (x ∷ xs) = shares-nil xs

pub shares-cons :
    (y : String) (xs ys : List String) → shares xs (y ∷ ys) ≡ (member y xs || shares xs ys)
shares-cons y [] ys = refl
shares-cons y (x ∷ xs) ys = ground (arith, shares-cons y xs ys, eq_iff x y, eq_iff y x)

pub shares_comm : (xs ys : List String) → shares xs ys ≡ shares ys xs
shares_comm xs [] = shares-nil xs
shares_comm xs (y ∷ ys) = ground (arith, shares-cons y xs ys, shares_comm xs ys)

pub shares-append : (xs ys zs : List String) → shares xs (ys ++ zs) ≡ (shares xs ys || shares xs zs)
shares-append [] ys zs = refl
shares-append (x ∷ xs) ys zs = ground (arith, shares-append xs ys zs, member-append x ys zs)

module _ (casefold : String → String) where
  -- The public names that the active profiles serve, folded.
  abbrev pub served_names : List Active → List String
  served_names [] = []
  served_names (a ∷ rows) = requested casefold a.routing.capabilities ++ served_names rows

  pub served_names-append :
      (xs ys : List Active) → served_names (xs ++ ys) ≡ served_names xs ++ served_names ys
  served_names-append [] ys = refl
  served_names-append (x ∷ xs) ys = simp (served_names-append xs ys, append_assoc)

  pub served_names-put :
      (rows : List Active) (a : Active)
      → all_distinct (served_names (rows ++ a ∷ [])) ≡ (
          all_distinct (served_names rows)
          && all_distinct (requested casefold a.routing.capabilities)
          && not (shares (requested casefold a.routing.capabilities) (served_names rows)))
  served_names-put rows a =
      let named = requested casefold a.routing.capabilities in
      rw (served_names-append rows (a ∷ []), append-nil named)
        (all_distinct-append (served_names rows) named
          ∙ ground (arith, shares_comm (served_names rows) named))

  requested-member :
      (x : String) (bs : List Binding)
      → member x (requested casefold bs) ≡ true
      → member x (folded_names casefold bs) ≡ true
  requested-member x [] h = h
  requested-member x (b ∷ bs) h = ground (arith, requested-member x bs)

  requested-shares :
      (xs : List String) (bs : List Binding)
      → shares xs (folded_names casefold bs) ≡ false
      → shares xs (requested casefold bs) ≡ false
  requested-shares [] bs h = refl
  requested-shares (x ∷ xs) bs h = ground (arith, requested-shares xs bs, requested-member x bs)

  pub requested-all_distinct :
      (bs : List Binding)
      → all_distinct (folded_names casefold bs) ≡ true
      → all_distinct (requested casefold bs) ≡ true
  requested-all_distinct [] h = refl
  requested-all_distinct (b ∷ bs) h =
      ground (arith, requested-all_distinct bs, requested-member (casefold b.public_name) bs)

  pub collides-shares :
      (id : String) (names : List String) (rows : List Active)
      → collides casefold id names rows ≡ false
      → shares names (served_names (without_active id rows)) ≡ false
  unfolding collides
  collides-shares id names [] h = shares-nil names
  collides-shares id names (a ∷ rows) h = ground (
    arith,
    collides-shares id names rows,
    requested-shares names a.routing.capabilities,
    shares-append names (requested casefold a.routing.capabilities)
        (served_names (without_active id rows)),
  )

  pub shares-without_active :
      (id : String) (names : List String) (rows : List Active)
      → shares names (served_names rows) ≡ false
      → shares names (served_names (without_active id rows)) ≡ false
  shares-without_active id names [] h = h
  shares-without_active id names (a ∷ rows) h = ground (
    arith,
    shares-without_active id names rows,
    shares-append names (requested casefold a.routing.capabilities) (served_names rows),
    shares-append names (requested casefold a.routing.capabilities)
        (served_names (without_active id rows)),
  )

  pub without_active-all_distinct :
      (id : String) (rows : List Active)
      → all_distinct (served_names rows) ≡ true
      → all_distinct (served_names (without_active id rows)) ≡ true
  without_active-all_distinct id [] h = h
  without_active-all_distinct id (a ∷ rows) h = ground (
    arith,
    without_active-all_distinct id rows,
    shares-without_active id (requested casefold a.routing.capabilities) rows,
    all_distinct-append (requested casefold a.routing.capabilities) (served_names rows),
    all_distinct-append (requested casefold a.routing.capabilities)
        (served_names (without_active id rows)),
  )
