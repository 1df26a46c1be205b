-- ===== src/Gateway/Resolution/Served.antt =====
-- The active capabilities and what backend/modeldeck/gateway/app.py finds under their names.
use model_deck.Base.{
  ◌≡◌, refl, sym, ap, ◌∙◌, subst, String, Bool, true, false, not, ◌&&◌, Option, none, some, is_none,
  if◌then◌else◌, List, [], ◌∷◌, ◌++◌, str_eq, eq_iff, arith, any,
}
use model_deck.Text.{member}
use model_deck.RoutingStore.{Binding, Active, empty_store, requested}
use model_deck.RoutingStore.Handlers.{all_distinct, Request, serve_all}
use model_deck.RoutingStore.Names.{served_names, all_distinct-append}
use model_deck.RoutingStore.Unique.{serve_all-names_differ}
use model_deck.Gateway.Resolution.{
  WorkerRow, ResolvedRoute, resolve, resolve_all, is_asked, capability_routes, active_route_records,
  active_route, is_configured, status_of_row, row_by_id,
}

abbrev pub has_name : String → List ResolvedRoute → Bool
has_name name rs = any (λ (r : ResolvedRoute). str_eq r.public_name name) rs

-- the capabilities of all active profiles
abbrev pub bindings_of : List Active → List Binding
bindings_of [] = []
bindings_of (a ∷ active) = a.routing.capabilities ++ bindings_of active

capability_routes-append :
    (contracts : Option (List String)) (rows : List WorkerRow) (xs ys : List Binding)
    → capability_routes contracts rows (xs ++ ys)
      ≡ capability_routes contracts rows xs ++ capability_routes contracts rows ys
unfolding capability_routes
capability_routes-append contracts rows [] ys = refl
capability_routes-append contracts rows (x ∷ xs) ys =
    ground (arith, capability_routes-append contracts rows xs ys)

active_route_records-bindings_of :
    (contracts : Option (List String)) (rows : List WorkerRow) (active : List Active)
    → active_route_records contracts rows active
      ≡ capability_routes contracts rows (bindings_of active)
unfolding active_route_records capability_routes
active_route_records-bindings_of contracts rows [] = refl
active_route_records-bindings_of contracts rows (a ∷ active) =
    ap (λ rs. capability_routes contracts rows a.routing.capabilities ++ rs)
      (active_route_records-bindings_of contracts rows active)
    ∙ sym (capability_routes-append contracts rows a.routing.capabilities (bindings_of active))

active_route-absent :
    (name : String) (rs : List ResolvedRoute)
    → has_name name rs ≡ false
    → active_route name rs ≡ none
unfolding active_route
active_route-absent name [] h = refl
active_route-absent name (r ∷ rs) h = ground (arith, h, active_route-absent name rs)

active_route-append :
    (name : String) (xs ys : List ResolvedRoute) (r : ResolvedRoute)
    → active_route name ys ≡ some r
    → active_route name (xs ++ ys) ≡ some r
unfolding active_route
active_route-append name [] ys r h = h
active_route-append name (x ∷ xs) ys r h = ground (arith, active_route-append name xs ys r h)

-- A stored row whose document is valid, carries the identifier, and is archived neither in its row nor
-- by itself.
abbrev pub usable_row : String → WorkerRow → Bool
usable_row id r =
    not r.archived_at
    && (elim r.definition [ none ↦ false | some d ↦ str_eq d.id id && not d.archived ])

-- The row that counts for an identifier is the last one that has it.
abbrev pub is_usable : String → List WorkerRow → Bool
is_usable id [] = false
is_usable id (r ∷ rs) =
    if any (λ (q : WorkerRow). str_eq q.id id) rs
    then is_usable id rs
    else str_eq r.id id && usable_row id r

is_usable-absent :
    (id : String) (rs : List WorkerRow)
    → any (λ (q : WorkerRow). str_eq q.id id) rs ≡ not (is_none (row_by_id id rs))
unfolding row_by_id
is_usable-absent id [] = refl
is_usable-absent id (r ∷ rs) = ground (arith, is_usable-absent id rs)

status_of_row-usable :
    (id : String) (rows : List WorkerRow)
    → is_configured (status_of_row id (row_by_id id rows)) ≡ is_usable id rows
unfolding row_by_id status_of_row
status_of_row-usable id [] = refl
status_of_row-usable id (r ∷ rs) =
    ground (arith, status_of_row-usable id rs, is_usable-absent id rs)

-- The candidates of a route are its workers that are stored, valid and not archived.
resolve_all-member :
    (id : String) (ids : List String) (rows : List WorkerRow)
    → member id (resolve_all ids rows).1 ≡ (member id ids && is_usable id rows)
unfolding resolve_all
resolve_all-member id [] rows = refl
resolve_all-member id (x ∷ ids) rows =
    ground (
      arith,
      resolve_all-member id ids rows,
      status_of_row-usable id rows,
      eq_iff x id,
      eq_iff id x,
    )

module _ (casefold : String → String) where
  requested-append :
      (xs ys : List Binding)
      → requested casefold (xs ++ ys) ≡ requested casefold xs ++ requested casefold ys
  requested-append [] ys = refl
  requested-append (x ∷ xs) ys = ground (arith, requested-append xs ys)

  served_names-bindings_of :
      (active : List Active)
      → served_names casefold active ≡ requested casefold (bindings_of active)
  served_names-bindings_of [] = refl
  served_names-bindings_of (a ∷ active) =
      ap (λ xs. requested casefold a.routing.capabilities ++ xs) (served_names-bindings_of active)
      ∙ sym (requested-append a.routing.capabilities (bindings_of active))

  -- A route with a name stands for a binding with that name, and so with its fold.
  has_name-requested :
      (contracts : Option (List String)) (rows : List WorkerRow) (name : String) (bs : List Binding)
      → member (casefold name) (requested casefold bs) ≡ false
      → has_name name (capability_routes contracts rows bs) ≡ false
  unfolding capability_routes resolve
  has_name-requested contracts rows name [] h = refl
  has_name-requested contracts rows name (b ∷ bs) h = ground (
    arith,
    h,
    has_name-requested contracts rows name bs,
    eq_iff b.public_name name,
    eq_iff (casefold name) (casefold b.public_name),
    eq_iff (casefold b.public_name) (casefold name),
  )

  found_route :
      (contracts : Option (List String)) (rows : List WorkerRow) (before after : List Binding)
      (b : Binding)
      → all_distinct (requested casefold (before ++ b ∷ after)) ≡ true
      → (is_asked contracts b && not (str_eq b.public_name "")) ≡ true
      → active_route b.public_name (capability_routes contracts rows (before ++ b ∷ after))
        ≡ some (resolve b.public_name b.worker_ids rows)
  unfolding capability_routes active_route resolve
  found_route contracts rows before after b d asked =
      let names = casefold b.public_name ∷ requested casefold after in
      let own : all_distinct names ≡ true = ground (
        arith,
        d,
        asked,
        requested-append before (b ∷ after),
        all_distinct-append (requested casefold before) names,
      ) in
      let absent =
        active_route-absent b.public_name (capability_routes contracts rows after)
          (has_name-requested contracts rows b.public_name after (ground (arith, own))) in
      rw (capability_routes-append contracts rows before (b ∷ after)) (
        active_route-append b.public_name (capability_routes contracts rows before)
          (capability_routes contracts rows (b ∷ after)) (resolve b.public_name b.worker_ids rows)
          (ground (arith, asked, absent, eq_iff b.public_name b.public_name)))

  -- From whatever requests have left the routing tables: each capability of an active profile that has
  -- a public name, and a contract that is asked for, is what the gateway finds under that name, so that no
  -- other active capability takes the name from it; and its candidates are those workers of its own
  -- binding whose stored row, the last of their identifier, has a valid document with that identifier
  -- that is archived neither in the row nor in the document.
  pub active_route-serve_all :
      (requests : List Request) (contracts : Option (List String)) (rows : List WorkerRow)
      (before after : List Binding) (b : Binding) (id : String)
      → bindings_of (serve_all casefold requests empty_store).active ≡ before ++ b ∷ after
      → (is_asked contracts b && not (str_eq b.public_name "")) ≡ true
      → (active_route b.public_name
            (active_route_records contracts rows (serve_all casefold requests empty_store).active)
          ≡ some (resolve b.public_name b.worker_ids rows))
        × (member id (resolve b.public_name b.worker_ids rows).candidates
            ≡ (member id b.worker_ids && is_usable id rows))
  unfolding resolve
  active_route-serve_all requests contracts rows before after b id e asked =
      let active = (serve_all casefold requests empty_store).active in
      let found =
        found_route contracts rows before after b
          (subst (λ bs. all_distinct (requested casefold bs) ≡ true) e
            (subst (λ names. all_distinct names ≡ true) (served_names-bindings_of active)
              (serve_all-names_differ casefold requests)))
          asked in
      (
        rw (active_route_records-bindings_of contracts rows active, e) found,
        resolve_all-member id b.worker_ids rows,
      )
