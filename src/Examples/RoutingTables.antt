-- ===== src/Examples/RoutingTables.antt =====
-- The routing tables of backend/modeldeck/compatibility/store.py with two profiles.
use model_deck.Base.{◌≡◌, refl, String, true, false, none, some, List, [], ◌∷◌, ◌++◌, ◌&&◌, str_eq}
use model_deck.RoutingStore.{
  Binding, ProfileDocument, empty_store, find_revision, save_draft, max_revision, collides,
  set_active_routing_profile, publish_routing_profile, delete_profile,
}
use model_deck.RoutingStore.Handlers.{
  Request, creates, publishes, publishes_guided, deactivates, deletes, serve, serve_all,
  create_routing_profile, publish_profile, publish_guided, restore_routing, snapshots_of, success,
}
use model_deck.Gateway.Resolution.{WorkerRow, resolve, active_route, active_route_records}
use model_deck.Gateway.Resolution.Served.{bindings_of, is_usable, active_route-serve_all}
use model_deck.Text.{member}
use model_deck.RoutingStore.Unique.{names_differ, serve_all-names_differ}
use model_deck.RoutingStore.Revisions.{serve_all-KeepsRevision}
use model_deck.RoutingStore.Sound.{IsSound, active_ids}
use model_deck.RoutingStore.Backed.{serve_all-IsSound}
use model_deck.RoutingStore.Rollback.{restore_routing-publish_guided}

abbrev binding : String → Binding
binding public_name = record {
  id = "c";
  display_name = "Chat";
  public_name = public_name;
  protocol_contract = "chat";
  tool_calling_enabled = false;
  worker_ids = "w" ∷ [];
}

abbrev profile : String → String → ProfileDocument
profile id public_name = record { id = id; name = id; capabilities = binding public_name ∷ [] }

-- names are compared as they are
abbrev unfolded : String → String
unfolded s = s

abbrev home : ProfileDocument
home = profile "home" "chat"

abbrev work : ProfileDocument
work = profile "work" "chat"

abbrev other : ProfileDocument
other = profile "other" "draft"

-- Both profiles are published under one name, the second in vain, and a third one under another.
abbrev morning : List Request
morning =
    creates home
    ∷ creates work
    ∷ publishes "home" true
    ∷ publishes "work" true
    ∷ publishes_guided other true
    ∷ deletes "home"
    ∷ []

morning_routes : active_ids (serve_all unfolded morning empty_store).active ≡ "home" ∷ "other" ∷ []
unfolding serve serve_all create_routing_profile publish_profile publish_guided save_draft
    publish_routing_profile set_active_routing_profile collides max_revision delete_profile
morning_routes = refl

serve_all-names_differ_example :
    names_differ unfolded (serve_all unfolded morning empty_store) ≡ true
serve_all-names_differ_example = serve_all-names_differ unfolded morning

-- The next requests, of which two touch the revision's profile.
abbrev evening : List Request
evening = deactivates "home" ∷ deletes "home" ∷ publishes "home" true ∷ []

first_home : find_revision "home" 1 (serve_all unfolded morning empty_store).revisions ≡ some home
unfolding serve serve_all create_routing_profile publish_profile publish_guided save_draft
    publish_routing_profile set_active_routing_profile collides max_revision delete_profile
    find_revision
first_home = refl

serve_all-KeepsRevision_example :
    find_revision "home" 1
      (serve_all unfolded evening (serve_all unfolded morning empty_store)).revisions
    ≡ some home
serve_all-KeepsRevision_example =
    serve_all-KeepsRevision unfolded "home" 1 home (serve_all unfolded morning empty_store) evening
      first_home

serve_all-IsSound_example : IsSound unfolded (serve_all unfolded morning empty_store)
serve_all-IsSound_example = serve_all-IsSound unfolded morning

unfolded_nonempty : (x : String) → str_eq x "" ≡ false → str_eq (unfolded x) (unfolded "") ≡ false
unfolded_nonempty x e = e

-- A new revision of an active profile is published and taken back.
abbrev home_again : ProfileDocument
home_again = profile "home" "summary"

restore_routing-publish_guided_example :
    restore_routing unfolded "home"
      (snapshots_of (serve_all unfolded morning empty_store).active)
      (publish_guided unfolded home_again true (serve_all unfolded morning empty_store)).0
    ≡ (
      record (publish_guided unfolded home_again true (serve_all unfolded morning empty_store)).0 {
        active = (serve_all unfolded morning empty_store).active;
      },
      success,
    )
restore_routing-publish_guided_example =
    restore_routing-publish_guided unfolded unfolded_nonempty morning home_again true

-- The worker of both profiles is stored, and another one is archived.
abbrev stored_workers : List WorkerRow
stored_workers =
    record {
      id = "w";
      definition = some (record { id = "w"; archived = false });
      archived_at = false;
    }
    ∷ record {
      id = "v";
      definition = some (record { id = "v"; archived = true });
      archived_at = false;
    }
    ∷ []

abbrev chat_binding : Binding
chat_binding = binding "chat"

abbrev draft_binding : Binding
draft_binding = binding "draft"

morning_bindings :
    bindings_of (serve_all unfolded morning empty_store).active
    ≡ [] ++ chat_binding ∷ draft_binding ∷ []
unfolding serve serve_all create_routing_profile publish_profile publish_guided save_draft
    publish_routing_profile set_active_routing_profile collides max_revision delete_profile
morning_bindings = refl

active_route-serve_all_example :
    (active_route "chat"
        (active_route_records none stored_workers (serve_all unfolded morning empty_store).active)
      ≡ some (resolve "chat" ("w" ∷ []) stored_workers))
    × (member "w" (resolve "chat" ("w" ∷ []) stored_workers).candidates
        ≡ (member "w" ("w" ∷ []) && is_usable "w" stored_workers))
active_route-serve_all_example =
    active_route-serve_all unfolded morning none stored_workers [] (draft_binding ∷ []) chat_binding
      "w" morning_bindings refl
