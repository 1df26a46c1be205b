-- ===== src/Security/Boundary.antt =====
-- What LocalBrowserBoundary of backend/modeldeck/security.py lets through.
use model_deck.Base.{
  ◌≡◌, refl, String, Bool, true, false, not, ◌&&◌, ◌||◌, Option, none, some, List, [], ◌∷◌, arith,
  str_eq,
}
use model_deck.Security.{
  UrlParts, ScopeType, other, Scope, passed_on, is_mutation, loopback_host, trusted_parts,
  is_trusted_browser_origin, rejects_browser_mutation, is_bridge, trusted_host, boundary,
  with_scheme,
}

module _ (urlsplit : String → Option UrlParts) (is_loopback : String → Option Bool) where
  -- The host of the URL is the loopback interface.
  abbrev pub is_local : String → Bool
  is_local url = elim (urlsplit url) [
    | none ↦ false
    | some u ↦ elim u.hostname [
      | none ↦ false
      | some host ↦ loopback_host urlsplit is_loopback host
    ]
  ]

  abbrev pub is_docker : String → Bool
  is_docker url = elim (urlsplit url) [
    | none ↦ false
    | some u ↦ elim u.hostname [ none ↦ false | some host ↦ str_eq host "172.17.0.1" ]
  ]

  -- The one Host header names this machine, or, where it is enabled, the Docker bridge.
  abbrev pub host_is_local : Bool → List String → Bool
  host_is_local docker_bridge [] = false
  host_is_local docker_bridge (host ∷ []) =
      is_local (with_scheme host) || (docker_bridge && is_docker (with_scheme host))
  host_is_local docker_bridge (host ∷ h ∷ hs) = false

  -- No Origin header, or one that names this machine.
  abbrev pub origin_is_local : List String → Bool
  origin_is_local [] = true
  origin_is_local (origin ∷ []) = is_local origin
  origin_is_local (origin ∷ o ∷ os) = false

  origin_lem :
      (origin : String)
      → is_trusted_browser_origin urlsplit is_loopback (some origin) ≡ true
      → is_local origin ≡ true
  unfolding is_trusted_browser_origin trusted_parts
  origin_lem origin h = ground (arith, h)

  bridge_lem :
      (url : String) → is_bridge urlsplit is_loopback (urlsplit url) ≡ true → is_docker url ≡ true
  unfolding is_bridge
  bridge_lem url h = ground (arith, h)

  trusted_lem :
      (docker_bridge : Bool) (hosts : List String)
      → trusted_host urlsplit is_loopback docker_bridge hosts ≡ true
      → host_is_local docker_bridge hosts ≡ true
  unfolding trusted_host
  trusted_lem docker_bridge [] h = ground (arith, h)
  trusted_lem docker_bridge (host ∷ []) h =
      ground (arith, h, origin_lem (with_scheme host), bridge_lem (with_scheme host))
  trusted_lem docker_bridge (host ∷ g ∷ hs) h = ground (arith, h)

  accepted_lem :
      (s : Scope)
      → rejects_browser_mutation urlsplit is_loopback s ≡ false
      → origin_is_local s.origins ≡ true
  unfolding rejects_browser_mutation
  accepted_lem s h = go s.origins h
    where
      go :
          (os : List String)
          → rejects_browser_mutation urlsplit is_loopback (record s { origins = os }) ≡ false
          → origin_is_local os ≡ true
      go [] h = refl
      go (o ∷ []) h = ground (arith, h, origin_lem o)
      go (o ∷ p ∷ os) h = ground (arith, h)

  abbrev pub is_request : ScopeType → Bool
  is_request other = false
  is_request _ = true

  -- A request or a connection passes the boundary only if its one Host header names this machine (or
  -- the Docker bridge, where that is enabled), and, unless its method is safe, no Origin header or a
  -- single one that names this machine is with it.
  pub passed-local :
      (docker_bridge : Bool) (s : Scope)
      → is_request s.type ≡ true
      → boundary urlsplit is_loopback docker_bridge s ≡ passed_on
      → (host_is_local docker_bridge s.hosts
          && (not (is_mutation s.type) || origin_is_local s.origins))
        ≡ true
  unfolding boundary
  passed-local docker_bridge s w h =
      ground (arith, h, w, trusted_lem docker_bridge s.hosts, accepted_lem s)
