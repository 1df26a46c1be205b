-- ===== src/Examples/LocalBoundary.antt =====
-- A request at the boundary of backend/modeldeck/security.py.
use model_deck.Base.{
  ◌≡◌, refl, String, Bool, true, false, not, ◌&&◌, ◌||◌, Option, none, some, [], ◌∷◌, if◌then◌else◌,
  str_eq,
}
use model_deck.Text.{is_space, same_text, casefold}
use model_deck.Security.{
  UrlParts, http, Scope, passed_on, status_code, is_mutation, is_trusted_browser_origin,
  trusted_parts, rejects_browser_mutation, is_bridge, trusted_host, boundary,
}
use model_deck.Security.Boundary.{host_is_local, origin_is_local, passed-local}

abbrev parts : String → UrlParts
parts host = record {
  scheme = "http";
  hostname = some host;
  port = some 8600;
  username = none;
  password = none;
  path = "";
  query = "";
  fragment = "";
}

-- what urlsplit returns for three URLs
abbrev split_url : String → Option UrlParts
split_url url =
    if str_eq url "http://LocalHost:8600"
    then some (parts "localhost")
    else if str_eq url "http://127.0.0.1:8600"
    then some (parts "127.0.0.1")
    else if str_eq url "http://rebind.example:8600"
    then some (parts "rebind.example")
    else none

abbrev loopback_address : String → Option Bool
loopback_address host = if str_eq host "127.0.0.1" then some true else none

abbrev from_console : Scope
from_console = record {
  type = http "POST";
  hosts = "127.0.0.1:8600" ∷ [];
  origins = "http://LocalHost:8600" ∷ [];
}

console_passes : boundary split_url loopback_address false from_console ≡ passed_on
unfolding boundary trusted_host is_trusted_browser_origin trusted_parts is_space same_text casefold
    rejects_browser_mutation
console_passes = refl

rebound_host :
    boundary split_url loopback_address true
      (record { type = http "GET"; hosts = "rebind.example:8600" ∷ []; origins = [] })
    ≡ status_code 400
unfolding boundary trusted_host is_trusted_browser_origin trusted_parts is_space same_text casefold
    is_bridge
rebound_host = refl

passed-local_example :
    (host_is_local split_url loopback_address false from_console.hosts
      && (not (is_mutation from_console.type)
          || origin_is_local split_url loopback_address from_console.origins))
    ≡ true
passed-local_example =
    passed-local split_url loopback_address false from_console refl console_passes
