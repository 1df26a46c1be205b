-- ===== src/Security.antt =====
-- backend/modeldeck/security.py. Python's urlsplit and ip_address are arguments.
pub mod Boundary
use model_deck.Base.{
  ℕ, String, Bool, true, false, not, ◌&&◌, ◌||◌, Option, none, some, List, [], ◌∷◌, length, ltb,
  leb, ◌==◌, any, is_none, if◌then◌else◌, str_eq,
}
use model_deck.Text.{codes, casefold, same_text, member, is_space}

-- The parts of a URL that urlsplit returns, with the number of its port.
pub record UrlParts : Type 0 where
  pub scheme : String
  pub hostname : Option String
  pub port : Option ℕ
  pub username : Option String
  pub password : Option String
  pub path : String
  pub query : String
  pub fragment : String

abbrev pub has_text : Option String → Bool
has_text none = false
has_text (some s) = not (str_eq s "")

abbrev pub port_allowed : Option ℕ → Bool
port_allowed none = true
port_allowed (some n) = leb 1 n && leb n 65535

abbrev pub is_localhost : String → Bool
is_localhost host = same_text (casefold host) (codes "localhost")

-- `char.isspace()` or a backslash
abbrev is_odd : ℕ → Bool
is_odd c = is_space c || (c == 92)

abbrev is_any_of : List ℕ → ℕ → Bool
is_any_of ks c = any (λ k. k == c) ks

pub data ScopeType : Type 0 where
  http : String → ScopeType
  websocket other : ScopeType

-- `scope`: its type with the method, and the values of the two headers
pub record Scope : Type 0 where
  pub type : ScopeType
  pub hosts : List String
  pub origins : List String

pub data Outcome : Type 0 where
  passed_on : Outcome
  status_code : ℕ → Outcome
  closed : ℕ → Outcome

abbrev pub is_mutation : ScopeType → Bool
is_mutation (http method) = not (member method ("GET" ∷ "HEAD" ∷ "OPTIONS" ∷ []))
is_mutation websocket = true
is_mutation other = false

abbrev first : List String → Option String
first [] = none
first (o ∷ os) = some o

abbrev onto : String → String → String
onto String.[] t = t
onto (String.◌∷◌ c s) t = String.◌∷◌ c (onto s t)

-- `"http://" + host`
abbrev pub with_scheme : String → String
with_scheme host = onto "http://" host

-- `urlsplit` is none on a ValueError, of the port too; `is_loopback` is none when ip_address fails.
module _ (urlsplit : String → Option UrlParts) (is_loopback : String → Option Bool) where
  abbrev pub loopback_host : String → Bool
  loopback_host host =
      if is_localhost host then true else elim (is_loopback host) [ none ↦ false | some b ↦ b ]

  unfoldable pub trusted_parts : String → UrlParts → Bool
  trusted_parts origin u =
      if any is_odd (codes origin) || not (str_eq u.fragment "")
      then false
      else if not (port_allowed u.port)
      then false
      else if not (member u.scheme ("http" ∷ "https" ∷ [])) || not (has_text u.hostname)
      then false
      else if has_text u.username
          || has_text u.password
          || not (member u.path ("" ∷ "/" ∷ []))
          || not (str_eq u.query "")
      then false
      else elim u.hostname [ none ↦ false | some host ↦ loopback_host host ]

  unfoldable pub is_trusted_browser_origin : Option String → Bool
  is_trusted_browser_origin none = false
  is_trusted_browser_origin (some origin) =
      if str_eq origin ""
      then false
      else elim (urlsplit origin) [ none ↦ false | some u ↦ trusted_parts origin u ]

  unfoldable pub rejects_browser_mutation : Scope → Bool
  rejects_browser_mutation s =
      ltb 1 (length s.origins)
      || (not (is_none (first s.origins)) && not (is_trusted_browser_origin (first s.origins)))

  -- the Docker bridge's address, with no other part than a port
  unfoldable pub is_bridge : Option UrlParts → Bool
  is_bridge none = false
  is_bridge (some u) =
      (elim u.hostname [ none ↦ false | some host ↦ str_eq host "172.17.0.1" ])
      && port_allowed u.port
      && not (
          has_text u.username
          || has_text u.password
          || not (str_eq u.path "")
          || not (str_eq u.query "")
          || not (str_eq u.fragment ""))

  -- `trusted`
  unfoldable pub trusted_host : Bool → List String → Bool
  trusted_host docker_bridge [] = false
  trusted_host docker_bridge (host ∷ more) = elim more [
    | [] ↦
        (not (any (is_any_of (codes "/?#@\\")) (codes host))
          && is_trusted_browser_origin (some (with_scheme host)))
        || (docker_bridge && is_bridge (urlsplit (with_scheme host)))
    | (h ∷ hs) ↦ false
  ]

  -- __call__: what happens to a request
  unfoldable pub boundary : Bool → Scope → Outcome
  boundary docker_bridge s =
      let trusted = trusted_host docker_bridge s.hosts in
      let rejected_origin = is_mutation s.type && rejects_browser_mutation s in
      elim s.type [
        | other ↦ passed_on
        | websocket ↦ if not trusted || rejected_origin then closed 1008 else passed_on
        | http method ↦
            if not trusted || rejected_origin
            then status_code (if trusted then 403 else 400)
            else passed_on
      ]
