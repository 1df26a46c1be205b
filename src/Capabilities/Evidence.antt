-- ===== src/Capabilities/Evidence.antt =====
-- capability_evidence_status of backend/modeldeck/capabilities.py. The fingerprint of the worker's
-- configuration, a hash, is an argument.
pub mod Justified
use model_deck.Base.{
  ℕ, ◌≡◌, ◌≢◌, inl, inr, ◌⊎◌, String, Bool, true, false, not, ◌&&◌, Option, none, some, List, [],
  ◌∷◌, leb, ◌==◌, All, any, arith, is_none, if◌then◌else◌, str_eq, Bool-cases,
}

-- A test's evidence; a key that is missing is `none`.
pub record TestEvidence : Type 0 where
  pub capability_id : Option String
  pub worker_id : Option String
  pub fingerprint : Option String
  pub fingerprint_version : Option ℕ

-- `evidence` is none when it is not a mapping.
pub record CompatibilityTest : Type 0 where
  pub id : ℕ
  pub tested_working : Bool
  pub fingerprint_version : Option ℕ
  pub evidence : Option TestEvidence

pub data EvidenceStatus : Type 0 where
  qualified legacy failed : ℕ → EvidenceStatus
  stale not_tested : EvidenceStatus

-- What the worker's document and its configuration give.
pub record Subject : Type 0 where
  pub worker_id : String
  pub capability_id : String
  pub fingerprint : String
  pub capability_policy_version : ℕ

abbrev is_text : Option String → String → Bool
is_text none s = false
is_text (some t) s = str_eq t s

-- `a or b or 1`: 0 counts as missing
abbrev truthy : Option ℕ → Option ℕ
truthy none = none
truthy (some n) = if n == 0 then none else some n

abbrev version_of : Option ℕ → Option ℕ → ℕ
version_of a b = elim (truthy a) [ some n ↦ n | none ↦ elim (truthy b) [ some n ↦ n | none ↦ 1 ] ]

-- The evidence is about this worker and this capability.
abbrev concerns : Subject → TestEvidence → Bool
concerns s e = is_text e.worker_id s.worker_id && is_text e.capability_id s.capability_id

abbrev final_status : Bool → Option ℕ → EvidenceStatus
final_status is_stale (some id) = failed id
final_status is_stale none = if is_stale then stale else not_tested

-- one round of the loop, given what the rest of it returns when the test is skipped, when it sets
-- `stale`, and when it sets `failed`
unfoldable pub judge :
    Subject
    → CompatibilityTest
    → Option TestEvidence
    → EvidenceStatus
    → EvidenceStatus
    → EvidenceStatus
    → EvidenceStatus
judge s test none skipped outdated failing = skipped
judge s test (some e) skipped outdated failing =
    if not (concerns s e)
    then skipped
    else if not (is_text e.fingerprint s.fingerprint)
    then outdated
    else if not test.tested_working
    then failing
    else if version_of e.fingerprint_version test.fingerprint_version == 2
    then qualified test.id
    else if leb 5 s.capability_policy_version
    then outdated
    else legacy test.id

-- the loop, with its variables `stale` and `failed`
unfoldable pub examine : Subject → Bool → Option ℕ → List CompatibilityTest → EvidenceStatus
examine s is_stale last [] = final_status is_stale last
examine s is_stale last (test ∷ tests) =
    judge s test test.evidence (examine s is_stale last tests) (examine s true last tests)
      (examine s is_stale (some test.id) tests)

unfoldable pub capability_evidence_status : Subject → List CompatibilityTest → EvidenceStatus
capability_evidence_status s tests = examine s false none tests
