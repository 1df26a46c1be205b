-- ===== src/Capabilities/Evidence/Justified.antt =====
-- What each status of capability_evidence_status in backend/modeldeck/capabilities.py rests on.
use model_deck.Base.{
  ℕ, ◌≡◌, refl, Bool, true, false, not, ◌&&◌, ◌||◌, Option, none, some, List, [], ◌∷◌, leb, ◌==◌,
  any, arith, is_none, if◌then◌else◌,
}
use model_deck.Capabilities.Evidence.{
  judge, TestEvidence, CompatibilityTest, EvidenceStatus, qualified, legacy, failed, stale,
  not_tested, Subject, is_text, version_of, concerns, final_status, examine,
  capability_evidence_status,
}

-- A test of the worker, the capability and the configuration of the subject.
abbrev current : Subject → CompatibilityTest → Bool
current s t = elim t.evidence [
  | none ↦ false
  | some e ↦ concerns s e && is_text e.fingerprint s.fingerprint
]

abbrev outdated : Subject → CompatibilityTest → Bool
outdated s t = elim t.evidence [
  | none ↦ false
  | some e ↦ concerns s e && not (is_text e.fingerprint s.fingerprint)
]

abbrev version : CompatibilityTest → ℕ
version t = elim t.evidence [
  | none ↦ 1
  | some e ↦ version_of e.fingerprint_version t.fingerprint_version
]

abbrev is_id : Option ℕ → ℕ → Bool
is_id none n = false
is_id (some m) n = m == n

abbrev strict : Subject → Bool
strict s = leb 5 s.capability_policy_version

-- A passed test that the policy of the subject counts as none.
abbrev superseded : Subject → CompatibilityTest → Bool
superseded s t = strict s && current s t && t.tested_working && not (version t == 2)

-- The test that a status names, or the lack of one, from a loop that began with `st` and `last`.
abbrev pub rests_on : Subject → Bool → Option ℕ → List CompatibilityTest → EvidenceStatus → Bool
rests_on s st last ts (qualified id) =
    any (λ t. (t.id == id) && current s t && t.tested_working && (version t == 2)) ts
rests_on s st last ts (legacy id) =
    not (strict s) && any (λ t. (t.id == id) && current s t && t.tested_working) ts
rests_on s st last ts (failed id) =
    is_id last id || any (λ t. (t.id == id) && current s t && not t.tested_working) ts
rests_on s st last ts stale = st || any (λ t. outdated s t || superseded s t) ts
rests_on s st last ts not_tested =
    is_none last && not (st || any (λ t. current s t || outdated s t) ts)

final_lem :
    (s : Subject) (st : Bool) (last : Option ℕ)
    → rests_on s st last [] (final_status st last) ≡ true
final_lem s st (some id) = ground arith
final_lem s true none = refl
final_lem s false none = refl

module _ (s : Subject) (st : Bool) (last : Option ℕ) (t : CompatibilityTest)
    (ts : List CompatibilityTest) where
  skipped_lem :
      (r : EvidenceStatus)
      → (current s t || outdated s t) ≡ false
      → rests_on s st last ts r ≡ true
      → rests_on s st last (t ∷ ts) r ≡ true
  skipped_lem (qualified id) c h = ground arith
  skipped_lem (legacy id) c h = ground arith
  skipped_lem (failed id) c h = ground arith
  skipped_lem stale c h = ground arith
  skipped_lem not_tested c h = ground arith

  outdated_lem :
      (r : EvidenceStatus)
      → (outdated s t || superseded s t) ≡ true
      → rests_on s true last ts r ≡ true
      → rests_on s st last (t ∷ ts) r ≡ true
  outdated_lem (qualified id) c h = ground arith
  outdated_lem (legacy id) c h = ground arith
  outdated_lem (failed id) c h = ground arith
  outdated_lem stale c h = ground arith
  outdated_lem not_tested c h = ground arith

  failing_lem :
      (r : EvidenceStatus)
      → (current s t && not t.tested_working) ≡ true
      → rests_on s st (some t.id) ts r ≡ true
      → rests_on s st last (t ∷ ts) r ≡ true
  failing_lem (qualified id) c h = ground arith
  failing_lem (legacy id) c h = ground arith
  failing_lem (failed id) c h = ground arith
  failing_lem stale c h = ground arith
  failing_lem not_tested c h = ground arith

pick :
    (R : EvidenceStatus → Type 0) (b : Bool) (x y : EvidenceStatus)
    → (b ≡ true → R x)
    → (b ≡ false → R y)
    → R (if b then x else y)
pick R true x y hx hy = hx refl
pick R false x y hx hy = hy refl

judge-rests_on :
    (s : Subject) (st : Bool) (last : Option ℕ) (t : CompatibilityTest)
    (ts : List CompatibilityTest) (evidence : Option TestEvidence) (a b c : EvidenceStatus)
    → t.evidence ≡ evidence
    → rests_on s st last ts a ≡ true
    → rests_on s true last ts b ≡ true
    → rests_on s st (some t.id) ts c ≡ true
    → rests_on s st last (t ∷ ts) (judge s t evidence a b c) ≡ true
unfolding judge
judge-rests_on s st last t ts none a b c q ha hb hc =
    skipped_lem s st last t ts a (ground (arith, q)) ha
judge-rests_on s st last t ts (some e) a b c q ha hb hc = ground (
  arith,
  q,
  skipped_lem s st last t ts a,
  outdated_lem s st last t ts b,
  failing_lem s st last t ts c,
)

examine-rests_on :
    (s : Subject) (st : Bool) (last : Option ℕ) (ts : List CompatibilityTest)
    → rests_on s st last ts (examine s st last ts) ≡ true
unfolding examine
examine-rests_on s st last [] = final_lem s st last
examine-rests_on s st last (t ∷ ts) =
    judge-rests_on s st last t ts t.evidence _ _ _ refl (examine-rests_on s st last ts)
      (examine-rests_on s true last ts) (examine-rests_on s st (some t.id) ts)

-- A status rests on a test: "qualified" on a passed test of version 2, "legacy" on a passed test
-- under an old policy, "failed" on a failed one, each of this worker, capability and configuration;
-- "stale" on a test of another configuration or a passed one that the policy does not count; and
-- "not-tested" says that no test is about this worker and capability.
pub status-rests_on :
    (s : Subject) (ts : List CompatibilityTest)
    → rests_on s false none ts (capability_evidence_status s ts) ≡ true
unfolding capability_evidence_status
status-rests_on s ts = examine-rests_on s false none ts
