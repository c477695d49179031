-- ===== src/Routing/Trust.antt =====
-- The trust checks of dispositions (src/protocol-validator.mjs): verifyVerificationAttestation,
-- verifyExternallyVerifiedDisposition, and what assertProtocolObject checks of a disposition beside
-- its schema. The schemas, the digest and the signature primitive are fields of `Crypto`; a key that the
-- primitive cannot read is a signature that it does not accept.
use threadmesh.Prelude.{
  Bool, true, false, not, ◌&&◌, String, Option, none, some, List, [], ◌∷◌, every, ◌==◌, string_eq,
  Result, ok, ◌>>=◌, ◌>>◌, throw_if, or_throw,
}
use threadmesh.States.{Decision, Outcome}
use threadmesh.Vocabulary.{TaskRef, same_task_ref}

-- The fields of a verification attestation that the checks read.
pub record Attestation : Type 0 where
  pub sender_incarnation_id : String
  pub message_id : String
  pub receiver : TaskRef
  pub signed_payload_digest : String
  pub key_id : String
  pub algorithm : String
  pub signature : String
  pub actor_id : String
  pub trust_domain : String
  pub policy_id : String
  pub is_trusted : Bool

pub record TrustAnchor : Type 0 where
  pub key_id : String
  pub algorithm : String
  pub actor_id : String
  pub trust_domain : String
  pub policy_id : String
  pub public_key_pem : String

-- The fields of a protocol disposition that the router reads.
pub record ProtocolDisposition : Type 0 where
  pub message_id : String
  pub receiver : TaskRef
  pub decision : Decision
  pub outcome : Outcome
  pub attestations : List Attestation

-- ajv's validation of the two schemas, verificationAttestationDigest, and `verify` of node:crypto with
-- a public key, a digest and a signature.
pub record Crypto : Type 0 where
  pub disposition_fits : ProtocolDisposition → Bool
  pub attestation_fits : Attestation → Bool
  pub attestation_digest : Attestation → String
  pub verify : String → String → String → String → Bool

pub data TrustError : Type 0 where
  disposition_invalid attestation_invalid not_externally_verified : TrustError
  trust_denied proof_invalid : TrustError

abbrev pub is_externally_verified : Outcome → Bool
is_externally_verified Outcome.externally_verified = true
is_externally_verified _ = false

-- An attestation of this disposition, with the digest of its own payload.
abbrev pub attests : Crypto → ProtocolDisposition → Attestation → Bool
attests c d a =
    (c.attestation_digest a == a.signed_payload_digest)
    && ((a.message_id == d.message_id) && same_task_ref a.receiver d.receiver)

-- assertProtocolObject("disposition", …)
unfoldable pub assert_disposition : Crypto → ProtocolDisposition → Result TrustError (Unit {0})
assert_disposition c d = do
  throw_if (not (c.disposition_fits d)) disposition_invalid
  throw_if (is_externally_verified d.outcome && not (every (attests c d) d.attestations))
      disposition_invalid

-- assertProtocolObject("verification-attestation", …)
abbrev pub assert_attestation : Crypto → Attestation → Result TrustError (Unit {0})
assert_attestation c a = do
  throw_if (not (c.attestation_fits a)) attestation_invalid
  throw_if (not (c.attestation_digest a == a.signed_payload_digest)) attestation_invalid

-- The trust anchor vouches for the signer and the policy of the attestation.
abbrev pub vouches : TrustAnchor → Attestation → Bool
vouches t a =
    (t.key_id == a.key_id)
    && ((t.algorithm == a.algorithm)
        && ((t.actor_id == a.actor_id)
            && ((t.trust_domain == a.trust_domain)
                && ((t.policy_id == a.policy_id) && a.is_trusted))))

-- verifyVerificationAttestation
unfoldable pub verify_attestation :
    Crypto → Attestation → Option TrustAnchor → Result TrustError (Unit {0})
verify_attestation c a anchor = do
  assert_attestation c a
  t ← or_throw anchor trust_denied
  throw_if (not (vouches t a)) trust_denied
  throw_if (not (c.verify t.public_key_pem a.algorithm a.signed_payload_digest a.signature))
      proof_invalid

-- `trustAnchors.find((candidate) => candidate.keyId === attestation.proof.keyId)`
unfoldable pub anchor_of : String → List TrustAnchor → Option TrustAnchor
anchor_of key [] = none
anchor_of key (t ∷ anchors) = elim (t.key_id == key) [
  | true ↦ some t
  | false ↦ anchor_of key anchors
]

-- The loop over the attestations.
unfoldable pub verify_all :
    Crypto → List TrustAnchor → List Attestation → Result TrustError (Unit {0})
verify_all c anchors [] = ok tt
verify_all c anchors (a ∷ attestations) =
    verify_attestation c a (anchor_of a.key_id anchors) >> verify_all c anchors attestations

-- verifyExternallyVerifiedDisposition; `none` is what is no array.
unfoldable pub verify_disposition :
    Crypto → ProtocolDisposition → Option (List TrustAnchor) → Result TrustError (Unit {0})
verify_disposition c d trust_anchors = do
  assert_disposition c d
  throw_if (not (is_externally_verified d.outcome)) not_externally_verified
  anchors ← or_throw trust_anchors trust_denied
  verify_all c anchors d.attestations
