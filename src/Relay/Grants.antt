-- ===== src/Relay/Grants.antt =====
-- Grants of internal/relay/pool.go: what is issued is accepted, and what is accepted was signed.
use nex_drop.Prelude.{
  ℕ, ◌+◌, ◌*◌, ◌/◌, ◌≤◌, true, false, ◌||◌, not, List, [], ◌∷◌, ◌++◌, Option, none, some, String,
  eq_iff, is_empty, ltb, ◌≡◌, refl, sym, ap, ◌∙◌, inl, inr, Bool-cases, arith, subst, if◌then◌else◌,
}
use nex_drop.Prelude.Int.{ℤ, pos, ◌≤ℤ◌, ltb_ℤ}
use nex_drop.Prelude.Result.{ok, err}
use nex_drop.FileTransfer.Manifest.{bytes_eq}
use nex_drop.FileTransfer.Manifest.Splits.{bytes_eq_path}
use nex_drop.Token.{dot, split_dots, signature, is_signed, signed}
use nex_drop.Token.Laws.{Base64Laws, split_more, split-signed, is_signed_refl, is_signed_path}
use nex_drop.Relay.{
  invalid_grant, expired_grant, Operation, upload, download, delete, other_operation, operation_eq,
  valid_operation, GrantClaims, second, version_part, Signer, Asked, may_issue, span, claims_of,
  issue, check_claims, check_payload, verify_parts, verify,
}

operation_eq_refl : (o : Operation) → operation_eq o o ≡ true
operation_eq_refl upload = refl
operation_eq_refl download = refl
operation_eq_refl delete = refl
operation_eq_refl (other_operation s) = (eq_iff s s).1 refl

operation_eq_path : (a b : Operation) → valid_operation a ≡ true → operation_eq a b ≡ true → a ≡ b
operation_eq_path upload b v h = ground (arith, h)
operation_eq_path download b v h = ground (arith, h)
operation_eq_path delete b v h = ground (arith, h)
operation_eq_path (other_operation s) b v h = absurd (cc (v))

claims_checked :
    (signer : Signer) (a : Asked) (max_bytes ttl requested : ℤ) (now later : ℕ) (nonce : String)
    → may_issue signer a max_bytes ttl ≡ true
    → is_empty nonce ≡ false
    → check_claims a requested later (claims_of a max_bytes ttl now nonce) ≡ (
        if ltb ((now + span ttl) / second * second) later
        then err expired_grant
        else if ltb_ℤ requested (pos 0) || ltb_ℤ max_bytes requested
        then err invalid_grant
        else ok (claims_of a max_bytes ttl now nonce))
unfolding check_claims may_issue
claims_checked signer a max_bytes ttl requested now later nonce m n = ground (
  arith,
  m,
  n,
  (eq_iff a.relay_id a.relay_id).1 refl,
  (eq_iff a.transfer_id a.transfer_id).1 refl,
  (eq_iff a.file_id a.file_id).1 refl,
  operation_eq_refl a.operation,
)

-- The token is taken apart into its three parts.
token_parts :
    (signer : Signer) (laws : Base64Laws signer.signing) (payload : List ℕ)
    → split_dots (version_part ++ dot ∷ signed signer.signing signer.secret signer.label payload)
      ≡ version_part
        ∷ signer.signing.encode64 payload
        ∷ signature signer.signing signer.secret signer.label (signer.signing.encode64 payload)
        ∷ []
token_parts signer laws payload =
    split_more version_part (signed signer.signing signer.secret signer.label payload) refl
    ∙ ap (◌∷◌ version_part) (split-signed signer.signing laws signer.secret signer.label payload)

parts_verified :
    (signer : Signer) (laws : Base64Laws signer.signing) (a : Asked) (requested : ℤ) (later : ℕ)
    (c : GrantClaims)
    → signer.unmarshal (signer.marshal c) ≡ some c
    → verify_parts signer a requested later (
        version_part
        ∷ signer.signing.encode64 (signer.marshal c)
        ∷ signature signer.signing signer.secret signer.label
            (signer.signing.encode64 (signer.marshal c))
        ∷ [])
      ≡ check_claims a requested later c
parts_verified signer laws a requested later c u =
    let value = signer.signing.encode64 (signer.marshal c) in
    ground (
      arith,
      is_signed_refl signer.signing signer.secret signer.label value,
      laws.decodes (signer.marshal c),
      u,
    )

-- A grant that is issued is accepted for what it was issued for, as long as its last whole second is not
-- over and no more bytes are asked for than it allows; then the claims are given back. After that it is
-- expired, and for more bytes, or fewer than none, it is invalid.
pub issue-verify :
    (signer : Signer) (a : Asked) (max_bytes ttl requested : ℤ) (now later : ℕ) (nonce : String)
    (token : List ℕ)
    → Base64Laws signer.signing
    → signer.unmarshal (signer.marshal (claims_of a max_bytes ttl now nonce))
      ≡ some (claims_of a max_bytes ttl now nonce)
    → is_empty nonce ≡ false
    → issue signer a max_bytes ttl now (ok nonce) ≡ ok token
    → verify signer token a requested later ≡ (
        if ltb ((now + span ttl) / second * second) later
        then err expired_grant
        else if ltb_ℤ requested (pos 0) || ltb_ℤ max_bytes requested
        then err invalid_grant
        else ok (claims_of a max_bytes ttl now nonce))
unfolding issue verify
issue-verify signer a max_bytes ttl requested now later nonce token laws json n h =
    elim (Bool-cases (may_issue signer a max_bytes ttl)) [
      | inr refused ↦ absurd (ground (arith, h, refused))
      | inl yes_may ↦
          let c = claims_of a max_bytes ttl now nonce in
          let same : version_part
                ++ dot ∷ signed signer.signing signer.secret signer.label (signer.marshal c)
              ≡ token =
            ground (arith, h, yes_may) in
          ap (λ t. verify_parts signer a requested later (split_dots t)) (sym same)
          ∙ ap (verify_parts signer a requested later) (token_parts signer laws (signer.marshal c))
          ∙ parts_verified signer laws a requested later c json
          ∙ claims_checked signer a max_bytes ttl requested now later nonce yes_may n
    ]

-- The payload of a signed token, whose claims are these.
pub record Authentic (signer : Signer) (token : List ℕ) (c : GrantClaims) : Type 0 where
  pub value : List ℕ
  pub payload : List ℕ
  pub parts :
      split_dots token
      ≡ version_part ∷ value ∷ signature signer.signing signer.secret signer.label value ∷ []
  pub decoded : signer.signing.decode64 value ≡ some payload
  pub claims : signer.unmarshal payload ≡ some c

-- What the claims allow.
pub record Allows (c : GrantClaims) (a : Asked) (requested : ℤ) (now : ℕ) : Type 0 where
  pub relay : c.relay_id ≡ a.relay_id
  pub transfer : c.transfer_id ≡ a.transfer_id
  pub file : c.file_id ≡ a.file_id
  pub operation : c.operation ≡ a.operation
  pub least : pos 0 ≤ℤ requested
  pub most : requested ≤ℤ c.max_bytes
  pub unexpired : now ≤ c.expires_at * second

check_claims-Allows :
    (a : Asked) (requested : ℤ) (now : ℕ) (c d : GrantClaims)
    → check_claims a requested now c ≡ ok d
    → (c ≡ d) × Allows c a requested now
unfolding check_claims
check_claims-Allows a requested now c d h = (
  ground (arith, h),
  record {
    relay = (eq_iff c.relay_id a.relay_id).0 (ground (arith, h));
    transfer = (eq_iff c.transfer_id a.transfer_id).0 (ground (arith, h));
    file = (eq_iff c.file_id a.file_id).0 (ground (arith, h));
    operation = operation_eq_path c.operation a.operation (ground (arith, h)) (ground (arith, h));
    least = ground (arith, h);
    most = ground (arith, h);
    unexpired = ground (arith, h);
  },
)

unmarshalled :
    (signer : Signer) (token value payload : List ℕ) (a : Asked) (requested : ℤ) (now : ℕ)
    (d : GrantClaims) (o : Option GrantClaims)
    → split_dots token
      ≡ version_part ∷ value ∷ signature signer.signing signer.secret signer.label value ∷ []
    → signer.signing.decode64 value ≡ some payload
    → signer.unmarshal payload ≡ o
    → (elim o [ none ↦ err invalid_grant | some c ↦ check_claims a requested now c ]) ≡ ok d
    → Authentic signer token d × Allows d a requested now
unmarshalled signer token value payload a requested now d none p q u h = cc
unmarshalled signer token value payload a requested now d (some c) p q u h =
    let checked = check_claims-Allows a requested now c d h in
    subst (λ x. Authentic signer token x × Allows x a requested now) checked.0
      (record { value = value; payload = payload; parts = p; decoded = q; claims = u }, checked.1)

payload_checked :
    (signer : Signer) (token value : List ℕ) (a : Asked) (requested : ℤ) (now : ℕ) (d : GrantClaims)
    (o : Option (List ℕ))
    → split_dots token
      ≡ version_part ∷ value ∷ signature signer.signing signer.secret signer.label value ∷ []
    → signer.signing.decode64 value ≡ o
    → check_payload signer a requested now o ≡ ok d
    → Authentic signer token d × Allows d a requested now
payload_checked signer token value a requested now d none p q h = cc
payload_checked signer token value a requested now d (some payload) p q h =
    unmarshalled signer token value payload a requested now d (signer.unmarshal payload) p q refl h

parts_checked :
    (signer : Signer) (token : List ℕ) (a : Asked) (requested : ℤ) (now : ℕ) (d : GrantClaims)
    (parts : List (List ℕ))
    → split_dots token ≡ parts
    → verify_parts signer a requested now parts ≡ ok d
    → Authentic signer token d × Allows d a requested now
parts_checked signer token a requested now d [] p h = cc
parts_checked signer token a requested now d (v ∷ []) p h = cc
parts_checked signer token a requested now d (v ∷ value ∷ []) p h = cc
parts_checked signer token a requested now d (v ∷ value ∷ given ∷ []) p h =
    elim (Bool-cases (
      not (bytes_eq v version_part)
      || not (is_signed signer.signing signer.secret signer.label value given))) [
        | inl bad ↦ absurd (ground (arith, h, bad))
        | inr good ↦
            let first_part : v ≡ version_part =
              bytes_eq_path v version_part (ground (arith, good)) in
            let last_part : signature signer.signing signer.secret signer.label value ≡ given =
              is_signed_path signer.signing signer.secret signer.label value given
                (ground (arith, good)) in
            payload_checked signer token value a requested now d (signer.signing.decode64 value)
              (p
                ∙ ap (λ x. x ∷ value ∷ given ∷ []) first_part
                ∙ ap (λ x. version_part ∷ value ∷ x ∷ []) (sym last_part))
              refl (rw good at h)
      ]
parts_checked signer token a requested now d (v ∷ value ∷ given ∷ w ∷ ws) p h = cc

-- A grant that is accepted ends in the signature of its payload under the signer's secret, and its claims
-- name the relay, the transfer, the file and the operation that are asked for, allow the bytes that are
-- asked for, and are not expired.
pub verify-Authentic :
    (signer : Signer) (token : List ℕ) (a : Asked) (requested : ℤ) (now : ℕ) (c : GrantClaims)
    → verify signer token a requested now ≡ ok c
    → Authentic signer token c × Allows c a requested now
unfolding verify
verify-Authentic signer token a requested now c h =
    parts_checked signer token a requested now c (split_dots token) refl h
