-- ===== src/Lifecycle/Tokens/RoundTrip.antt =====
-- The tokens of internal/messagelifecycle/lifecycle.go are read back.
use nex_drop.Prelude.{
  ℕ, ◌+◌, ◌*◌, ◌/◌, Bool, ◌||◌, not, List, some, String, is_empty, ltb, ◌≡◌, sym, ap, ◌∙◌, inl, inr,
  Bool-cases, arith, if◌then◌else◌,
}
use nex_drop.Prelude.Int.{ℤ, pos, leb_ℤ}
use nex_drop.Prelude.Result.{ok, err}
use nex_drop.Token.{Signing, split_dots, payload_in, signed}
use nex_drop.Token.Laws.{Base64Laws, split-signed, is_signed_refl}
use nex_drop.Lifecycle.{Cursor}
use nex_drop.Lifecycle.Tokens.{
  expired_tombstone, CursorCodec, is_void, encode, decode_payload, decode, DeleteScope,
  valid_delete_scope, TombstoneSigner, second, span, tombstone_of, issue, checked_tombstone,
  verify_payload, verify,
}

-- The payload that was signed is found.
payload_in-signed :
    (signing : Signing) (laws : Base64Laws signing) (secret label payload : List ℕ)
    → payload_in signing secret label (split_dots (signed signing secret label payload))
      ≡ some payload
payload_in-signed signing laws secret label payload =
    ap (payload_in signing secret label) (split-signed signing laws secret label payload)
    ∙ ground (
      arith,
      is_signed_refl signing secret label (signing.encode64 payload),
      laws.decodes payload,
    )

-- A cursor that is encoded is decoded to itself.
pub encode-decode :
    (codec : CursorCodec) (c : Cursor) (token : List ℕ)
    → Base64Laws codec.signing
    → codec.unmarshal (codec.marshal c) ≡ some c
    → encode codec c ≡ ok token
    → decode codec token ≡ ok c
unfolding encode decode
encode-decode codec c token laws json h = elim (Bool-cases (is_void c)) [
  | inl y ↦ absurd (ground (arith, h, y))
  | inr n ↦
      let same : signed codec.signing codec.secret codec.label (codec.marshal c) ≡ token =
        ground (arith, h, n) in
      ap
        (λ t.
          decode_payload codec (payload_in codec.signing codec.secret codec.label (split_dots t)))
        (sym same)
      ∙ ap (decode_payload codec)
          (payload_in-signed codec.signing laws codec.secret codec.label (codec.marshal c))
      ∙ ground (arith, json, n)
]

abbrev is_refused : String → String → DeleteScope → ℤ → Bool
is_refused message_id actor_id scope ttl =
    is_empty message_id || is_empty actor_id || not (valid_delete_scope scope) || leb_ℤ ttl (pos 0)

-- A tombstone that is issued is read back as it was issued until its last whole second is over, and is
-- expired from then on.
pub issue-verify_tombstone :
    (signer : TombstoneSigner) (message_id actor_id : String) (scope : DeleteScope) (ttl : ℤ)
    (now later : ℕ) (token : List ℕ)
    → Base64Laws signer.signing
    → signer.unmarshal (signer.marshal (tombstone_of message_id actor_id scope ttl now))
      ≡ some (tombstone_of message_id actor_id scope ttl now)
    → issue signer message_id actor_id scope ttl now ≡ ok token
    → verify signer token later ≡ (
        if ltb ((now + span ttl) / second * second) later
        then err expired_tombstone
        else ok (tombstone_of message_id actor_id scope ttl now))
unfolding issue verify
issue-verify_tombstone signer message_id actor_id scope ttl now later token laws json h =
    elim (Bool-cases (is_refused message_id actor_id scope ttl)) [
      | inl y ↦ absurd (ground (arith, h, y))
      | inr n ↦
          let t = tombstone_of message_id actor_id scope ttl now in
          let same : signed signer.signing signer.secret signer.label (signer.marshal t) ≡ token =
            ground (arith, h, n) in
          ap
            (λ x.
              verify_payload signer later
                (payload_in signer.signing signer.secret signer.label (split_dots x)))
            (sym same)
          ∙ ap (verify_payload signer later)
              (payload_in-signed signer.signing laws signer.secret signer.label (signer.marshal t))
          ∙ ap (checked_tombstone later) json
          ∙ ground (arith, n)
    ]
