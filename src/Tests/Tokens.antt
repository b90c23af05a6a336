-- ===== src/Tests/Tokens.antt =====
-- Concrete grants of internal/relay and tombstones of internal/messagelifecycle.
use nex_drop.Prelude.{
  ℕ, ◌+◌, ◌-◌, ◌*◌, ◌/◌, ◌≡◌, refl, false, ◌||◌, [], ◌∷◌, ◌++◌, List, Option, none, some, map, any,
  ap, ltb, is_empty, ◌==◌, if◌then◌else◌, arith,
}
use nex_drop.Prelude.Int.{ℤ, pos, ltb_ℤ}
use nex_drop.Prelude.Result.{ok, err}
use nex_drop.Token.{Signing, dot, split_dots, signature, is_signed, signed}
use nex_drop.Token.Laws.{Base64Laws}
use nex_drop.Relay.{
  invalid_grant, expired_grant, upload, GrantClaims, second, version_part, Signer, Asked, may_issue,
  span, claims_of, issue, check_claims, verify,
}
use nex_drop.Relay.Grants.{Authentic, Allows, issue-verify, verify-Authentic}
use nex_drop.Lifecycle.Tokens as Tokens
use nex_drop.Lifecycle.Tokens.{
  DeleteScope, all_devices, Tombstone, TombstoneSigner, expired_tombstone, tombstone_of,
}
use nex_drop.Lifecycle.Tokens.RoundTrip.{issue-verify_tombstone}

-- In place of base64 each byte is moved above the dot, and the signature is the text with the secret.
abbrev above : ℕ → ℕ
above c = c + 47

abbrev below : ℕ → ℕ
below c = c - 47

abbrev plain_signing : Signing
plain_signing = record {
  encode64 = map above;
  decode64 = λ bytes. some (map below bytes);
  mac = λ secret message. secret ++ message;
}

map-below-above : (bytes : List ℕ) → map below (map above bytes) ≡ bytes
map-below-above [] = refl
map-below-above (c ∷ cs) = ground (arith, map-below-above cs)

above-dot : (bytes : List ℕ) → any (λ c. c == dot) (map above bytes) ≡ false
above-dot [] = refl
above-dot (c ∷ cs) = ground (arith, above-dot cs)

plain_laws : Base64Laws plain_signing
plain_laws = record { decodes = λ bytes. ap some (map-below-above bytes); no_dot = above-dot }

abbrev asked : Asked
asked = record { relay_id = "r"; transfer_id = "t"; file_id = "f"; operation = upload }

abbrev read_claims : List ℕ → Option GrantClaims
read_claims (expires_at ∷ []) = some (record {
  version = pos 1;
  relay_id = "r";
  transfer_id = "t";
  file_id = "f";
  operation = upload;
  max_bytes = pos 100;
  expires_at = expires_at;
  nonce = "n";
})
read_claims _ = none

abbrev signer : Signer
signer = record {
  secret = 7 ∷ [];
  label = 8 ∷ [];
  signing = plain_signing;
  marshal = λ c. c.expires_at ∷ [];
  unmarshal = read_claims;
  is_blank = is_empty;
}

-- 5 seconds, from 1 second on.
abbrev ttl : ℤ
ttl = pos 5000000000

abbrev token : List ℕ
token = version_part ++ dot ∷ signed plain_signing (7 ∷ []) (8 ∷ []) (6 ∷ [])

issued : issue signer asked (pos 100) ttl second (ok "n") ≡ ok token
unfolding issue may_issue
issued = refl

issue-verify_example : verify signer token asked (pos 40) 3000000000 ≡ (
    if ltb ((second + span ttl) / second * second) 3000000000
    then err expired_grant
    else if ltb_ℤ (pos 40) (pos 0) || ltb_ℤ (pos 100) (pos 40)
    then err invalid_grant
    else ok (claims_of asked (pos 100) ttl second "n"))
issue-verify_example =
    issue-verify signer asked (pos 100) ttl (pos 40) second 3000000000 "n" token plain_laws refl
      refl issued

verified :
    verify signer token asked (pos 40) 3000000000 ≡ ok (claims_of asked (pos 100) ttl second "n")
unfolding verify split_dots signature is_signed check_claims
verified = refl

verify-Authentic_example :
    Authentic signer token (claims_of asked (pos 100) ttl second "n")
    × Allows (claims_of asked (pos 100) ttl second "n") asked (pos 40) 3000000000
verify-Authentic_example =
    verify-Authentic signer token asked (pos 40) 3000000000
      (claims_of asked (pos 100) ttl second "n") verified

abbrev read_tombstone : List ℕ → Option Tombstone
read_tombstone (issued_at ∷ expires_at ∷ []) = some (record {
  version = pos 1;
  message_id = "m";
  scope = all_devices;
  issued_at = issued_at;
  expires_at = expires_at;
  actor_id = "ann";
})
read_tombstone _ = none

abbrev deleter : TombstoneSigner
deleter = record {
  secret = 7 ∷ [];
  label = 9 ∷ [];
  signing = plain_signing;
  marshal = λ t. t.issued_at ∷ t.expires_at ∷ [];
  unmarshal = read_tombstone;
}

abbrev tombstone_token : List ℕ
tombstone_token = signed plain_signing (7 ∷ []) (9 ∷ []) (1 ∷ 6 ∷ [])

tombstone_issued : Tokens.issue deleter "m" "ann" all_devices ttl second ≡ ok tombstone_token
unfolding Tokens.issue
tombstone_issued = refl

issue-verify_tombstone_example : Tokens.verify deleter tombstone_token 7000000000 ≡ (
    if ltb ((second + Tokens.span ttl) / second * second) 7000000000
    then err expired_tombstone
    else ok (tombstone_of "m" "ann" all_devices ttl second))
issue-verify_tombstone_example =
    issue-verify_tombstone deleter "m" "ann" all_devices ttl second 7000000000 tombstone_token
      plain_laws refl tombstone_issued
