-- ===== src/Token/Laws.antt =====
-- A token of the shape that internal/messagelifecycle and internal/relay write is taken apart again.
use nex_drop.Prelude.{
  ℕ, true, false, List, [], ◌∷◌, ◌++◌, any, length, some, ◌==◌, ==_iff, ◌≡◌, refl, ap, ◌∙◌, inl,
  inr, Bool-cases, arith,
}
use nex_drop.FileTransfer.Manifest.Splits.{bytes_eq_refl, bytes_eq_path}
use nex_drop.Token.{Signing, dot, split_dots, signature, is_signed, signed}

-- What the documents of base64 promise.
pub record Base64Laws (signing : Signing) : Type 0 where
  pub decodes : (bytes : List ℕ) → signing.decode64 (signing.encode64 bytes) ≡ some bytes
  pub no_dot : (bytes : List ℕ) → any (λ c. c == dot) (signing.encode64 bytes) ≡ false

pub split_one : (a : List ℕ) → any (λ c. c == dot) a ≡ false → split_dots a ≡ a ∷ []
unfolding split_dots
split_one [] h = refl
split_one (c ∷ cs) h = elim (Bool-cases (c == dot)) [
  | inl y ↦ absurd (ground (arith, h, y))
  | inr n ↦ rw (n, split_one cs (ground (arith, h))) refl
]

pub split_more :
    (a b : List ℕ) → any (λ c. c == dot) a ≡ false → split_dots (a ++ dot ∷ b) ≡ a ∷ split_dots b
unfolding split_dots
split_more [] b h = refl
split_more (c ∷ cs) b h = elim (Bool-cases (c == dot)) [
  | inl y ↦ absurd (ground (arith, h, y))
  | inr n ↦ rw (n, split_more cs b (ground (arith, h))) refl
]

pub is_signed_refl :
    (signing : Signing) (secret label value : List ℕ)
    → is_signed signing secret label value (signature signing secret label value) ≡ true
unfolding is_signed
is_signed_refl signing secret label value = ground (
  arith,
  bytes_eq_refl (signature signing secret label value),
  ==_iff (length (signature signing secret label value))
      (length (signature signing secret label value)),
)

pub is_signed_path :
    (signing : Signing) (secret label value given : List ℕ)
    → is_signed signing secret label value given ≡ true
    → signature signing secret label value ≡ given
unfolding is_signed
is_signed_path signing secret label value given h =
    bytes_eq_path (signature signing secret label value) given (ground (arith, h))

pub signature-no_dot :
    (signing : Signing) (laws : Base64Laws signing) (secret label value : List ℕ)
    → any (λ c. c == dot) (signature signing secret label value) ≡ false
unfolding signature
signature-no_dot signing laws secret label value = laws.no_dot (signing.mac secret (label ++ value))

-- The parts of a token of two parts.
pub split-signed :
    (signing : Signing) (laws : Base64Laws signing) (secret label payload : List ℕ)
    → split_dots (signed signing secret label payload)
      ≡ signing.encode64 payload ∷ signature signing secret label (signing.encode64 payload) ∷ []
split-signed signing laws secret label payload =
    let value = signing.encode64 payload in
    split_more value (signature signing secret label value) (laws.no_dot payload)
    ∙ ap (◌∷◌ value) (
        split_one (signature signing secret label value)
          (signature-no_dot signing laws secret label value))
