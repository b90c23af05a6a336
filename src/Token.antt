-- ===== src/Token.antt =====
-- The signed tokens of internal/messagelifecycle and internal/relay: a payload in base64, a dot and the
-- payload's HMAC. Base64 and HMAC-SHA256 are the parameter `signing`, and a token is its bytes.
pub mod Laws
use nex_drop.Prelude.{
  ℕ, Bool, true, false, ◌&&◌, List, [], ◌∷◌, ◌++◌, length, Option, none, some, ◌==◌, if◌then◌else◌,
}
use nex_drop.FileTransfer.Manifest.{bytes_eq}

pub record Signing : Type 0 where
  pub encode64 : List ℕ → List ℕ
  pub decode64 : List ℕ → Option (List ℕ)
  pub mac : List ℕ → List ℕ → List ℕ

abbrev pub dot : ℕ
dot = 46

abbrev pub grow : ℕ → List (List ℕ) → List (List ℕ)
grow c [] = (c ∷ []) ∷ []
grow c (s ∷ ss) = (c ∷ s) ∷ ss

-- `strings.Split(…, ".")`.
unfoldable pub split_dots : List ℕ → List (List ℕ)
split_dots [] = [] ∷ []
split_dots (c ∷ cs) = let rest = split_dots cs in if c == dot then [] ∷ rest else grow c rest

-- `signature`, under the label of the kind of token.
unfoldable pub signature : Signing → List ℕ → List ℕ → List ℕ → List ℕ
signature signing secret label value = signing.encode64 (signing.mac secret (label ++ value))

unfoldable pub is_signed : Signing → List ℕ → List ℕ → List ℕ → List ℕ → Bool
is_signed signing secret label value given =
    length (signature signing secret label value) == length given
    && bytes_eq (signature signing secret label value) given

-- The payload of a token of two parts, if its signature is right.
abbrev pub payload_in : Signing → List ℕ → List ℕ → List (List ℕ) → Option (List ℕ)
payload_in signing secret label (value ∷ given ∷ []) =
    if is_signed signing secret label value given then signing.decode64 value else none
payload_in signing secret label _ = none

abbrev pub signed : Signing → List ℕ → List ℕ → List ℕ → List ℕ
signed signing secret label payload =
    signing.encode64 payload ++ dot ∷ signature signing secret label (signing.encode64 payload)
