-- ===== src/Pairing/Once.antt =====
-- A pairing code of internal/pairing/service.go is redeemed once.
use nex_drop.Prelude.{
  ℕ, false, ◌||◌, not, List, [], ◌∷◌, Option, none, some, String, All, is_empty, ◌≡◌, refl, sym,
  inl, inr, ◌⊎◌, Bool-cases, Option-cases, arith, subst,
}
use nex_drop.Prelude.Result.{Result, ok, err}
use nex_drop.Transfer.Types.{Session}
use nex_drop.Database.Sql.{first, update, is_null}
use nex_drop.Database.Sql.Rules.{first-some, All-first}
use nex_drop.Pairing.{
  Error, invalid_code, used, device_forbidden, Device, is_code, redeem, maximum_code_attempts,
}
use nex_drop.Pairing.Attempts.{code_of-some}
use nex_drop.Pairing.Codes.{
  DeviceRow, CodeRow, Tables, is_waiting, actor_of, is_challenge, code_of, has_id, trusted_device,
  redeem_row, redeem_as, redeem_pairing_code, pairing_store,
}

-- Every row of the challenge is used.
abbrev pub AllUsed : String → List CodeRow → Type 0
AllUsed challenge_id = All (λ c. (has_id challenge_id c ≡ false) ⊎ (is_null c.used_at ≡ false))

update-AllUsed :
    (challenge_id : String) (now : ℕ) (cs : List CodeRow)
    → AllUsed challenge_id (update (has_id challenge_id) (λ c. record c { used_at = some now }) cs)
update-AllUsed challenge_id now [] = tt
update-AllUsed challenge_id now (c ∷ cs) = elim (Bool-cases (has_id challenge_id c)) [
  | inl y ↦ rw y (inr refl, update-AllUsed challenge_id now cs)
  | inr n ↦ rw n (inl n, update-AllUsed challenge_id now cs)
]

trusted_device-AllUsed :
    (t : Tables) (challenge_id target_id : String) (now : ℕ) (o : Option DeviceRow)
    (device : Device) (t' : Tables)
    → trusted_device t challenge_id target_id now o ≡ (ok device, t')
    → AllUsed challenge_id t'.codes
trusted_device-AllUsed t challenge_id target_id now none device t' h = absurd (ground (arith, h))
trusted_device-AllUsed t challenge_id target_id now (some d) device t' h =
    elim (Option-cases d.key) [
      | inl e ↦ absurd (ground (arith, h, e))
      | inr (k, e) ↦
          let same : t'.codes
              ≡ update (has_id challenge_id) (λ c. record c { used_at = some now }) t.codes =
            ground (arith, h, e) in
          subst (AllUsed challenge_id) (sym same) (update-AllUsed challenge_id now t.codes)
    ]

-- A redemption that pairs a device goes through all tests.
redeem_row-AllUsed :
    (t : Tables) (challenge_id : String) (hash : List ℕ) (now maximum : ℕ)
    (o : Option (CodeRow × DeviceRow)) (device : Device) (t' : Tables)
    → redeem_row t challenge_id hash now maximum o ≡ (ok device, t')
    → AllUsed challenge_id t'.codes
redeem_row-AllUsed t challenge_id hash now maximum none device t' h = absurd (ground (arith, h))
redeem_row-AllUsed t challenge_id hash now maximum (some (c, d)) device t' h =
    trusted_device-AllUsed t challenge_id c.target_device_id now
      (first (is_waiting c.target_device_id) t.devices) device t' (ground (arith, h))

used_code :
    (t : Tables) (challenge_id user_id : String) (c : CodeRow) (d : DeviceRow)
    → AllUsed challenge_id t.codes
    → code_of t challenge_id user_id ≡ some (c, d)
    → is_null c.used_at ≡ false
used_code t challenge_id user_id c d a h =
    let found : first (is_challenge t challenge_id user_id) t.codes ≡ some c =
      (code_of-some t challenge_id user_id c d h).0 in
    let it : (has_id challenge_id c ≡ false) ⊎ (is_null c.used_at ≡ false) =
      All-first (λ c. (has_id challenge_id c ≡ false) ⊎ (is_null c.used_at ≡ false))
        (is_challenge t challenge_id user_id) t.codes c a found in
    ground (arith, it, first-some (is_challenge t challenge_id user_id) t.codes c found)

-- The tables are as before, and the answer is an error.
abbrev pub IsRefused : Tables → Result Error Device × Tables → Type 0
IsRefused t r = (e : Error) × (r ≡ (err e, t))

row_IsRefused :
    (t : Tables) (challenge_id user_id : String) (hash : List ℕ) (now maximum : ℕ)
    (o : Option (CodeRow × DeviceRow))
    → AllUsed challenge_id t.codes
    → code_of t challenge_id user_id ≡ o
    → IsRefused t (redeem_row t challenge_id hash now maximum o)
row_IsRefused t challenge_id user_id hash now maximum none a h = (invalid_code, refl)
row_IsRefused t challenge_id user_id hash now maximum (some (c, d)) a h =
    (used, ground (arith, used_code t challenge_id user_id c d a h))

as_IsRefused :
    (o : Option DeviceRow) (t : Tables) (challenge_id : String) (hash : List ℕ) (now maximum : ℕ)
    → AllUsed challenge_id t.codes
    → IsRefused t (redeem_as o t challenge_id hash now maximum)
as_IsRefused none t challenge_id hash now maximum a = (device_forbidden, refl)
as_IsRefused (some actor) t challenge_id hash now maximum a =
    row_IsRefused t challenge_id actor.user_id hash now maximum
      (code_of t challenge_id actor.user_id) a refl

redeem_as-AllUsed :
    (o : Option DeviceRow) (t t' : Tables) (challenge_id : String) (hash : List ℕ) (now maximum : ℕ)
    (device : Device)
    → redeem_as o t challenge_id hash now maximum ≡ (ok device, t')
    → AllUsed challenge_id t'.codes
redeem_as-AllUsed none t t' challenge_id hash now maximum device h = absurd (ground (arith, h))
redeem_as-AllUsed (some actor) t t' challenge_id hash now maximum device h =
    redeem_row-AllUsed t challenge_id hash now maximum (code_of t challenge_id actor.user_id) device
      t' h

module _ (new_id : ℕ → String) (hash_code : List ℕ → List ℕ)
    (qr_of : String → String → List ℕ → String) where
  -- After a code has paired a device, every later redemption of it, by whichever session and device, with
  -- whichever digits and at whichever time, is refused and changes nothing.
  pub redeem_once :
      (t t' : Tables) (session again : Session) (device_id other challenge_id : String)
      (code guess : List ℕ) (now later : ℕ) (device : Device)
      → redeem (pairing_store new_id) hash_code qr_of t session device_id challenge_id code now
        ≡ (ok device, t')
      → IsRefused t'
          (redeem (pairing_store new_id) hash_code qr_of t' again other challenge_id guess later)
  unfolding redeem redeem_pairing_code
  redeem_once t t' session again device_id other challenge_id code guess now later device h =
      let all_used =
        redeem_as-AllUsed (actor_of t session device_id) t t' challenge_id (hash_code code) now
          maximum_code_attempts device (ground (arith, h)) in
      elim (Bool-cases (is_empty other || is_empty challenge_id || not (is_code guess))) [
        | inl e ↦ (invalid_code, rw e refl)
        | inr e ↦ rw e (
            as_IsRefused (actor_of t' again other) t' challenge_id (hash_code guess) later
              maximum_code_attempts all_used)
      ]
