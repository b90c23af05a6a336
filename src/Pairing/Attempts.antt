-- ===== src/Pairing/Attempts.antt =====
-- Guesses at a pairing code: internal/pairing/service.go over internal/postgres/store.go.
use nex_drop.Prelude.{
  ℕ, ◌+◌, ◌≤◌, true, false, List, [], ◌∷◌, length, All, none, some, String, is_empty, ltb, leb, ◌≡◌,
  refl, sym, ap, ◌∙◌, inl, inr, ◌⊎◌, Bool-cases, arith, subst, if◌then◌else◌,
}
use nex_drop.Prelude.Result.{ok, err}
use nex_drop.Transfer.Types.{Session}
use nex_drop.FileTransfer.Manifest.{bytes_eq}
use nex_drop.Database.Sql.{first}
use nex_drop.Database.Sql.Rules.{first-some, first-update}
use nex_drop.Pairing.{locked, is_code, redeem, maximum_code_attempts}
use nex_drop.Pairing.Codes.{
  DeviceRow, CodeRow, Tables, is_pending, is_waiting, actor_of, is_target_of, is_challenge, code_of,
  has_id, scan_device, trust, counted, accepted, redeem_row, redeem_pairing_code, pairing_store,
}

pub code_of-some :
    (t : Tables) (challenge_id user_id : String) (c : CodeRow) (d : DeviceRow)
    → code_of t challenge_id user_id ≡ some (c, d)
    → (first (is_challenge t challenge_id user_id) t.codes ≡ some c)
      × (first (is_target_of user_id c.target_device_id) t.devices ≡ some d)
unfolding code_of
code_of-some t challenge_id user_id c d h = ground (arith, h)

some-code_of :
    (t : Tables) (challenge_id user_id : String) (c : CodeRow) (d : DeviceRow)
    → first (is_challenge t challenge_id user_id) t.codes ≡ some c
    → first (is_target_of user_id c.target_device_id) t.devices ≡ some d
    → code_of t challenge_id user_id ≡ some (c, d)
unfolding code_of
some-code_of t challenge_id user_id c d h k = ground (arith, h, k)

abbrev with_attempts : ℕ → CodeRow → CodeRow
with_attempts n c = record c { attempt_count = n }

code_of-counted :
    (t : Tables) (challenge_id user_id : String) (c : CodeRow) (d : DeviceRow) (n : ℕ)
    → code_of t challenge_id user_id ≡ some (c, d)
    → code_of (counted t challenge_id n) challenge_id user_id ≡ some (with_attempts n c, d)
code_of-counted t challenge_id user_id c d n h =
    let found = code_of-some t challenge_id user_id c d h in
    let is_it : has_id challenge_id c ≡ true =
      ground (arith, first-some (is_challenge t challenge_id user_id) t.codes c found.0) in
    some-code_of (counted t challenge_id n) challenge_id user_id (with_attempts n c) d
      (first-update (is_challenge t challenge_id user_id) (has_id challenge_id) (with_attempts n)
          (λ x. refl) t.codes c found.0
        ∙ rw is_it refl)
      found.1

module _ (session : Session) (device_id challenge_id : String) (actor d w : DeviceRow)
    (k : List ℕ × String) where
  -- A code that waits to be redeemed by the session: its row, its device and the key.
  pub record Waits (t : Tables) (c : CodeRow) : Type 0 where
    pub acts : actor_of t session device_id ≡ some actor
    pub found : code_of t challenge_id actor.user_id ≡ some (c, d)
    pub unused : c.used_at ≡ none
    pub waiting : is_pending d.trust ≡ true
    pub device : first (is_waiting c.target_device_id) t.devices ≡ some w
    pub key : w.key ≡ some k

  counted-Waits :
      (t : Tables) (c : CodeRow) (n : ℕ)
      → Waits t c
      → Waits (counted t challenge_id n) (with_attempts n c)
  unfolding actor_of
  counted-Waits t c n h = record {
    acts = h.acts;
    found = code_of-counted t challenge_id actor.user_id c d n h.found;
    unused = h.unused;
    waiting = h.waiting;
    device = h.device;
    key = h.key;
  }

  at_row :
      (t : Tables) (c : CodeRow) (hash : List ℕ) (now maximum : ℕ)
      → Waits t c
      → redeem_pairing_code t session device_id challenge_id hash now maximum
        ≡ redeem_row t challenge_id hash now maximum (some (c, d))
  unfolding redeem_pairing_code
  at_row t c hash now maximum h = rw (h.acts, h.found) refl

  wrong_hash :
      (t : Tables) (c : CodeRow) (hash : List ℕ) (now maximum : ℕ)
      → Waits t c
      → leb c.expires_at now ≡ false
      → bytes_eq c.code_hash hash ≡ false
      → (redeem_pairing_code t session device_id challenge_id hash now maximum).1
        ≡ (if leb maximum c.attempt_count then t else counted t challenge_id (c.attempt_count + 1))
  wrong_hash t c hash now maximum h e b =
      rw (at_row t c hash now maximum h) (ground (arith, h.unused, h.waiting, e, b))

  right_hash :
      (t : Tables) (c : CodeRow) (hash : List ℕ) (now maximum : ℕ)
      → Waits t c
      → leb c.expires_at now ≡ false
      → bytes_eq c.code_hash hash ≡ true
      → redeem_pairing_code t session device_id challenge_id hash now maximum ≡ (
          if leb maximum c.attempt_count
          then (err locked, t)
          else (ok (scan_device (trust w) k), accepted t challenge_id c.target_device_id now))
  right_hash t c hash now maximum h e b =
      rw (at_row t c hash now maximum h)
        (ground (arith, h.unused, h.waiting, h.device, h.key, e, b))

module _ (new_id : ℕ → String) (hash_code : List ℕ → List ℕ)
    (qr_of : String → String → List ℕ → String) where
  -- The guesses at a challenge, one after the other, each at its time.
  unfoldable pub guess_all : Tables → Session → String → String → List (List ℕ × ℕ) → Tables
  guess_all t session device_id challenge_id [] = t
  guess_all t session device_id challenge_id ((code, now) ∷ guesses) =
      guess_all
        (redeem (pairing_store new_id) hash_code qr_of t session device_id challenge_id code now).1
        session device_id challenge_id guesses

  -- Six digits that are not the code, before it expires.
  abbrev pub Wrong : CodeRow → List ℕ × ℕ → Type 0
  Wrong c guess =
      (is_code guess.0 ≡ true)
      × (bytes_eq c.code_hash (hash_code guess.0) ≡ false)
      × (leb c.expires_at guess.1 ≡ false)

  module _ (session : Session) (device_id challenge_id : String) (actor d w : DeviceRow)
      (k : List ℕ × String) where
    redeemed :
        (t : Tables) (code : List ℕ) (now : ℕ)
        → is_empty device_id ≡ false
        → is_empty challenge_id ≡ false
        → is_code code ≡ true
        → redeem (pairing_store new_id) hash_code qr_of t session device_id challenge_id code now
          ≡ redeem_pairing_code t session device_id challenge_id
              (hash_code code)
              now
              maximum_code_attempts
    unfolding redeem
    redeemed t code now x y z = ground (arith, x, y, z)

    -- How far the wrong guesses count.
    abbrev Counted : Tables → CodeRow → ℕ → Type 0
    Counted t c n =
        (m : ℕ) × Waits session device_id challenge_id actor d w k t (with_attempts m c)
        × ((m ≡ n) ⊎ ((maximum_code_attempts ≤ m) × (maximum_code_attempts ≤ n)))

    guess_once :
        (t : Tables) (c : CodeRow) (guess : List ℕ × ℕ)
        → is_empty device_id ≡ false
        → is_empty challenge_id ≡ false
        → Waits session device_id challenge_id actor d w k t c
        → Wrong c guess
        → Counted
            (redeem
              (pairing_store new_id)
              hash_code
              qr_of
              t
              session
              device_id
              challenge_id
              guess.0
              guess.1).1
            c
            (c.attempt_count + 1)
    guess_once t c (code, now) x y h g =
        let one =
          ap (λ r. r.1) (redeemed t code now x y g.0)
          ∙ wrong_hash session device_id challenge_id actor d w k t c (hash_code code) now
              maximum_code_attempts h g.2 g.1 in
        elim (Bool-cases (leb maximum_code_attempts c.attempt_count)) [
          | inl e ↦ (
            c.attempt_count,
            subst (λ u. Waits session device_id challenge_id actor d w k u c)
                (sym (one ∙ rw e refl)) h,
            inr (ground (arith, e), ground (arith, e)),
          )
          | inr e ↦ (
            c.attempt_count + 1,
            subst
                (λ u.
                  Waits session device_id challenge_id actor d w k u
                    (with_attempts (c.attempt_count + 1) c))
                (sym (one ∙ rw e refl))
                (counted-Waits session device_id challenge_id actor d w k t c (c.attempt_count + 1)
                  h),
            inl refl,
          )
        ]

    guesses_count :
        (guesses : List (List ℕ × ℕ)) (t : Tables) (c : CodeRow)
        → is_empty device_id ≡ false
        → is_empty challenge_id ≡ false
        → Waits session device_id challenge_id actor d w k t c
        → All (Wrong c) guesses
        → Counted
            (guess_all t session device_id challenge_id guesses)
            c
            (c.attempt_count + length guesses)
    unfolding guess_all
    guesses_count [] t c x y h g = (c.attempt_count, h, inl (omega arith))
    guesses_count (guess ∷ guesses) t c x y h g =
        let once = guess_once t c guess x y h g.0 in
        let rest = guesses_count guesses _ (with_attempts once.0 c) x y once.1 g.1 in
        (rest.0, rest.1, ground (arith, rest.2, once.2))

    -- After any number of wrong guesses before a code expires, its right digits pair the device if the code
    -- then has fewer than five wrong guesses, and find it locked if it has five or more.
    pub redeem-guess_all :
        (guesses : List (List ℕ × ℕ)) (t : Tables) (c : CodeRow) (code : List ℕ) (now : ℕ)
        → is_empty device_id ≡ false
        → is_empty challenge_id ≡ false
        → Waits session device_id challenge_id actor d w k t c
        → All (Wrong c) guesses
        → is_code code ≡ true
        → bytes_eq c.code_hash (hash_code code) ≡ true
        → leb c.expires_at now ≡ false
        → let after = guess_all t session device_id challenge_id guesses in
          redeem
            (pairing_store new_id)
            hash_code
            qr_of
            after
            session
            device_id
            challenge_id
            code
            now
          ≡ (if ltb (c.attempt_count + length guesses) maximum_code_attempts
              then (
                ok (scan_device (trust w) k),
                accepted after challenge_id c.target_device_id now,
              )
              else (err locked, after))
    redeem-guess_all guesses t c code now x y h g i b e =
        let after = guess_all t session device_id challenge_id guesses in
        let count = guesses_count guesses t c x y h g in
        redeemed after code now x y i
        ∙ right_hash session device_id challenge_id actor d w k after (with_attempts count.0 c)
            (hash_code code) now maximum_code_attempts count.1 e b
        ∙ ground (arith, count.2)
