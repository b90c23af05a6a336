-- ===== src/Lifecycle/Retention.antt =====
-- `EvaluateRetention` of internal/messagelifecycle/lifecycle.go.
use nex_drop.Prelude.{
  ℕ, ◌*◌, ◌≡◌, ◌⊎◌, true, false, not, ◌&&◌, if◌then◌else◌, arith, Bool-cases, inl, inr, refl,
}
use nex_drop.Prelude.Int.{
  ℤ, pos, negsuc, ◌+ℤ◌, ◌*ℤ◌, ltb_ℤ, ◌≤ℤ◌, ◌<ℤ◌, wrap64, wrap64_pos, mul_pos,
}
use nex_drop.Lifecycle.{Message, is_zero}

pub data RetentionMode : Type 0 where
  permanent fixed_days after_all_downloaded body_after_expiry other_mode : RetentionMode

pub record RetentionPolicy : Type 0 where
  pub mode : RetentionMode
  pub days : ℤ

pub data RetentionAction : Type 0 where
  keep delete_body tombstone : RetentionAction

-- A day in nanoseconds.
abbrev pub day : ℕ
day = 86400000000000

-- The `int64` product of a duration wraps.
unfoldable pub deadline : ℤ → ℤ → ℤ
deadline created days = created +ℤ wrap64 (days *ℤ pos day)

unfoldable pub by_mode : Message → ℤ → RetentionMode → ℤ → RetentionAction
by_mode m days permanent now = keep
by_mode m days fixed_days now =
    if ltb_ℤ (pos 0) days && not (ltb_ℤ now (deadline m.created_at days)) then tombstone else keep
by_mode m days after_all_downloaded now =
    if m.every_target_fetched && ltb_ℤ (pos 0) m.attachment_bytes then delete_body else keep
by_mode m days body_after_expiry now =
    if not (is_zero m.expires_at)
      && not (ltb_ℤ now m.expires_at)
      && ltb_ℤ (pos 0) m.attachment_bytes
    then delete_body
    else keep
by_mode m days other_mode now = keep

unfoldable pub evaluate_retention : Message → RetentionPolicy → ℤ → RetentionAction
evaluate_retention message policy now =
    if message.pinned then keep else by_mode message policy.days policy.mode now

-- When a tombstone is due, and when the body is to go.
abbrev pub TombstoneDue : Message → RetentionPolicy → ℤ → Type 0
TombstoneDue m p now =
    (m.pinned ≡ false)
    × (p.mode ≡ fixed_days)
    × (pos 0 <ℤ p.days)
    × (m.created_at +ℤ (p.days *ℤ pos day) ≤ℤ now)

abbrev pub BodyDue : Message → RetentionPolicy → ℤ → Type 0
BodyDue m p now =
    (m.pinned ≡ false)
    × (pos 0 <ℤ m.attachment_bytes)
    × (((p.mode ≡ after_all_downloaded) × (m.every_target_fetched ≡ true))
        ⊎ ((p.mode ≡ body_after_expiry) × (is_zero m.expires_at ≡ false) × (m.expires_at ≤ℤ now)))

abbrev pub Due : Message → RetentionPolicy → ℤ → RetentionAction → Type 0
Due m p now keep = ¬ TombstoneDue m p now × ¬ BodyDue m p now
Due m p now tombstone = TombstoneDue m p now
Due m p now delete_body = BodyDue m p now

deadline_lem :
    (created days : ℤ)
    → pos 0 <ℤ days
    → days ≤ℤ pos 106751
    → deadline created days ≡ created +ℤ (days *ℤ pos day)
unfolding deadline
deadline_lem created (pos n) p h = rw (mul_pos n day, wrap64_pos (n * day) (omega arith)) refl
deadline_lem created (negsuc n) p h = absurd (omega arith)

by_mode-Due :
    (m : Message) (p : RetentionPolicy) (now : ℤ) (mode : RetentionMode)
    → p.mode ≡ mode
    → m.pinned ≡ false
    → p.days ≤ℤ pos 106751
    → Due m p now (by_mode m p.days mode now)
unfolding by_mode
by_mode-Due m p now permanent e h b = ground arith
by_mode-Due m p now fixed_days e h b = ground (arith, deadline_lem m.created_at p.days)
by_mode-Due m p now after_all_downloaded e h b = ground arith
by_mode-Due m p now body_after_expiry e h b = ground arith
by_mode-Due m p now other_mode e h b = ground arith

-- For a policy of at most 106751 days, a message gets a tombstone exactly where it is not pinned and
-- the policy is a positive number of days that have all passed since it was created, its body is
-- deleted exactly where it is not pinned, has a body, and every target has fetched it or its own time
-- has passed, as the policy says, and it is kept exactly in the other cases.
pub evaluate_retention-Due :
    (m : Message) (p : RetentionPolicy) (now : ℤ)
    → p.days ≤ℤ pos 106751
    → Due m p now (evaluate_retention m p now)
unfolding evaluate_retention
evaluate_retention-Due m p now b = elim (Bool-cases m.pinned) [
  | inl h ↦ ground arith
  | inr h ↦ ground (arith, by_mode-Due m p now p.mode refl h b)
]
