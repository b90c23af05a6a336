-- ===== src/Delivery/Order.antt =====
-- The order of the items in internal/delivery/policy.go.
use mathlib.Core.List.{Perm}
use nex_drop.Prelude.{
  Bool, true, false, not, ◌≡◌, List, ◌⊎◌, inl, inr, str_lt, arith, if◌then◌else◌,
}
use nex_drop.Prelude.Text.Order.{str_lt_asym, str_lt_not_trans}
use nex_drop.Prelude.Int.{ℤ, pos, negsuc, ◌<ℤ◌, ltb_ℤ, eq_ℤ}
use nex_drop.Prelude.Sort.{
  slice_stable, StrictWeak, Pairs, Pairs-of_IsSorted, slice_stable-perm, slice_stable-IsSorted,
}
use nex_drop.Delivery.{Item, before, bool_eq, order}

-- A comparison by a key and then by the rest, for which no later item comes first already.
by_int_not_trans :
    (a b c : ℤ) {p q r : Bool}
    → (q ≡ false → p ≡ false → r ≡ false)
    → (if not (eq_ℤ b a) then ltb_ℤ b a else q) ≡ false
    → (if not (eq_ℤ c b) then ltb_ℤ c b else p) ≡ false
    → (if not (eq_ℤ c a) then ltb_ℤ c a else r) ≡ false
by_int_not_trans a b c f h k = ground arith

by_priority_not_trans :
    (a b c : ℤ) {p q r : Bool}
    → (q ≡ false → p ≡ false → r ≡ false)
    → (if not (eq_ℤ b a) then ltb_ℤ a b else q) ≡ false
    → (if not (eq_ℤ c b) then ltb_ℤ b c else p) ≡ false
    → (if not (eq_ℤ c a) then ltb_ℤ a c else r) ≡ false
by_priority_not_trans a b c f h k = ground arith

by_flag_not_trans :
    (a b c : Bool) {p q r : Bool}
    → (q ≡ false → p ≡ false → r ≡ false)
    → (if not (bool_eq b a) then not b else q) ≡ false
    → (if not (bool_eq c b) then not c else p) ≡ false
    → (if not (bool_eq c a) then not c else r) ≡ false
by_flag_not_trans a b c f h k = ground arith

before_asym : (x y : Item) → before x y ≡ true → before y x ≡ false
unfolding before
before_asym x y h = ground (arith, str_lt_asym x.id y.id)

before_not_trans : (x y z : Item) → before y x ≡ false → before z y ≡ false → before z x ≡ false
unfolding before
before_not_trans x y z =
    by_flag_not_trans x.metadata_synchronized y.metadata_synchronized z.metadata_synchronized (
      by_priority_not_trans x.priority y.priority z.priority (
        by_int_not_trans x.size y.size z.size (
          by_int_not_trans x.created_at y.created_at z.created_at
            (str_lt_not_trans x.id y.id z.id))))

pub before-StrictWeak : StrictWeak before
before-StrictWeak = record { asym = before_asym; not_trans = before_not_trans }

-- The keys of two items, the one that stands earlier first: metadata that is not synchronized, then the
-- higher priority, the smaller size, the older item, and the identifier.
abbrev pub InOrder : Item → Item → Type 0
InOrder x y =
    ((x.metadata_synchronized ≡ false) × (y.metadata_synchronized ≡ true))
    ⊎ ((x.metadata_synchronized ≡ y.metadata_synchronized)
        × ((y.priority <ℤ x.priority)
            ⊎ ((x.priority ≡ y.priority)
                × ((x.size <ℤ y.size)
                    ⊎ ((x.size ≡ y.size)
                        × ((x.created_at <ℤ y.created_at)
                            ⊎ ((x.created_at ≡ y.created_at) × (str_lt y.id x.id ≡ false))))))))

eq_ℤ_path : (a b : ℤ) → eq_ℤ a b ≡ true → a ≡ b
eq_ℤ_path (pos a) (pos b) h = ground arith
eq_ℤ_path (pos a) (negsuc b) h = absurd (ground arith)
eq_ℤ_path (negsuc a) (pos b) h = absurd (ground arith)
eq_ℤ_path (negsuc a) (negsuc b) h = ground arith

-- A key by which the later item does not come first.
int_key :
    (a b : ℤ) {q : Bool}
    → (if not (eq_ℤ b a) then ltb_ℤ b a else q) ≡ false
    → (a <ℤ b) ⊎ ((a ≡ b) × (q ≡ false))
int_key a b h = ground (arith, eq_ℤ_path a b)

priority_key :
    (a b : ℤ) {q : Bool}
    → (if not (eq_ℤ b a) then ltb_ℤ a b else q) ≡ false
    → (b <ℤ a) ⊎ ((a ≡ b) × (q ≡ false))
priority_key a b h = ground (arith, eq_ℤ_path a b)

flag_key :
    (a b : Bool) {q : Bool}
    → (if not (bool_eq b a) then not b else q) ≡ false
    → ((a ≡ false) × (b ≡ true)) ⊎ ((a ≡ b) × (q ≡ false))
flag_key a b h = ground arith

not_before-InOrder : (x y : Item) → before y x ≡ false → InOrder x y
unfolding before
not_before-InOrder x y h = elim (flag_key x.metadata_synchronized y.metadata_synchronized h) [
  | inl e ↦ inl e
  | inr (e, h1) ↦ inr (
    e,
    elim (priority_key x.priority y.priority h1) [
      | inl p ↦ inl p
      | inr (p, h2) ↦ inr (
        p,
        elim (int_key x.size y.size h2) [
          | inl s ↦ inl s
          | inr (s, h3) ↦ inr (s, int_key x.created_at y.created_at h3)
        ],
      )
    ],
  )
]

-- `Order` keeps the items, each as often as before, and puts any two of them in the order of their keys:
-- metadata that is not synchronized first, then the higher priority, the smaller size, the older item
-- and the smaller identifier.
pub order-IsSorted : (items : List Item) → Perm (order items) items × Pairs InOrder (order items)
unfolding order
order-IsSorted items = (
  slice_stable-perm before items,
  Pairs-of_IsSorted before InOrder not_before-InOrder (slice_stable before items)
      (slice_stable-IsSorted before before-StrictWeak items),
)
