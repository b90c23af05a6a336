-- ===== src/Lifecycle/Page/Unread.antt =====
-- The messages after a cursor (internal/messagelifecycle/lifecycle.go).
use nex_drop.Prelude.{
  ℕ, zero, suc, ◌<◌, ◌≡◌, ◌≢◌, true, false, not, List, [], ◌∷◌, length, take, drop, select, All,
  arith, refl, sym, ap, ◌∙◌, Bool-cases, inl, inr,
}
use nex_drop.Prelude.Text.Order.{str_lt_asym, str_lt_not_trans, str_lt_total}
use nex_drop.Prelude.Sort.{Pairs, IsSorted, StrictWeak, slice_stable}
use nex_drop.Lifecycle.{Message, Cursor, is_zero}
use nex_drop.Lifecycle.Page.{newer, is_seen, collect, last_cursor}

newer_asym : (x y : Message) → newer x y ≡ true → newer y x ≡ false
unfolding newer
newer_asym x y h = ground (arith, str_lt_asym y.id x.id)

newer_not_trans : (x y z : Message) → newer y x ≡ false → newer z y ≡ false → newer z x ≡ false
unfolding newer
newer_not_trans x y z h k = ground (arith, str_lt_not_trans z.id y.id x.id)

pub newer-StrictWeak : StrictWeak newer
newer-StrictWeak = record { asym = newer_asym; not_trans = newer_not_trans }

newer_total : (x y : Message) → x.id ≢ y.id → newer y x ≡ false → newer x y ≡ true
unfolding newer
newer_total x y d h = ground (arith, str_lt_total x.id y.id)

abbrev pub DistinctIds : List Message → Type 0
DistinctIds = Pairs (λ x y. x.id ≢ y.id)

abbrev pub Dated : List Message → Type 0
Dated = All (λ m. is_zero m.created_at ≡ false)

-- The messages after a cursor, in order.
abbrev pub unread : Cursor → List Message → List Message
unread after ms = select (λ m. not (is_seen after m)) ms

abbrev pub remaining : List Message → Cursor → List Message
remaining messages after = unread after (slice_stable newer messages)

abbrev pub Strict : List Message → Type 0
Strict = Pairs (λ x y. newer x y ≡ true)

abbrev pub key : Message → Cursor
key m = record { time = m.created_at; id = m.id }

All-newer :
    (x : Message) (ys : List Message)
    → All (λ y. newer y x ≡ false) ys
    → All (λ y. x.id ≢ y.id) ys
    → All (λ y. newer x y ≡ true) ys
All-newer x [] s d = tt
All-newer x (y ∷ ys) s d = (newer_total x y d.0 s.0, All-newer x ys s.1 d.1)

pub Strict-of_sorted : (xs : List Message) → IsSorted newer xs → DistinctIds xs → Strict xs
Strict-of_sorted [] s d = tt
Strict-of_sorted (x ∷ xs) s d = (All-newer x xs s.0 d.0, Strict-of_sorted xs s.1 d.1)

is_seen-key : (z m : Message) → is_zero z.created_at ≡ false → is_seen (key z) m ≡ not (newer z m)
unfolding is_seen newer
is_seen-key z m h = ground arith

-- What an earlier cursor hides, a later one hides too.
is_seen_later :
    (after : Cursor) (z m : Message)
    → is_zero z.created_at ≡ false
    → is_seen after z ≡ false
    → is_seen after m ≡ true
    → is_seen (key z) m ≡ true
unfolding is_seen
is_seen_later after z m n h k =
    ground (arith, str_lt_asym z.id after.id, str_lt_not_trans z.id after.id m.id)

unread_seen :
    (after : Cursor) (m : Message) (ms : List Message)
    → is_seen after m ≡ true
    → unread after (m ∷ ms) ≡ unread after ms
unread_seen after m ms e = ground arith

unread_unseen :
    (after : Cursor) (m : Message) (ms : List Message)
    → is_seen after m ≡ false
    → unread after (m ∷ ms) ≡ m ∷ unread after ms
unread_unseen after m ms e = ground arith

pub collect-take :
    (after : Cursor) (n : ℕ) (ms : List Message) → collect after n ms ≡ take n (unread after ms)
unfolding collect
collect-take after zero ms = refl
collect-take after (suc k) [] = refl
collect-take after (suc k) (m ∷ ms) = elim (Bool-cases (is_seen after m)) [
  | inl e ↦ rw (unread_seen after m ms e, e) (collect-take after (suc k) ms)
  | inr e ↦ rw (unread_unseen after m ms e, e) (ap (◌∷◌ m) (collect-take after k ms))
]

-- Messages that `z` comes before are all after its cursor.
unread_none_seen :
    (z : Message) (ys : List Message)
    → is_zero z.created_at ≡ false
    → All (λ y. newer z y ≡ true) ys
    → unread (key z) ys ≡ ys
unread_none_seen z [] n a = refl
unread_none_seen z (y ∷ ys) n a =
    unread_unseen (key z) y ys (ground (arith, is_seen-key z y n))
    ∙ ap (◌∷◌ y) (unread_none_seen z ys n a.1)

-- The last of the first `suc k` messages.
abbrev pub last_of : Message → List Message → ℕ → Message
last_of m ms zero = m
last_of m [] (suc k) = m
last_of m (n ∷ ms) (suc k) = last_of n ms k

pub last_cursor-take :
    (m : Message) (ms : List Message) (k : ℕ) → last_cursor (m ∷ take k ms) ≡ key (last_of m ms k)
last_cursor-take m ms zero = refl
last_cursor-take m [] (suc k) = refl
last_cursor-take m (n ∷ ms) (suc k) = last_cursor-take n ms k

pub All-last_of {κ} :
    (P : Message → Type κ) (m : Message) (ms : List Message) (k : ℕ)
    → P m
    → All P ms
    → P (last_of m ms k)
All-last_of P m ms zero p ps = p
All-last_of P m [] (suc k) p ps = p
All-last_of P m (n ∷ ms) (suc k) p ps = All-last_of P n ms k ps.0 ps.1

-- In strict order, the messages after the last of the first `suc k` are the others.
pub unread-last_of :
    (m : Message) (ms : List Message) (k : ℕ)
    → Strict (m ∷ ms)
    → Dated (m ∷ ms)
    → k < suc (length ms)
    → unread (key (last_of m ms k)) (m ∷ ms) ≡ drop (suc k) (m ∷ ms)
unread-last_of m ms zero s d h =
    unread_seen (key m) m ms (is_seen-key m m d.0 ∙ ap not (irrefl m))
    ∙ unread_none_seen m ms d.0 s.0
  where
    irrefl : (m : Message) → newer m m ≡ false
    irrefl m = elim (Bool-cases (newer m m)) [ inl h ↦ newer_asym m m h | inr h ↦ h ]
unread-last_of m [] (suc k) s d h = absurd (omega arith)
unread-last_of m (n ∷ ms) (suc k) s d h =
    let z = last_of n ms k in
    let older = newer_asym m z (All-last_of (λ y. newer m y ≡ true) n ms k s.0.0 s.0.1) in
    let dated = All-last_of (λ y. is_zero y.created_at ≡ false) n ms k d.1.0 d.1.1 in
    unread_seen (key z) m (n ∷ ms) (is_seen-key z m dated ∙ ap not older)
    ∙ unread-last_of n ms k s.1 d.1 (omega arith)

pub All-unread {κ} :
    (P : Message → Type κ) (after : Cursor) (ms : List Message) → All P ms → All P (unread after ms)
All-unread P after [] a = tt
All-unread P after (m ∷ ms) a = elim (Bool-cases (is_seen after m)) [
  | inl e ↦ rw (unread_seen after m ms e) (All-unread P after ms a.1)
  | inr e ↦ rw (unread_unseen after m ms e) (a.0, All-unread P after ms a.1)
]

pub Strict-unread : (after : Cursor) (ms : List Message) → Strict ms → Strict (unread after ms)
Strict-unread after [] s = tt
Strict-unread after (m ∷ ms) s = elim (Bool-cases (is_seen after m)) [
  | inl e ↦ rw (unread_seen after m ms e) (Strict-unread after ms s.1)
  | inr e ↦
      rw (unread_unseen after m ms e)
        (All-unread (λ y. newer m y ≡ true) after ms s.0, Strict-unread after ms s.1)
]

pub unread-All_unseen :
    (after : Cursor) (ms : List Message) → All (λ m. is_seen after m ≡ false) (unread after ms)
unread-All_unseen after [] = tt
unread-All_unseen after (m ∷ ms) = elim (Bool-cases (is_seen after m)) [
  | inl e ↦ rw (unread_seen after m ms e) (unread-All_unseen after ms)
  | inr e ↦ rw (unread_unseen after m ms e) (e, unread-All_unseen after ms)
]

pub unread-unread :
    (after : Cursor) (z : Message) (ms : List Message)
    → is_zero z.created_at ≡ false
    → is_seen after z ≡ false
    → unread (key z) (unread after ms) ≡ unread (key z) ms
unread-unread after z [] n h = refl
unread-unread after z (m ∷ ms) n h = elim (Bool-cases (is_seen after m)) [
  | inl e ↦
      rw (unread_seen after m ms e, unread_seen (key z) m ms (is_seen_later after z m n h e))
        (unread-unread after z ms n h)
  | inr e ↦
      let rest = unread-unread after z ms n h in
      rw (unread_unseen after m ms e) (elim (Bool-cases (is_seen (key z) m)) [
        | inl f ↦
            unread_seen (key z) m (unread after ms) f ∙ rest ∙ sym (unread_seen (key z) m ms f)
        | inr f ↦
            unread_unseen (key z) m (unread after ms) f
            ∙ ap (◌∷◌ m) rest
            ∙ sym (unread_unseen (key z) m ms f)
      ])
]
