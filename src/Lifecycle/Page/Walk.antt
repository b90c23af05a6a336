-- ===== src/Lifecycle/Page/Walk.antt =====
-- Following the cursors of internal/messagelifecycle/lifecycle.go shows every message once.
use nex_drop.Prelude.{
  ℕ, zero, suc, ◌≤◌, ◌<◌, ◌≡◌, ◌≢◌, false, ltb, if◌then◌else◌, List, [], ◌∷◌, ◌++◌, length, take,
  drop, take-append-drop, All, arith, refl, sym, ap, ◌∙◌, Bool-cases, inl, inr, ◌==◌, ◌||◌,
}
use nex_drop.Prelude.Int.{ℤ}
use nex_drop.Prelude.Sort.{
  slice_stable, slice_stable-IsSorted, slice_stable-Pairs, All-slice_stable,
}
use nex_drop.Lifecycle.{Message, Cursor, is_zero}
use nex_drop.Lifecycle.Page.{newer, is_seen, last_cursor, page_size, with_cursor, page}
use nex_drop.Lifecycle.Page.Unread.{
  newer-StrictWeak, DistinctIds, Dated, Strict, unread, remaining, key, last_of, Strict-of_sorted,
  collect-take, last_cursor-take, unread-last_of, All-last_of, All-unread, Strict-unread,
  unread-All_unseen, unread-unread,
}

page_size_pos : (limit : ℤ) → 0 < page_size limit
unfolding page_size
page_size_pos limit = ground arith

length-take :
    {A : Type 0} (n : ℕ) (xs : List A)
    → (length (take n xs) < n → take n xs ≡ xs) × (length (take n xs) ≤ n)
length-take zero xs = (λ h. absurd (omega (arith, h)), omega arith)
length-take (suc n) [] = (λ _. refl, omega arith)
length-take (suc n) (x ∷ xs) =
    (λ h. ap (◌∷◌ x) ((length-take n xs).0 (omega arith)), omega (arith, (length-take n xs).1))

length-take_le : {A : Type 0} (n : ℕ) (xs : List A) → length (take n xs) ≤ length xs
length-take_le zero xs = omega arith
length-take_le (suc n) [] = omega arith
length-take_le (suc n) (x ∷ xs) = omega (arith, length-take_le n xs)

append_nil : {A : Type 0} (xs : List A) → xs ++ [] ≡ xs
append_nil [] = refl
append_nil (x ∷ xs) = ap (◌∷◌ x) (append_nil xs)

-- The messages of a page, and then those after its cursor, if it has one.
abbrev pub continued : List Message → List Message × Cursor → List Message
continued messages (result, next) =
    result ++ (if is_zero next.time then [] else remaining messages next)

-- A full page, of the first `n` messages of the rest.
full_page :
    (after : Cursor) (ms rest : List Message) (n : ℕ)
    → Strict rest
    → Dated rest
    → All (λ m. is_seen after m ≡ false) rest
    → ((z : Message)
        → is_zero z.created_at ≡ false
        → is_seen after z ≡ false
        → unread (key z) rest ≡ unread (key z) ms)
    → 0 < n
    → length (take n rest) ≡ n
    → (is_zero (last_cursor (take n rest)).time ≡ false)
      × (unread (last_cursor (take n rest)) ms ≡ drop n rest)
full_page after ms rest zero s d u e p l = absurd (omega arith)
full_page after ms [] (suc k) s d u e p l = absurd (omega arith)
full_page after ms (m ∷ rest) (suc k) s d u e p l =
    let z = last_of m rest k in
    let dated = All-last_of (λ y. is_zero y.created_at ≡ false) m rest k d.0 d.1 in
    let unseen = All-last_of (λ y. is_seen after y ≡ false) m rest k u.0 u.1 in
    let short : length (take k rest) ≤ length rest = length-take_le k rest in
    rw (last_cursor-take m rest k)
      (dated, sym (e z dated unseen) ∙ unread-last_of m rest k s d (omega arith))

unread_continued :
    (messages : List Message) (after : Cursor) (n : ℕ)
    → 0 < n
    → DistinctIds messages
    → Dated messages
    → continued messages (with_cursor n (take n (remaining messages after)))
      ≡ remaining messages after
unread_continued messages after n p i d =
    let ordered = slice_stable newer messages in
    let rest = unread after ordered in
    let distinct =
      slice_stable-Pairs newer (λ x y. x.id ≢ y.id) (λ x y h q. h (sym q)) messages i in
    let strict =
      Strict-of_sorted ordered (slice_stable-IsSorted newer newer-StrictWeak messages) distinct in
    let dated = All-slice_stable newer (λ m. is_zero m.created_at ≡ false) messages d in
    let full =
      full_page after ordered rest n (Strict-unread after ordered strict)
        (All-unread (λ m. is_zero m.created_at ≡ false) after ordered dated)
        (unread-All_unseen after ordered) (λ z a b. unread-unread after z ordered a b) p in
    elim (Bool-cases (length (take n rest) == 0 || ltb (length (take n rest)) n)) [
      | inl y ↦ rw y (append_nil (take n rest) ∙ (length-take n rest).0 (ground arith))
      | inr y ↦
          let f = full (ground (arith, (length-take n rest).1)) in
          rw (y, f.0, f.1) (take-append-drop n rest)
    ]

-- Where the identifiers differ and no message has the zero time, a page under any cursor, followed by
-- what is left after the cursor it returns, is exactly what was left before it, in the order of the
-- sort: no message is lost between two pages or shown on both, and a page without a cursor is the last.
pub page-continued :
    (messages : List Message) (after : Cursor) (limit : ℤ)
    → DistinctIds messages
    → Dated messages
    → continued messages (page messages after limit) ≡ remaining messages after
unfolding page
page-continued messages after limit i d =
    rw (collect-take after (page_size limit) (slice_stable newer messages))
      (unread_continued messages after (page_size limit) (page_size_pos limit) i d)
