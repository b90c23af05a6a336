-- ===== src/Folder/Totals.antt =====
-- What a manifest holds that `Validate` of internal/folder/manifest.go accepts.
use nex_drop.Prelude.{
  ℕ, ◌+◌, ◌≤◌, ◌<◌, ◌^◌, false, ◌||◌, not, List, [], ◌∷◌, ◌++◌, map, any, length, All, ◌≡◌, refl,
  sym, ap, ◌∙◌, inl, inr, Bool-cases, arith, subst,
}
use nex_drop.Prelude.Int.{ℤ, pos, negsuc, pos_part, ◌+ℤ◌, ◌-ℤ◌, ◌≤ℤ◌, wrap64, InInt64, ltb_ℤ}
use nex_drop.Prelude.Result.{Result, ok, err, ◌>>=◌, ◌>>◌, refuse, first_link, let_through}
use nex_drop.FileTransfer.Manifest.{bytes_eq}
use nex_drop.Folder.Paths.{
  Error, invalid_manifest, limit_exceeded, path_collision, Letters, normalize_path,
}
use nex_drop.Folder.{
  EntryType, directory, file, other_entry, Entry, Manifest, Limits, or_default, normalized,
  Progress, check_entry, add_entry, add_entries, added, add_checked, add_at, start, validate,
  bad_head, finish, valid_sha256, weight,
}

-- No text stands twice.
abbrev pub Distinct : List (List ℕ) → Type 0
Distinct [] = Unit
Distinct (x ∷ xs) = All (λ y. bytes_eq y x ≡ false) xs × Distinct xs

abbrev pub sum_sizes : List Entry → ℕ
sum_sizes [] = 0
sum_sizes (e ∷ es) = pos_part e.size + sum_sizes es

sum_sizes-append :
    (es : List Entry) (e : Entry) → sum_sizes (es ++ e ∷ []) ≡ sum_sizes es + pos_part e.size
sum_sizes-append [] e = omega arith
sum_sizes-append (x ∷ es) e = omega (arith, sum_sizes-append es e)

All-snoc :
    (x y : List ℕ) (xs : List (List ℕ))
    → All (λ z. bytes_eq z x ≡ false) xs
    → bytes_eq y x ≡ false
    → All (λ z. bytes_eq z x ≡ false) (xs ++ y ∷ [])
All-snoc x y [] h k = (k, tt)
All-snoc x y (z ∷ xs) h k = (h.0, All-snoc x y xs h.1 k)

Distinct-snoc :
    (y : List ℕ) (xs : List (List ℕ))
    → Distinct xs
    → any (bytes_eq y) xs ≡ false
    → Distinct (xs ++ y ∷ [])
Distinct-snoc y [] d h = (tt, tt)
Distinct-snoc y (x ∷ xs) d h =
    (All-snoc x y xs d.0 (ground (arith, h)), Distinct-snoc y xs d.1 (ground (arith, h)))

file_total :
    (limits : Limits) (m t s : ℕ) (total : ℤ)
    → limits.max_total_bytes ≡ pos m
    → m < 2 ^ 63
    → t ≤ m
    → s < 2 ^ 63
    → ltb_ℤ (wrap64 (limits.max_total_bytes -ℤ pos s)) (pos t) ≡ false
    → wrap64 (pos t +ℤ pos s) ≡ total
    → (total ≡ pos (t + s)) × (t + s ≤ m)
unfolding wrap64 ◌+ℤ◌ ◌-ℤ◌
file_total limits m t s total e a b c h k = ground (arith, e, h, k)

-- What the loop keeps: the sizes of the accepted entries are added up within the limit, and their folded
-- paths are distinct.
pub record Kept (letters : Letters) (m : ℕ) (p : Progress) : Type 0 where
  pub total_eq : p.total ≡ pos (sum_sizes p.accepted)
  pub total_le : sum_sizes p.accepted ≤ m
  pub seen_eq : p.seen ≡ map (λ e. letters.to_lower e.path) p.accepted
  pub distinct : Distinct p.seen

map-snoc :
    (f : Entry → List ℕ) (es : List Entry) (e : Entry) → map f (es ++ e ∷ []) ≡ map f es ++ f e ∷ []
map-snoc f [] e = refl
map-snoc f (x ∷ es) e = ap (◌∷◌ (f x)) (map-snoc f es e)

sized : (z : ℤ) → ltb_ℤ z (pos 0) ≡ false → z ≡ pos (pos_part z)
sized (pos n) h = refl
sized (negsuc n) h = absurd (ground (arith, h))

module _ (letters : Letters) (limits : Limits) (m : ℕ) (limit : limits.max_total_bytes ≡ pos m)
    (bound : m < 2 ^ 63) where
  check_entry_ok :
      (t : ℕ) (e : Entry) (kind : EntryType) (total : ℤ)
      → t ≤ m
      → InInt64 e.size
      → check_entry letters limits (pos t) e kind ≡ ok total
      → (total ≡ pos (t + pos_part e.size)) × (t + pos_part e.size ≤ m)
  unfolding check_entry
  check_entry_ok t e directory total a b h = ground (arith, h)
  check_entry_ok t e file total a b h =
      elim (Bool-cases
        (ltb_ℤ e.size (pos 0) || bytes_eq e.file_id [] || not (valid_sha256 letters e.sha256))) [
          | inl y ↦ absurd (ground (arith, h, y))
          | inr n ↦
              let size : e.size ≡ pos (pos_part e.size) = sized e.size (ground (arith, n)) in
              elim (Bool-cases (ltb_ℤ (wrap64 (limits.max_total_bytes -ℤ e.size)) (pos t))) [
                | inl y ↦ absurd (ground (arith, h, n, y))
                | inr k ↦
                    file_total limits m t (pos_part e.size) total limit bound a b.0
                      (subst (λ z. ltb_ℤ (wrap64 (limits.max_total_bytes -ℤ z)) (pos t) ≡ false)
                        size k)
                      (subst (λ z. wrap64 (pos t +ℤ z) ≡ total) size (ground (arith, h, n, k)))
              ]
        ]
  check_entry_ok t e (other_entry k) total a b h = absurd (ground (arith, h))

  added-Kept :
      (p : Progress) (e : Entry) (path : List ℕ) (total : ℤ)
      → InInt64 e.size
      → Kept letters m p
      → any (bytes_eq (letters.to_lower path)) p.seen ≡ false
      → check_entry letters limits p.total e e.entry_type ≡ ok total
      → Kept letters m (added letters p e path total)
  added-Kept p e path total b kept fresh checked =
      let sizes = sum_sizes-append p.accepted (record e { path = path }) in
      let one = check_entry_ok (sum_sizes p.accepted) e e.entry_type total kept.total_le b (
        subst (λ t. check_entry letters limits t e e.entry_type ≡ ok total) kept.total_eq
          checked) in
      record {
        total_eq = one.0 ∙ ap pos (sym sizes);
        total_le = subst (λ n. n ≤ m) (sym sizes) one.1;
        seen_eq =
            ap (λ s. s ++ letters.to_lower path ∷ []) kept.seen_eq
            ∙ sym (map-snoc (λ x. letters.to_lower x.path) p.accepted (record e { path = path }));
        distinct = Distinct-snoc (letters.to_lower path) p.seen kept.distinct fresh;
      }

  add_checked-Kept :
      (p q : Progress) (e : Entry) (path : List ℕ) (r : Result Error ℤ)
      → InInt64 e.size
      → Kept letters m p
      → any (bytes_eq (letters.to_lower path)) p.seen ≡ false
      → check_entry letters limits p.total e e.entry_type ≡ r
      → add_checked letters limits p e path r ≡ ok q
      → Kept letters m q
  add_checked-Kept p q e path (err x) b kept fresh checked h = cc
  add_checked-Kept p q e path (ok total) b kept fresh checked h =
      let light =
        let_through (ok (added letters p e path total))
          (ltb_ℤ limits.max_manifest_bytes (wrap64 (p.estimated +ℤ weight letters path e)))
          limit_exceeded h in
      subst (Kept letters m) (cc (light.0)) (added-Kept p e path total b kept fresh checked)

  add_at-Kept :
      (p q : Progress) (e : Entry) (r : Result Error (List ℕ × ℕ))
      → InInt64 e.size
      → Kept letters m p
      → add_at letters limits p e r ≡ ok q
      → Kept letters m q
  add_at-Kept p q e (err x) b kept h = cc
  add_at-Kept p q e (ok (path, depth)) b kept h =
      let checked = check_entry letters limits p.total e e.entry_type in
      let rest = add_checked letters limits p e path checked in
      let fits =
        let_through (refuse (any (bytes_eq (letters.to_lower path)) p.seen) path_collision >> rest)
          (ltb_ℤ limits.max_path_bytes (pos (length path)) || ltb_ℤ limits.max_depth (pos depth))
          limit_exceeded h in
      let fresh =
        let_through rest (any (bytes_eq (letters.to_lower path)) p.seen) path_collision fits.0 in
      add_checked-Kept p q e path checked b kept fresh.1 refl fresh.0

  add_entries-Kept :
      (es : List Entry) (p q : Progress)
      → All (λ e. InInt64 e.size) es
      → Kept letters m p
      → add_entries letters limits p es ≡ ok q
      → Kept letters m q
  unfolding add_entries add_entry
  add_entries-Kept [] p q b kept h = subst (Kept letters m) (cc (h)) kept
  add_entries-Kept (e ∷ es) p q b kept h =
      let step =
        first_link (λ r. add_entries letters limits r es) (add_entry letters limits p e) h in
      add_entries-Kept es step.0 q b.1
        (add_at-Kept p step.0 e (normalize_path letters e.path) b.0 kept step.2) step.1

limit_pos :
    (z : ℤ) (d : ℕ)
    → InInt64 z
    → d < 2 ^ 63
    → (or_default z d ≡ pos (pos_part (or_default z d))) × (pos_part (or_default z d) < 2 ^ 63)
limit_pos (pos n) d h k = ground (arith, h, k)
limit_pos (negsuc n) d h k = ground (arith, h, k)

start-Kept : (letters : Letters) (m : ℕ) → Kept letters m (start letters)
start-Kept letters m = record {
  total_eq = refl;
  total_le = omega arith;
  seen_eq = refl;
  distinct = tt;
}

-- In a manifest that is accepted the sizes of the files add up to at most the limit, counted without any
-- wrap-around, and no two entries have the same path when letters are folded.
pub validate_bounds :
    (letters : Letters) (w v : Manifest) (l : Limits)
    → InInt64 l.max_total_bytes
    → All (λ e. InInt64 e.size) w.entries
    → validate letters w l ≡ ok v
    → (pos (sum_sizes v.entries) ≤ℤ (normalized l).max_total_bytes)
      × Distinct (map (λ e. letters.to_lower e.path) v.entries)
unfolding validate normalized
validate_bounds letters w v l b sizes h =
    let root = letters.trim_space w.root_name in
    let total = limit_pos l.max_total_bytes 17592186044416 b (omega arith) in
    let m = pos_part (or_default l.max_total_bytes 17592186044416) in
    let built = add_entries letters (normalized l) (start letters) w.entries in
    let headed =
      let_through (built >>= finish letters root) (bad_head letters w l root) invalid_manifest h in
    let done = first_link (finish letters root) built headed.0 in
    let kept =
      add_entries-Kept letters (normalized l) m total.0 total.1 w.entries (start letters) done.0
        sizes (start-Kept letters m) done.2 in
    let same : done.0.accepted ≡ v.entries = ground (arith, done.1) in
    (
      subst (λ n. pos n ≤ℤ or_default l.max_total_bytes 17592186044416) (ap sum_sizes same)
          (subst (λ z. pos (sum_sizes done.0.accepted) ≤ℤ z) (sym total.0)
            (omega (arith, kept.total_le))),
      subst Distinct (kept.seen_eq ∙ ap (map (λ e. letters.to_lower e.path)) same) kept.distinct,
    )
