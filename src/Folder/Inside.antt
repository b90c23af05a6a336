-- ===== src/Folder/Inside.antt =====
-- Where the paths of internal/folder/manifest.go lead.
use nex_drop.Prelude.{
  ℕ, Bool, true, false, ◌||◌, ◌++◌, ◌≢◌, All, subst, List, [], ◌∷◌, map, any, length, ◌==◌, ==_iff,
  ◌≡◌, refl, sym, ap, ◌∙◌, inl, inr, Bool-cases, arith, if◌then◌else◌,
}
use nex_drop.Prelude.Result.{ok}
use nex_drop.FileTransfer.Manifest.{bytes_eq}
use nex_drop.Folder.Paths.{
  Letters, slash, backslash, dot, contains_byte, grow, go_up, clean_segments, dot_if_empty, split,
  join, is_dot, is_dot_dot, backwards, clean, check_cleaned, bad_segment, normalize_path, to_slash,
}

-- How a system walks along a path from a directory, which is the segments above it, the last one first.
unfoldable pub walk : List (List ℕ) → List (List ℕ) → List (List ℕ)
walk dirs [] = dirs
walk [] (s ∷ ss) = walk (if bytes_eq s [] || is_dot s || is_dot_dot s then [] else s ∷ []) ss
walk (d ∷ dirs) (s ∷ ss) =
    walk
      (if bytes_eq s [] || is_dot s then d ∷ dirs else if is_dot_dot s then dirs else s ∷ d ∷ dirs)
      ss

grow-join : (c : ℕ) (ss : List (List ℕ)) → join (grow c ss) ≡ c ∷ join ss
unfolding join
grow-join c [] = refl
grow-join c (s ∷ []) = refl
grow-join c (s ∷ t ∷ ss) = refl

slash-join : (c : ℕ) (cs : List ℕ) → join ([] ∷ split cs) ≡ slash ∷ join (split cs)
unfolding join split
slash-join c [] = refl
slash-join c (d ∷ ds) = elim (Bool-cases (d == slash)) [
  | inl y ↦ rw y refl
  | inr n ↦ rw n (nonempty d (split ds))
]
  where
    nonempty : (d : ℕ) (ss : List (List ℕ)) → join ([] ∷ grow d ss) ≡ slash ∷ join (grow d ss)
    nonempty d [] = refl
    nonempty d (s ∷ ss) = refl

pub join-split : (cs : List ℕ) → join (split cs) ≡ cs
unfolding split join
join-split [] = refl
join-split (c ∷ cs) = elim (Bool-cases (c == slash)) [
  | inl y ↦
      let same : c ≡ slash = (==_iff c slash).0 y in
      rw y (slash-join c cs ∙ ap (◌∷◌ slash) (join-split cs) ∙ ap (λ b. b ∷ cs) (sym same))
  | inr n ↦ rw n (grow-join c (split cs) ∙ ap (◌∷◌ c) (join-split cs))
]

-- No backslash.
abbrev pub Free : List ℕ → Type 0
Free s = contains_byte backslash s ≡ false

Free-append : (xs ys : List ℕ) → Free xs → Free ys → Free (xs ++ ys)
Free-append [] ys h k = k
Free-append (x ∷ xs) ys h k = ground (arith, Free-append xs ys)

Free-to_slash : (letters : Letters) (cs : List ℕ) → Free (map (to_slash letters) cs)
Free-to_slash letters [] = refl
Free-to_slash letters (c ∷ cs) = ground (arith, Free-to_slash letters cs)

Free-grow :
    (c : ℕ) (ss : List (List ℕ)) → (c == backslash) ≡ false → All Free ss → All Free (grow c ss)
Free-grow c [] h a = (ground arith, tt)
Free-grow c (s ∷ ss) h a = (ground (arith, a.0), a.1)

Free-split : (cs : List ℕ) → Free cs → All Free (split cs)
unfolding split
Free-split [] h = (refl, tt)
Free-split (c ∷ cs) h = elim (Bool-cases (c == slash)) [
  | inl y ↦ rw y (refl, Free-split cs (ground (arith, h)))
  | inr n ↦ rw n (Free-grow c (split cs) (ground (arith, h)) (Free-split cs (ground (arith, h))))
]

Free-go_up : (out : List (List ℕ)) → All Free out → All Free (go_up out)
Free-go_up [] a = (refl, tt)
Free-go_up (s ∷ ss) a = elim (Bool-cases (is_dot_dot s)) [
  | inl y ↦ rw y (refl, a)
  | inr n ↦ rw n (a.1)
]

Free-step :
    (skip up : Bool) (s : List ℕ) (out : List (List ℕ))
    → Free s
    → All Free out
    → All Free (if skip then out else if up then go_up out else s ∷ out)
Free-step true up s out h a = a
Free-step false true s out h a = Free-go_up out a
Free-step false false s out h a = (h, a)

Free-clean_segments :
    (ss out : List (List ℕ)) → All Free out → All Free ss → All Free (clean_segments out ss)
unfolding clean_segments
Free-clean_segments [] out a b = a
Free-clean_segments (s ∷ ss) out a b =
    Free-clean_segments ss _ (Free-step (bytes_eq s [] || is_dot s) (is_dot_dot s) s out b.0 a) b.1

Free-backwards : (out ss : List (List ℕ)) → All Free out → All Free ss → All Free (backwards out ss)
Free-backwards out [] a b = a
Free-backwards out (s ∷ ss) a b = Free-backwards (s ∷ out) ss (b.0, a) b.1

Free-join : (ss : List (List ℕ)) → All Free ss → Free (join ss)
unfolding join
Free-join [] a = refl
Free-join (s ∷ []) a = a.0
Free-join (s ∷ t ∷ ss) a =
    Free-append s (slash ∷ join (t ∷ ss)) a.0 (ground (arith, Free-join (t ∷ ss) a.1))

Free-dot_if_empty : (ss : List (List ℕ)) → All Free ss → Free (dot_if_empty ss)
Free-dot_if_empty [] a = refl
Free-dot_if_empty (s ∷ ss) a = Free-join (s ∷ ss) a

Free-clean : (cs : List ℕ) → Free cs → Free (clean cs)
unfolding clean
Free-clean cs h = Free-dot_if_empty (backwards [] (clean_segments [] (split cs))) (
    Free-backwards [] (clean_segments [] (split cs)) tt
      (Free-clean_segments (split cs) [] tt (Free-split cs h)))

-- The name of an entry of a directory.
abbrev pub Name : List ℕ → Type 0
Name s = (s ≢ []) × (s ≢ dot ∷ []) × (s ≢ dot ∷ dot ∷ [])

module _ (letters : Letters) where
  walk_good :
      (dirs ss : List (List ℕ))
      → any (bad_segment letters) ss ≡ false
      → walk dirs ss ≡ backwards dirs ss
  unfolding walk bad_segment
  walk_good dirs [] h = refl
  walk_good [] (s ∷ ss) h = ground (arith, h, walk_good (s ∷ []) ss)
  walk_good (d ∷ dirs) (s ∷ ss) h = ground (arith, h, walk_good (s ∷ d ∷ dirs) ss)

  check_cleaned_ok :
      (cleaned p : List ℕ) (n : ℕ)
      → check_cleaned letters cleaned ≡ ok (p, n)
      → (any (bad_segment letters) (split cleaned) ≡ false)
        × (p ≡ join (split cleaned))
        × (n ≡ length (split cleaned))
  unfolding check_cleaned
  check_cleaned_ok cleaned p n h = ground (arith, h)

  normalize_path_ok :
      (value p : List ℕ) (n : ℕ)
      → normalize_path letters value ≡ ok (p, n)
      → check_cleaned letters (clean (map (to_slash letters) value)) ≡ ok (p, n)
  unfolding normalize_path
  normalize_path_ok value p n h = ground (arith, h)

  good_segment-Name : (s : List ℕ) → bad_segment letters s ≡ false → Name s
  unfolding bad_segment
  good_segment-Name s h = (
    λ e. cc (subst (λ q. bad_segment letters q ≡ false) e h),
    λ e. cc (subst (λ q. bad_segment letters q ≡ false) e h),
    λ e. cc (subst (λ q. bad_segment letters q ≡ false) e h),
  )

  good_segments-Name : (ss : List (List ℕ)) → any (bad_segment letters) ss ≡ false → All Name ss
  good_segments-Name [] h = tt
  good_segments-Name (s ∷ ss) h =
      (good_segment-Name s (ground (arith, h)), good_segments-Name ss (ground (arith, h)))

  -- An accepted path has no backslash, and between its slashes stand names of entries only, none empty, `.` or
  -- `..`, as many as the depth that is answered. A walk along it, from whichever directory, thus goes
  -- down by these names and never up, on a system whose paths have no drives.
  pub normalize_path-walk :
      (value p : List ℕ) (n : ℕ) (dirs : List (List ℕ))
      → normalize_path letters value ≡ ok (p, n)
      → (walk dirs (split p) ≡ backwards dirs (split p))
        × All Name (split p)
        × Free p
        × (n ≡ length (split p))
  normalize_path-walk value p n dirs h =
      let slashed = map (to_slash letters) value in
      let cleaned = clean slashed in
      let checked = check_cleaned_ok cleaned p n (normalize_path_ok value p n h) in
      let same : p ≡ cleaned = checked.1 ∙ join-split cleaned in
      (
        rw same (walk_good dirs (split cleaned) checked.0),
        rw same (good_segments-Name (split cleaned) checked.0),
        rw same (Free-clean slashed (Free-to_slash letters value)),
        checked.2 ∙ ap (λ q. length (split q)) (sym same),
      )
