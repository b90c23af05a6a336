-- ===== src/Database/Quota/Limits.antt =====
-- The limits of internal/postgres/store.go hold for a transfer that is let through.
use nex_drop.Prelude.{
  ℕ, ◌+◌, ◌<◌, ◌^◌, Bool, false, not, List, [], ◌∷◌, get_elem?, Option, none, some, All, ◌≡◌, ◌⊎◌,
  ap, ◌∙◌, inl, inr, is_empty, arith, subst,
}
use nex_drop.Prelude.Int.{ℤ, pos, negsuc, pos_part, ◌+ℤ◌, ◌-ℤ◌, ◌≤ℤ◌, wrap64, InInt64}
use nex_drop.Prelude.Result.{ok, first_link}
use nex_drop.Transfer.Types.{Session, File, Prepared}
use nex_drop.Database.Rows.{Db}
use nex_drop.Database.Quota.{
  Settings, QuotaRow, node_files, max_int64, add_size, add_sizes, exceeds, Usage, Quota, usage_now,
  quota_now, check_quota, is_nil, enforce_transfer_quotas,
}

-- The test does not overflow: it is the comparison of the sum with the limit.
exceeds_not :
    (current limit : ℤ) (r : ℕ)
    → InInt64 limit
    → exceeds current (pos r) limit ≡ false
    → current +ℤ pos r ≤ℤ limit
unfolding exceeds wrap64 ◌-ℤ◌ ◌+ℤ◌
exceeds_not current (pos l) r b h = ground (arith, h)
exceeds_not current (negsuc l) r b h = absurd (ground (arith, h))

-- The sizes of the visited files.
abbrev pub size_of : Option File → ℕ
size_of none = 0
size_of (some f) = pos_part f.size

abbrev pub total_size : List File → List ℕ → ℕ
total_size files [] = 0
total_size files (i ∷ is) = size_of (get_elem? files i) + total_size files is

-- A size that a file may have.
abbrev pub IsSize : Option File → Type 0
IsSize none = Unit {0}
IsSize (some f) = (pos 0 ≤ℤ f.size) × (f.size ≤ℤ max_int64)

add_size_ok :
    (limit : ℤ) (t : ℕ) (o : Option File) (z : ℤ)
    → IsSize o
    → t < 2 ^ 63
    → add_size limit (pos t) o ≡ ok z
    → (z ≡ pos (t + size_of o)) × (t + size_of o < 2 ^ 63)
unfolding wrap64 ◌+ℤ◌ ◌-ℤ◌
add_size_ok limit t none z b c h = absurd (ground (arith, h))
add_size_ok limit t (some f) z b c h = ground (arith, h, b, c)

add_sizes_ok :
    (limit : ℤ) (files : List File) (is : List ℕ) (t : ℕ) (z : ℤ)
    → All (λ i. IsSize (get_elem? files i)) is
    → t < 2 ^ 63
    → add_sizes limit files (pos t) is ≡ ok z
    → z ≡ pos (t + total_size files is)
unfolding add_sizes
add_sizes_ok limit files [] t z b c h = ground (arith, h)
add_sizes_ok limit files (i ∷ is) t z b c h =
    let step =
      first_link (λ r. add_sizes limit files r is) (add_size limit (pos t) (get_elem? files i)) h in
    let one = add_size_ok limit t (get_elem? files i) step.0 b.0 c step.2 in
    let rest =
      add_sizes_ok limit files is (t + size_of (get_elem? files i)) z b.1 one.1
        (subst (λ r. add_sizes limit files r is ≡ ok z) one.0 step.1) in
    rest ∙ ap pos (omega arith)

-- The columns are `bigint`.
abbrev pub AreInt64 : Quota → Type 0
AreInt64 q =
    InInt64 q.user
    × InInt64 q.user_daily
    × InInt64 q.node_stop
    × InInt64 q.group
    × InInt64 q.group_daily

-- With so many more bytes the usage is within the quotas.
pub record IsWithin (u : Usage) (q : Quota) (in_group : Bool) (r : ℕ) : Type 0 where
  pub user : u.user +ℤ pos r ≤ℤ q.user
  pub user_daily : u.user_daily +ℤ pos r ≤ℤ q.user_daily
  pub node_wide : u.node_wide +ℤ pos r ≤ℤ q.node_stop
  pub group : (in_group ≡ false) ⊎ (u.group +ℤ pos r ≤ℤ q.group)
  pub group_daily : (in_group ≡ false) ⊎ (u.group_daily +ℤ pos r ≤ℤ q.group_daily)

group_within :
    (current limit : ℤ) (r : ℕ) (in_group : Bool)
    → InInt64 limit
    → (in_group ≡ false) ⊎ (exceeds current (pos r) limit ≡ false)
    → (in_group ≡ false) ⊎ (current +ℤ pos r ≤ℤ limit)
group_within current limit r in_group b (inl e) = inl e
group_within current limit r in_group b (inr e) = inr (exceeds_not current limit r b e)

check_quota-IsWithin :
    (s : Settings) (u : Usage) (q : Quota) (in_group warned : Bool) (r : ℕ)
    → AreInt64 q
    → check_quota s u q in_group (pos r) ≡ ok warned
    → IsWithin u q in_group r
unfolding check_quota
check_quota-IsWithin s u q in_group warned r b h = record {
  user = exceeds_not u.user q.user r b.0 (ground (arith, h));
  user_daily = exceeds_not u.user_daily q.user_daily r b.1 (ground (arith, h));
  node_wide = exceeds_not u.node_wide q.node_stop r b.2 (ground (arith, h));
  group = group_within u.group q.group r in_group b.3 (ground (arith, h));
  group_daily = group_within u.group_daily q.group_daily r in_group b.4 (ground (arith, h));
}

-- Where the limits are in the range of `int64` and no size is negative, a transfer with files for the node
-- is let through only if, with the sizes of those files added up without any wrap-around, what the user has
-- on the node, what the user has sent today and what the node holds stay within their limits, and for a
-- group also what the group has and has sent today.
pub enforce_transfer_quotas-IsWithin :
    (visit : List ℕ → List ℕ) (db : Db) (s : Settings) (quotas : List QuotaRow) (session : Session)
    (p : Prepared) (warned : Bool)
    → AreInt64 (quota_now s quotas session p)
    → All (λ i. IsSize (get_elem? p.request.files i)) (visit (node_files p.file_targets))
    → is_nil (node_files p.file_targets) ≡ false
    → enforce_transfer_quotas visit db s quotas session p ≡ ok warned
    → IsWithin
        (usage_now db session p)
        (quota_now s quotas session p)
        (not (is_empty p.request.group_id))
        (total_size p.request.files (visit (node_files p.file_targets)))
unfolding enforce_transfer_quotas
enforce_transfer_quotas-IsWithin visit db s quotas session p warned b sizes some_files h =
    let is = visit (node_files p.file_targets) in
    let u = usage_now db session p in
    let q = quota_now s quotas session p in
    let in_group = not (is_empty p.request.group_id) in
    let link =
      first_link (check_quota s u q in_group)
        (add_sizes s.single_file_limit p.request.files (pos 0) is) (rw some_files at h) in
    let total =
      add_sizes_ok s.single_file_limit p.request.files is 0 link.0 sizes (omega arith) link.2 in
    check_quota-IsWithin s u q in_group warned (total_size p.request.files is) b
      (subst (λ z. check_quota s u q in_group z ≡ ok warned) (total ∙ ap pos (omega arith)) link.1)
