-- ===== src/Transfer/Prepare/Routes.antt =====
-- What the prepared targets of internal/transfer/service.go satisfy.
use nex_drop.Prelude.{
  ℕ, zero, suc, ◌+◌, ◌*◌, ◌≡◌, ◌↔◌, ◌⊎◌, inl, inr, refl, ap, ◌∙◌, none, some, get_elem?,
  get_elem?-append_left, get_elem?-append_right, ◌++◌, false, String, Bool, true, false, List, [],
  ◌∷◌, map, All, any, all, length, length-append, Bool-cases, arith, if◌then◌else◌,
}
use nex_drop.Domain.Route.{SelectedRoute, RouteRequest, mixed, select_route, is_large}
use nex_drop.Domain.Route.Safety.{text_not_large, Justified, select_route-Justified}
use nex_drop.Domain.Status.{TransferStatus, waiting_for_lan, queued, transferring_lan}
use nex_drop.Transfer.Types.{File, FileTarget, Request, Target}
use nex_drop.Transfer.Validate.{is_text_content}
use nex_drop.Transfer.Prepare.{
  initial_status, route_eq, route_keys, only_route, text_request, text_route, file_route,
  file_targets_from, text_targets, files_targets, files_file_targets, is_waiting_for_lan,
  aggregate_status, prepare,
}

abbrev pub ids_of : List Target → List String
ids_of = map λ t. t.device_id

ids_of-text : (r : Request) (ids : List String) → ids_of (text_targets r ids) ≡ ids
unfolding text_targets
ids_of-text r [] = refl
ids_of-text r (id ∷ ids) = ap (◌∷◌ id) (ids_of-text r ids)

ids_of-files : (r : Request) (ids : List String) → ids_of (files_targets r ids) ≡ ids
unfolding files_targets
ids_of-files r [] = refl
ids_of-files r (id ∷ ids) = ap (◌∷◌ id) (ids_of-files r ids)

length-file_targets_from :
    (r : Request) (id : String) (i : ℕ) (fs : List File)
    → length (file_targets_from r id i fs) ≡ length fs
unfolding file_targets_from
length-file_targets_from r id i [] = refl
length-file_targets_from r id i (f ∷ fs) = ap suc (length-file_targets_from r id (i + 1) fs)

length-files_file_targets :
    (r : Request) (ids : List String)
    → length (files_file_targets r ids) ≡ length ids * length r.files
unfolding files_file_targets
length-files_file_targets r [] = omega arith
length-files_file_targets r (id ∷ ids) = omega (
  arith,
  length-append (file_targets_from r id 0 r.files) (files_file_targets r ids),
  length-file_targets_from r id 0 r.files,
  length-files_file_targets r ids,
)

-- The target of a file on a device, with the route that is chosen for this pair.
abbrev pub target_of_pair : Request → String → ℕ → File → FileTarget
target_of_pair r id index f = record {
  file_index = index;
  device_id = id;
  selected_route = file_route r id f;
  status = initial_status (file_route r id f);
}

get_elem?-file_targets_from :
    (r : Request) (id : String) (start : ℕ) (fs : List File) (j : ℕ) (f : File)
    → get_elem? fs j ≡ some f
    → get_elem? (file_targets_from r id start fs) j ≡ some (target_of_pair r id (start + j) f)
unfolding file_targets_from
get_elem?-file_targets_from r id start [] j f h = absurd (cc (h))
get_elem?-file_targets_from r id start (g ∷ fs) zero f h =
    let same : g ≡ f = cc (h) in
    ap some
      (ap (target_of_pair r id start) same ∙ ap (λ (k : ℕ). target_of_pair r id k f) (omega arith))
get_elem?-file_targets_from r id start (g ∷ fs) (suc j) f h =
    get_elem?-file_targets_from r id (start + 1) fs j f h
    ∙ ap (λ (k : ℕ). some (target_of_pair r id k f)) (omega arith)

get_elem?-files_file_targets :
    (r : Request) (ids : List String) (i j : ℕ) (id : String) (f : File)
    → get_elem? ids i ≡ some id
    → get_elem? r.files j ≡ some f
    → get_elem? (files_file_targets r ids) (i * length r.files + j) ≡ some (target_of_pair r id j f)
unfolding files_file_targets
get_elem?-files_file_targets r [] i j id f h k = absurd (cc (h))
get_elem?-files_file_targets r (d ∷ ids) zero j id f h k =
    let same : d ≡ id = cc (h) in
    let first = file_targets_from r d 0 r.files in
    ap (get_elem? (first ++ files_file_targets r ids)) (omega arith)
    ∙ get_elem?-append_left first (files_file_targets r ids) j (target_of_pair r d (0 + j) f)
        (get_elem?-file_targets_from r d 0 r.files j f k)
    ∙ ap (λ (e : String). some (target_of_pair r e (0 + j) f)) same
    ∙ ap (λ (n : ℕ). some (target_of_pair r id n f)) (omega arith)
get_elem?-files_file_targets r (d ∷ ids) (suc i) j id f h k =
    let first = file_targets_from r d 0 r.files in
    ap (get_elem? (first ++ files_file_targets r ids))
      (omega (arith, length-file_targets_from r d 0 r.files))
    ∙ get_elem?-append_right first (files_file_targets r ids) (i * length r.files + j)
    ∙ get_elem?-files_file_targets r ids i j id f h k

-- A transfer has one target for each resolved device, in order; a transfer of files has as many file targets
-- as there are pairs of a device and a file, and a text has none.
prepare_shape :
    (r : Request) (ids : List String) (now : ℕ) (fp : List ℕ)
    → let p = prepare r ids now fp in
      (ids_of p.targets ≡ ids)
      × (length p.file_targets
          ≡ (if is_text_content r.content_type then 0 else length ids * length r.files))
unfolding prepare
prepare_shape r ids now fp = elim (Bool-cases (is_text_content r.content_type)) [
  | inl e ↦ rw e (ids_of-text r ids, refl)
  | inr e ↦ rw e (ids_of-files r ids, length-files_file_targets r ids)
]

-- For the `i`-th resolved device and the `j`-th file of a request: the transfer has one target for each
-- resolved device, in order, and as many file targets as there are pairs of a device and a file, or
-- none for a text; in their order, device by device, the file target of this pair names this device
-- and the index `j`, with the route that is chosen for this file on this device and the status that
-- the route starts in.
pub prepare_pairs :
    (r : Request) (ids : List String) (now : ℕ) (fp : List ℕ) (i j : ℕ) (id : String) (f : File)
    → get_elem? ids i ≡ some id
    → get_elem? r.files j ≡ some f
    → let p = prepare r ids now fp in
      (ids_of p.targets ≡ ids)
      × (length p.file_targets
          ≡ (if is_text_content r.content_type then 0 else length ids * length r.files))
      × (get_elem? p.file_targets (i * length r.files + j)
          ≡ (if is_text_content r.content_type then none else some (target_of_pair r id j f)))
unfolding prepare
prepare_pairs r ids now fp i j id f h k = elim (Bool-cases (is_text_content r.content_type)) [
  | inl e ↦ rw e (ids_of-text r ids, refl, refl)
  | inr e ↦ rw e (
    ids_of-files r ids,
    length-files_file_targets r ids,
    get_elem?-files_file_targets r ids i j id f h k,
  )
]

two_keys :
    (a b : SelectedRoute) (keys rs : List SelectedRoute)
    → only_route (route_keys (a ∷ b ∷ keys) rs) ≡ mixed
unfolding route_keys only_route
two_keys a b keys [] = refl
two_keys a b keys (r ∷ rs) = elim (Bool-cases (any (route_eq r) (a ∷ b ∷ keys))) [
  | inl e ↦ rw e (two_keys a b keys rs)
  | inr e ↦ rw e (two_keys r a (b ∷ keys) rs)
]

one_key :
    (route : SelectedRoute) (rs : List SelectedRoute)
    → only_route (route_keys (route ∷ []) rs)
      ≡ (if all (λ r. route_eq r route) rs then route else mixed)
unfolding route_keys only_route
one_key route [] = refl
one_key route (r ∷ rs) = elim (Bool-cases (route_eq r route)) [
  | inl e ↦ rw e (one_key route rs)
  | inr e ↦ rw e (two_keys r route [] rs)
]

-- The route of a target with at least one file is the route of its files if they all have one
-- route, and `MIXED` if they differ.
pub only_route-route_keys :
    (route : SelectedRoute) (rs : List SelectedRoute)
    → only_route (route_keys [] (route ∷ rs))
      ≡ (if all (λ r. route_eq r route) rs then route else mixed)
unfolding route_keys
only_route-route_keys route rs = one_key route rs

-- The statuses that a text starts in.
abbrev pub Started : TransferStatus → Type 0
Started transferring_lan = Unit
Started queued = Unit
Started waiting_for_lan = Unit
Started _ = ⊥

start_of_text :
    (route : SelectedRoute) (r : RouteRequest) (large : Bool)
    → r.node_available ≡ true
    → large ≡ false
    → Justified r large route
    → Started (initial_status route)
unfolding initial_status
start_of_text route r large n l j = ground arith

-- A text starts on its way to every target or waits there for the LAN: no target of it starts
-- failed, drafted or without a route.
pub text_targets-Started :
    (r : Request) (ids : List String) → All (λ t. Started t.status) (text_targets r ids)
unfolding text_targets text_route
text_targets-Started r [] = tt
text_targets-Started r (id ∷ ids) = (
  start_of_text (select_route q) q (is_large q) refl (text_not_large q refl)
      (select_route-Justified q),
  text_targets-Started r ids,
)
  where
    q : RouteRequest
    q = text_request r id

aggregate_status_waits :
    (ts : List Target)
    → all (λ t. is_waiting_for_lan t.status) ts ≡ true
    → All (λ t. t.status ≡ waiting_for_lan) ts
aggregate_status_waits [] h = tt
aggregate_status_waits (t ∷ ts) h = (ground arith, aggregate_status_waits ts (ground arith))

waits_aggregate :
    (ts : List Target)
    → All (λ t. t.status ≡ waiting_for_lan) ts
    → all (λ t. is_waiting_for_lan t.status) ts ≡ true
waits_aggregate [] h = refl
waits_aggregate (t ∷ ts) h = ground (arith, h.0, waits_aggregate ts h.1)

-- A transfer starts as `WAITING_FOR_LAN` exactly when all its targets wait for the LAN, and as
-- `QUEUED` otherwise.
pub aggregate_status_iff :
    (ts : List Target)
    → ((aggregate_status ts ≡ waiting_for_lan) ↔ All (λ t. t.status ≡ waiting_for_lan) ts)
      × ((aggregate_status ts ≡ waiting_for_lan) ⊎ (aggregate_status ts ≡ queued))
unfolding aggregate_status
aggregate_status_iff ts =
    ((λ h. aggregate_status_waits ts (ground arith), λ a. rw (waits_aggregate ts a)), ground arith)
