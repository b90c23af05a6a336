-- ===== src/Database/Replay.antt =====
-- A report that is sent again with its key, in internal/postgres/store.go.
use nex_drop.Prelude.{
  ℕ, Bool, false, any, List, [], ◌∷◌, Option, none, some, String, eq_iff, is_empty, length, not,
  select, true, if◌then◌else◌, ◌==◌, ◌≡◌, refl, sym, ap, ◌∙◌, inl, inr, subst, Bool-cases, arith,
}
use nex_drop.Prelude.Result.{Result, ok, err}
use nex_drop.Transfer.Types.{Error, store_failure, Session, Transfer, Progress}
use nex_drop.FileTransfer.Manifest.Splits.{bytes_eq_refl}
use nex_drop.Database.Sql.{first, update, insert}
use nex_drop.Database.Rows.{Db, TargetRow, Execution, IdempotencyRecord}
use nex_drop.Database.View.{get_transfer}
use nex_drop.Database.Progress.{
  reported_target, is_repeated, conflicts, apply_progress, is_record, new_record, begin_record,
  is_open_record, Codec, stored_text, store_answer, commit_record, replay, used_record,
  report_target, report_with, report_as, report_transfer_progress,
}
use nex_drop.Database.Steps.Report.{apply_progress_lem}

abbrev pub answered : List ℕ → IdempotencyRecord → IdempotencyRecord
answered text r = record r { response = some text }

-- The table of the keys after an answer was kept under a text.
abbrev AnswersWith : List IdempotencyRecord → (IdempotencyRecord → Bool) → List ℕ → Db → Type 0
AnswersWith rs is_open text db' = db'.records ≡ update is_open (answered text) rs

store_answer_ok :
    (actor resource key : String) (hash : List ℕ) (old db db' : Db) (s t : Transfer)
    (stored : Result Error (List ℕ))
    → store_answer actor resource key hash old db s stored ≡ (ok t, db')
    → (s ≡ t)
      × (text : List ℕ) × (stored ≡ ok text)
      × AnswersWith db.records (is_open_record actor resource key hash) text db'
store_answer_ok actor resource key hash old db db' s t (err e) h = absurd (ground (arith, h))
store_answer_ok actor resource key hash old db db' s t (ok text) h =
    elim (Bool-cases (length (select (is_open_record actor resource key hash) db.records) == 1)) [
      | inl y ↦ (ground (arith, h, y), text, refl, ground (arith, h, y))
      | inr m ↦ absurd (ground (arith, h, m))
    ]

commit_record_ok :
    (codec : Codec) (actor resource key : String) (hash : List ℕ) (old db db' : Db)
    (result : Result Error Transfer) (t : Transfer)
    → is_empty key ≡ false
    → commit_record codec actor resource key hash old db result ≡ (ok t, db')
    → (text : List ℕ) × (stored_text codec t ≡ ok text)
      × AnswersWith db.records (is_open_record actor resource key hash) text db'
unfolding commit_record
commit_record_ok codec actor resource key hash old db db' (err e) t n h = absurd (ground (arith, h))
commit_record_ok codec actor resource key hash old db db' (ok s) t n h =
    let (same, text, stored, kept) =
      store_answer_ok actor resource key hash old db db' s t (stored_text codec s) (rw n at h) in
    (text, subst (λ a. stored_text codec a ≡ ok text) (same) stored, kept)

-- The record that was begun is the one that is found.
first-answered :
    (session : Session) (actor resource key : String) (hash : List ℕ) (text : List ℕ)
    (rs : List IdempotencyRecord)
    → first (is_record actor resource key) rs ≡ none
    → first (is_record actor resource key) (
        update
          (is_open_record actor resource key hash)
          (answered text)
          (insert (new_record session actor resource key hash) rs))
      ≡ some (answered text (new_record session actor resource key hash))
first-answered session actor resource key hash text [] h = ground (
  arith,
  (eq_iff actor actor).1 refl,
  (eq_iff resource resource).1 refl,
  (eq_iff key key).1 refl,
  bytes_eq_refl hash,
)
first-answered session actor resource key hash text (r ∷ rs) h =
    elim (Bool-cases (is_record actor resource key r)) [
      | inl y ↦ absurd (ground (arith, h, y))
      | inr n ↦ ground (arith, h, n, first-answered session actor resource key hash text rs)
    ]

-- A text that PostgreSQL's cast to `bytea` does not read as an escape.
abbrev pub is_plain : List ℕ → Bool
is_plain text = not (any (λ b. b == 92) text)

module _ (codec : Codec) (hash_of : Progress → List ℕ)
    (resource_of : String → String → String) where
  -- The key finds a record with a text.
  abbrev Recorded : String → String → Progress → Db → List ℕ → Type 0
  Recorded actor id p db text =
      (r : IdempotencyRecord) × (used_record actor (resource_of id p.device_id) p.idempotency_key db
        ≡ some r)
      × (r.hash ≡ hash_of p)
      × (r.response ≡ some text)

  -- The tables after an answered report with a new key.
  abbrev Kept : String → Progress → String → Db → Db → Transfer → Type 0
  Kept id p actor db db' t =
      (text : List ℕ) × (stored_text codec t ≡ ok text)
      × AnswersWith db.records
          (is_open_record actor (resource_of id p.device_id) p.idempotency_key (hash_of p)) text db'

  new_Recorded :
      (actor : String) (session : Session) (id : String) (p : Progress) (db db' : Db)
      (text : List ℕ)
      → is_empty p.idempotency_key ≡ false
      → used_record actor (resource_of id p.device_id) p.idempotency_key db ≡ none
      → AnswersWith
          (begin_record session actor
            (resource_of id p.device_id)
            p.idempotency_key
            (hash_of p)
            db).records
          (is_open_record actor (resource_of id p.device_id) p.idempotency_key (hash_of p))
          text
          db'
      → Recorded actor id p db' text
  new_Recorded actor session id p db db' text n u h =
      let key = p.idempotency_key in
      let resource = resource_of id p.device_id in
      (
        answered text (new_record session actor resource key (hash_of p)),
        ground
            (arith, n, h, u, first-answered session actor resource key (hash_of p) text db.records),
        refl,
        refl,
      )

  report_target-Kept :
      (actor : String) (session : Session) (id : String) (p : Progress) (now : ℕ) (old db db' : Db)
      (o : Option (TargetRow × Execution)) (t : Transfer)
      → is_empty p.idempotency_key ≡ false
      → report_target codec hash_of resource_of actor session id p now old db o ≡ (ok t, db')
      → Kept id p actor db db' t
  report_target-Kept actor session id p now old db db' none t n h = absurd (ground (arith, h))
  report_target-Kept actor session id p now old db db' (some (r, e)) t n h =
      let key = p.idempotency_key in
      let resource = resource_of id p.device_id in
      let done = apply_progress id p r e now db in
      elim (Bool-cases (is_repeated r.status p.status)) [
        | inl y ↦
            commit_record_ok codec actor resource key (hash_of p) old db db'
              (get_transfer db session id) t n (rw y at h)
        | inr m ↦ elim (Bool-cases (conflicts r.status p.status)) [
          | inl y ↦ absurd (ground (arith, h, m, y))
          | inr k ↦
              let (text, stored, kept) =
                commit_record_ok codec actor resource key (hash_of p) old done db'
                  (get_transfer done session id) t n (rw (m, k) at h) in
              (
                text,
                stored,
                kept
                    ∙ ap (update (is_open_record actor resource key (hash_of p)) (answered text))
                        (apply_progress_lem id p r e now db).1,
              )
        ]
      ]

  -- A report with a new key that is answered leaves the text of the answer under the key.
  report_new :
      (actor : String) (session : Session) (id : String) (p : Progress) (now : ℕ) (db db' : Db)
      (t : Transfer)
      → is_empty p.idempotency_key ≡ false
      → used_record actor (resource_of id p.device_id) p.idempotency_key db ≡ none
      → report_with codec hash_of resource_of actor session id p now db none ≡ (ok t, db')
      → (text : List ℕ) × (stored_text codec t ≡ ok text) × Recorded actor id p db' text
  report_new actor session id p now db db' t n u h =
      let begun =
        begin_record session actor (resource_of id p.device_id) p.idempotency_key (hash_of p) db in
      let (text, stored, kept) =
        report_target-Kept actor session id p now db begun db'
          (reported_target begun id p.device_id actor) t n h in
      (text, stored, new_Recorded actor session id p db db' text n u kept)

  -- The key finds the same record in other tables with the same keys.
  used_record-same :
      (actor resource key : String) (a b : Db)
      → b.records ≡ a.records
      → used_record actor resource key b ≡ used_record actor resource key a
  used_record-same actor resource key a b h =
      ap (λ rs. if is_empty key then none else first (is_record actor resource key) rs) h

  -- What the key is answered, as far as it is known.
  abbrev Replays : String → String → Progress → Db → Result Error Transfer → Type 0
  Replays actor id p db answer =
      (r : IdempotencyRecord) × (used_record actor (resource_of id p.device_id) p.idempotency_key db
        ≡ some r)
      × (replay codec (hash_of p) r ≡ answer)

  resend :
      (actor : String) (session : Session) (id : String) (p : Progress) (later : ℕ) (db next : Db)
      (answer : Result Error Transfer)
      → Replays actor id p db answer
      → next.records ≡ db.records
      → report_as codec hash_of resource_of (some actor) session id p later next ≡ (answer, next)
  resend actor session id p later db next answer (r, found, same) kept =
      rw
        (used_record-same actor (resource_of id p.device_id) p.idempotency_key db next kept ∙ found)
        (ap (λ a. (a, next)) same)

  readable :
      (r : IdempotencyRecord) (p : Progress) (text : List ℕ) (t : Transfer)
      → r.hash ≡ hash_of p
      → r.response ≡ some text
      → codec.bytea text ≡ ok text
      → codec.unmarshal text ≡ ok t
      → replay codec (hash_of p) r ≡ ok t
  readable r p text t h e b u = ground (arith, h, e, b, u, bytes_eq_refl (hash_of p))

  unreadable :
      (r : IdempotencyRecord) (hash text : List ℕ) (e : String)
      → r.response ≡ some text
      → codec.bytea text ≡ err e
      → replay codec hash r ≡ err (store_failure e)
  unreadable r hash text e s b = ground (arith, s, b)

  module _ (plain_cast : (text : List ℕ) → is_plain text ≡ true → codec.bytea text ≡ ok text) where
    answered-Replays :
        (actor : String) (session : Session) (id : String) (p : Progress) (now : ℕ) (db db' : Db)
        (t : Transfer) (o : Option IdempotencyRecord)
        → ((text : List ℕ) → stored_text codec t ≡ ok text → codec.unmarshal text ≡ ok t)
        → ((text : List ℕ) → stored_text codec t ≡ ok text → is_plain text ≡ true)
        → is_empty p.idempotency_key ≡ false
        → used_record actor (resource_of id p.device_id) p.idempotency_key db ≡ o
        → report_with codec hash_of resource_of actor session id p now db o ≡ (ok t, db')
        → Replays actor id p db' (ok t)
    answered-Replays actor session id p now db db' t (some r) reads plain n u h = (
      r,
      subst (λ d. used_record actor (resource_of id p.device_id) p.idempotency_key d ≡ some r)
          (ap (λ q. q.1) h) u,
      ap (λ q. q.0) h,
    )
    answered-Replays actor session id p now db db' t none reads plain n u h =
        let (text, stored, (r, found, hash, response)) =
          report_new actor session id p now db db' t n u h in
        (
          r,
          found,
          readable r p text t hash response (plain_cast text (plain text stored))
              (reads text stored),
        )

    replayed :
        (o : Option String) (session : Session) (id : String) (p : Progress) (now later : ℕ)
        (db db' next : Db) (t : Transfer)
        → ((text : List ℕ) → stored_text codec t ≡ ok text → codec.unmarshal text ≡ ok t)
        → ((text : List ℕ) → stored_text codec t ≡ ok text → is_plain text ≡ true)
        → is_empty p.idempotency_key ≡ false
        → report_as codec hash_of resource_of o session id p now db ≡ (ok t, db')
        → next.records ≡ db'.records
        → report_as codec hash_of resource_of o session id p later next ≡ (ok t, next)
    replayed none session id p now later db db' next t reads plain n h k =
        absurd (ground (arith, h))
    replayed (some actor) session id p now later db db' next t reads plain n h k =
        resend actor session id p later db' next (ok t)
          (answered-Replays actor session id p now db db' t
            (used_record actor (resource_of id p.device_id) p.idempotency_key db) reads plain n refl
            h)
          k

    -- A report with a key that was answered is answered the same when it is sent again by the same session,
    -- and changes nothing then, whatever else became of the tables as long as the kept keys are the
    -- same: where the cast to `bytea` keeps a text with no backslash, the answer's JSON is decoded to
    -- the answer, and has no backslash.
    pub report_transfer_progress_replay :
        (session : Session) (id : String) (p : Progress) (now later : ℕ) (db db' next : Db)
        (t : Transfer)
        → ((text : List ℕ) → stored_text codec t ≡ ok text → codec.unmarshal text ≡ ok t)
        → ((text : List ℕ) → stored_text codec t ≡ ok text → is_plain text ≡ true)
        → is_empty p.idempotency_key ≡ false
        → report_transfer_progress codec hash_of resource_of session id p now db ≡ (ok t, db')
        → next.records ≡ db'.records
        → report_transfer_progress codec hash_of resource_of session id p later next ≡ (ok t, next)
    unfolding report_transfer_progress
    report_transfer_progress_replay session id p now later db db' next t reads plain n h k =
        replayed session.device_id session id p now later db db' next t reads plain n h k

  -- A report with a new key that was answered is not answered when the same session sends it again, where the
  -- JSON of the answer is no `bytea` to PostgreSQL, as with a backslash that begins no escape of that
  -- type: it fails then with the error of the cast and changes nothing, though the record of its key is
  -- complete, whatever else became of the tables as long as the kept keys are the same.
  pub report_transfer_progress_unreadable :
      (session : Session) (actor id : String) (p : Progress) (now later : ℕ) (db db' next : Db)
      (t : Transfer) (e : String)
      → session.device_id ≡ some actor
      → is_empty p.idempotency_key ≡ false
      → used_record actor (resource_of id p.device_id) p.idempotency_key db ≡ none
      → ((text : List ℕ) → stored_text codec t ≡ ok text → codec.bytea text ≡ err e)
      → report_transfer_progress codec hash_of resource_of session id p now db ≡ (ok t, db')
      → next.records ≡ db'.records
      → report_transfer_progress codec hash_of resource_of session id p later next
        ≡ (err (store_failure e), next)
  unfolding report_transfer_progress
  report_transfer_progress_unreadable session actor id p now later db db' next t e s n u cast h k =
      subst
        (λ o.
          report_as codec hash_of resource_of o session id p now db ≡ (ok t, db')
          → report_as codec hash_of resource_of o session id p later next
            ≡ (err (store_failure e), next))
        (sym s)
        (λ g.
          let (text, stored, (r, found, hash, response)) =
            report_new actor session id p now db db' t n u (rw u at g) in
          resend actor session id p later db' next (err (store_failure e))
            (r, found, unreadable r (hash_of p) text e response (cast text stored)) k)
        h
