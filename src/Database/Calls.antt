-- ===== src/Database/Calls.antt =====
-- The calls of internal/postgres/store.go that change a transfer after it was created, one after the
-- other. The conversions to JSON, the hash of the encoded report, the name of the resource and the identifiers that the database
-- generates are parameters.
pub mod Lasting
use nex_drop.Prelude.{ℕ, List, [], ◌∷◌, String}
use nex_drop.Transfer.Types.{Session, Progress}
use nex_drop.Database.Rows.{Db}
use nex_drop.Database.Progress.{Codec, report_transfer_progress}
use nex_drop.Database.Changes.{retry_transfer_target, cancel_transfer, hide_transfer, read_transfer}

pub data Call : Type 0 where
  report : Session → String → Progress → ℕ → Call
  retry : Session → String → String → String → ℕ → Call
  cancel : Session → String → ℕ → Call
  hide : Session → String → ℕ → Call
  mark_read : Session → String → ℕ → Call

module _ (codec : Codec) (hash_of : Progress → List ℕ) (resource_of : String → String → String)
    (new_id : ℕ → String) where
  -- The tables after a call, whatever it answers.
  unfoldable pub after : Call → Db → Db
  after (report session id p now) db =
      (report_transfer_progress codec hash_of resource_of session id p now db).1
  after (retry session id device_id key now) db =
      (retry_transfer_target new_id db session id device_id key now).1
  after (cancel session id now) db = (cancel_transfer db session id now).1
  after (hide session id now) db = (hide_transfer db session id now).1
  after (mark_read session id now) db = (read_transfer db session id now).1

  unfoldable pub run : List Call → Db → Db
  run [] db = db
  run (c ∷ cs) db = run cs (after c db)
