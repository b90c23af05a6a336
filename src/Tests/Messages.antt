-- ===== src/Tests/Messages.antt =====
-- Concrete pages, cursors and policies of internal/messagelifecycle.
use nex_drop.Prelude.{◌≡◌, refl, true, false, [], ◌∷◌, List, none, arith, not_equal}
use nex_drop.Prelude.Int.{pos}
use nex_drop.Lifecycle.{Message, zero_cursor}
use nex_drop.Lifecycle.Page.{page}
use nex_drop.Lifecycle.Page.Unread.{DistinctIds, Dated, remaining}
use nex_drop.Lifecycle.Page.Walk.{continued, page-continued}
use nex_drop.Lifecycle.Read.{ReadCursor}
use nex_drop.Lifecycle.Retention.{
  RetentionPolicy, fixed_days, evaluate_retention, Due, evaluate_retention-Due,
}

abbrev first : Message
first = record {
  id = "a";
  created_at = pos 5;
  attachment_bytes = pos 10;
  every_target_fetched = true;
  expires_at = pos 0;
  pinned = false;
  tombstoned_at = none;
}

abbrev three : List Message
three = first ∷ record first { id = "b" } ∷ record first { id = "c"; created_at = pos 4 } ∷ []

three-DistinctIds : DistinctIds three
three-DistinctIds = (
  (not_equal "a" "b" refl, (not_equal "a" "c" refl, tt)),
  ((not_equal "b" "c" refl, tt), (tt, tt)),
)

three-Dated : Dated three
three-Dated = (refl, (refl, (refl, tt)))

page-continued_example :
    continued three (page three zero_cursor (pos 2)) ≡ remaining three zero_cursor
page-continued_example = page-continued three zero_cursor (pos 2) three-DistinctIds three-Dated

abbrev read_a : ReadCursor
read_a = record { created_at = pos 5; message_id = "a" }

abbrev read_b : ReadCursor
read_b = record { created_at = pos 5; message_id = "b" }

abbrev a_week : RetentionPolicy
a_week = record { mode = fixed_days; days = pos 7 }

evaluate_retention-Due_example :
    Due first a_week (pos 700000000000000) (evaluate_retention first a_week (pos 700000000000000))
evaluate_retention-Due_example =
    evaluate_retention-Due first a_week (pos 700000000000000) (omega arith)
