-- ===== src/Tests/Transfer.antt =====
-- Concrete requests of internal/transfer.
use nex_drop.Prelude.{
  ℕ, suc, ◌+◌, ◌≡◌, ◌⊎◌, ◌↔◌, ◌*◌, refl, true, false, [], ◌∷◌, List, String, none, some, arith,
  length, get_elem?, if◌then◌else◌,
}
use nex_drop.Prelude.Int.{pos}
use nex_drop.Prelude.Result.{ok, err}
use nex_drop.Domain.Route.{automatic, node, lan, unset}
use nex_drop.Domain.Status.{delivered}
use nex_drop.Transfer.Types.{Error, File, Request, Target, Session, single, file, text, not_found}
use nex_drop.Transfer.Validate.{
  validate_request, has_duplicates, valid_target_type, valid_content_type, validate_targets,
  validate_content, is_text_content,
}
use nex_drop.Transfer.Validate.Spec.{WellFormed, validate_request_iff}
use nex_drop.Transfer.Prepare.{prepare, new_target}
use nex_drop.Transfer.Prepare.Routes.{ids_of, target_of_pair, prepare_pairs}
use nex_drop.Transfer.Service.{Store, create}
use nex_drop.Transfer.Service.Gate.{Admitted, stored, create_refuses_or_stores, create_stores}
use nex_drop.Transfer.Timeline.{
  TimelineStore, TimelineEventReport, target_delivered, event_code_for_status,
  report_timeline_event, is_valid,
}
use nex_drop.Transfer.Timeline.Reportable.{report_timeline_event-status}
use nex_drop.Transfer.Types.{invalid}

abbrev greeting : Request
greeting = record {
  idempotency_key = "k";
  client_batch_id = "";
  target_type = single;
  target_device_ids = "phone" ∷ [];
  group_id = "";
  lan_available_device_ids = [];
  content_type = text;
  content = 104 ∷ 105 ∷ [];
  files = [];
  route_mode = automatic;
  allow_large_file_via_node = false;
  wrapped_content_keys = λ id. 1 ∷ [];
}

abbrev laptop : Session
laptop = record { id = "u"; session_id = "s"; device_id = some "laptop" }

-- A store that counts the transfers that it creates.
abbrev counting : Store ℕ
counting = record {
  resolve_transfer_targets = λ w s kind group ids. ok ids;
  create_transfer = λ w s p. (err not_found, suc w);
  list_transfers = λ w s. ok [];
  get_transfer = λ w s id. err not_found;
  cancel_transfer = λ w s id now. (err not_found, w);
  hide_transfer = λ w s id now. (ok tt, w);
  read_transfer = λ w s id now. (err not_found, w);
  report_transfer_progress = λ w s id p now. (err not_found, w);
  list_transfer_page = none;
  retry_transfer_target = none;
}

abbrev no_fingerprint : Request → List ℕ
no_fingerprint r = []

greeting_valid : validate_request greeting ≡ ok tt
unfolding validate_request has_duplicates valid_target_type valid_content_type validate_targets
    validate_content
greeting_valid = refl

greeting-WellFormed : WellFormed greeting
greeting-WellFormed = (validate_request_iff greeting).0 greeting_valid

greeting-Admitted : Admitted counting no_fingerprint 0 laptop greeting ("phone" ∷ [])
greeting-Admitted = record {
  device = ground arith;
  well_formed = greeting-WellFormed;
  resolved = refl;
  some_targets = ground arith;
  few_targets = omega arith;
  keys = (ground arith, tt);
}

create_stores_example :
    create counting no_fingerprint 0 laptop greeting 7
    ≡ stored counting no_fingerprint 0 laptop greeting 7 ("phone" ∷ [])
create_stores_example =
    create_stores counting no_fingerprint 0 laptop greeting 7 ("phone" ∷ []) greeting-Admitted

create_refuses_or_stores_example :
    ((e : Error) × (create counting no_fingerprint 0 laptop greeting 7 ≡ (err e, 0, [])))
    ⊎ ((ids : List String) × Admitted counting no_fingerprint 0 laptop greeting ids
        × (create counting no_fingerprint 0 laptop greeting 7
            ≡ stored counting no_fingerprint 0 laptop greeting 7 ids))
create_refuses_or_stores_example =
    create_refuses_or_stores counting no_fingerprint 0 laptop greeting 7

validate_request_iff_example : (validate_request greeting ≡ ok tt) ↔ WellFormed greeting
validate_request_iff_example = validate_request_iff greeting

abbrev letter : String → File
letter name = record {
  id = "";
  name = name;
  mime_type = "";
  size = pos 5;
  sha256 = [];
  chunk_size = pos 5;
  chunk_count = pos 1;
  expires_at = 0;
}

abbrev letters : Request
letters = record greeting { content_type = file; files = letter "a" ∷ letter "b" ∷ [] }

-- The second file on the second device.
prepare_pairs_example :
    (ids_of (prepare letters ("phone" ∷ "tablet" ∷ []) 7 []).targets ≡ "phone" ∷ "tablet" ∷ [])
    × (length (prepare letters ("phone" ∷ "tablet" ∷ []) 7 []).file_targets
        ≡ (if is_text_content letters.content_type then 0 else 2 * length letters.files))
    × (get_elem?
          (prepare letters ("phone" ∷ "tablet" ∷ []) 7 []).file_targets
          (1 * length letters.files + 1)
        ≡ (if is_text_content letters.content_type
            then none
            else some (target_of_pair letters "tablet" 1 (letter "b"))))
prepare_pairs_example =
    prepare_pairs letters ("phone" ∷ "tablet" ∷ []) 7 [] 1 1 "tablet" (letter "b") refl refl

abbrev two_targets : List Target
two_targets = new_target "phone" node ∷ new_target "tablet" lan ∷ []

abbrev forged : TimelineEventReport
forged = record {
  idempotency_key = "k";
  code = target_delivered;
  file_id = "";
  target_device_id = "phone";
  execution_id = "";
  route = unset;
  error_code = "";
}

abbrev no_timeline : TimelineStore ℕ
no_timeline = record { transfer_timeline = none; report_event = none }

report_timeline_event-status_example :
    (is_valid forged.code ≡ true)
    × (report_timeline_event no_timeline 0 laptop "t" forged 7 ≡ (err invalid, 0, []))
unfolding event_code_for_status
report_timeline_event-status_example =
    report_timeline_event-status no_timeline 0 laptop "t" forged 7 delivered refl
