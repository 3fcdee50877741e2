-- ===== src/Sync/Job.antt =====
-- The snapshot of a sync job: `SyncJob` of anki_mcp_server/sync_state.py, with the payloads that
-- anki_mcp_server/primitives/essential/tools/_sync_runner.py stores in it.
-- Times are whole microseconds. The required change and the directions stay texts, as in the source,
-- since a client sends any text as a direction.
use anki_mcp_server_addon.Prelude.{ℕ, String, Bool, true, false, Option, List}

pub data Status : Type 0 where
  running conflict success error cancelled : Status

pub data Phase : Type 0 where
  checking full_transfer media done : Phase

-- The dict of `_error_payload`; `hint` is absent where the code has none.
pub record ErrorPayload : Type 0 where
  pub code : String
  pub message : List ℕ
  pub category : String
  pub hint : Option String

-- The `extra` entries that a result is updated with.
pub data Extra : Type 0 where
  required_was : Option String → Extra
  resolved : Extra

pub record SyncResult : Type 0 where
  pub media_error : Option ErrorPayload
  pub extra : Option Extra

pub record SyncJob : Type 0 where
  pub job_id : String
  pub status : Status
  pub phase : Phase
  pub legal_directions : List String
  pub required : Option String
  pub server_media_usn : Option ℕ
  pub outcome : Option SyncResult
  pub failure : Option ErrorPayload
  pub started_at : ℕ
  pub finished_at : Option ℕ

-- The client's view leaves `server_media_usn` out.
pub record JobView : Type 0 where
  pub job_id : String
  pub status : Status
  pub phase : Phase
  pub legal_directions : List String
  pub required : Option String
  pub outcome : Option SyncResult
  pub failure : Option ErrorPayload
  pub started_at : ℕ
  pub finished_at : Option ℕ

unfoldable pub to_dict : SyncJob → JobView
to_dict j = record {
  job_id = j.job_id;
  status = j.status;
  phase = j.phase;
  legal_directions = j.legal_directions;
  required = j.required;
  outcome = j.outcome;
  failure = j.failure;
  started_at = j.started_at;
  finished_at = j.finished_at;
}

abbrev pub is_conflict : Status → Bool
is_conflict conflict = true
is_conflict _ = false
