-- ===== src/Sync/Runner/Session.antt =====
-- A session of one profile: entry points that clients call, background tasks that finish in any
-- order, as a list of events. The profile's teardown is `teardown`, apart from them.
use anki_mcp_server_addon.Prelude.{
  ℕ, zero, suc, String, Bool, true, false, not, ◌&&◌, Option, none, some, inl, inr, List, [], ◌∷◌,
  any, if◌then◌else◌,
}
use anki_mcp_server_addon.Sync.Job.{ErrorPayload, Extra}
use anki_mcp_server_addon.Sync.Registry
use anki_mcp_server_addon.Sync.Runner.Tasks.{
  Exc, Poll, Action, normal_sync_worker, full_transfer_worker, monitor_media_worker,
}
use anki_mcp_server_addon.Sync.Runner.World.{Task, normal_sync, full_transfer, media_monitor, World}
use anki_mcp_server_addon.Sync.Runner.Entry.{Anki, start_sync, resolve_sync}
use anki_mcp_server_addon.Sync.Runner.Callbacks.{
  on_normal_done, on_resolve_done, on_media_done, set_registry,
}

-- What the backend answers to a task, and Anki to its callback.
pub record Backend : Type 0 where
  pub fails : Bool
  pub error : Exc
  pub required_int : ℕ
  pub server_media_usn : ℕ
  pub transfer_answers : List Bool
  pub polls : List Poll
  pub reopens : Bool
  pub spawns : Bool
  pub reason : List ℕ

pub data Event : Type 0 where
  starts : Anki → String → ℕ → Event
  resolves : Anki → Option String → Option String → ℕ → Event
  closes : ℕ → Event
  finishes : ℕ → Backend → ℕ → Event

-- Takes the task at a position out of the list.
unfoldable pub pick : ℕ → List Task → Option (Task × List Task)
pick n [] = none
pick zero (task ∷ tasks) = some (task, tasks)
pick (suc n) (task ∷ tasks) = elim (pick n tasks) [
  | none ↦ none
  | some (found, rest) ↦ some (found, task ∷ rest)
]

abbrev pub is_close : Action → Bool
is_close Action.close_collection = true
is_close _ = false

-- A transfer's worker closes the collection while its task is pending.
unfoldable pub close_by : Option (Task × List Task) → World → World
close_by (some (full_transfer id media usn upload, rest)) w = record w { db_open = false }
close_by _ w = w

unfoldable pub media_finished :
    Option (Option ErrorPayload) → List Task → String → Extra → ℕ → World → World
media_finished none rest id extra now w = w
media_finished (some media_error) rest id extra now w =
    on_media_done (inr media_error) id now extra (record w { tasks = rest })

module _ (lower : List ℕ → List ℕ) (unknown_text : ℕ → List ℕ) where
  unfoldable pub finish_task : Backend → ℕ → Task → List Task → World → World
  unfolding media_finished
  finish_task b now (normal_sync id media) rest w =
      on_normal_done lower unknown_text
        (if b.fails
          then inl b.error
          else inr (normal_sync_worker b.required_int b.server_media_usn))
        id media b.spawns b.reason now (record w { tasks = rest })
  finish_task b now (full_transfer id media usn upload) rest w =
      let (made, raised) = full_transfer_worker upload b.transfer_answers in
      on_resolve_done lower (if raised then some b.error else none) b.reopens id media b.spawns
        b.reason now (record w { tasks = rest; db_open = w.db_open && not (any is_close made) })
  finish_task b now (media_monitor id extra) rest w =
      if b.fails
      then on_media_done (inl b.error) id now extra (record w { tasks = rest })
      else media_finished (monitor_media_worker lower b.polls) rest id extra now w

  unfoldable pub finish_by : Backend → ℕ → Option (Task × List Task) → World → World
  unfolding finish_task
  finish_by b now none w = w
  finish_by b now (some (task, rest)) w = finish_task b now task rest w

  unfoldable pub step : World → Event → World
  unfolding pick close_by finish_by
  step w (starts anki id now) = (start_sync anki id now w).0
  step w (resolves anki id resolve now) = (resolve_sync anki id resolve now w).0
  step w (closes n) = close_by (pick n w.tasks) w
  step w (finishes n b now) = finish_by b now (pick n w.tasks) w

  unfoldable pub run : World → List Event → World
  unfolding step
  run w [] = w
  run w (event ∷ events) = run (step w event) events

-- `registry.reset()`, which the addon calls when the profile closes; pending tasks stay pending.
unfoldable pub teardown : World → World
unfolding Registry.reset
teardown = set_registry Registry.reset
