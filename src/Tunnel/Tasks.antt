-- ===== src/Tunnel/Tasks.antt =====
-- The tunnel's tasks in `McpServer` of anki_mcp_server/mcp_server.py: `_start_tunnel_async`,
-- `_stop_tunnel_async` and `_run_tunnel` on the asyncio loop. Each event is what runs between two
-- awaits. A task has a name, which its manager shares.
mod Examples
pub mod Ordered
pub mod Overlap
use anki_mcp_server_addon.Prelude.{
  String, str_eq, not, Bool, true, false, Option, none, some, List, [], ◌∷◌, ◌++◌, any, filter,
  if◌then◌else◌,
}

-- A coroutine that waits for a task to end: a stop, or a start of the task that it then creates.
pub data Coroutine : Type 0 where
  stopping : String → Coroutine
  starting : String → String → Coroutine

-- `alive` are the tasks that are not done.
pub record Tasks : Type 0 where
  pub tunnel_running : Bool
  pub tunnel_manager : Option String
  pub tunnel_task : Option String
  pub alive : List String
  pub waiting : List Coroutine

unfoldable pub idle : Tasks
idle = record {
  tunnel_running = false;
  tunnel_manager = none;
  tunnel_task = none;
  alive = [];
  waiting = [];
}

abbrev pub is_alive : String → List String → Bool
is_alive name alive = any (str_eq name) alive

-- What ends both `_run_tunnel` and `_stop_tunnel_async`.
abbrev pub cleared : Tasks → Tasks
cleared s = record s { tunnel_running = false; tunnel_manager = none; tunnel_task = none }

abbrev pub create : String → Tasks → Tasks
create name s = record s {
  tunnel_manager = some name;
  tunnel_task = some name;
  alive = name ∷ s.alive;
}

abbrev pub await_task : Coroutine → Tasks → Tasks
await_task coroutine s = record s { waiting = s.waiting ++ coroutine ∷ [] }

-- `_start_tunnel_async` up to its first await, or to its end.
unfoldable pub begin_start : String → Option String → Tasks → Tasks
begin_start name none s = create name s
begin_start name (some task) s =
    if is_alive task s.alive then await_task (starting task name) s else create name s

-- `_stop_tunnel_async` up to its first await, or to its end. Its await of `disconnect` and the one of
-- the task are one wait.
unfoldable pub begin_stop : Option String → Tasks → Tasks
begin_stop none s = cleared s
begin_stop (some task) s = if is_alive task s.alive then await_task (stopping task) s else cleared s

-- The first coroutine that waits for a task that is done, and the others.
abbrev pub pick : List String → List Coroutine → Option Coroutine × List Coroutine
pick alive [] = (none, [])
pick alive (stopping task ∷ waiting) =
    let (found, others) = pick alive waiting in
    if is_alive task alive then (found, stopping task ∷ others) else (some (stopping task), waiting)
pick alive (starting task name ∷ waiting) =
    let (found, others) = pick alive waiting in
    if is_alive task alive
    then (found, starting task name ∷ others)
    else (some (starting task name), waiting)

-- The rest of a coroutine.
unfoldable pub finish : Option Coroutine → Tasks → Tasks
finish none s = s
finish (some (stopping task)) s = cleared s
finish (some (starting task name)) s = create name (cleared s)

abbrev pub resume_picked : Option Coroutine × List Coroutine → Tasks → Tasks
resume_picked (found, others) s = finish found (record s { waiting = others })

-- The `finally` of `_run_tunnel`, whichever task it ends.
unfoldable pub end_task : String → Tasks → Tasks
end_task name s =
    if is_alive name s.alive
    then cleared (record s { alive = filter (λ other. not (str_eq name other)) s.alive })
    else s

-- The names of new tasks are fresh. `established` and `gives_up` are the wrapped callbacks of a
-- manager; `resumes` lets the loop run the first coroutine that can go on.
pub data Event : Type 0 where
  begins_start : String → Event
  begins_stop : Event
  established : Event
  gives_up : Event
  ends : String → Event
  resumes : Event

unfoldable pub step : Event → Tasks → Tasks
unfolding begin_start begin_stop finish end_task
step (begins_start name) s = begin_start name s.tunnel_task s
step begins_stop s = begin_stop s.tunnel_task s
step established s = record s { tunnel_running = true }
step gives_up s = record s { tunnel_running = false; tunnel_manager = none }
step (ends name) s = end_task name s
step resumes s = resume_picked (pick s.alive s.waiting) s

unfoldable pub run : List Event → Tasks → Tasks
unfolding step
run [] s = s
run (event ∷ events) s = run events (step event s)
