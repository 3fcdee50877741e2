-- ===== src/Bridge/System.antt =====
-- Server threads that send requests, and the main thread that serves them, in any interleaving. Each
-- event is what one thread does between two points where another can run. Starting, stopping and
-- shutting down happen on the main thread, outside its drain loop.
pub mod Invariant
pub mod Guarantees
pub mod Drain
use anki_mcp_server_addon.Prelude.{
  ℕ, zero, suc, ◌+◌, String, Bool, true, false, Option, none, some, List, [], ◌∷◌, ◌&&◌, not,
  if◌then◌else◌,
}
use anki_mcp_server_addon.Prelude.Dict
use anki_mcp_server_addon.Prelude.Dict.{Dict}
use anki_mcp_server_addon.Bridge.Handlers.{ToolRequest, ToolResponse, Handler}
use anki_mcp_server_addon.Bridge.Queues.{
  Bridge, empty, register, put_request, unregister, receive, shutdown,
}
use anki_mcp_server_addon.Bridge.Processor
use anki_mcp_server_addon.Bridge.Processor.{Processor, schedule, begin_drain, drain_round}

-- Where a call of `send_request` stands.
pub data Phase (Value : Type 0) : Type 0 where
  refused : Phase Value
  registered : Phase Value
  unannounced : Phase Value
  blocked : Phase Value
  returned : ToolResponse Value → Phase Value
  timed_out : Phase Value

pub record Thread (Args Value : Type 0) : Type 0 where
  pub request : ToolRequest Args
  pub phase : Phase Value

pub record System (Args Value : Type 0) : Type 0 where
  pub processor : Processor Args Value
  pub threads : Dict (Thread Args Value)

-- `wakes` says whether the waker returns, if there is one.
pub data Event (Args : Type 0) : Type 0 where
  calls : ToolRequest Args → Event Args
  puts : String → Event Args
  wakes : String → Bool → Event Args
  receives : String → Event Args
  expires : String → Event Args
  begins drains starts stops shuts_down : Event Args

module _ {Args Value : Type 0} where
  abbrev pub initial : System Args Value
  initial = record {
    processor = record { bridge = empty; active = false; scheduled = 0; draining = false };
    threads = [];
  }

  abbrev pub with_bridge : Bridge Args Value → System Args Value → System Args Value
  with_bridge b s = record s { processor = record s.processor { bridge = b } }

  abbrev pub set_phase :
      String → Thread Args Value → Phase Value → System Args Value → System Args Value
  set_phase id thread phase s = record s {
    threads = Dict.put id (record thread { phase = phase }) s.threads;
  }

  unfoldable pub admit :
      ToolRequest Args → Option (Bridge Args Value) → System Args Value → System Args Value
  admit request none s =
      set_phase request.request_id (record { request = request; phase = refused }) refused s
  admit request (some b) s =
      set_phase request.request_id (record { request = request; phase = registered }) registered
        (with_bridge b s)

  -- Identifiers are fresh, so a call with a used one does not occur.
  unfoldable pub call :
      ToolRequest Args → Option (Thread Args Value) → System Args Value → System Args Value
  unfolding register admit
  call request (some used) s = s
  call request none s = admit request (register request s.processor.bridge) s

  unfoldable pub put_by :
      String → Thread Args Value → Phase Value → System Args Value → System Args Value
  unfolding put_request
  put_by id thread registered s =
      set_phase id thread unannounced
        (with_bridge (put_request thread.request s.processor.bridge) s)
  put_by id thread _ s = s

  abbrev pub announce : Bool → System Args Value → System Args Value
  announce true s = record s { processor = schedule s.processor }
  announce false s = s

  -- `_wake` with the reads before it, as one event.
  unfoldable pub wake_by :
      String → Bool → Thread Args Value → Phase Value → System Args Value → System Args Value
  unfolding schedule
  wake_by id returns thread unannounced s =
      set_phase id thread blocked (announce (s.processor.bridge.has_waker && returns) s)
  wake_by id returns thread _ s = s

  unfoldable pub leave :
      String → Thread Args Value → Phase Value → System Args Value → System Args Value
  unfolding unregister
  leave id thread phase s =
      set_phase id thread phase (with_bridge (unregister id s.processor.bridge) s)

  abbrev pub leave_with :
      String
      → Thread Args Value
      → Option (ToolResponse Value)
      → System Args Value
      → System Args Value
  leave_with id thread none s = s
  leave_with id thread (some response) s = leave id thread (returned response) s

  abbrev pub leave_without :
      String
      → Thread Args Value
      → Option (ToolResponse Value)
      → System Args Value
      → System Args Value
  leave_without id thread none s = leave id thread timed_out s
  leave_without id thread (some response) s = s

  unfoldable pub receive_by :
      String → Thread Args Value → Phase Value → System Args Value → System Args Value
  unfolding receive leave
  receive_by id thread blocked s = leave_with id thread (receive id s.processor.bridge) s
  receive_by id thread _ s = s

  -- The wait ends by its timeout only while no response is there.
  unfoldable pub expire_by :
      String → Thread Args Value → Phase Value → System Args Value → System Args Value
  unfolding receive leave
  expire_by id thread blocked s = leave_without id thread (receive id s.processor.bridge) s
  expire_by id thread _ s = s

  unfoldable pub on_thread :
      (Thread Args Value → Phase Value → System Args Value → System Args Value)
      → Option (Thread Args Value)
      → System Args Value
      → System Args Value
  on_thread act none s = s
  on_thread act (some thread) s = act thread thread.phase s

  abbrev pub on_main :
      (Processor Args Value → Processor Args Value) → System Args Value → System Args Value
  on_main act s = if s.processor.draining then s else record s { processor = act s.processor }

  module _ (handlers : Dict (Handler Args Value)) where
    unfoldable pub step : System Args Value → Event Args → System Args Value
    unfolding call put_by wake_by receive_by expire_by on_thread begin_drain drain_round
        Processor.start Processor.stop shutdown
    step s (calls request) = call request (Dict.get request.request_id s.threads) s
    step s (puts id) = on_thread (put_by id) (Dict.get id s.threads) s
    step s (wakes id returns) = on_thread (wake_by id returns) (Dict.get id s.threads) s
    step s (receives id) = on_thread (receive_by id) (Dict.get id s.threads) s
    step s (expires id) = on_thread (expire_by id) (Dict.get id s.threads) s
    step s begins = on_main begin_drain s
    step s drains = record s { processor = drain_round handlers s.processor }
    step s starts = on_main Processor.start s
    step s stops = on_main Processor.stop s
    step s shuts_down = on_main (λ p. record p { bridge = shutdown p.bridge }) s

    unfoldable pub run : System Args Value → List (Event Args) → System Args Value
    unfolding step
    run s [] = s
    run s (event ∷ events) = run (step s event) events
