-- ===== src/Lifecycle/States.antt =====
-- A manager that runs and one that does not, and the steps that leave that alone.
use anki_mcp_server_addon.Prelude.{
  String, ◌≡◌, sym, ap, ◌∙◌, ◌⊎◌, inl, inr, Bool, true, false, none, some, arith,
}
use anki_mcp_server_addon.Prelude.Dict.{Dict}
use anki_mcp_server_addon.Bridge.Handlers.{ToolRequest, Handler}
use anki_mcp_server_addon.Bridge.Queues.{
  empty, register, put_request, get_pending_request, send_response,
}
use anki_mcp_server_addon.Bridge.Processor.{schedule, begin_drain, drain_round, answer}
use anki_mcp_server_addon.Lifecycle.{
  Manager, auth_of, connect_tunnel, disconnect_tunnel, logout_tunnel, on_tunnel_established,
  on_tunnel_stopped, send,
}

module _ {Args Value : Type 0} where
  -- Server and processor run, the server under the settings in force, over an open bridge whose waker
  -- is set.
  pub record IsUp (m : Manager Args Value) : Type 0 where
    pub processor_there : m.has_processor ≡ true
    pub server_current : m.server ≡ some m.settings
    pub active : m.processor.active ≡ true
    pub bridge_open : m.processor.bridge.is_shutdown ≡ false
    pub waker_set : m.processor.bridge.has_waker ≡ true

  -- Neither is there, no waker is set, and the bridge refuses requests or has never been used.
  pub record IsDown (m : Manager Args Value) : Type 0 where
    pub no_processor : m.has_processor ≡ false
    pub no_server : m.server ≡ none
    pub inactive : m.processor.active ≡ false
    pub waker_clear : m.processor.bridge.has_waker ≡ false
    pub bridge_closed : (m.processor.bridge.is_shutdown ≡ true) ⊎ (m.processor.bridge ≡ empty)

  abbrev pub IsConsistent : Manager Args Value → Type 0
  IsConsistent m = (m.auth ≡ auth_of m.settings) × (IsUp m ⊎ IsDown m)

  -- What a step of the tunnel or of the queue leaves alone.
  pub record IsSame (m n : Manager Args Value) : Type 0 where
    pub has_processor : n.has_processor ≡ m.has_processor
    pub server : n.server ≡ m.server
    pub settings : n.settings ≡ m.settings
    pub auth : n.auth ≡ m.auth
    pub active : n.processor.active ≡ m.processor.active
    pub is_shutdown : n.processor.bridge.is_shutdown ≡ m.processor.bridge.is_shutdown
    pub has_waker : n.processor.bridge.has_waker ≡ m.processor.bridge.has_waker
    pub stays_empty :
        m.has_processor ≡ false → m.processor.bridge ≡ empty → n.processor.bridge ≡ empty

  pub same-IsConsistent : {m n : Manager Args Value} → IsSame m n → IsConsistent m → IsConsistent n
  same-IsConsistent s (a, inl u) = (
    s.auth ∙ a ∙ ap auth_of (sym s.settings),
    inl (record {
      processor_there = s.has_processor ∙ u.processor_there;
      server_current = s.server ∙ u.server_current ∙ ap some (sym s.settings);
      active = s.active ∙ u.active;
      bridge_open = s.is_shutdown ∙ u.bridge_open;
      waker_set = s.has_waker ∙ u.waker_set;
    }),
  )
  same-IsConsistent s (a, inr d) = (
    s.auth ∙ a ∙ ap auth_of (sym s.settings),
    inr (record {
      no_processor = s.has_processor ∙ d.no_processor;
      no_server = s.server ∙ d.no_server;
      inactive = s.active ∙ d.inactive;
      waker_clear = s.has_waker ∙ d.waker_clear;
      bridge_closed = elim d.bridge_closed [
        | inl down ↦ inl (s.is_shutdown ∙ down)
        | inr unused ↦ inr (s.stays_empty d.no_processor unused)
      ];
    }),
  )

  pub connect_tunnel-IsSame :
      (connected logged_in : Bool) (m : Manager Args Value)
      → IsSame m (connect_tunnel connected logged_in m)
  unfolding connect_tunnel
  connect_tunnel-IsSame connected logged_in m = ground arith

  pub disconnect_tunnel-IsSame : (m : Manager Args Value) → IsSame m (disconnect_tunnel m)
  unfolding disconnect_tunnel
  disconnect_tunnel-IsSame m = ground arith

  pub logout_tunnel-IsSame : (m : Manager Args Value) → IsSame m (logout_tunnel m)
  unfolding logout_tunnel disconnect_tunnel
  logout_tunnel-IsSame m = ground arith

  pub established-IsSame :
      (url : String) (m : Manager Args Value) → IsSame m (on_tunnel_established url m)
  unfolding on_tunnel_established
  established-IsSame url m = ground arith

  pub tunnel_stopped-IsSame : (m : Manager Args Value) → IsSame m (on_tunnel_stopped m)
  unfolding on_tunnel_stopped
  tunnel_stopped-IsSame m = ground arith

  pub send-IsSame :
      (request : ToolRequest Args) (m : Manager Args Value) → IsSame m (send request m)
  unfolding send register put_request schedule
  send-IsSame request m = ground arith

  pub begin_drain-IsSame :
      (m : Manager Args Value) → IsSame m (record m { processor = begin_drain m.processor })
  unfolding begin_drain
  begin_drain-IsSame m = ground arith

  pub drain_round-IsSame :
      (handlers : Dict (Handler Args Value)) (m : Manager Args Value)
      → IsSame m (record m { processor = drain_round handlers m.processor })
  unfolding drain_round answer get_pending_request send_response
  drain_round-IsSame handlers m = ground arith
