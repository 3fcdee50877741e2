-- ===== src/Lifecycle/Updates.antt =====
-- Starting, stopping and updating.
use anki_mcp_server_addon.Prelude.{
  String, eq_iff, ◌≡◌, refl, sym, ap, subst, ◌∙◌, inl, inr, Bool, true, false, some, if◌then◌else◌,
  Bool-cases, arith,
}
use anki_mcp_server_addon.Bridge.Queues.{shutdown, set_waker, clear_waker}
use anki_mcp_server_addon.Bridge.Processor
use anki_mcp_server_addon.Bridge.Processor.{Processor, schedule, begin_drain, drain_round, answer}
use anki_mcp_server_addon.Lifecycle.{
  Settings, Manager, auth_of, differs, is_running, start, stop, restart, update_config,
}
use anki_mcp_server_addon.Lifecycle.States.{IsUp, IsDown, IsConsistent}

-- The login client belongs to the settings after an update.
auth_kept :
    (s t : Settings) (auth : String × String)
    → auth ≡ auth_of t
    → (if differs s t then auth_of s else auth) ≡ auth_of s
auth_kept s t auth a = ground (
  arith,
  a,
  eq_iff s.tunnel_server_url t.tunnel_server_url,
  eq_iff s.tunnel_client_id t.tunnel_client_id,
)

module _ {Args Value : Type 0} where
  pub start-IsUp : (m : Manager Args Value) → IsDown m → IsUp (start m)
  unfolding start Processor.start set_waker
  start-IsUp m d = rw d.no_server (record {
    processor_there = refl;
    server_current = refl;
    active = refl;
    bridge_open = refl;
    waker_set = refl;
  })

  pub stop-IsDown :
      (m : Manager Args Value) (old : Settings)
      → m.server ≡ some old
      → m.has_processor ≡ true
      → m.processor.active ≡ true
      → IsDown (stop m)
  unfolding stop Processor.stop shutdown clear_waker
  stop-IsDown m old serving there active =
      rw (serving, there)
        (rw active (record {
          no_processor = refl;
          no_server = refl;
          inactive = refl;
          waker_clear = refl;
          bridge_closed = inl refl;
        }))

  pub start_up : (m : Manager Args Value) → IsUp m → start m ≡ m
  unfolding start
  start_up m u = rw (u.server_current, u.processor_there) refl

  pub stop_down : (m : Manager Args Value) → IsDown m → stop m ≡ m
  unfolding stop
  stop_down m d = rw d.no_server refl

  pub keeps_settings :
      (m : Manager Args Value) → ((restart m).settings ≡ m.settings) × ((restart m).auth ≡ m.auth)
  unfolding restart start stop
  keeps_settings m = ground arith

  pub keeps_start :
      (m : Manager Args Value) → ((start m).settings ≡ m.settings) × ((start m).auth ≡ m.auth)
  unfolding start
  keeps_start m = ground arith

  pub keeps_stop :
      (m : Manager Args Value) → ((stop m).settings ≡ m.settings) × ((stop m).auth ≡ m.auth)
  unfolding stop
  keeps_stop m = ground arith

  -- A manager that runs, perhaps under old settings.
  pub restart-IsConsistent :
      (m : Manager Args Value) (old : Settings)
      → m.auth ≡ auth_of m.settings
      → m.server ≡ some old
      → m.has_processor ≡ true
      → m.processor.active ≡ true
      → IsConsistent (restart m)
  restart-IsConsistent m old a serving there active = (
    (keeps_settings m).1 ∙ a ∙ ap auth_of (sym (keeps_settings m).0),
    inl (unfold restart in start-IsUp (stop m) (stop-IsDown m old serving there active)),
  )

  abbrev updated : Settings → Manager Args Value → Manager Args Value
  updated s m = record m { settings = s; auth = if differs s m.settings then auth_of s else m.auth }

  pub update_accepted :
      (accepts : String → Bool) (s : Settings) (m : Manager Args Value)
      → accepts s.tunnel_server_url ≡ true
      → update_config accepts s m ≡ (if is_running m then restart (updated s m) else updated s m)
  unfolding update_config
  update_accepted accepts s m ok = elim (Bool-cases (differs s m.settings)) [
    | inl e ↦ rw (e, ok) refl
    | inr e ↦ rw e refl
  ]

  pub update_config-IsConsistent :
      (accepts : String → Bool) (s : Settings) (m : Manager Args Value)
      → accepts s.tunnel_server_url ≡ true
      → IsConsistent m
      → IsConsistent (update_config accepts s m)
  update_config-IsConsistent accepts s m ok (a, inl u) =
      let running : is_running m ≡ true = rw (u.server_current, u.processor_there) refl in
      subst IsConsistent
        (sym (
          update_accepted accepts s m ok
          ∙ ap (λ b. if b then restart (updated s m) else updated s m) running))
        (restart-IsConsistent (updated s m) m.settings (auth_kept s m.settings m.auth a)
          u.server_current u.processor_there u.active)
  update_config-IsConsistent accepts s m ok (a, inr d) =
      let halted : is_running m ≡ false = rw d.no_server refl in
      subst IsConsistent
        (sym (
          update_accepted accepts s m ok
          ∙ ap (λ b. if b then restart (updated s m) else updated s m) halted))
        (
          auth_kept s m.settings m.auth a,
          inr (record {
            no_processor = d.no_processor;
            no_server = d.no_server;
            inactive = d.inactive;
            waker_clear = d.waker_clear;
            bridge_closed = d.bridge_closed;
          }),
        )

  pub start-IsConsistent : (m : Manager Args Value) → IsConsistent m → IsConsistent (start m)
  start-IsConsistent m (a, inl u) = subst IsConsistent (sym (start_up m u)) (a, inl u)
  start-IsConsistent m (a, inr d) =
      ((keeps_start m).1 ∙ a ∙ ap auth_of (sym (keeps_start m).0), inl (start-IsUp m d))

  pub stop-IsConsistent : (m : Manager Args Value) → IsConsistent m → IsConsistent (stop m)
  stop-IsConsistent m (a, inr d) = subst IsConsistent (sym (stop_down m d)) (a, inr d)
  stop-IsConsistent m (a, inl u) = (
    (keeps_stop m).1 ∙ a ∙ ap auth_of (sym (keeps_stop m).0),
    inr (stop-IsDown m m.settings u.server_current u.processor_there u.active),
  )
