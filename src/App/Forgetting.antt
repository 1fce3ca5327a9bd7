-- ===== src/App/Forgetting.antt =====
-- What the app window of crates/xous-app-signal/src/gam_app.rs remembers of an account after the
-- account has gone: a logout, an expired authentication or another device that took over.
use xous_app_signal.Prelude.{
  ℕ, ◌≡◌, refl, Bool, true, false, Option, none, some, Text, List, [], ◌∷◌, All, if_keeps, nat_beq,
  nat_eq, arith, Result, ok, err,
}
use xous_app_signal.Collections.HashMap.{Iteration}
use xous_app_signal.Dialogue.{Uuid, DialogueSummary}
use xous_app_signal.App.{
  App, Screen, NextScreenAfterInternet, Cmd, Event, Step, Delta, Inbound, menu_items, flatten,
  position, nth, move_among, move_cursor, settings_move, reset_to_unlinked,
}
use xous_app_signal.App.Keys.{
  World, quiet, is_back, and_send, drive_link, drive_wipe_settings, drive_logout, menu_enter,
  menu_key, about_key, linked_key, no_internet_key, linking_key, send_compose, new_chat,
  drive_new_chat, home_key, thread_key, settings_enter, settings_key, on_screen, handle_key,
}
use xous_app_signal.App.Events.{
  handle_username_resolve_result, receive_message, handle_worker_event,
}
use xous_app_signal.App.Session.{Input, key, worker, step, run}

-- Not linked, and nothing known of an account.
abbrev pub IsForgotten : App → Type 0
IsForgotten app =
    (app.is_linked ≡ false)
    × (app.account_device_name ≡ none)
    × (app.account_aci ≡ none)
    × (app.account_phone ≡ none)

abbrev pub Stays : Step → Type 0
Stays none = Unit
Stays (some (app, _)) = IsForgotten app

-- The events by which the worker says that there is an account.
abbrev pub links : Event → Bool
links (Event.link_complete _) = true
links (Event.account_info (ok _)) = true
links _ = false

abbrev pub is_plain : Input → Bool
is_plain (key _ _) = true
is_plain (worker _ event) = elim (links event) [ true ↦ false | false ↦ true ]

-- The events that end an account.
pub data IsEnd : Event → Type 0 where
  logout : IsEnd Event.logged_out
  expired : (reason : Text) → IsEnd (Event.signal_auth_expired reason)
  displaced : (reason : Text) → IsEnd (Event.signal_conflicting_device reason)

and_send-Stays : (cmds : List Cmd) (result : Step) → Stays result → Stays (and_send cmds result)
and_send-Stays cmds none h = tt
and_send-Stays cmds (some (app, more)) h = h

next-Stays :
    (result : Step) (rest : App → Step)
    → Stays result
    → ((app : App) → IsForgotten app → Stays (rest app))
    → Stays (elim result [ none ↦ none | some (app', cmds) ↦ and_send cmds (rest app') ])
next-Stays none rest h keeps = tt
next-Stays (some (app, cmds)) rest h keeps = and_send-Stays cmds (rest app) (keeps app h)

drive_link-Stays : (w : World) (app : App) → IsForgotten app → Stays (drive_link w app)
unfolding drive_link
drive_link-Stays w app h = ground (arith, h)

quiet_cursor : (app : App) (delta : Delta) → IsForgotten app → Stays (quiet (move_cursor delta app))
unfolding move_cursor move_among menu_items flatten position nth
quiet_cursor app delta h = ground (arith, h)

quiet_setting :
    (app : App) (delta : Delta) → IsForgotten app → Stays (quiet (settings_move delta app))
unfolding settings_move position nth
quiet_setting app delta h = ground (arith, h)

menu_key-Stays : (w : World) (app : App) (k : ℕ) → IsForgotten app → Stays (menu_key w app k)
unfolding menu_key menu_enter drive_wipe_settings
menu_key-Stays w app k h =
    ground (
      arith,
      h,
      quiet_cursor app Delta.up h,
      quiet_cursor app Delta.down h,
      drive_link-Stays w app h,
    )

about_key-Stays : (app : App) (k : ℕ) → IsForgotten app → Stays (about_key app k)
unfolding about_key
about_key-Stays app k h = ground (arith, h)

linked_key-Stays : (w : World) (app : App) (k : ℕ) → IsForgotten app → Stays (linked_key w app k)
unfolding linked_key
linked_key-Stays w app k h = ground (arith, h)

no_internet_key-Stays :
    (w : World) (app : App) (next : NextScreenAfterInternet) (k : ℕ)
    → IsForgotten app
    → Stays (no_internet_key w app next k)
unfolding no_internet_key
no_internet_key-Stays w app next k h = ground (arith, h, drive_link-Stays w app h)

linking_key-Stays : (w : World) (app : App) (k : ℕ) → IsForgotten app → Stays (linking_key w app k)
unfolding linking_key
linking_key-Stays w app k h = ground (arith, h)

module _ (simple : Uuid → Text) (order : Iteration Uuid DialogueSummary)
    (is_alphanumeric : ℕ → Bool) (parse_uuid : Text → Option Uuid) (to_text : Uuid → Text)
    (new_v5 : Text → Uuid) where
  send_compose-Stays :
      (w : World) (app : App) (uuid : Uuid)
      → IsForgotten app
      → Stays (send_compose is_alphanumeric parse_uuid to_text simple order w app uuid)
  unfolding send_compose
  send_compose-Stays w app uuid h = ground (arith, h)

  home_key-Stays :
      (w : World) (app : App) (k : ℕ)
      → IsForgotten app
      → Stays (home_key is_alphanumeric parse_uuid to_text simple order w app k)
  unfolding home_key drive_new_chat new_chat
  home_key-Stays w app k h = ground (arith, h)

  thread_key-Stays :
      (w : World) (app : App) (uuid : Uuid) (k : ℕ)
      → IsForgotten app
      → Stays (thread_key is_alphanumeric parse_uuid to_text simple order w app uuid k)
  unfolding thread_key
  thread_key-Stays w app uuid k h = ground (arith, h, send_compose-Stays w app uuid h)

  settings_key-Stays :
      (w : World) (app : App) (k : ℕ)
      → IsForgotten app
      → Stays (settings_key is_alphanumeric parse_uuid to_text simple order w app k)
  unfolding settings_key settings_enter drive_logout
  settings_key-Stays w app k h =
      ground (arith, h, quiet_setting app Delta.up h, quiet_setting app Delta.down h)

  on_screen-Stays :
      (w : World) (app : App) (k : ℕ) (screen : Screen)
      → IsForgotten app
      → Stays (on_screen is_alphanumeric parse_uuid to_text simple order w app k screen)
  unfolding on_screen
  on_screen-Stays w app k Screen.menu h = menu_key-Stays w app k h
  on_screen-Stays w app k Screen.about h = about_key-Stays app k h
  on_screen-Stays w app k (Screen.linked _) h = linked_key-Stays w app k h
  on_screen-Stays w app k (Screen.no_internet next _) h = no_internet_key-Stays w app next k h
  on_screen-Stays w app k Screen.linking h = linking_key-Stays w app k h
  on_screen-Stays w app k Screen.wiping h = h
  on_screen-Stays w app k Screen.home h = home_key-Stays w app k h
  on_screen-Stays w app k (Screen.thread uuid) h = thread_key-Stays w app uuid k h
  on_screen-Stays w app k Screen.settings h = settings_key-Stays w app k h
  on_screen-Stays w app k Screen.profile h = if_keeps Stays (is_back k) h h
  on_screen-Stays w app k Screen.help h = if_keeps Stays (is_back k) h h

  resolve_result-Stays :
      (app : App) (result : Result (Option Uuid) Text)
      → IsForgotten app
      → IsForgotten (handle_username_resolve_result parse_uuid new_v5 simple order app result)
  unfolding handle_username_resolve_result
  resolve_result-Stays app result h = ground (arith, h)

  receive_message-Stays :
      (app : App) (m : Inbound)
      → IsForgotten app
      → Stays (receive_message parse_uuid new_v5 simple order app m)
  unfolding receive_message
  receive_message-Stays app m h = ground (arith, h)

  event-Stays :
      (w : World) (app : App) (event : Event)
      → links event ≡ false
      → IsForgotten app
      → Stays (handle_worker_event parse_uuid new_v5 simple order w app event)
  unfolding handle_worker_event reset_to_unlinked
  event-Stays w app Event.pong none_links h = h
  event-Stays w app Event.stale_store_detected none_links h = h
  event-Stays w app Event.receive_started none_links h = h
  event-Stays w app Event.sync_complete none_links h = h
  event-Stays w app Event.logged_out none_links h = (refl, refl, refl, refl)
  event-Stays w app Event.shutting_down none_links h = h
  event-Stays w app (Event.whoami _) none_links h = h
  event-Stays w app (Event.link_url _) none_links h = h
  event-Stays w app (Event.link_error msg) none_links h = if_keeps Stays app.linking_in_progress h h
  event-Stays w app (Event.receive_error msg) none_links h = h
  event-Stays w app (Event.sync_error _) none_links h = h
  event-Stays w app (Event.signal_auth_expired reason) none_links h = (refl, refl, refl, refl)
  event-Stays w app (Event.signal_conflicting_device reason) none_links h = (refl, refl, refl, refl)
  event-Stays w app (Event.link_complete info) none_links h = absurd (ground (arith, none_links))
  event-Stays w app (Event.account_info (ok info)) none_links h =
      absurd (ground (arith, none_links))
  event-Stays w app (Event.account_info (err _)) none_links h = h
  event-Stays w app (Event.message m) none_links h = receive_message-Stays app m h
  event-Stays w app (Event.send_complete ts) none_links h = h
  event-Stays w app (Event.send_error reason _) none_links h = h
  event-Stays w app (Event.contact_resolved u name) none_links h = h
  event-Stays w app (Event.username_resolve_result result) none_links h =
      resolve_result-Stays app result h

  step-Stays :
      (input : Input) (app : App)
      → is_plain input ≡ true
      → IsForgotten app
      → Stays (step simple order is_alphanumeric parse_uuid to_text new_v5 input app)
  unfolding step handle_key
  step-Stays (key w k) app p h =
      if_keeps Stays (nat_beq k 0) h (on_screen-Stays w app k app.screen h)
  step-Stays (worker w event) app p h = event-Stays w app event (ground (arith, p)) h

  run-Stays :
      (inputs : List Input) (app : App)
      → All (λ input. is_plain input ≡ true) inputs
      → IsForgotten app
      → Stays (run simple order is_alphanumeric parse_uuid to_text new_v5 inputs app)
  unfolding run
  run-Stays [] app p h = h
  run-Stays (input ∷ inputs) app (p, ps) h =
      next-Stays (step simple order is_alphanumeric parse_uuid to_text new_v5 input app)
        (run simple order is_alphanumeric parse_uuid to_text new_v5 inputs)
        (step-Stays input app p h) (λ app' h'. run-Stays inputs app' ps h')

  -- After a logout, an expired authentication or a take-over by another device: whatever keys are
  -- pressed and whatever events arrive, a late answer to a username lookup or a late link error among
  -- them, as long as none of them says that there is an account, the app at the end of the run is not
  -- linked and holds no device name, no account id and no phone number.
  pub logout-forgets :
      (w : World) (app : App) (event : Event) (inputs : List Input)
      → IsEnd event
      → All (λ input. is_plain input ≡ true) inputs
      → Stays
          (run simple order is_alphanumeric parse_uuid to_text new_v5 (worker w event ∷ inputs) app)
  unfolding run step handle_worker_event reset_to_unlinked
  logout-forgets w app event inputs logout p =
      and_send-Stays [] _ (run-Stays inputs _ p (refl, refl, refl, refl))
  logout-forgets w app event inputs (expired reason) p =
      and_send-Stays [] _ (run-Stays inputs _ p (refl, refl, refl, refl))
  logout-forgets w app event inputs (displaced reason) p =
      and_send-Stays [] _ (run-Stays inputs _ p (refl, refl, refl, refl))
