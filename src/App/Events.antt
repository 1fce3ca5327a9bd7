-- ===== src/App/Events.antt =====
-- `handle_worker_event` of crates/xous-app-signal/src/gam_app.rs. The `uuid` crate's parser and its
-- name-based identifiers are parameters; the vibration and the modals show, and change nothing.
use xous_app_signal.Prelude.{
  Bool, true, false, Option, none, some, Text, codes, [], ◌++◌, if◌then◌else◌, Result, ok, err,
  nat_eq,
}
use xous_app_signal.Collections.HashMap.{Iteration}
use xous_app_signal.Dialogue.{Uuid, DialogueSummary}
use xous_app_signal.MessageStore.{
  MessageStore, push_incoming, mark_send_delivered, mark_send_failed, resolve_author_labels,
}
use xous_app_signal.App.{
  App, Screen, LinkedKind, Cmd, Event, AccountInfoData, Inbound, Step, done, reset_to_unlinked,
}
use xous_app_signal.App.Keys.{World, send}

abbrev pub or_else {ℓ} : {A : Type ℓ} → Option A → Option A → Option A
or_else none other = other
or_else (some a) other = some a

abbrev pub unwrap_or {ℓ} : {A : Type ℓ} → A → Option A → A
unwrap_or default none = default
unwrap_or default (some a) = a

abbrev pub with_account : AccountInfoData → App → App
with_account info app = record app {
  account_device_name = some info.device_name;
  account_aci = some info.aci;
  account_phone = some info.phone;
}

abbrev pub banner : AccountInfoData → Text
banner info =
    codes "device: "
    ++ info.device_name
    ++ codes "\naci:    "
    ++ info.aci
    ++ codes "\nphone:  "
    ++ info.phone

module _ (parse_uuid : Text → Option Uuid) (new_v5 : Text → Uuid) (simple : Uuid → Text)
    (order : Iteration Uuid DialogueSummary) where
  unfoldable pub handle_username_resolve_result : App → Result (Option Uuid) Text → App
  handle_username_resolve_result app result =
      if app.username_lookup_in_progress
      then (let seen = record app { username_lookup_in_progress = false } in
          elim result [
            | ok (some uuid) ↦ elim app.username_lookup_pending [
              | none ↦ record seen { screen = Screen.thread uuid }
              | some name ↦ record seen {
                username_lookup_pending = none;
                store = (resolve_author_labels simple order app.store uuid name).0;
                screen = Screen.thread uuid;
              }
            ]
            | ok none ↦ record seen { last_status = codes "Username not found." }
            | err reason ↦ record seen { last_status = codes "Lookup failed:\n" ++ reason }
          ])
      else app

  -- The thread of a message: that of its group, or of its sender.
  unfoldable pub thread_of : Inbound → Uuid × Bool
  thread_of m = elim m.group_master_key [
    | some key ↦ (new_v5 key, true)
    | none ↦ (unwrap_or 0 (parse_uuid m.sender), false)
  ]

  unfoldable pub receive_message : App → Inbound → Step
  unfolding thread_of
  receive_message app m =
      let label = unwrap_or m.sender (or_else m.sender_name m.sender_phone) in
      let (uuid, group) = thread_of m in
      elim (push_incoming simple order app.store uuid label m.body m.timestamp group) [
        | none ↦ none
        | some store ↦ done (record app { store = store })
      ]

  unfoldable pub handle_worker_event : World → App → Event → Step
  unfolding handle_username_resolve_result receive_message
  handle_worker_event w app (Event.link_url _) = done app
  handle_worker_event w app (Event.link_complete info) =
      let app' = with_account info (record app {
        is_linked = true;
        linking_in_progress = false;
        screen = Screen.linked LinkedKind.success;
        last_status = banner info;
      }) in
      send w Cmd.start_receive app' app'
  handle_worker_event w app (Event.link_error msg) =
      if app.linking_in_progress
      then done (record app {
        linking_in_progress = false;
        screen = Screen.linked LinkedKind.failure;
        last_status = msg;
      })
      else done app
  handle_worker_event w app Event.stale_store_detected =
      done (record app { linking_in_progress = false; screen = Screen.menu })
  handle_worker_event w app (Event.message m) = receive_message app m
  handle_worker_event w app Event.receive_started = done app
  handle_worker_event w app (Event.receive_error msg) =
      done (record app { last_status = codes "Receive: " ++ msg })
  handle_worker_event w app (Event.send_complete timestamp) =
      done (record app { store = (mark_send_delivered simple order app.store timestamp).0 })
  handle_worker_event w app (Event.send_error reason timestamp) =
      let store : MessageStore = elim timestamp [
        | none ↦ app.store
        | some ts ↦ (mark_send_failed simple order app.store ts).0
      ] in
      done (record app { store = store; last_status = codes "Send: " ++ reason })
  handle_worker_event w app Event.shutting_down =
      done (record app { last_status = codes "worker shutdown" })
  handle_worker_event w app (Event.account_info (ok info)) =
      let app' = with_account info (record app { account_query_pending = false }) in
      let resumed = record app' { is_linked = true; screen = Screen.home; home_focus = 0 } in
      if app.is_linked then done app' else send w Cmd.start_receive resumed resumed
  handle_worker_event w app (Event.account_info (err _)) =
      done (record app { account_query_pending = false })
  handle_worker_event w app (Event.contact_resolved aci_uuid name) =
      done (record app { store = (resolve_author_labels simple order app.store aci_uuid name).0 })
  handle_worker_event w app Event.sync_complete = done app
  handle_worker_event w app (Event.sync_error _) = done app
  handle_worker_event w app Event.logged_out =
      done (record (reset_to_unlinked app) { last_status = [] })
  handle_worker_event w app (Event.signal_auth_expired reason) =
      done (record (reset_to_unlinked app) {
        last_status =
            codes "Signal authentication expired:\n" ++ reason ++ codes "\n\nPlease re-link.";
      })
  handle_worker_event w app (Event.signal_conflicting_device reason) =
      done (record (reset_to_unlinked app) {
        last_status = codes "Another device took over:\n" ++ reason ++ codes "\n\nPlease re-link.";
      })
  handle_worker_event w app (Event.username_resolve_result result) =
      done (handle_username_resolve_result app result)
  handle_worker_event w app Event.pong = done app
  handle_worker_event w app (Event.whoami _) = done app
