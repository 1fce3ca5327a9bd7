-- ===== src/App/Total.antt =====
-- No key and no event stops the app window of crates/xous-app-signal/src/gam_app.rs, and each keeps
-- the message store in order.
use xous_app_signal.Prelude.{
  ℕ, ◌<◌, ◌≡◌, inl, inr, refl, subst, Bool, Option-cases, Option, none, some, Text, if_keeps,
  nat_beq, Result, ok, err, arith, nat_eq,
}
use xous_app_signal.Collections.HashMap.{Iteration}
use xous_app_signal.Dialogue.{Uuid, DialogueSummary}
use xous_app_signal.MessageStore.{
  MessageStore, clear, mark_send_delivered, mark_send_failed, mark_thread_read,
  resolve_author_labels,
}
use xous_app_signal.MessageStore.Funnel.{Call, apply, IsDerived, apply-IsDerived}
use xous_app_signal.MessageStore.Capacity.{IsBounded, IsLive, apply-IsBounded}
use xous_app_signal.App.{
  App, Screen, NextScreenAfterInternet, Event, Step, Delta, Inbound, menu_items, flatten, position,
  nth, move_among, move_cursor, settings_move, reset_to_unlinked,
}
use xous_app_signal.App.Keys.{
  World, quiet, is_back, drive_link, drive_wipe_settings, drive_logout, menu_enter, menu_key,
  about_key, linked_key, no_internet_key, linking_key, send_compose, new_chat, drive_new_chat,
  open_focused, home_key, thread_key, settings_enter, settings_key, on_screen, handle_key,
}
use xous_app_signal.App.Events.{
  or_else, unwrap_or, handle_username_resolve_result, thread_of, receive_message,
  handle_worker_event,
}

module _ (simple : Uuid → Text) (order : Iteration Uuid DialogueSummary) (capacity : ℕ)
    (room : 0 < capacity) where
  -- The store is within its capacity, and its summaries are those of its messages.
  abbrev pub IsWell : MessageStore → Type 0
  IsWell s = IsBounded simple order capacity s × IsDerived simple order s

  -- A step that does not panic and leaves a store in order.
  abbrev pub Safe : Step → Type 0
  Safe none = ⊥
  Safe (some (app, _)) = IsWell app.store

  apply-IsWell :
      (c : Call) (s s' : MessageStore)
      → IsLive c
      → IsWell s
      → apply simple order c s ≡ some s'
      → IsWell s'
  apply-IsWell c s s' live (b, d) e =
      let (t, e', b') = apply-IsBounded simple order capacity c s room live b in
      let same : t ≡ s' = ground (arith, e, e') in
      (subst (IsBounded simple order capacity) same b', apply-IsDerived simple order c s s' d e)

  quiet_cursor :
      (app : App) (delta : Delta) → IsWell app.store → Safe (quiet (move_cursor delta app))
  unfolding move_cursor move_among menu_items flatten position nth
  quiet_cursor app delta w = ground (arith, w)

  quiet_setting :
      (app : App) (delta : Delta) → IsWell app.store → Safe (quiet (settings_move delta app))
  unfolding settings_move position nth
  quiet_setting app delta w = ground (arith, w)

  delivered-IsWell :
      (s : MessageStore) (ts : ℕ) → IsWell s → IsWell (mark_send_delivered simple order s ts).0
  unfolding apply
  delivered-IsWell s ts w = apply-IsWell (Call.delivered ts) s _ tt w refl

  failed-IsWell :
      (s : MessageStore) (ts : ℕ) → IsWell s → IsWell (mark_send_failed simple order s ts).0
  unfolding apply
  failed-IsWell s ts w = apply-IsWell (Call.failed ts) s _ tt w refl

  read-IsWell :
      (s : MessageStore) (u : Uuid) → IsWell s → IsWell (mark_thread_read simple order s u)
  unfolding apply
  read-IsWell s u w = apply-IsWell (Call.read_thread u) s _ tt w refl

  resolve-IsWell :
      (s : MessageStore) (u : Uuid) (name : Text)
      → IsWell s
      → IsWell (resolve_author_labels simple order s u name).0
  unfolding apply
  resolve-IsWell s u name w = apply-IsWell (Call.resolve u name) s _ tt w refl

  clear-IsWell : (s : MessageStore) → IsWell s → IsWell (clear s)
  unfolding apply
  clear-IsWell s w = apply-IsWell Call.wipe s _ tt w refl

  drive_link-Safe : (w : World) (app : App) → IsWell app.store → Safe (drive_link w app)
  unfolding drive_link
  drive_link-Safe w app h = ground (arith, h)

  menu_key-Safe : (w : World) (app : App) (k : ℕ) → IsWell app.store → Safe (menu_key w app k)
  unfolding menu_key menu_enter drive_wipe_settings
  menu_key-Safe w app k h = ground (
    arith,
    h,
    quiet_cursor app Delta.up h,
    quiet_cursor app Delta.down h,
    drive_link-Safe w app h,
  )

  about_key-Safe : (app : App) (k : ℕ) → IsWell app.store → Safe (about_key app k)
  unfolding about_key
  about_key-Safe app k h = ground (arith, h)

  linked_key-Safe : (w : World) (app : App) (k : ℕ) → IsWell app.store → Safe (linked_key w app k)
  unfolding linked_key
  linked_key-Safe w app k h = ground (arith, h)

  no_internet_key-Safe :
      (w : World) (app : App) (next : NextScreenAfterInternet) (k : ℕ)
      → IsWell app.store
      → Safe (no_internet_key w app next k)
  unfolding no_internet_key
  no_internet_key-Safe w app next k h = ground (arith, h, drive_link-Safe w app h)

  linking_key-Safe : (w : World) (app : App) (k : ℕ) → IsWell app.store → Safe (linking_key w app k)
  unfolding linking_key
  linking_key-Safe w app k h = ground (arith, h)

  module _ (is_alphanumeric : ℕ → Bool) (parse_uuid : Text → Option Uuid) (to_text : Uuid → Text)
      (new_v5 : Text → Uuid) where
    send_compose-Safe :
        (w : World) (app : App) (uuid : Uuid)
        → IsWell app.store
        → Safe (send_compose is_alphanumeric parse_uuid to_text simple order w app uuid)
    unfolding send_compose apply
    send_compose-Safe w app uuid h =
        let call = Call.outgoing uuid app.compose_buffer w.now in
        let (s', e, _) = apply-IsBounded simple order capacity call app.store room tt h.0 in
        let kept : IsWell s' = apply-IsWell call app.store s' tt h e in
        ground (arith, h, e, kept, failed-IsWell s' w.now kept)

    open_focused-Safe :
        (app : App) (o : Option DialogueSummary)
        → IsWell app.store
        → Safe (open_focused is_alphanumeric parse_uuid to_text simple order app o)
    open_focused-Safe app none h = h
    open_focused-Safe app (some d) h = read-IsWell app.store d.uuid h

    home_key-Safe :
        (w : World) (app : App) (k : ℕ)
        → IsWell app.store
        → Safe (home_key is_alphanumeric parse_uuid to_text simple order w app k)
    unfolding home_key drive_new_chat new_chat
    home_key-Safe w app k h =
        ground (arith, h, open_focused-Safe app (nth app.store.dialogues app.home_focus) h)

    thread_key-Safe :
        (w : World) (app : App) (uuid : Uuid) (k : ℕ)
        → IsWell app.store
        → Safe (thread_key is_alphanumeric parse_uuid to_text simple order w app uuid k)
    unfolding thread_key
    thread_key-Safe w app uuid k h = ground (arith, h, send_compose-Safe w app uuid h)

    settings_key-Safe :
        (w : World) (app : App) (k : ℕ)
        → IsWell app.store
        → Safe (settings_key is_alphanumeric parse_uuid to_text simple order w app k)
    unfolding settings_key settings_enter drive_logout
    settings_key-Safe w app k h =
        ground (arith, h, quiet_setting app Delta.up h, quiet_setting app Delta.down h)

    on_screen-Safe :
        (w : World) (app : App) (k : ℕ) (screen : Screen)
        → IsWell app.store
        → Safe (on_screen is_alphanumeric parse_uuid to_text simple order w app k screen)
    unfolding on_screen
    on_screen-Safe w app k Screen.menu h = menu_key-Safe w app k h
    on_screen-Safe w app k Screen.about h = about_key-Safe app k h
    on_screen-Safe w app k (Screen.linked _) h = linked_key-Safe w app k h
    on_screen-Safe w app k (Screen.no_internet next _) h = no_internet_key-Safe w app next k h
    on_screen-Safe w app k Screen.linking h = linking_key-Safe w app k h
    on_screen-Safe w app k Screen.wiping h = h
    on_screen-Safe w app k Screen.home h = home_key-Safe w app k h
    on_screen-Safe w app k (Screen.thread uuid) h = thread_key-Safe w app uuid k h
    on_screen-Safe w app k Screen.settings h = settings_key-Safe w app k h
    on_screen-Safe w app k Screen.profile h = if_keeps Safe (is_back k) h h
    on_screen-Safe w app k Screen.help h = if_keeps Safe (is_back k) h h

    pub handle_key-Safe :
        (w : World) (app : App) (k : ℕ)
        → IsWell app.store
        → Safe (handle_key is_alphanumeric parse_uuid to_text simple order w app k)
    unfolding handle_key
    handle_key-Safe w app k h = if_keeps Safe (nat_beq k 0) h (on_screen-Safe w app k app.screen h)

    receive_message-Safe :
        (app : App) (m : Inbound)
        → IsWell app.store
        → Safe (receive_message parse_uuid new_v5 simple order app m)
    unfolding receive_message apply
    receive_message-Safe app m h =
        let label = unwrap_or m.sender (or_else m.sender_name m.sender_phone) in
        let at = thread_of parse_uuid new_v5 simple order m in
        let call = Call.incoming at.0 label m.body m.timestamp at.1 in
        let (s', e, _) = apply-IsBounded simple order capacity call app.store room tt h.0 in
        ground (arith, e, apply-IsWell call app.store s' tt h e)

    resolve_result-IsWell :
        (app : App) (result : Result (Option Uuid) Text)
        → IsWell app.store
        → IsWell (handle_username_resolve_result parse_uuid new_v5 simple order app result).store
    unfolding handle_username_resolve_result
    resolve_result-IsWell app (ok none) h = ground (arith, h)
    resolve_result-IsWell app (err reason) h = ground (arith, h)
    resolve_result-IsWell app (ok (some uuid)) h = elim (Option-cases app.username_lookup_pending) [
      | inl unnamed ↦ ground (arith, h, unnamed)
      | inr (name, named) ↦ ground (arith, h, named, resolve-IsWell app.store uuid name h)
    ]

    pub handle_worker_event-Safe :
        (w : World) (app : App) (event : Event)
        → IsWell app.store
        → Safe (handle_worker_event parse_uuid new_v5 simple order w app event)
    unfolding handle_worker_event reset_to_unlinked
    handle_worker_event-Safe w app Event.pong h = h
    handle_worker_event-Safe w app Event.stale_store_detected h = h
    handle_worker_event-Safe w app Event.receive_started h = h
    handle_worker_event-Safe w app Event.sync_complete h = h
    handle_worker_event-Safe w app Event.logged_out h = clear-IsWell app.store h
    handle_worker_event-Safe w app Event.shutting_down h = h
    handle_worker_event-Safe w app (Event.whoami _) h = h
    handle_worker_event-Safe w app (Event.link_url _) h = h
    handle_worker_event-Safe w app (Event.link_error msg) h =
        if_keeps Safe app.linking_in_progress h h
    handle_worker_event-Safe w app (Event.receive_error msg) h = h
    handle_worker_event-Safe w app (Event.sync_error _) h = h
    handle_worker_event-Safe w app (Event.signal_auth_expired reason) h = clear-IsWell app.store h
    handle_worker_event-Safe w app (Event.signal_conflicting_device reason) h =
        clear-IsWell app.store h
    handle_worker_event-Safe w app (Event.link_complete info) h = if_keeps Safe w.sends h h
    handle_worker_event-Safe w app (Event.account_info (ok info)) h =
        if_keeps Safe app.is_linked h (if_keeps Safe w.sends h h)
    handle_worker_event-Safe w app (Event.account_info (err _)) h = h
    handle_worker_event-Safe w app (Event.message m) h = receive_message-Safe app m h
    handle_worker_event-Safe w app (Event.send_complete ts) h = delivered-IsWell app.store ts h
    handle_worker_event-Safe w app (Event.send_error reason none) h = h
    handle_worker_event-Safe w app (Event.send_error reason (some ts)) h =
        failed-IsWell app.store ts h
    handle_worker_event-Safe w app (Event.contact_resolved u name) h =
        resolve-IsWell app.store u name h
    handle_worker_event-Safe w app (Event.username_resolve_result result) h =
        resolve_result-IsWell app result h
