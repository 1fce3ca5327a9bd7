-- ===== src/App/Guards.antt =====
-- Which commands a key of crates/xous-app-signal/src/gam_app.rs can send to the worker.
use xous_app_signal.Prelude.{
  ℕ, ◌≡◌, ◌⊎◌, refl, Bool, true, false, Option, none, some, Text, All, if_keeps, nat_beq, ok, arith,
  nat_eq,
}
use xous_app_signal.Collections.HashMap.{Iteration}
use xous_app_signal.Dialogue.{Uuid, DialogueSummary}
use xous_app_signal.MessageStore.{is_group_thread}
use xous_app_signal.App.{
  App, Screen, MenuItem, SettingsItem, NextScreenAfterInternet, Cmd, Step, Delta, move_cursor,
  settings_move, looks_like_signal_username,
}
use xous_app_signal.App.Keys.{
  World, is_confirmed, quiet, drive_link, drive_wipe_settings, drive_logout, menu_enter, menu_key,
  about_key, linked_key, no_internet_key, linking_key, send_compose, new_chat, drive_new_chat,
  home_key, is_blank, thread_key, settings_enter, settings_key, is_back, on_screen, handle_key,
}

module _ (to_text : Uuid → Text) where
  -- When a command may be sent, by the state and the answers of the system at the key.
  abbrev pub Permitted : World → App → Cmd → Type 0
  Permitted w app (Cmd.send_message recipient body timestamp) =
      (uuid : Uuid) × (app.screen ≡ Screen.thread uuid)
      × (is_group_thread app.store uuid ≡ false)
      × (recipient ≡ to_text uuid)
      × (body ≡ app.compose_buffer)
      × (is_blank body ≡ false)
      × (timestamp ≡ w.now)
  Permitted w app Cmd.logout =
      (is_confirmed w ≡ true)
      × (((app.screen ≡ Screen.menu) × (app.selected ≡ MenuItem.wipe_settings))
          ⊎ ((app.screen ≡ Screen.settings) × (app.settings_selected ≡ SettingsItem.logout)))
  Permitted w app (Cmd.link_device name) =
      (w.internet ≡ ok tt)
      × (((app.screen ≡ Screen.menu) × (app.selected ≡ MenuItem.link))
          ⊎ ((reason : Text) × (app.screen
                ≡ Screen.no_internet NextScreenAfterInternet.link reason)))
  Permitted w app Cmd.link_cancel = app.screen ≡ Screen.linking
  Permitted w app (Cmd.resolve_username name) =
      (app.screen ≡ Screen.home)
      × (app.username_lookup_in_progress ≡ false)
      × (looks_like_signal_username name ≡ true)
  Permitted w app Cmd.sync_contacts = app.screen ≡ Screen.home
  Permitted w app Cmd.get_account_info =
      (app.screen ≡ Screen.settings)
      × (app.settings_selected ≡ SettingsItem.profile)
      × (app.account_aci ≡ none)
  Permitted w app Cmd.hello = ⊥
  Permitted w app Cmd.get_whoami = ⊥
  Permitted w app Cmd.start_receive = ⊥
  Permitted w app Cmd.shutdown = ⊥

  abbrev pub AllPermitted : World → App → Step → Type 0
  AllPermitted w app none = Unit
  AllPermitted w app (some (_, cmds)) = All (Permitted w app) cmds

  quiet-AllPermitted : (w : World) (app : App) (o : Option App) → AllPermitted w app (quiet o)
  quiet-AllPermitted w app none = tt
  quiet-AllPermitted w app (some a) = tt

  drive_link-AllPermitted :
      (w : World) (app : App)
      → ((name : Text) → Permitted w app (Cmd.link_device name))
      → AllPermitted w app (drive_link w app)
  unfolding drive_link
  drive_link-AllPermitted w app p = ground (arith, p)

  menu_key-AllPermitted :
      (w : World) (app : App) (k : ℕ)
      → app.screen ≡ Screen.menu
      → AllPermitted w app (menu_key w app k)
  unfolding menu_key menu_enter drive_wipe_settings drive_link
  menu_key-AllPermitted w app k at = ground (
    arith,
    quiet-AllPermitted w app (move_cursor Delta.up app),
    quiet-AllPermitted w app (move_cursor Delta.down app),
  )

  about_key-AllPermitted : (w : World) (app : App) (k : ℕ) → AllPermitted w app (about_key app k)
  unfolding about_key
  about_key-AllPermitted w app k = ground arith

  linked_key-AllPermitted :
      (w : World) (app : App) (k : ℕ) → AllPermitted w app (linked_key w app k)
  unfolding linked_key
  linked_key-AllPermitted w app k = ground arith

  no_internet_key-AllPermitted :
      (w : World) (app : App) (next : NextScreenAfterInternet) (reason : Text) (k : ℕ)
      → app.screen ≡ Screen.no_internet next reason
      → AllPermitted w app (no_internet_key w app next k)
  unfolding no_internet_key drive_link
  no_internet_key-AllPermitted w app NextScreenAfterInternet.link reason k at = ground arith
  no_internet_key-AllPermitted w app NextScreenAfterInternet.home reason k at = ground arith

  linking_key-AllPermitted :
      (w : World) (app : App) (k : ℕ)
      → app.screen ≡ Screen.linking
      → AllPermitted w app (linking_key w app k)
  unfolding linking_key
  linking_key-AllPermitted w app k at = ground arith

  module _ (is_alphanumeric : ℕ → Bool) (parse_uuid : Text → Option Uuid) (simple : Uuid → Text)
      (order : Iteration Uuid DialogueSummary) where
    send_compose-AllPermitted :
        (w : World) (app : App) (uuid : Uuid)
        → app.screen ≡ Screen.thread uuid
        → is_blank app.compose_buffer ≡ false
        → AllPermitted w app
            (send_compose is_alphanumeric parse_uuid to_text simple order w app uuid)
    unfolding send_compose
    send_compose-AllPermitted w app uuid at text = ground arith

    home_key-AllPermitted :
        (w : World) (app : App) (k : ℕ)
        → app.screen ≡ Screen.home
        → AllPermitted w app (home_key is_alphanumeric parse_uuid to_text simple order w app k)
    unfolding home_key drive_new_chat new_chat
    home_key-AllPermitted w app k at = ground arith

    thread_key-AllPermitted :
        (w : World) (app : App) (uuid : Uuid) (k : ℕ)
        → app.screen ≡ Screen.thread uuid
        → AllPermitted w app
            (thread_key is_alphanumeric parse_uuid to_text simple order w app uuid k)
    unfolding thread_key
    thread_key-AllPermitted w app uuid k at =
        ground (arith, send_compose-AllPermitted w app uuid at)

    settings_key-AllPermitted :
        (w : World) (app : App) (k : ℕ)
        → app.screen ≡ Screen.settings
        → AllPermitted w app (settings_key is_alphanumeric parse_uuid to_text simple order w app k)
    unfolding settings_key settings_enter drive_logout
    settings_key-AllPermitted w app k at = ground (
      arith,
      quiet-AllPermitted w app (settings_move Delta.up app),
      quiet-AllPermitted w app (settings_move Delta.down app),
    )

    on_screen-AllPermitted :
        (w : World) (app : App) (k : ℕ) (screen : Screen)
        → app.screen ≡ screen
        → AllPermitted w app
            (on_screen is_alphanumeric parse_uuid to_text simple order w app k screen)
    unfolding on_screen
    on_screen-AllPermitted w app k Screen.menu at = menu_key-AllPermitted w app k at
    on_screen-AllPermitted w app k Screen.about at = about_key-AllPermitted w app k
    on_screen-AllPermitted w app k (Screen.linked _) at = linked_key-AllPermitted w app k
    on_screen-AllPermitted w app k (Screen.no_internet next reason) at =
        no_internet_key-AllPermitted w app next reason k at
    on_screen-AllPermitted w app k Screen.linking at = linking_key-AllPermitted w app k at
    on_screen-AllPermitted w app k Screen.wiping at = tt
    on_screen-AllPermitted w app k Screen.home at = home_key-AllPermitted w app k at
    on_screen-AllPermitted w app k (Screen.thread uuid) at = thread_key-AllPermitted w app uuid k at
    on_screen-AllPermitted w app k Screen.settings at = settings_key-AllPermitted w app k at
    on_screen-AllPermitted w app k Screen.profile at =
        if_keeps (AllPermitted w app) (is_back k) tt tt
    on_screen-AllPermitted w app k Screen.help at = if_keeps (AllPermitted w app) (is_back k) tt tt

    -- Whatever the key, the state and the answers of the system, a key sends a command only where it
    -- may: a message only from a thread that is no group, to that thread's contact, with the text of
    -- the compose box, which is not empty; a logout only after `yes` was typed, from the wipe item or
    -- the logout item; a link only after the network check, from the link item or its retry; a
    -- username lookup only while no other runs.
    pub handle_key-AllPermitted :
        (w : World) (app : App) (k : ℕ)
        → AllPermitted w app (handle_key is_alphanumeric parse_uuid to_text simple order w app k)
    unfolding handle_key
    handle_key-AllPermitted w app k =
        if_keeps (AllPermitted w app) (nat_beq k 0) tt
          (on_screen-AllPermitted w app k app.screen refl)
