-- ===== src/App/Keys.antt =====
-- `handle_keys` of crates/xous-app-signal/src/gam_app.rs, with the dialogues that it drives: the keys
-- of the conversations and of the settings, and the match on the screen.
mod Menus
unfoldable pub use Menus.*
use xous_app_signal.Prelude.{
  ℕ, suc, ◌+◌, ◌-◌, Bool, true, false, ◌&&◌, ◌||◌, Option, none, some, Text, codes, List, [], ◌∷◌,
  ◌++◌, length, leb, ltb, nat_beq, text_beq, if◌then◌else◌, Result, ok, err,
}
use xous_app_signal.Collections.HashMap.{Iteration}
use xous_app_signal.Prelude.{nat_eq}
use xous_app_signal.Dialogue.{Uuid, DialogueSummary}
use xous_app_signal.MessageStore.{
  is_group_thread, push_outgoing_pending, mark_send_failed, mark_thread_read,
}
use xous_app_signal.App.{
  App, Screen, MenuItem, SettingsItem, LinkedKind, NextScreenAfterInternet, Cmd, Step, Delta, done,
  nth, move_cursor, settings_move, looks_like_signal_username,
}

-- `String::pop`
unfoldable pub pop : Text → Text
pop [] = []
pop (c ∷ []) = []
pop (c ∷ d ∷ s) = c ∷ pop (d ∷ s)

-- Whether the compose buffer is empty.
abbrev pub is_blank : Text → Bool
is_blank [] = true
is_blank (_ ∷ _) = false

-- The keys that leave the profile and the help.
abbrev pub is_back : ℕ → Bool
is_back k = is_enter k || nat_beq k key_esc || nat_beq k 0x11

abbrev pub and_send : List Cmd → Step → Step
and_send cmds none = none
and_send cmds (some (app, more)) = some (app, cmds ++ more)

module _ (is_alphanumeric : ℕ → Bool) (parse_uuid : Text → Option Uuid) (to_text : Uuid → Text)
    (simple : Uuid → Text) (order : Iteration Uuid DialogueSummary) where
  -- ASCII punctuation is the printable ASCII that is no letter, digit or space.
  unfoldable pub is_compose_char : ℕ → Bool
  is_compose_char c =
      is_alphanumeric c
      || nat_beq c b' '
      || (leb 0x21 c && leb c 0x2f)
      || (leb 0x3a c && leb c 0x40)
      || (leb 0x5b c && leb c 0x60)
      || (leb 0x7b c && leb c 0x7e)

  unfoldable pub send_compose : World → App → Uuid → Step
  send_compose w app recipient_uuid =
      if is_group_thread app.store recipient_uuid
      then done (record app { last_status = codes "Group reply not supported yet" })
      else (elim (push_outgoing_pending simple order app.store recipient_uuid app.compose_buffer
          w.now) [
            | none ↦ none
            | some store ↦
                send w (Cmd.send_message (to_text recipient_uuid) app.compose_buffer w.now)
                  (record app { compose_buffer = []; store = store })
                  (record app {
                    compose_buffer = [];
                    store = (mark_send_failed simple order store w.now).0;
                  })
          ])

  -- `F1` on the list: the input is a UUID, a username, or refused.
  unfoldable pub new_chat : World → App → Text → Step
  new_chat w app raw = elim (parse_uuid raw) [
    | some uuid ↦ done (record app { screen = Screen.thread uuid; compose_buffer = [] })
    | none ↦
        if looks_like_signal_username raw
        then (if app.username_lookup_in_progress
            then done app
            else send w (Cmd.resolve_username raw)
                (record app {
                  username_lookup_in_progress = true;
                  username_lookup_pending = some raw;
                })
                app)
        else done app
  ]

  unfoldable pub drive_new_chat : World → App → Step
  unfolding new_chat
  drive_new_chat w app = elim w.modals [
    | err _ ↦ done app
    | ok _ ↦ elim w.typed [
      | err _ ↦ done app
      | ok [] ↦ done app
      | ok (c ∷ s) ↦ new_chat w app (c ∷ s)
    ]
  ]

  abbrev pub open_focused : App → Option DialogueSummary → Step
  open_focused app none = done app
  open_focused app (some d) = done (record app {
    store = mark_thread_read simple order app.store d.uuid;
    screen = Screen.thread d.uuid;
  })

  unfoldable pub home_key : World → App → ℕ → Step
  unfolding drive_new_chat nth
  home_key w app k =
      if nat_beq k arrow_up
      then done (record app { home_focus = app.home_focus - 1 })
      else if nat_beq k arrow_down
      then (if ltb app.home_focus (length app.store.dialogues - 1)
          then done (record app { home_focus = suc app.home_focus })
          else done app)
      else if is_enter k
      then open_focused app (nth app.store.dialogues app.home_focus)
      else if nat_beq k key_menu || nat_beq k key_esc
      then done (to_settings app)
      else if nat_beq k 0x11
      then drive_new_chat w app
      else if nat_beq k 0x12
      then send w Cmd.sync_contacts app app
      else if nat_beq k 0x13
      then done (record app { screen = Screen.help })
      else if nat_beq k 0x14
      then done (to_settings app)
      else done app

  unfoldable pub thread_key : World → App → Uuid → ℕ → Step
  unfolding send_compose is_compose_char pop
  thread_key w app uuid k =
      if is_enter k
      then (if is_blank app.compose_buffer
          then done (record app { screen = Screen.home })
          else send_compose w app uuid)
      else if nat_beq k key_backspace
      then done (record app { compose_buffer = pop app.compose_buffer })
      else if is_compose_char k
      then done (record app { compose_buffer = app.compose_buffer ++ (k ∷ []) })
      else if nat_beq k 0x11
      then (if is_blank app.compose_buffer then done app else send_compose w app uuid)
      else if nat_beq k 0x14
      then done (to_settings app)
      else if nat_beq k 0x13
      then done (record app { screen = Screen.help })
      else done app

  unfoldable pub settings_enter : World → App → Step
  unfolding drive_logout
  settings_enter w app = elim app.settings_selected [
    | SettingsItem.profile ↦
        let shown = record app { screen = Screen.profile } in
        elim app.account_aci [
          | some _ ↦ done shown
          | none ↦ send w Cmd.get_account_info (record shown { account_query_pending = true }) shown
        ]
    | SettingsItem.help ↦ done (record app { screen = Screen.help })
    | SettingsItem.about ↦ done (record app { screen = Screen.about })
    | SettingsItem.logout ↦ drive_logout w app
  ]

  unfoldable pub settings_key : World → App → ℕ → Step
  unfolding settings_enter settings_move
  settings_key w app k =
      if nat_beq k arrow_up
      then quiet (settings_move Delta.up app)
      else if nat_beq k arrow_down
      then quiet (settings_move Delta.down app)
      else if is_enter k
      then settings_enter w app
      else if nat_beq k key_esc || nat_beq k key_menu || nat_beq k 0x11
      then done (record app { screen = Screen.home })
      else done app

  -- The arms of the match on the screen and the key.
  unfoldable pub on_screen : World → App → ℕ → Screen → Step
  unfolding menu_key about_key linked_key no_internet_key linking_key home_key thread_key
      settings_key
  on_screen w app k Screen.menu = menu_key w app k
  on_screen w app k Screen.about = about_key app k
  on_screen w app k (Screen.linked _) = linked_key w app k
  on_screen w app k (Screen.no_internet next _) = no_internet_key w app next k
  on_screen w app k Screen.linking = linking_key w app k
  on_screen w app k Screen.wiping = done app
  on_screen w app k Screen.home = home_key w app k
  on_screen w app k (Screen.thread uuid) = thread_key w app uuid k
  on_screen w app k Screen.settings = settings_key w app k
  on_screen w app k Screen.profile =
      if is_back k then done (record app { screen = Screen.settings }) else done app
  on_screen w app k Screen.help =
      if is_back k then done (record app { screen = Screen.home }) else done app

  unfoldable pub handle_key : World → App → ℕ → Step
  unfolding on_screen
  handle_key w app k = if nat_beq k 0 then done app else on_screen w app k app.screen

  unfoldable pub handle_keys : List (World × ℕ) → App → Step
  unfolding handle_key
  handle_keys [] app = done app
  handle_keys ((w, k) ∷ keys) app = elim (handle_key w app k) [
    | none ↦ none
    | some (app', cmds) ↦ and_send cmds (handle_keys keys app')
  ]
