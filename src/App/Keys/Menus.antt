-- ===== src/App/Keys/Menus.antt =====
-- The keys of the screens around the conversations, in `handle_keys` of
-- crates/xous-app-signal/src/gam_app.rs: the menu, the link and the wipe dialogues, the network
-- check. What the services of the operating system answer during one key is a `World`.
use xous_app_signal.Prelude.{
  ℕ, ◌+◌, Bool, true, false, ◌&&◌, ◌||◌, Option, none, some, Text, codes, [], ◌∷◌, ◌++◌, leb,
  nat_beq, text_beq, if◌then◌else◌, Result, ok, err,
}
use xous_app_signal.Prelude.{nat_eq}
use xous_app_signal.App.{
  App, Screen, MenuItem, SettingsItem, LinkedKind, NextScreenAfterInternet, Cmd, Step, Delta, done,
  move_cursor,
}

pub record World : Type 0 where
  -- `check_internet`
  pub internet : Result (Unit {0}) Text
  -- `modals::Modals::new`
  pub modals : Result (Unit {0}) Text
  -- The first payload of the alert that is built, trimmed.
  pub typed : Result Text Text
  -- Whether the channel to the worker takes a command.
  pub sends : Bool
  -- Its error, where it does not.
  pub send_error : Text
  -- `unix_now_ms`
  pub now : ℕ
  -- `next_attempt_device_name`
  pub default_name : Text

abbrev pub arrow_up : ℕ
arrow_up = 0x2191

abbrev pub arrow_down : ℕ
arrow_down = 0x2193

abbrev pub key_menu : ℕ
key_menu = 0x2630

abbrev pub key_esc : ℕ
key_esc = 0x1b

abbrev pub key_backspace : ℕ
key_backspace = 8

-- `'∴'` or carriage return
abbrev pub is_enter : ℕ → Bool
is_enter k = nat_beq k 0x2234 || nat_beq k 0xd

abbrev pub send : World → Cmd → App → App → Step
send w cmd taken refused = if w.sends then some (taken, cmd ∷ []) else done refused

abbrev pub home_or_menu : App → Screen
home_or_menu app = if app.is_linked then Screen.home else Screen.menu

unfoldable pub drive_link : World → App → Step
drive_link w app = elim w.modals [
  | err e ↦ done (record app {
    screen = Screen.linked LinkedKind.failure;
    last_status = codes "Modals init failed:\n" ++ e;
  })
  | ok _ ↦ elim w.typed [
    | err e ↦ done (record app {
      screen = Screen.linked LinkedKind.failure;
      last_status = codes "device name modal:\n" ++ e;
    })
    | ok trimmed ↦
        send w (Cmd.link_device (elim trimmed [ [] ↦ w.default_name | c ∷ s ↦ c ∷ s ]))
          (record app { screen = Screen.linking; linking_in_progress = true })
          (record app {
            screen = Screen.linked LinkedKind.failure;
            last_status = codes "Cmd::LinkDevice send:\n" ++ w.send_error;
            linking_in_progress = false;
          })
  ]
]

-- `to_ascii_lowercase` on one character.
abbrev pub to_lower : ℕ → ℕ
to_lower c = if leb b'A' c && leb c b'Z' then c + 32 else c

unfoldable pub lower : Text → Text
lower [] = []
lower (c ∷ s) = to_lower c ∷ lower s

-- `payloads.first().as_str().trim().eq_ignore_ascii_case("yes")`
unfoldable pub is_confirmed : World → Bool
unfolding lower
is_confirmed w = elim w.modals [
  | err _ ↦ false
  | ok _ ↦ elim w.typed [ err _ ↦ false | ok answer ↦ text_beq (lower answer) (codes "yes") ]
]

unfoldable pub drive_wipe_settings : World → App → Step
unfolding is_confirmed
drive_wipe_settings w app =
    if is_confirmed w
    then send w Cmd.logout (record app { screen = Screen.wiping })
        (record app { screen = Screen.menu })
    else done app

unfoldable pub drive_logout : World → App → Step
unfolding is_confirmed
drive_logout w app = if is_confirmed w then send w Cmd.logout app app else done app

-- The check of the network, then a step.
abbrev pub preflight : World → App → NextScreenAfterInternet → Step → Step
preflight w app next step = elim w.internet [
  | ok _ ↦ step
  | err reason ↦ done (record app { screen = Screen.no_internet next reason })
]

abbrev pub to_home : App → App
to_home app = record app { screen = Screen.home; home_focus = 0 }

unfoldable pub menu_enter : World → App → Step
unfolding drive_link drive_wipe_settings
menu_enter w app = elim app.selected [
  | MenuItem.link ↦ preflight w app NextScreenAfterInternet.link (drive_link w app)
  | MenuItem.about ↦ done (record app { screen = Screen.about })
  | MenuItem.help ↦ done (record app { screen = Screen.help })
  | MenuItem.wipe_settings ↦ drive_wipe_settings w app
]

abbrev pub quiet : Option App → Step
quiet none = none
quiet (some app) = done app

unfoldable pub menu_key : World → App → ℕ → Step
unfolding menu_enter move_cursor
menu_key w app k =
    if nat_beq k arrow_up
    then quiet (move_cursor Delta.up app)
    else if nat_beq k arrow_down
    then quiet (move_cursor Delta.down app)
    else if is_enter k
    then menu_enter w app
    else if nat_beq k key_esc && app.is_linked
    then done (record app { screen = Screen.home; selected = MenuItem.about })
    else done app

unfoldable pub about_key : App → ℕ → Step
about_key app k =
    if is_enter k || nat_beq k 0x11 || nat_beq k key_esc
    then done (record app { screen = home_or_menu app })
    else done app

abbrev pub clear_status : Step → Step
clear_status none = none
clear_status (some (app, cmds)) = some (record app { last_status = [] }, cmds)

unfoldable pub linked_key : World → App → ℕ → Step
linked_key w app k =
    if is_enter k
    then clear_status (
        if app.is_linked
        then preflight w app NextScreenAfterInternet.home (done (to_home app))
        else done (record app { screen = Screen.menu; selected = MenuItem.link }))
    else done app

unfoldable pub no_internet_key : World → App → NextScreenAfterInternet → ℕ → Step
unfolding drive_link
no_internet_key w app next k =
    if is_enter k
    then preflight w app next (elim next [
      | NextScreenAfterInternet.link ↦ drive_link w app
      | NextScreenAfterInternet.home ↦ done (to_home app)
    ])
    else if nat_beq k key_esc || nat_beq k key_backspace
    then done (record app { screen = home_or_menu app; selected = MenuItem.link })
    else done app

unfoldable pub linking_key : World → App → ℕ → Step
linking_key w app k =
    let left = record app {
      linking_in_progress = false;
      screen = Screen.menu;
      selected = MenuItem.link;
      last_status = [];
    } in
    if nat_beq k key_esc || nat_beq k key_backspace
    then send w Cmd.link_cancel left left
    else done app

abbrev pub to_settings : App → App
to_settings app = record app { screen = Screen.settings; settings_selected = SettingsItem.profile }
