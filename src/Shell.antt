-- ===== src/Shell.antt =====
-- Around the panels: the theme of frontend/src/hooks/useTheme.ts and components/ThemeSwitcher.tsx, the
-- banner of components/ReconnectBanner.tsx, the file dialogs of utils/filePicker.ts and the log of
-- utils/logger.ts. The dialogs of Tauri and of the browser are data that comes from outside.
pub mod Themes
use workflowui.Base.{
  ℕ, ◌-◌, String, Bool, true, false, not, ◌&&◌, ◌||◌, Option, none, some, List, [], ◌∷◌, max, eqb,
  ◌==◌, if◌then◌else◌,
}
use workflowui.Debug.{DebugState, Level, LogInput, add_log}
use workflowui.Runner.{◌<>◌}
use workflowui.Ws.{ConnectionState}

pub data Theme : Type 0 where
  dark light : Theme

abbrev pub theme_text : Theme → String
theme_text dark = "dark"
theme_text light = "light"

-- the attribute `data-theme` of the page, and the entry of the local storage
pub record Page : Type 0 where
  pub data_theme : Option String
  pub stored : Option String

-- a text that names a theme, and dark without one
abbrev pub theme_of : Option String → Theme
theme_of none = dark
theme_of (some t) = if t == "light" then light else dark

unfoldable pub get_snapshot : Page → Theme
get_snapshot p = theme_of p.data_theme

unfoldable pub get_stored_theme : Page → Theme
get_stored_theme p = theme_of p.stored

unfoldable pub set_theme : Theme → Page → Page
set_theme t p = record { data_theme = some (theme_text t); stored = some (theme_text t) }

-- `ThemeSwitcher` on mount, whose effect writes what was stored, and on a click
unfoldable pub mount_switcher : Page → Page
unfolding get_stored_theme set_theme
mount_switcher p = set_theme (get_stored_theme p) p

abbrev pub active_class : Theme → Page → String
active_class dark p = elim (get_snapshot p) [ dark ↦ "theme-btn active" | light ↦ "theme-btn " ]
active_class light p = elim (get_snapshot p) [ dark ↦ "theme-btn " | light ↦ "theme-btn active" ]

-- `remaining` of the banner's ticker, a time after it started
unfoldable pub remaining_ms : ℕ → ℕ → ℕ
remaining_ms next_retry_ms elapsed = next_retry_ms - elapsed

-- the label of the banner, if it is shown; `seconds` prints milliseconds as seconds with one digit
unfoldable pub banner_label : (ℕ → String) → (ℕ → String) → ConnectionState → ℕ → Option String
banner_label decimal seconds c countdown_ms =
    if c.connected
    then none
    else if c.reconnecting
    then some (
        "Backend disconnected — reconnecting (attempt "
        <> decimal c.attempt
        <> ", retry in "
        <> seconds countdown_ms
        <> "s)")
    else some "Backend disconnected"

-- how Tauri's `open` ends
pub data Opened : Type 0 where
  dismissed dialog_threw : Opened
  one_path : String → Opened
  paths : List String → Opened

abbrev pub first_path : List String → Option String
first_path [] = none
first_path (p ∷ ps) = some p

unfoldable pub pick_file_tauri : Opened → Option String
pick_file_tauri dismissed = none
pick_file_tauri dialog_threw = none
pick_file_tauri (one_path p) = some p
pick_file_tauri (paths ps) = first_path ps

-- the browser's dialog gives the names of the chosen files
unfoldable pub pick_file_browser : List String → Option String
pick_file_browser names = first_path names

unfoldable pub pick_file : Bool → Opened → List String → Option String
unfolding pick_file_tauri pick_file_browser
pick_file is_tauri opened names =
    if is_tauri then pick_file_tauri opened else pick_file_browser names

-- what `readTextFile` is given: a path, or a file of the browser, here by its name
pub data TextSource : Type 0 where
  at_path browser_file : String → TextSource

-- `read` and `read_file` are how reading ends, none for an error or what is no text
unfoldable pub read_text_file :
    Bool → (String → Option String) → (String → Option String) → TextSource → Option String
read_text_file is_tauri read read_file (at_path p) = if is_tauri then read p else none
read_text_file is_tauri read read_file (browser_file f) = read_file f

pub record PickedText : Type 0 where
  pub path : String
  pub content : String

-- `read` is how reading the file ends, none for an error or what is no text
unfoldable pub read_picked : String → Option String → Option PickedText
read_picked path none = none
read_picked path (some content) = some (record { path = path; content = content })

unfoldable pub pick_and_read_text_file :
    Bool → Opened → List String → (String → Option String) → Option PickedText
unfolding read_picked
pick_and_read_text_file true (one_path p) names read = read_picked p (read p)
pick_and_read_text_file true _ names read = none
pick_and_read_text_file false opened names read = elim (first_path names) [
  | none ↦ none
  | some name ↦ read_picked name (read name)
]

-- `logWarn` and `logError`, the console of a development build apart
unfoldable pub log_system :
    {V : Type 0} → Level → ℕ → String → Option V → DebugState V → DebugState V
log_system level now message payload s =
    add_log now
      (record { node_id = "__system__"; message = message; level = level; payload = payload }) s
