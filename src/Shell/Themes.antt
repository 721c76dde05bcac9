-- ===== src/Shell/Themes.antt =====
-- The theme that was set is the theme that is read.
use workflowui.Base.{◌≡◌, refl}
use workflowui.Shell.{
  Theme, dark, light, Page, get_snapshot, get_stored_theme, set_theme, mount_switcher,
}

-- A theme that is set is the one that the page and the storage have, and the next mount of the
-- switcher, whatever else the page shows by then, brings it back.
pub set_theme_lem :
    (t : Theme) (p q : Page)
    → q.stored ≡ (set_theme t p).stored
    → (get_snapshot (set_theme t p) ≡ t)
      × (get_stored_theme (set_theme t p) ≡ t)
      × (get_snapshot (mount_switcher q) ≡ t)
unfolding get_snapshot get_stored_theme set_theme mount_switcher
set_theme_lem dark p q e = (refl, refl, rw e refl)
set_theme_lem light p q e = (refl, refl, rw e refl)
