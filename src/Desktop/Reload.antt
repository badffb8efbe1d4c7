-- ===== src/Desktop/Reload.antt =====
-- What the browser keeps of the desktop is the desktop, but for the unsaved marks.
use Prim.Native.String.{String}
use home_server_interface.Base.{
  arith, Bool, true, false, List, [], ◌∷◌, map, find, Option, none, some, is_some, eq_refl, sym,
  ◌≡◌, refl, ap, ◌∙◌, Bool-cases, Option-cases, inl, inr, mem,
}
use home_server_interface.Desktop.{
  AppId, SettingsSection, FilePreviewPayload, DesktopWindow, SavedWindow, current, old_dashboard,
  Desktop, undirtied, still_there, load_windows, load_desktop_mode, reload, modify_first, has_id,
  is_app, shows, with_section, literal, multi_instance, open_app, open_file_preview, close_window,
  set_dirty, focus_window, toggle_minimize, toggle_maximize, move_window, resize_window,
  clamp_to_viewport, set_desktop_mode, change_window, persist,
}
use home_server_interface.Desktop.Actions.{
  Action, act, open_it, preview_it, close_it, mark_it, focus_it, minimize_it, maximize_it, move_it,
  resize_it, clamp_all, set_mode,
}

module _ {Json : Type 0} (stringify : List DesktopWindow → Json)
    (parse : Json → Option (List SavedWindow)) where
  -- What the browser keeps reads back as the desktop.
  abbrev pub InStep : Desktop Json → Type 0
  InStep d =
      (load_windows parse d.stored ≡ map undirtied d.windows)
      × (load_desktop_mode d.stored_mode ≡ d.desktop_mode)

  -- Actions one after another, from the page as it is opened.
  abbrev pub run : List Action → Desktop Json → Desktop Json
  run [] d = d
  run (a ∷ actions) d = run actions (act stringify a d)

  still_there-map :
      (wins : List DesktopWindow) → still_there (map current wins) ≡ map undirtied wins
  still_there-map [] = refl
  still_there-map (win ∷ wins) = ap (λ rest. undirtied win ∷ rest) (still_there-map wins)

  undirtied-still_there :
      (saved : List SavedWindow) → map undirtied (still_there saved) ≡ still_there saved
  undirtied-still_there [] = refl
  undirtied-still_there (current win ∷ saved) =
      ap (λ rest. undirtied win ∷ rest) (undirtied-still_there saved)
  undirtied-still_there (old_dashboard ∷ saved) = undirtied-still_there saved

  marked-undirtied :
      (id : String) (dirty : Bool) (wins : List DesktopWindow)
      → map undirtied (modify_first (has_id id) (λ win. record win { dirty = some dirty }) wins)
        ≡ map undirtied wins
  marked-undirtied id dirty [] = refl
  marked-undirtied id dirty (win ∷ wins) = elim (Bool-cases (has_id id win)) [
    | inl hit ↦ rw (hit) refl
    | inr miss ↦ rw (miss) (ap (λ rest. undirtied win ∷ rest) (marked-undirtied id dirty wins))
  ]

  module _
      (round_trip : (wins : List DesktopWindow)
        → parse (stringify wins) ≡ some (map current wins)) where
    persist-InStep :
        (wins : List DesktopWindow) (d : Desktop Json)
        → InStep d
        → InStep (persist stringify wins d)
    unfolding load_windows
    persist-InStep wins d step = (rw (round_trip wins) (still_there-map wins), step.1)

    change_window-InStep :
        (id : String) (change : DesktopWindow → DesktopWindow) (d : Desktop Json)
        → InStep d
        → InStep (change_window stringify id change d)
    change_window-InStep id change d step =
        elim (Bool-cases (is_some (find (has_id id) d.windows))) [
          | inl there ↦ rw (there) (persist-InStep _ d step)
          | inr missing ↦ rw (missing) step
        ]

    still_found :
        (app : AppId) (section : Option SettingsSection) (wins : List DesktopWindow)
        (existing : DesktopWindow)
        → find (is_app app) wins ≡ some existing
        → is_some
            (find (has_id existing.id) (modify_first (is_app app) (with_section section) wins))
          ≡ true
    still_found app section [] existing found = cc
    still_found app section (win ∷ wins) existing found = elim (Bool-cases (is_app app win)) [
      | inl hit ↦ elim (Option-cases section) [
        | inl plain ↦ ground (arith, hit, found, plain, eq_refl existing.id)
        | inr (named, asked) ↦ ground (arith, hit, found, asked, eq_refl existing.id)
      ]
      | inr miss ↦ elim (Bool-cases (has_id existing.id win)) [
        | inl same ↦ rw (miss, same) refl
        | inr other ↦ rw (miss, other) (still_found app section wins existing (rw (miss) at found))
      ]
    ]

    open_app-InStep :
        (id : String) (app : AppId) (section : Option SettingsSection) (d : Desktop Json)
        → InStep d
        → InStep (open_app stringify id app section d)
    unfolding open_app focus_window
    open_app-InStep id app section d step = elim (Bool-cases (mem (literal app) multi_instance)) [
      | inl several ↦ rw (several) (persist-InStep _ d step)
      | inr once ↦ elim (Option-cases (find (is_app app) d.windows)) [
        | inl absent ↦ rw (once, absent) (persist-InStep _ d step)
        | inr (existing, there) ↦
            rw (once, there, still_found app section d.windows existing there)
              (persist-InStep _ d step)
      ]
    ]

    open_file_preview-InStep :
        (id : String) (entry : FilePreviewPayload) (d : Desktop Json)
        → InStep d
        → InStep (open_file_preview stringify id entry d)
    unfolding open_file_preview focus_window
    open_file_preview-InStep id entry d step = elim (Option-cases (find (shows entry) d.windows)) [
      | inl absent ↦ rw (open_file_preview, absent) (persist-InStep _ d step)
      | inr (existing, there) ↦
          rw (open_file_preview, there) (change_window-InStep existing.id _ d step)
    ]

    act-InStep : (a : Action) (d : Desktop Json) → InStep d → InStep (act stringify a d)
    unfolding close_window set_dirty focus_window toggle_minimize toggle_maximize move_window
        resize_window clamp_to_viewport set_desktop_mode
    act-InStep (open_it id app section) d step = open_app-InStep id app section d step
    act-InStep (preview_it id entry) d step = open_file_preview-InStep id entry d step
    act-InStep (close_it id) d step = persist-InStep _ d step
    act-InStep (mark_it id dirty) d step =
        (step.0 ∙ sym (marked-undirtied id dirty d.windows), step.1)
    act-InStep (focus_it id) d step = change_window-InStep id _ d step
    act-InStep (minimize_it id) d step = change_window-InStep id _ d step
    act-InStep (maximize_it id bounds) d step = change_window-InStep id _ d step
    act-InStep (move_it id x y) d step = change_window-InStep id _ d step
    act-InStep (resize_it id w h) d step = change_window-InStep id _ d step
    act-InStep (clamp_all bounds) d step = persist-InStep _ d step
    act-InStep (set_mode true) d step = (step.0, refl)
    act-InStep (set_mode false) d step = (step.0, refl)

    read-undirtied :
        (saved : Option Json) → load_windows parse saved ≡ map undirtied (load_windows parse saved)
    unfolding load_windows
    read-undirtied none = refl
    read-undirtied (some raw) = elim (Option-cases (parse raw)) [
      | inl broken ↦ rw (broken) refl
      | inr (saved, got) ↦ rw (got) (sym (undirtied-still_there saved))
    ]

    reload-InStep : (d : Desktop Json) → InStep (reload parse d)
    unfolding reload
    reload-InStep d = (read-undirtied d.stored, refl)

    run-InStep : (actions : List Action) (d : Desktop Json) → InStep d → InStep (run actions d)
    run-InStep [] d step = step
    run-InStep (a ∷ actions) d step = run-InStep actions (act stringify a d) (act-InStep a d step)

-- After a page is opened and any operations run on its desktop, opening it again gives the same
-- desktop: every window as it was, but for the marks of unsaved content, which are cleared, and the same mode.
-- `JSON.parse` has to read back the windows that `JSON.stringify` wrote.
pub reload-run :
    {Json : Type 0} (stringify : List DesktopWindow → Json)
    (parse : Json → Option (List SavedWindow))
    (round_trip : (wins : List DesktopWindow) → parse (stringify wins) ≡ some (map current wins))
    (actions : List Action) (d : Desktop Json)
    → reload parse (run stringify parse actions (reload parse d))
      ≡ record (run stringify parse actions (reload parse d)) {
        windows = map undirtied (run stringify parse actions (reload parse d)).windows;
      }
unfolding reload
reload-run stringify parse round_trip actions d =
    let (windows, mode) =
      run-InStep stringify parse round_trip actions (reload parse d)
        (reload-InStep stringify parse round_trip d) in
    ground (arith, windows, mode)
