-- ===== src/Desktop/Steps.antt =====
-- Every operation of the desktop keeps its windows well-formed and large enough.
use Prim.Native.String.{String}
use home_server_interface.Base.{
  arith, ℕ, ◌≤◌, Bool, true, false, List, [], ◌∷◌, mem, find, Option, none, some, is_some, ℤ, ◌≡◌,
  refl, All, All-append, All-filter, Bool-cases, Option-cases, inl, inr, pos, negsuc,
}
use home_server_interface.Desktop.{
  AppId, SettingsSection, FilePreviewPayload, DesktopWindow, Size, Desktop, literal, multi_instance,
  has_id, is_app, shows, raised, new_window, with_section, max_toggled, at_least, clamp_window,
  default_size, next_z_index, files, apps, settings, storage, store, monitor, sharing, assistant,
  file_preview, min_w, min_h, open_app, open_file_preview, close_window, set_dirty, focus_window,
  toggle_minimize, toggle_maximize, move_window, resize_window, clamp_to_viewport, set_desktop_mode,
  change_window, add_window,
}
use home_server_interface.Desktop.Actions.{
  Action, act, open_it, preview_it, close_it, mark_it, focus_it, minimize_it, maximize_it, move_it,
  resize_it, clamp_all, set_mode,
}
use home_server_interface.Desktop.Viewport.{Sized}
use home_server_interface.Desktop.Windows.{
  WellFormed, Keeps, Fresh, Agrees, All-map, All-modify, map-WellFormed, modify_first-WellFormed,
  filter-WellFormed, raised-WellFormed, add_window-WellFormed, next_z_index-Below,
}

-- What is kept: both at once.
abbrev pub Kept : List DesktopWindow → Type 0
Kept wins = WellFormed wins × All Sized wins

-- `randomId` gives an id that no window has.
abbrev pub HasFreshId : Action → List DesktopWindow → Type 0
HasFreshId (open_it id app section) wins = All (Fresh id) wins
HasFreshId (preview_it id entry) wins = All (Fresh id) wins
HasFreshId (close_it id) wins = Unit
HasFreshId (mark_it id dirty) wins = Unit
HasFreshId (focus_it id) wins = Unit
HasFreshId (minimize_it id) wins = Unit
HasFreshId (maximize_it id bounds) wins = Unit
HasFreshId (move_it id x y) wins = Unit
HasFreshId (resize_it id w h) wins = Unit
HasFreshId (clamp_all bounds) wins = Unit
HasFreshId (set_mode on) wins = Unit

unfound :
    (p : DesktopWindow → Bool) (wins : List DesktopWindow)
    → find p wins ≡ none
    → All (λ win. p win ≡ false) wins
unfound p [] e = tt
unfound p (win ∷ wins) e = elim (Bool-cases (p win)) [
  | inl hit ↦ ground (arith, hit, e)
  | inr miss ↦ (miss, unfound p wins (rw (miss) at e))
]

default_size-large : (app : AppId) → (min_w ≤ (default_size app).w) × (min_h ≤ (default_size app).h)
unfolding default_size
default_size-large files = (omega arith, omega arith)
default_size-large apps = (omega arith, omega arith)
default_size-large settings = (omega arith, omega arith)
default_size-large storage = (omega arith, omega arith)
default_size-large store = (omega arith, omega arith)
default_size-large monitor = (omega arith, omega arith)
default_size-large sharing = (omega arith, omega arith)
default_size-large assistant = (omega arith, omega arith)
default_size-large file_preview = (omega arith, omega arith)

max_toggled-Sized :
    (bounds : Size) (win : DesktopWindow) → Sized win → Sized (max_toggled bounds win)
max_toggled-Sized bounds win big = elim (Bool-cases win.maximized) [
  | inl m ↦ elim (Option-cases win.prev_rect) [
    | inl never ↦ ground (arith, m, never, big)
    | inr (r, back) ↦ rw (m, back) (rw (m, back) at big)
  ]
  | inr m ↦ rw (m) (rw (m) at big)
]

clamp_window-Sized :
    (bounds : Size) (win : DesktopWindow) → Sized win → Sized (clamp_window bounds win)
unfolding clamp_window
clamp_window-Sized bounds win big = elim (Bool-cases win.maximized) [
  | inl m ↦ elim (Option-cases win.prev_rect) [
    | inl never ↦ ground (arith, m, never, big)
    | inr (r, back) ↦ rw (m, back) (rw (m, back) at big)
  ]
  | inr m ↦ let (wide, high) = rw (m) at big in rw (m) (omega arith, omega arith)
]

at_least-ge : (n : ℕ) (z : ℤ) → n ≤ at_least n z
at_least-ge n (pos m) = omega arith
at_least-ge n (negsuc m) = omega arith

resized-Sized :
    (w h : ℤ) (win : DesktopWindow)
    → Sized win
    → Sized (record win { w = at_least min_w w; h = at_least min_h h })
resized-Sized w h win big = elim (Bool-cases win.maximized) [
  | inl m ↦ elim (Option-cases win.prev_rect) [
    | inl never ↦ ground (arith, m, never, big)
    | inr (r, back) ↦ rw (m, back) (rw (m, back) at big)
  ]
  | inr m ↦ rw (m) (at_least-ge min_w w, at_least-ge min_h h)
]

with_section-Keeps : (section : Option SettingsSection) → Keeps (with_section section)
with_section-Keeps none win = (refl, refl, refl, refl)
with_section-Keeps (some section) win = (refl, refl, refl, refl)

with_section-Sized :
    (section : Option SettingsSection) (win : DesktopWindow)
    → Sized win
    → Sized (with_section section win)
with_section-Sized none win big = big
with_section-Sized (some section) win big = big

max_toggled-Keeps : (bounds : Size) → Keeps (max_toggled bounds)
max_toggled-Keeps bounds win = elim (Bool-cases win.maximized) [
  | inl m ↦ elim (Option-cases win.prev_rect) [
    | inl never ↦ rw (m, never) (refl, refl, refl, refl)
    | inr (r, back) ↦ rw (m, back) (refl, refl, refl, refl)
  ]
  | inr m ↦ rw (m) (refl, refl, refl, refl)
]

clamp_window-Keeps : (bounds : Size) → Keeps (clamp_window bounds)
unfolding clamp_window
clamp_window-Keeps bounds win = elim (Bool-cases win.maximized) [
  | inl m ↦ rw (m) (refl, refl, refl, refl)
  | inr m ↦ rw (m) (refl, refl, refl, refl)
]

module _ {Json : Type 0} (stringify : List DesktopWindow → Json) where
  change_window-Kept :
      (id : String) (change : DesktopWindow → DesktopWindow) (d : Desktop Json)
      → Keeps change
      → ((win : DesktopWindow) → Sized win → Sized (change win))
      → Kept d.windows
      → Kept (change_window stringify id change d).windows
  change_window-Kept id change d keeps sizes kept =
      elim (Bool-cases (is_some (find (has_id id) d.windows))) [
        | inl there ↦ rw (there) (
          modify_first-WellFormed (has_id id) change keeps d.windows kept.0,
          All-modify Sized (has_id id) change sizes d.windows kept.1,
        )
        | inr missing ↦ rw (missing) kept
      ]

  focus_window-Kept :
      (id : String) (d : Desktop Json) → Kept d.windows → Kept (focus_window stringify id d).windows
  unfolding focus_window
  focus_window-Kept id d kept = elim (Bool-cases (is_some (find (has_id id) d.windows))) [
    | inl there ↦ rw (there) (
      raised-WellFormed (has_id id) (next_z_index d.windows) d.windows
          (next_z_index-Below d.windows) kept.0,
      All-modify Sized (has_id id) (raised (next_z_index d.windows)) (λ win big. big) d.windows
          kept.1,
    )
    | inr missing ↦ rw (missing) kept
  ]

  add_window-Kept :
      (id : String) (app : AppId) (section : Option SettingsSection)
      (entry : Option FilePreviewPayload) (d : Desktop Json)
      → All (Fresh id) d.windows
      → All (Agrees (new_window id app section entry d.windows)) d.windows
      → Kept d.windows
      → Kept (add_window stringify id app section entry d).windows
  unfolding new_window
  add_window-Kept id app section entry d fresh agrees kept = (
    add_window-WellFormed id app section entry d.windows fresh agrees kept.0,
    All-append Sized d.windows _ kept.1 (default_size-large app, tt),
  )

  -- A window of an app that may be open several times.
  no_conflict :
      (id : String) (app : AppId) (section : Option SettingsSection) (wins all : List DesktopWindow)
      → mem (literal app) multi_instance ≡ true
      → All (Agrees (new_window id app section none all)) wins
  unfolding new_window
  no_conflict id app section [] all several = tt
  no_conflict id app section (win ∷ wins) all several = (
    elim (Option-cases win.preview) [
      | inl plain ↦ ground (arith, several, plain)
      | inr (entry, shown) ↦ ground (arith, several, shown)
    ],
    no_conflict id app section wins all several,
  )

  first_of_app :
      (id : String) (app : AppId) (section : Option SettingsSection) (wins all : List DesktopWindow)
      → All (λ win. is_app app win ≡ false) wins
      → All (Agrees (new_window id app section none all)) wins
  unfolding new_window
  first_of_app id app section [] all absent = tt
  first_of_app id app section (win ∷ wins) all absent =
      (ground (arith, absent.0), first_of_app id app section wins all absent.1)

  first_preview :
      (id : String) (entry : FilePreviewPayload) (wins all : List DesktopWindow)
      → All (λ win. shows entry win ≡ false) wins
      → All (Agrees (new_window id file_preview none (some entry) all)) wins
  unfolding new_window
  first_preview id entry [] all absent = tt
  first_preview id entry (win ∷ wins) all absent =
      (absent.0, first_preview id entry wins all absent.1)

  open_app-Kept :
      (id : String) (app : AppId) (section : Option SettingsSection) (d : Desktop Json)
      → Kept d.windows
      → All (Fresh id) d.windows
      → Kept (open_app stringify id app section d).windows
  unfolding open_app
  open_app-Kept id app section d kept fresh = elim (Bool-cases (mem (literal app) multi_instance)) [
    | inl several ↦ rw (several) (
        add_window-Kept id app section none d fresh
          (no_conflict id app section d.windows d.windows several) kept)
    | inr once ↦ elim (Option-cases (find (is_app app) d.windows)) [
      | inl absent ↦
          rw (once, absent)
            (add_window-Kept id app section none d fresh
              (first_of_app id app section d.windows d.windows
                (unfound (is_app app) d.windows absent))
              kept)
      | inr (existing, there) ↦
          rw (once, there)
            (focus_window-Kept existing.id _ (
              modify_first-WellFormed (is_app app) (with_section section)
                  (with_section-Keeps section) d.windows kept.0,
              All-modify Sized (is_app app) (with_section section) (with_section-Sized section)
                  d.windows kept.1,
            ))
    ]
  ]

  open_file_preview-Kept :
      (id : String) (entry : FilePreviewPayload) (d : Desktop Json)
      → Kept d.windows
      → All (Fresh id) d.windows
      → Kept (open_file_preview stringify id entry d).windows
  unfolding open_file_preview
  open_file_preview-Kept id entry d kept fresh =
      elim (Option-cases (find (shows entry) d.windows)) [
        | inl absent ↦
            rw (open_file_preview, absent)
              (add_window-Kept id file_preview none (some entry) d fresh
                (first_preview id entry d.windows d.windows
                  (unfound (shows entry) d.windows absent))
                kept)
        | inr (existing, there) ↦
            rw (open_file_preview, there) (focus_window-Kept existing.id d kept)
      ]

-- No operation of the desktop opens a second window of an app that opens once or a second
-- preview of a file, gives two windows one id or one place in the stack, or makes a window
-- smaller than the smallest size (as it is, or as it is restored when it is maximized), if this
-- holds before it and a window that is opened gets an id that no window has.
pub act-Kept :
    {Json : Type 0} (stringify : List DesktopWindow → Json) (a : Action) (d : Desktop Json)
    → Kept d.windows
    → HasFreshId a d.windows
    → Kept (act stringify a d).windows
unfolding close_window set_dirty toggle_minimize toggle_maximize move_window resize_window
    clamp_to_viewport set_desktop_mode
act-Kept stringify (open_it id app section) d kept fresh =
    open_app-Kept stringify id app section d kept fresh
act-Kept stringify (preview_it id entry) d kept fresh =
    open_file_preview-Kept stringify id entry d kept fresh
act-Kept stringify (close_it id) d kept fresh =
    (filter-WellFormed _ d.windows kept.0, All-filter Sized _ d.windows kept.1)
act-Kept stringify (mark_it id dirty) d kept fresh = (
  modify_first-WellFormed (has_id id) _ (λ win. (refl, refl, refl, refl)) d.windows kept.0,
  All-modify Sized (has_id id) _ (λ win big. big) d.windows kept.1,
)
act-Kept stringify (focus_it id) d kept fresh = focus_window-Kept stringify id d kept
act-Kept stringify (minimize_it id) d kept fresh =
    change_window-Kept stringify id _ d (λ win. (refl, refl, refl, refl)) (λ win big. big) kept
act-Kept stringify (maximize_it id bounds) d kept fresh =
    change_window-Kept stringify id (max_toggled bounds) d (max_toggled-Keeps bounds)
      (max_toggled-Sized bounds) kept
act-Kept stringify (move_it id x y) d kept fresh =
    change_window-Kept stringify id _ d (λ win. (refl, refl, refl, refl)) (λ win big. big) kept
act-Kept stringify (resize_it id w h) d kept fresh =
    change_window-Kept stringify id _ d (λ win. (refl, refl, refl, refl)) (resized-Sized w h) kept
act-Kept stringify (clamp_all bounds) d kept fresh = (
  map-WellFormed (clamp_window bounds) (clamp_window-Keeps bounds) d.windows kept.0,
  All-map Sized (clamp_window bounds) (clamp_window-Sized bounds) d.windows kept.1,
)
act-Kept stringify (set_mode on) d kept fresh = kept
