-- ===== src/Desktop/Windows.antt =====
-- What holds of the windows of a desktop at all times: their ids and places in the stack differ,
-- no app that opens once is open twice, and no file is previewed twice.
use Prim.Native.String.{String}
use home_server_interface.Base.{
  arith, ℕ, ◌+◌, ◌<◌, ◌≤◌, max, Bool, false, not, ◌&&◌, ◌||◌, List, [], ◌∷◌, ◌++◌, map, mem, filter,
  Option, str_eq, ◌≡◌, ◌≢◌, All, All-append, All-filter, Bool-cases, inl, inr,
}
use home_server_interface.Desktop.{
  AppId, SettingsSection, FilePreviewPayload, DesktopWindow, literal, multi_instance, same_path,
  highest, next_z_index, modify_first, raised, new_window,
}

-- Two windows that may not be open at once.
abbrev pub conflict : DesktopWindow → DesktopWindow → Bool
conflict a b =
    str_eq (literal a.app_id) (literal b.app_id)
    && (not (mem (literal b.app_id) multi_instance) || same_path a.preview b.preview)

abbrev pub Apart : DesktopWindow → DesktopWindow → Type 0
Apart a b = (str_eq a.id b.id ≡ false) × (a.z_index ≢ b.z_index) × (conflict a b ≡ false)

abbrev pub WellFormed : List DesktopWindow → Type 0
WellFormed [] = Unit
WellFormed (win ∷ wins) = All (Apart win) wins × WellFormed wins

-- A change that leaves what windows are told apart by.
abbrev pub Keeps : (DesktopWindow → DesktopWindow) → Type 0
Keeps change =
    (win : DesktopWindow)
    → ((change win).id ≡ win.id)
      × ((change win).z_index ≡ win.z_index)
      × ((change win).app_id ≡ win.app_id)
      × ((change win).preview ≡ win.preview)

Apart-left :
    (change : DesktopWindow → DesktopWindow)
    → Keeps change
    → (a b : DesktopWindow) → Apart a b
    → Apart (change a) b
Apart-left change keeps a b apart =
    let (id, z, app, entry) = keeps a in rw (id, z, app, entry) apart

Apart-right :
    (change : DesktopWindow → DesktopWindow)
    → Keeps change
    → (a b : DesktopWindow) → Apart a b
    → Apart a (change b)
Apart-right change keeps a b apart =
    let (id, z, app, entry) = keeps b in rw (id, z, app, entry) apart

pub All-map :
    (P : DesktopWindow → Type 0) (change : DesktopWindow → DesktopWindow)
    → ((win : DesktopWindow) → P win → P (change win))
    → (wins : List DesktopWindow) → All P wins
    → All P (map change wins)
All-map P change step [] all = tt
All-map P change step (win ∷ wins) all = (step win all.0, All-map P change step wins all.1)

pub All-modify :
    (P : DesktopWindow → Type 0) (found : DesktopWindow → Bool)
    (change : DesktopWindow → DesktopWindow)
    → ((win : DesktopWindow) → P win → P (change win))
    → (wins : List DesktopWindow) → All P wins
    → All P (modify_first found change wins)
All-modify P found change step [] all = tt
All-modify P found change step (win ∷ wins) all = elim (Bool-cases (found win)) [
  | inl hit ↦ rw (hit) (step win all.0, all.1)
  | inr miss ↦ rw (miss) (all.0, All-modify P found change step wins all.1)
]

All-weaken :
    (P Q : DesktopWindow → Type 0)
    → ((win : DesktopWindow) → P win → Q win)
    → (wins : List DesktopWindow) → All P wins
    → All Q wins
All-weaken P Q step [] all = tt
All-weaken P Q step (win ∷ wins) all = (step win all.0, All-weaken P Q step wins all.1)

pub map-WellFormed :
    (change : DesktopWindow → DesktopWindow)
    → Keeps change
    → (wins : List DesktopWindow) → WellFormed wins
    → WellFormed (map change wins)
map-WellFormed change keeps [] well = tt
map-WellFormed change keeps (win ∷ wins) well = (
  All-map (Apart (change win)) change (Apart-right change keeps (change win)) wins
      (All-weaken (Apart win) (Apart (change win)) (Apart-left change keeps win) wins well.0),
  map-WellFormed change keeps wins well.1,
)

pub modify_first-WellFormed :
    (found : DesktopWindow → Bool) (change : DesktopWindow → DesktopWindow)
    → Keeps change
    → (wins : List DesktopWindow) → WellFormed wins
    → WellFormed (modify_first found change wins)
modify_first-WellFormed found change keeps [] well = tt
modify_first-WellFormed found change keeps (win ∷ wins) well = elim (Bool-cases (found win)) [
  | inl hit ↦ rw (hit) (
    All-weaken (Apart win) (Apart (change win)) (Apart-left change keeps win) wins well.0,
    well.1,
  )
  | inr miss ↦ rw (miss) (
    All-modify (Apart win) found change (Apart-right change keeps win) wins well.0,
    modify_first-WellFormed found change keeps wins well.1,
  )
]

pub filter-WellFormed :
    (keep : DesktopWindow → Bool) (wins : List DesktopWindow)
    → WellFormed wins
    → WellFormed (filter keep wins)
filter-WellFormed keep [] well = tt
filter-WellFormed keep (win ∷ wins) well = elim (Bool-cases (keep win)) [
  | inl kept ↦
      rw (kept) (All-filter (Apart win) keep wins well.0, filter-WellFormed keep wins well.1)
  | inr gone ↦ rw (gone) (filter-WellFormed keep wins well.1)
]

abbrev pub Below : ℕ → DesktopWindow → Type 0
Below z win = win.z_index < z

le-highest : (top : ℕ) (wins : List DesktopWindow) → top ≤ highest top wins
le-highest top [] = omega arith
le-highest top (win ∷ wins) = ground (arith, le-highest (max top win.z_index) wins)

highest-Below : (top : ℕ) (wins : List DesktopWindow) → All (Below (highest top wins + 1)) wins
highest-Below top [] = tt
highest-Below top (win ∷ wins) = (
  ground (arith, le-highest (max top win.z_index) wins),
  highest-Below (max top win.z_index) wins,
)

pub next_z_index-Below : (wins : List DesktopWindow) → All (Below (next_z_index wins)) wins
unfolding next_z_index
next_z_index-Below wins = highest-Below 0 wins

-- A window raised above the others.
pub raised-WellFormed :
    (found : DesktopWindow → Bool) (z : ℕ) (wins : List DesktopWindow)
    → All (Below z) wins
    → WellFormed wins
    → WellFormed (modify_first found (raised z) wins)
raised-WellFormed found z [] below well = tt
raised-WellFormed found z (win ∷ wins) below well = elim (Bool-cases (found win)) [
  | inl hit ↦ rw (hit) (above_all wins below.1 well.0, well.1)
  | inr miss ↦ rw (miss) (raised_apart wins well.0, raised-WellFormed found z wins below.1 well.1)
]
  where
    above_all :
        (others : List DesktopWindow)
        → All (Below z) others
        → All (Apart win) others
        → All (Apart (raised z win)) others
    above_all [] below all = tt
    above_all (other ∷ others) below all =
        ((all.0.0, ground (arith, below.0), all.0.2), above_all others below.1 all.1)

    raised_apart :
        (others : List DesktopWindow)
        → All (Apart win) others
        → All (Apart win) (modify_first found (raised z) others)
    raised_apart others all =
        All-modify (Apart win) found (raised z)
          (λ other apart. (apart.0, ground (arith, below.0), apart.2)) others all

-- A new window at the end.
append-WellFormed :
    (wins : List DesktopWindow) (new : DesktopWindow)
    → WellFormed wins
    → All (λ win. Apart win new) wins
    → WellFormed (wins ++ new ∷ [])
append-WellFormed [] new well apart = (tt, tt)
append-WellFormed (win ∷ wins) new well apart = (
  All-append (Apart win) wins (new ∷ []) well.0 (apart.0, tt),
  append-WellFormed wins new well.1 apart.1,
)

abbrev pub Fresh : String → DesktopWindow → Type 0
Fresh id win = str_eq win.id id ≡ false

abbrev pub Agrees : DesktopWindow → DesktopWindow → Type 0
Agrees new win = conflict win new ≡ false

pub add_window-WellFormed :
    (id : String) (app : AppId) (section : Option SettingsSection)
    (entry : Option FilePreviewPayload) (wins : List DesktopWindow)
    → All (Fresh id) wins
    → All (Agrees (new_window id app section entry wins)) wins
    → WellFormed wins
    → WellFormed (wins ++ new_window id app section entry wins ∷ [])
unfolding new_window
add_window-WellFormed id app section entry wins fresh agrees well =
    append-WellFormed wins _ well (together wins fresh (next_z_index-Below wins) agrees)
  where
    together :
        (others : List DesktopWindow)
        → All (Fresh id) others
        → All (Below (next_z_index wins)) others
        → All (Agrees (new_window id app section entry wins)) others
        → All (λ win. Apart win (new_window id app section entry wins)) others
    together [] f b a = tt
    together (other ∷ others) f b a = ((f.0, ground (arith, b.0), a.0), together others f.1 b.1 a.1)
