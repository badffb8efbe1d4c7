-- ===== src/VolumeGuard/Paths.antt =====
-- apps/backend/src/services/volume-guard.ts: which paths lie on a volume, and the hold of the most
-- specific volume that a path is on.
use Prim.Native.Char.{code}
use Prim.Native.String.{String}
use home_server_interface.Base.{
  ◌≤◌, ◌≡◌, ◌⊎◌, inl, inr, Bool, true, false, ◌&&◌, ◌||◌, List, [], ◌∷◌, Option, none, some, concat,
  utf16_length, starts_with, str_eq, ltb, ◌==◌, if◌then◌else◌, All, arith, Bool-cases,
}

-- `s.replace(/\/$/, "")`
unfoldable pub strip_slash : String → String
strip_slash String.[] = ""
strip_slash (String.◌∷◌ c String.[]) = if code c == b'/' then "" else String.◌∷◌ c String.[]
strip_slash (String.◌∷◌ c (String.◌∷◌ d s)) = String.◌∷◌ c (strip_slash (String.◌∷◌ d s))

unfoldable pub path_under : String → String → Bool
unfolding strip_slash
path_under path mount_point =
    str_eq path mount_point || starts_with path (concat (strip_slash mount_point) "/")

pub data HoldStatus : Type 0 where
  blocked back : HoldStatus

pub record Hold : Type 0 where
  pub mount_point : String
  pub status : HoldStatus
  pub reason : String
  pub stopped_apps : List String
  pub stray_files : Bool

abbrev better : Hold → Option Hold → Bool
better h none = true
better h (some best) = ltb (utf16_length best.mount_point) (utf16_length h.mount_point)

-- The loop of `holdFor`, from the best hold so far.
unfoldable pub hold_from : String → Option Hold → List Hold → Option Hold
hold_from path best [] = best
hold_from path best (h ∷ holds) =
    hold_from path (if path_under path h.mount_point && better h best then some h else best) holds

unfoldable pub hold_for : List Hold → String → Option Hold
unfolding hold_from
hold_for holds path = hold_from path none holds

abbrev under : String → Hold → Bool
under path h = path_under path h.mount_point

-- `h` is the hold of the longest mount point that the path lies under, among some holds.
abbrev pub IsBest : String → List Hold → Hold → Type 0
IsBest path holds h =
    All
      (λ k.
        path_under path k.mount_point ≡ true
        → utf16_length k.mount_point ≤ utf16_length h.mount_point)
      holds

abbrev pub MemHold : Hold → List Hold → Type 0
MemHold h [] = ⊥
MemHold h (k ∷ holds) = (h ≡ k) ⊎ MemHold h holds

abbrev LeBest : Option Hold → Hold → Type 0
LeBest none h = Unit
LeBest (some b) h = utf16_length b.mount_point ≤ utf16_length h.mount_point

better-LeBest :
    (k : Hold) (best : Option Hold) (h : Hold)
    → better k best ≡ true
    → utf16_length k.mount_point ≤ utf16_length h.mount_point
    → LeBest best h
better-LeBest k none h longer le = tt
better-LeBest k (some b) h longer le = ground (arith, longer, le)

-- A hold that is passed over for a best hold is no longer than any that is not shorter than that.
passed_over :
    (k : Hold) (best : Option Hold) (h : Hold)
    → better k best ≡ false
    → LeBest best h
    → utf16_length k.mount_point ≤ utf16_length h.mount_point
passed_over k none h longer le = absurd (ground (arith, longer))
passed_over k (some b) h longer le = ground (arith, longer, le)

hold_from-found :
    (path : String) (best : Option Hold) (holds : List Hold) (h : Hold)
    → hold_from path best holds ≡ some h
    → ((best ≡ some h) ⊎ (MemHold h holds × (path_under path h.mount_point ≡ true)))
      × IsBest path holds h
      × LeBest best h
unfolding hold_from
hold_from-found path best [] h e = (inl e, tt, rw (e, LeBest) (omega arith))
hold_from-found path best (k ∷ holds) h e =
    elim (Bool-cases (path_under path k.mount_point && better k best)) [
      | inl take ↦
          let (where_from, all_best, le) = hold_from-found path (some k) holds h (rw take at e) in
          (
            elim where_from [
              | inl same ↦ inr (inl (ground (arith, same)), ground (arith, same, take))
              | inr found ↦ inr (inr found.0, found.1)
            ],
            (λ u. le, all_best),
            better-LeBest k best h (ground (arith, take)) le,
          )
      | inr skip ↦
          let (where_from, all_best, le) = hold_from-found path best holds h (rw skip at e) in
          (
            elim where_from [ inl same ↦ inl same | inr found ↦ inr (inr found.0, found.1) ],
            (λ u. passed_over k best h (ground (arith, skip, u)) le, all_best),
            le,
          )
    ]

hold_from-none :
    (path : String) (best : Option Hold) (holds : List Hold)
    → hold_from path best holds ≡ none
    → (best ≡ none) × All (λ k. path_under path k.mount_point ≡ false) holds
unfolding hold_from
hold_from-none path best [] e = (e, tt)
hold_from-none path best (k ∷ holds) e =
    elim (Bool-cases (path_under path k.mount_point && better k best)) [
      | inl take ↦ absurd (ground (arith, (hold_from-none path (some k) holds (rw take at e)).0))
      | inr skip ↦
          let (nothing, outside) = hold_from-none path best holds (rw skip at e) in
          (nothing, (ground (arith, skip, nothing), outside))
    ]

-- The hold of a path is one of the holds, its mount point holds the path, and no other hold whose
-- mount point does so has a longer one.
pub hold_for_lem :
    (holds : List Hold) (path : String) (h : Hold)
    → hold_for holds path ≡ some h
    → MemHold h holds × (path_under path h.mount_point ≡ true) × IsBest path holds h
unfolding hold_for
hold_for_lem holds path h e =
    let (where_from, best, le) = hold_from-found path none holds h e in
    elim where_from [
      | inl same ↦ absurd (ground (arith, same))
      | inr found ↦ (found.0, found.1, best)
    ]

-- Without a hold for a path no mount point holds it.
pub hold_for-none :
    (holds : List Hold) (path : String)
    → hold_for holds path ≡ none
    → All (λ k. path_under path k.mount_point ≡ false) holds
unfolding hold_for
hold_for-none holds path e = (hold_from-none path none holds e).1
