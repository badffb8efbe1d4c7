-- ===== src/Exclusions/Access.antt =====
-- What a checked call may touch, and what a filtered result can show.
use home_server_interface.Exclusions.Paths.{IsInside, within_iff, Names, path_args_iff, any_iff}
use Prim.Native.String.{String}
use home_server_interface.Base.{
  Bool, true, false, ◌&&◌, ◌||◌, List, [], ◌∷◌, Option, none, some, if◌then◌else◌, ◌==◌, length,
  any, arith, ◌≡◌, refl, inl, inr, Bool-cases, not, ◌↔◌, ◌⊎◌, mem, ◌≤◌, ap, subst, get_or, sym,
}
use home_server_interface.Exclusions.{
  Exclusions, Args, path_args, place_excluded, Result, opaque, text, array, plain, Elements, empty,
  element, Members, done, member, text_of, path_in, path_of, is_excluded, holds_excluded,
  check_args, item_excluded, filter_value, filter_elements, filter_members, filter_result, within,
  normalise,
}

module _ (posix_normalize : String → String) where
  -- No element of an array, at any depth, has a path in an excluded Place.
  unfoldable mutual
    pub shows_nothing : Exclusions → Result → Bool
    shows_nothing ex (opaque n) = true
    shows_nothing ex (text s) = true
    shows_nothing ex (array items) = shows_no_element ex items
    shows_nothing ex (plain members) = shows_no_member ex members

    pub shows_no_element : Exclusions → Elements → Bool
    shows_no_element ex empty = true
    shows_no_element ex (element v items) =
        not (item_excluded posix_normalize (path_of v) ex)
        && shows_nothing ex v
        && shows_no_element ex items

    pub shows_no_member : Exclusions → Members → Bool
    shows_no_member ex done = true
    shows_no_member ex (member k v members) = shows_nothing ex v && shows_no_member ex members

  text_of-filter_value :
      (ex : Exclusions) (v : Result) → text_of (filter_value posix_normalize ex v) ≡ text_of v
  unfolding filter_value
  text_of-filter_value ex (opaque n) = refl
  text_of-filter_value ex (text s) = refl
  text_of-filter_value ex (array items) = refl
  text_of-filter_value ex (plain members) = refl

  path_in-filter_members :
      (ex : Exclusions) (members : Members)
      → path_in (filter_members posix_normalize ex members) ≡ path_in members
  unfolding filter_value
  path_in-filter_members ex done = refl
  path_in-filter_members ex (member k v members) =
      ground (arith, text_of-filter_value ex v, path_in-filter_members ex members)

  path_of-filter_value :
      (ex : Exclusions) (v : Result) → path_of (filter_value posix_normalize ex v) ≡ path_of v
  unfolding filter_value
  path_of-filter_value ex (opaque n) = refl
  path_of-filter_value ex (text s) = refl
  path_of-filter_value ex (array items) = refl
  path_of-filter_value ex (plain members) = path_in-filter_members ex members

  mutual
    unfolding filter_value shows_nothing

    nothing_shown :
        (ex : Exclusions) (v : Result) → shows_nothing ex (filter_value posix_normalize ex v) ≡ true
    nothing_shown ex (opaque n) = refl
    nothing_shown ex (text s) = refl
    nothing_shown ex (array items) = no_element_shown ex items
    nothing_shown ex (plain members) = no_member_shown ex members

    no_element_shown :
        (ex : Exclusions) (items : Elements)
        → shows_no_element ex (filter_elements posix_normalize ex items) ≡ true
    no_element_shown ex empty = refl
    no_element_shown ex (element v items) = ground (
      arith,
      path_of-filter_value ex v,
      nothing_shown ex v,
      no_element_shown ex items,
      Bool-cases (item_excluded posix_normalize (path_of v) ex),
    )

    no_member_shown :
        (ex : Exclusions) (members : Members)
        → shows_no_member ex (filter_members posix_normalize ex members) ≡ true
    no_member_shown ex done = refl
    no_member_shown ex (member k v members) =
        ground (arith, nothing_shown ex v, no_member_shown ex members)

  open_to_all :
      (o : Option String) (ex : Exclusions)
      → (length ex.paths == 0) ≡ true
      → item_excluded posix_normalize o ex ≡ false
  unfolding is_excluded
  open_to_all none ex e = refl
  open_to_all (some p) ex e = rw e refl

  mutual
    unfolding shows_nothing

    nothing_hidden :
        (ex : Exclusions) (v : Result) → (length ex.paths == 0) ≡ true → shows_nothing ex v ≡ true
    nothing_hidden ex (opaque n) e = refl
    nothing_hidden ex (text s) e = refl
    nothing_hidden ex (array items) e = no_element_hidden ex items e
    nothing_hidden ex (plain members) e = no_member_hidden ex members e

    no_element_hidden :
        (ex : Exclusions) (items : Elements)
        → (length ex.paths == 0) ≡ true
        → shows_no_element ex items ≡ true
    no_element_hidden ex empty e = refl
    no_element_hidden ex (element v items) e =
        ground
          (arith, open_to_all (path_of v) ex e, nothing_hidden ex v e, no_element_hidden ex items e)

    no_member_hidden :
        (ex : Exclusions) (members : Members)
        → (length ex.paths == 0) ≡ true
        → shows_no_member ex members ≡ true
    no_member_hidden ex done e = refl
    no_member_hidden ex (member k v members) e =
        ground (arith, nothing_hidden ex v e, no_member_hidden ex members e)

  -- A filtered result has, at no depth, an element of a list with a path in an excluded Place.
  pub shows_nothing-filter_result :
      (v : Result) (ex : Exclusions) → shows_nothing ex (filter_result posix_normalize v ex) ≡ true
  unfolding filter_result
  shows_nothing-filter_result v ex = elim (Bool-cases (length ex.paths == 0)) [
    | inl unused ↦ rw (filter_result, unused) (nothing_hidden ex v unused)
    | inr used ↦ rw (filter_result, used) (nothing_shown ex v)
  ]

module _ (posix_normalize : String → String) where
  any_or_empty :
      (f : String → Bool) (places : List String)
      → (if length places == 0 then false else any f places) ≡ any f places
  any_or_empty f [] = refl
  any_or_empty f (q ∷ places) = ground arith

  is_excluded-any :
      (ex : Exclusions) (p : String)
      → is_excluded posix_normalize p ex
        ≡ any (λ e. within (normalise posix_normalize p) e) ex.paths
  unfolding is_excluded
  is_excluded-any ex p = any_or_empty (λ e. within (normalise posix_normalize p) e) ex.paths

  refused_at : Bool → Exclusions → String → Bool
  refused_at changes ex p =
      is_excluded posix_normalize p ex || (changes && holds_excluded posix_normalize p ex)

  -- The path is inside an excluded Place, or one is inside the path and the call changes things.
  abbrev pub Touches : Bool → Exclusions → String → Type 0
  Touches changes ex p =
      (e : String) × (mem e ex.paths ≡ true)
      × (IsInside (normalise posix_normalize p) e
          ⊎ ((changes ≡ true) × IsInside e (normalise posix_normalize p)))

  refused_at_iff :
      (changes : Bool) (ex : Exclusions) (p : String)
      → (refused_at changes ex p ≡ true) ↔ Touches changes ex p
  unfolding refused_at holds_excluded
  refused_at_iff changes ex p =
      let n : String = normalise posix_normalize p in
      let inside = any_iff (λ e. within n e) ex.paths in
      let around = any_iff (λ e. within e n) ex.paths in
      rw (is_excluded-any ex p) (
        λ h. elim (Bool-cases (any (λ e. within n e) ex.paths)) [
          | inl e1 ↦
              let (e, listed, holds) = inside.0 e1 in (e, listed, inl ((within_iff n e).0 holds))
          | inr e1 ↦
              let (e, listed, holds) = around.0 (ground (arith, h, e1)) in
              (e, listed, inr (ground (arith, h, e1), (within_iff e n).0 holds))
        ],
        λ (e, listed, o). elim o [
          | inl i ↦ ground (arith, inside.1 (e, listed, (within_iff n e).1 i))
          | inr (c, i) ↦ ground (arith, c, around.1 (e, listed, (within_iff e n).1 i))
        ],
      )

  -- What a refused call does: it names a path that touches an excluded Place, or the id of one.
  abbrev pub Trespasses : Args → Bool → Exclusions → Type 0
  Trespasses args changes ex =
      ((p : String) × Names args p × Touches changes ex p)
      ⊎ ((id : String) × (args.place_id ≡ some id) × (mem id ex.ids ≡ true))

  place_excluded_iff :
      (o : Option String) (ex : Exclusions)
      → (place_excluded o ex ≡ true) ↔ ((id : String) × (o ≡ some id) × (mem id ex.ids ≡ true))
  place_excluded_iff none ex =
      (λ e. absurd (ground (arith, e)), λ (id, e, h). absurd (ground (arith, e)))
  place_excluded_iff (some i) ex = (
    λ e. (i, refl, e),
    λ (id, e, h). subst (λ j. mem j ex.ids ≡ true) (sym (ap (λ o. get_or o i) e)) h,
  )

  any-refused_at_iff :
      (args : Args) (changes : Bool) (ex : Exclusions)
      → ((any (refused_at changes ex) (path_args args) || place_excluded args.place_id ex) ≡ true)
        ↔ Trespasses args changes ex
  any-refused_at_iff args changes ex =
      let some_path = any_iff (refused_at changes ex) (path_args args) in
      let some_place = place_excluded_iff args.place_id ex in
      (
        λ h. elim (Bool-cases (any (refused_at changes ex) (path_args args))) [
          | inl e1 ↦
              let (p, named, holds) = some_path.0 e1 in
              inl (p, (path_args_iff args p).0 named, (refused_at_iff changes ex p).0 holds)
          | inr e1 ↦ inr (some_place.0 (ground (arith, h, e1)))
        ],
        λ o. elim o [
          | inl (p, named, touches) ↦ ground (
            arith,
            some_path.1
                (p, (path_args_iff args p).1 named, (refused_at_iff changes ex p).1 touches),
          )
          | inr place ↦ ground (arith, some_place.1 place)
        ],
      )

  -- While some path is excluded, a call of a tool is refused exactly when it names, as path, parent,
  -- source, destination or in its list, a path at or below an excluded Place, or, if the call is a
  -- change, a path that an excluded Place is at or below, or when it names an excluded Place by its
  -- id. With no path excluded every call is let through.
  pub check_args_iff :
      (args : Args) (changes : Bool) (ex : Exclusions)
      → (check_args posix_normalize args changes ex ≡ true)
        ↔ ((1 ≤ length ex.paths) × Trespasses args changes ex)
  unfolding check_args refused_at
  check_args_iff args changes ex = elim (Bool-cases (length ex.paths == 0)) [
    | inl unused ↦
        rw (check_args, unused)
          (λ e. absurd (ground (arith, e)), λ o. absurd (ground (arith, unused, o.0)))
    | inr used ↦
        rw (check_args, used)
          (
            λ e. (ground (arith, used), (any-refused_at_iff args changes ex).0 e),
            λ o. (any-refused_at_iff args changes ex).1 o.1,
          )
  ]
