-- ===== src/Exclusions/Tests.antt =====
-- A photo library that is closed to assistants, for the theorems about exclusions.
use Prim.Native.String.{String}
use home_server_interface.Base.{true, [], ◌∷◌, none, some, ◌≡◌, ◌↔◌, length, ◌≤◌}
use home_server_interface.Exclusions.{
  Exclusions, Args, Result, text, array, plain, empty, element, done, member, check_args,
  filter_result,
}
use home_server_interface.Exclusions.Access.{
  shows_nothing, shows_nothing-filter_result, check_args_iff, Trespasses,
}

-- Paths that are already in normal form.
abbrev as_it_is : String → String
as_it_is p = p

abbrev photos : Exclusions
photos = record { ids = "p1" ∷ []; paths = "/srv/photos" ∷ [] }

abbrev listing : Result
listing = array (
    element (plain (member "path" (text "/srv/photos/a.jpg") done))
      (element (plain (member "path" (text "/srv/music") done)) empty))

abbrev delete_parent : Args
delete_parent = record {
  path = some "/srv";
  parent_path = none;
  src = none;
  dst_dir = none;
  paths = [];
  place_id = none;
}

shows_nothing-filter_result_example :
    shows_nothing as_it_is photos (filter_result as_it_is listing photos) ≡ true
shows_nothing-filter_result_example = shows_nothing-filter_result as_it_is listing photos

check_args_iff_example :
    (check_args as_it_is delete_parent true photos ≡ true)
    ↔ ((1 ≤ length photos.paths) × Trespasses as_it_is delete_parent true photos)
check_args_iff_example = check_args_iff as_it_is delete_parent true photos
