-- ===== src/Apps/Tests.antt =====
-- An app whose new image does not pass the check of docker compose.
use home_server_interface.Base.{[], ◌∷◌, none, some, ok, err, ◌≡◌, refl}
use home_server_interface.Apps.{Thrown, Effects, update_run}
use home_server_interface.Apps.Files.{Files, Laws, Restores, UpdateEnds, update_run-Ends}
use home_server_interface.Apps.Diff.Longest.{kept_lines, longest_common}
use home_server_interface.Apps.Diff.{diff_ops}
use home_server_interface.Apps.Diff.RoundTrip.{old_lines, new_lines, numbered_from, diff_ops-lines}

abbrev invalid : Thrown
invalid = record { message = "no such image" }

abbrev strict : Effects Files
strict = record {
  write_stack = λ name text w. (ok tt, record w { stack = some text });
  remove_stack_dir = λ name w. (ok tt, record w { stack = none });
  validate = λ name w. (err invalid, w);
  publish_job = λ action name w. (ok "job", w);
  write_previous = λ name text w. (ok tt, record w { previous = some text });
  remove_previous = λ name w. (ok tt, record w { previous = none });
}

abbrev same_files : Files → Files
same_files w = w

strict-Laws : Laws strict "web" same_files
strict-Laws = record {
  stack_written = λ text w e. refl;
  previous_written = λ text w e. refl;
  previous_failed = λ text w e. cc;
  previous_removed = λ w e. refl;
  validated = λ w. refl;
}

abbrev before : Files
before = record { stack = some "image: web:1"; previous = some "image: web:0" }

strict-Restores : Restores strict "web" same_files strict-Laws "image: web:1" (some "image: web:0")
strict-Restores w = (refl, refl)

update_run-Ends_example :
    UpdateEnds strict "web" same_files strict-Laws "image: web:1"
      (some "image: web:0")
      "image: web:2"
      before
      (update_run strict "web" "image: web:1" (some "image: web:0") "image: web:2" before)
update_run-Ends_example =
    update_run-Ends strict "web" same_files strict-Laws "image: web:1" (some "image: web:0")
      "image: web:2" before refl strict-Restores

diff_ops-lines_example :
    (old_lines (diff_ops ("a" ∷ "b" ∷ []) ("b" ∷ "c" ∷ [])) ≡ numbered_from 0 ("a" ∷ "b" ∷ []))
    × (new_lines (diff_ops ("a" ∷ "b" ∷ []) ("b" ∷ "c" ∷ [])) ≡ numbered_from 0 ("b" ∷ "c" ∷ []))
    × (kept_lines (diff_ops ("a" ∷ "b" ∷ []) ("b" ∷ "c" ∷ []))
        ≡ longest_common ("a" ∷ "b" ∷ []) ("b" ∷ "c" ∷ []))
diff_ops-lines_example = diff_ops-lines ("a" ∷ "b" ∷ []) ("b" ∷ "c" ∷ [])
