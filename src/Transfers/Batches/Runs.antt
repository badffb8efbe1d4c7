-- ===== src/Transfers/Batches/Runs.antt =====
-- apps/dashboard/src/lib/uploads.ts: what a batch shows after it ran, and after it ran again.
use home_server_interface.Base.{
  if◌then◌else◌, is_some, ℕ, suc, ◌+◌, List, [], ◌∷◌, ◌++◌, find, length, Option, none, some,
  str_eq, String, Bool-cases, ◌≡◌, inl, inr, refl, ap, ◌∙◌, arith, eq_refl, eq_iff, Option-cases,
  get_or, subst, ◌⊎◌, ◌==◌,
}
use home_server_interface.Transfers.{
  Transfer, Page, TransferStatus, find_task, has_id, done, error, register, set_status,
  update_progress, reset_progress, new_error, Message,
}
use home_server_interface.Transfers.{TransferKind, running, some_failed}
use home_server_interface.Transfers.Pages.{find-change_first}
use home_server_interface.Transfers.Batches.{
  TransferSpec, Tray, find_spec, failures, settle_all, conclude, run_transfer, new_batch,
  track_transfer, drop_spec,
}

abbrev pub outcome : List String → TransferStatus
outcome [] = done
outcome (message ∷ more) = error

abbrev pub verdict : List String → Option Message
verdict [] = none
verdict (message ∷ more) = some (some_failed (suc (length more)) message)

-- A batch after all its operations settled.
abbrev pub after_run : List String → ℕ → Transfer → Transfer
after_run failed total task = record task {
  status = outcome failed;
  error = new_error (verdict failed) task.error;
  sent_chunks = some total;
  sent_bytes = some 0;
}

module _ (Op : Type 0) where
  settle_all-find :
      (id : String) (settled : ℕ) (ops : List Op) (page : Page) (task : Transfer)
      → find_task id page ≡ some (record task { sent_chunks = some settled; sent_bytes = some 0 })
      → find_task id (settle_all Op id settled ops page)
        ≡ some (record task { sent_chunks = some (settled + length ops); sent_bytes = some 0 })
  unfolding settle_all update_progress
  settle_all-find id settled [] page task found =
      found
      ∙ ap (λ n. some (record task { sent_chunks = some n; sent_bytes = some 0 })) {x = settled}
          {y = settled + 0} (omega arith)
  settle_all-find id settled (op ∷ ops) page task found =
      settle_all-find id (settled + 1) ops (update_progress id (settled + 1) 0 page) task
        (find-change_first id _ page.tasks (λ t. refl) found)
      ∙ ap (λ n. some (record task { sent_chunks = some n; sent_bytes = some 0 }))
          {x = settled + 1 + length ops} {y = settled + suc (length ops)} (omega arith)

  all_settled-find :
      (id : String) (ops : List Op) (page : Page) (task : Transfer)
      → find_task id page ≡ some (record task { sent_chunks = some 0; sent_bytes = some 0 })
      → find_task id (settle_all Op id 0 ops page)
        ≡ some (record task { sent_chunks = some (length ops); sent_bytes = some 0 })
  all_settled-find id ops page task found =
      settle_all-find id 0 ops page task found
      ∙ ap (λ n. some (record task { sent_chunks = some n; sent_bytes = some 0 }))
          {x = 0 + length ops} {y = length ops} (omega arith)

  conclude-find :
      (id : String) (failed : List String) (page : Page) (task : Transfer)
      → find_task id page ≡ some task
      → find_task id (conclude Op id failed page)
        ≡ some
            (record task { status = outcome failed; error = new_error (verdict failed) task.error })
  unfolding set_status
  conclude-find id [] page task found = find-change_first id _ page.tasks (λ t. refl) found
  conclude-find id (message ∷ more) page task found =
      find-change_first id _ page.tasks (λ t. refl) found

  run_transfer-find :
      (id : String) (perform : Op → Option String) (tray : Tray Op) (spec : TransferSpec Op)
      (task : Transfer)
      → find_spec Op id tray.specs ≡ some spec
      → find_task id tray.page ≡ some task
      → find_task id (run_transfer Op id perform tray).page
        ≡ some (after_run (failures Op perform spec.ops) (length spec.ops) task)
  unfolding run_transfer set_status reset_progress
  run_transfer-find id perform tray spec task known found = rw known (
      conclude-find id (failures Op perform spec.ops) _ _ (
        all_settled-find id spec.ops _ (record task { status = running })
          (find-change_first id _ _ (λ t. refl)
            (find-change_first id _ tray.page.tasks (λ t. refl) found))))

  find-append :
      (id : String) (tasks : List Transfer) (t : Transfer)
      → find (has_id id) tasks ≡ none
      → t.id ≡ id
      → find (has_id id) (tasks ++ t ∷ []) ≡ some t
  find-append id [] t fresh same = ground (arith, eq_iff t.id id)
  find-append id (u ∷ tasks) t fresh same = elim (Bool-cases (str_eq u.id id)) [
    | inl e1 ↦ ground (arith, e1, fresh)
    | inr e1 ↦ ground (arith, e1, fresh, find-append id tasks t)
  ]

  find_spec-first :
      (spec : TransferSpec Op) (specs : List (TransferSpec Op))
      → find_spec Op spec.id (spec ∷ specs) ≡ some spec
  find_spec-first spec specs = rw (eq_refl spec.id) refl

  abbrev spec_of : String → TransferKind → String → String → List Op → TransferSpec Op
  spec_of id kind name dest_dir ops = record {
    id = id;
    kind = kind;
    name = name;
    dest_dir = dest_dir;
    ops = ops;
  }

  track_transfer-find :
      (id : String) (kind : TransferKind) (name dest_dir : String) (ops : List Op)
      (perform : Op → Option String) (tray : Tray Op)
      → find_task id tray.page ≡ none
      → find_task id (track_transfer Op id kind name dest_dir ops perform tray).page
        ≡ some (
            after_run
              (failures Op perform ops)
              (length ops)
              (new_batch Op id kind name dest_dir ops))
  unfolding track_transfer register
  track_transfer-find id kind name dest_dir ops perform tray fresh =
      run_transfer-find id perform _ (spec_of id kind name dest_dir ops)
        (new_batch Op id kind name dest_dir ops)
        (find_spec-first (spec_of id kind name dest_dir ops) (drop_spec Op id tray.specs))
        (find-append id tray.page.tasks (new_batch Op id kind name dest_dir ops) fresh refl)

-- How many operations fail, and the message of the first one that does.
abbrev pub count_failing : (Op : Type 0) → (Op → Option String) → List Op → ℕ
count_failing Op perform [] = 0
count_failing Op perform (op ∷ ops) =
    let rest = count_failing Op perform ops in if is_some (perform op) then suc rest else rest

abbrev pub first_message : (Op : Type 0) → (Op → Option String) → List Op → String
first_message Op perform [] = ""
first_message Op perform (op ∷ ops) = get_or (perform op) (first_message Op perform ops)

-- What a batch shows: its operations have all settled, and it is done when none of them failed and
-- otherwise failed, with how many did and the first message.
pub record Shows (Op : Type 0) (kind : TransferKind) (name dest_dir : String) (ops : List Op)
    (failing : ℕ) (message : String) (task : Transfer) : Type 0 where
  pub of_kind : task.kind ≡ kind
  pub named : task.name ≡ name
  pub into : task.dest_dir ≡ dest_dir
  pub total : task.total_chunks ≡ some (length ops)
  pub settled : task.sent_chunks ≡ some (length ops)
  pub ended : task.status ≡ (if failing == 0 then done else error)
  pub reported : (failing ≡ 0) ⊎ (task.error ≡ some (some_failed failing message))

failures-count :
    (Op : Type 0) (perform : Op → Option String) (ops : List Op)
    → length (failures Op perform ops) ≡ count_failing Op perform ops
unfolding failures
failures-count Op perform [] = refl
failures-count Op perform (op ∷ ops) = elim (Option-cases (perform op)) [
  | inl e ↦ rw e (failures-count Op perform ops)
  | inr (m, e) ↦ rw e (ap suc (failures-count Op perform ops))
]

first_of : List String → String
first_of [] = ""
first_of (message ∷ more) = message

failures-first :
    (Op : Type 0) (perform : Op → Option String) (ops : List Op)
    → first_of (failures Op perform ops) ≡ first_message Op perform ops
unfolding failures first_of
failures-first Op perform [] = refl
failures-first Op perform (op ∷ ops) = elim (Option-cases (perform op)) [
  | inl e ↦ rw e (failures-first Op perform ops)
  | inr (m, e) ↦ rw e refl
]

outcome-count :
    (failed : List String) → outcome failed ≡ (if length failed == 0 then done else error)
outcome-count [] = refl
outcome-count (message ∷ more) = ground arith

verdict-reported :
    (failed : List String) (old : Option Message)
    → (length failed ≡ 0)
      ⊎ (new_error (verdict failed) old ≡ some (some_failed (length failed) (first_of failed)))
unfolding first_of
verdict-reported [] old = inl refl
verdict-reported (message ∷ more) old = inr refl

after_run-Shows :
    (Op : Type 0) (kind : TransferKind) (name dest_dir : String) (ops : List Op)
    (perform : Op → Option String) (task : Transfer)
    → task.kind ≡ kind
    → task.name ≡ name
    → task.dest_dir ≡ dest_dir
    → task.total_chunks ≡ some (length ops)
    → Shows Op kind name dest_dir ops
        (count_failing Op perform ops)
        (first_message Op perform ops)
        (after_run (failures Op perform ops) (length ops) task)
after_run-Shows Op kind name dest_dir ops perform task k n d t =
    subst
      (λ c.
        Shows Op kind name dest_dir ops c (first_message Op perform ops)
          (after_run (failures Op perform ops) (length ops) task))
      (failures-count Op perform ops)
      (subst
        (λ m.
          Shows Op kind name dest_dir ops (length (failures Op perform ops)) m
            (after_run (failures Op perform ops) (length ops) task))
        (failures-first Op perform ops)
        (record {
          of_kind = k;
          named = n;
          into = d;
          total = t;
          settled = refl;
          ended = outcome-count (failures Op perform ops);
          reported = verdict-reported (failures Op perform ops) task.error;
        }))

-- A new batch shows after its run, and again after another run of the same operations, that all of
-- them settled: it is done when no operation failed in that run, and otherwise failed with how many
-- failed in it and the first one's message.
pub run_transfer-track_transfer :
    (Op : Type 0) (id : String) (kind : TransferKind) (name dest_dir : String) (ops : List Op)
    (perform again : Op → Option String) (tray : Tray Op)
    → find_task id tray.page ≡ none
    → (let tracked = track_transfer Op id kind name dest_dir ops perform tray in
        ((task : Transfer) × (find_task id tracked.page ≡ some task)
          × Shows Op kind name dest_dir ops
              (count_failing Op perform ops)
              (first_message Op perform ops)
              task)
        × ((task : Transfer) × (find_task id (run_transfer Op id again tracked).page ≡ some task)
            × Shows Op kind name dest_dir ops
                (count_failing Op again ops)
                (first_message Op again ops)
                task))
unfolding track_transfer run_transfer
run_transfer-track_transfer Op id kind name dest_dir ops perform again tray fresh =
    let tracked = track_transfer Op id kind name dest_dir ops perform tray in
    let found = track_transfer-find Op id kind name dest_dir ops perform tray fresh in
    let batch : Transfer = new_batch Op id kind name dest_dir ops in
    let task : Transfer = after_run (failures Op perform ops) (length ops) batch in
    (
      (task, found, after_run-Shows Op kind name dest_dir ops perform batch refl refl refl refl),
      (
        after_run (failures Op again ops) (length ops) task,
        run_transfer-find Op id again tracked (spec_of Op id kind name dest_dir ops) _
            (find_spec-first Op (spec_of Op id kind name dest_dir ops) (drop_spec Op id tray.specs))
            found,
        after_run-Shows Op kind name dest_dir ops again task refl refl refl refl,
      ),
    )
