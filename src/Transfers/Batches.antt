-- ===== src/Transfers/Batches.antt =====
-- apps/dashboard/src/lib/uploads.ts: copying and moving several items as one transfer. The operations
-- settle in any order; what one does, and with which message it fails, is a parameter.
pub mod Runs
use Prim.Native.String.{String}
use home_server_interface.Base.{
  ℕ, zero, suc, ◌+◌, Bool, true, false, List, [], ◌∷◌, length, Option, none, some, str_eq,
  if◌then◌else◌,
}
use home_server_interface.Transfers.{
  TransferKind, Transfer, Page, Message, some_failed, running, done, error, register, set_status,
  reset_progress, update_progress, remove,
}

module _ (Op : Type 0) where
  pub record TransferSpec : Type 0 where
    pub id : String
    pub kind : TransferKind
    pub name : String
    pub dest_dir : String
    pub ops : List Op

  pub record Tray : Type 0 where
    pub page : Page
    pub specs : List TransferSpec

  abbrev pub find_spec : String → List TransferSpec → Option TransferSpec
  find_spec id [] = none
  find_spec id (spec ∷ specs) = if str_eq spec.id id then some spec else find_spec id specs

  abbrev pub drop_spec : String → List TransferSpec → List TransferSpec
  drop_spec id [] = []
  drop_spec id (spec ∷ specs) =
      let rest = drop_spec id specs in if str_eq spec.id id then rest else spec ∷ rest

  -- The messages of the operations that fail, in the operations' order.
  unfoldable pub failures : (Op → Option String) → List Op → List String
  failures perform [] = []
  failures perform (op ∷ ops) = add (perform op) (failures perform ops)
    where
      add : Option String → List String → List String
      add none rest = rest
      add (some message) rest = message ∷ rest

  -- An operation after the other settles, whichever it is.
  unfoldable pub settle_all : String → ℕ → List Op → Page → Page
  settle_all id settled [] page = page
  settle_all id settled (op ∷ ops) page =
      settle_all id (settled + 1) ops (update_progress id (settled + 1) 0 page)

  abbrev pub conclude : String → List String → Page → Page
  conclude id [] page = set_status id done none page
  conclude id (message ∷ more) page =
      set_status id error (some (some_failed (suc (length more)) message)) page

  abbrev pub run_found : String → (Op → Option String) → Option TransferSpec → Page → Page
  run_found id perform none page = page
  run_found id perform (some spec) page =
      conclude id (failures perform spec.ops)
        (settle_all id 0 spec.ops (reset_progress id (set_status id running none page)))

  unfoldable pub run_transfer : String → (Op → Option String) → Tray → Tray
  run_transfer id perform tray = record tray {
    page = run_found id perform (find_spec id tray.specs) tray.page;
  }

  abbrev pub new_batch : String → TransferKind → String → String → List Op → Transfer
  new_batch id kind name dest_dir ops = record {
    id = id;
    kind = kind;
    name = name;
    dest_dir = dest_dir;
    status = running;
    error = none;
    total_bytes = none;
    sent_bytes = none;
    total_chunks = some (length ops);
    sent_chunks = some 0;
    file = none;
    upload_id = none;
    interrupted = false;
  }

  -- `id` is the random id of the batch.
  unfoldable pub track_transfer :
      String → TransferKind → String → String → List Op → (Op → Option String) → Tray → Tray
  track_transfer id kind name dest_dir ops perform tray =
      let spec : TransferSpec = record {
        id = id;
        kind = kind;
        name = name;
        dest_dir = dest_dir;
        ops = ops;
      } in
      run_transfer id perform (record {
        page = register (new_batch id kind name dest_dir ops) tray.page;
        specs = spec ∷ drop_spec id tray.specs;
      })

  -- The timer that a finished batch starts.
  unfoldable pub expire : String → Tray → Tray
  expire id tray = record { page = remove id tray.page; specs = drop_spec id tray.specs }
