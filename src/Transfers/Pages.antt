-- ===== src/Transfers/Pages.antt =====
-- apps/dashboard/src/lib/uploads.ts: the transfer and the bookmark with an id after each operation.
use home_server_interface.Base.{
  true, false, not, List, [], ◌∷◌, any, find, filter, mem, some, str_eq, String, Bool-cases, ◌≡◌,
  inl, inr, refl, arith, eq_iff,
}
use home_server_interface.Transfers.{
  Transfer, has_id, change_first, PersistedUpload, put_entry, is_entry, without,
}

pub find-change_first :
    (id : String) (change : Transfer → Transfer) (tasks : List Transfer) {task : Transfer}
    → ((t : Transfer) → (change t).id ≡ t.id)
    → find (has_id id) tasks ≡ some task
    → find (has_id id) (change_first id change tasks) ≡ some (change task)
find-change_first id change [] {task} same found = absurd cc
find-change_first id change (t ∷ tasks) {task} same found = elim (Bool-cases (str_eq t.id id)) [
  | inl e1 ↦ ground (arith, e1, same t, found)
  | inr e1 ↦ ground (arith, e1, found, find-change_first id change tasks {task = task} same)
]

pub any-put_entry :
    (id : String) (entry : PersistedUpload) (list : List PersistedUpload)
    → any (is_entry id) list ≡ true
    → any (is_entry id) (put_entry entry list) ≡ true
any-put_entry id entry [] bookmarked = absurd cc
any-put_entry id entry (p ∷ list) bookmarked = elim (Bool-cases (str_eq p.id entry.id)) [
  | inl e1 ↦ ground (arith, e1, bookmarked, eq_iff p.id entry.id)
  | inr e1 ↦ ground (arith, e1, bookmarked, any-put_entry id entry list)
]

pub any-clear :
    (id : String) (list : List PersistedUpload)
    → any (is_entry id) (filter (λ p. not (is_entry id p)) list) ≡ false
any-clear id [] = refl
any-clear id (p ∷ list) = elim (Bool-cases (str_eq p.id id)) [
  | inl e1 ↦ rw e1 (any-clear id list)
  | inr e1 ↦ rw (e1, e1) (any-clear id list)
]

pub mem-without : (id : String) (ids : List String) → mem id (without id ids) ≡ false
mem-without id [] = refl
mem-without id (other ∷ ids) = elim (Bool-cases (str_eq other id)) [
  | inl e1 ↦ rw e1 (mem-without id ids)
  | inr e1 ↦ ground (arith, e1, mem-without id ids)
]
