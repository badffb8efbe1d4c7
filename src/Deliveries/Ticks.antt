-- ===== src/Deliveries/Ticks.antt =====
-- The rate limit over the ticks of notification-queue.ts.
use Prim.Native.String.{String}
use home_server_interface.Base.{
  ℕ, zero, suc, ◌≤◌, ◌<◌, Bool, false, List, [], ◌∷◌, Option, none, some, str_eq, length, filter,
  take, max, arith, ◌≡◌, refl, inl, inr, ◌⊎◌, Bool-cases, Option-cases, All, lookup, modify, Unique,
  lookup-modify, eq_iff, All-filter, subst, ap, eq_refl, ◌∙◌,
}
use home_server_interface.Deliveries.{
  Delivery, DeliveryResult, Connector, plan_after_attempt, rate_limited_until, reset_row,
  reset_sending, due, counted, sent_times, sent_since, attempt, run_rows, run_delivery_tick,
  batch_size, is_due, in_minute,
}
use home_server_interface.Deliveries.RateLimit.{
  count, rate_limited_until_iff, count-antitone, count-filter,
}

-- What a connector sent in the last minute.
abbrev pub sends : String → ℕ → List (String × Delivery) → ℕ
sends cid now rows = count now (sent_times cid rows)

sends-modify-le :
    (cid : String) (now : ℕ) (id : String) (patch : Delivery → Delivery)
    (rows : List (String × Delivery))
    → sends cid now (modify id patch rows) ≤ suc (sends cid now rows)
sends-modify-le cid now id patch [] = omega arith
sends-modify-le cid now id patch ((j, row) ∷ rows) = ground (
  arith,
  Option-cases (counted cid row),
  Option-cases (counted cid (patch row)),
  sends-modify-le cid now id patch rows,
)

-- A patch that sends nothing for the connector.
abbrev IsQuiet : String → (Delivery → Delivery) → Option Delivery → Type 0
IsQuiet cid patch none = Unit
IsQuiet cid patch (some row) =
    (counted cid (patch row) ≡ none) ⊎ (counted cid (patch row) ≡ counted cid row)

head_quiet :
    (cid : String) (now : ℕ) (j : String) (patch : Delivery → Delivery) (row : Delivery)
    (rows : List (String × Delivery))
    → IsQuiet cid patch (some row)
    → sends cid now ((j, patch row) ∷ rows) ≤ sends cid now ((j, row) ∷ rows)
head_quiet cid now j patch row rows (inl nothing) =
    rw nothing (ground (arith, Option-cases (counted cid row)))
head_quiet cid now j patch row rows (inr same) = rw same (omega arith)

sends-cons-le :
    (cid : String) (now : ℕ) (j : String) (row : Delivery) (xs ys : List (String × Delivery))
    → sends cid now xs ≤ sends cid now ys
    → sends cid now ((j, row) ∷ xs) ≤ sends cid now ((j, row) ∷ ys)
sends-cons-le cid now j row xs ys le = ground (arith, Option-cases (counted cid row), le)

sends-modify-IsQuiet :
    (cid : String) (now : ℕ) (id : String) (patch : Delivery → Delivery)
    (rows : List (String × Delivery))
    → IsQuiet cid patch (lookup id rows)
    → sends cid now (modify id patch rows) ≤ sends cid now rows
sends-modify-IsQuiet cid now id patch [] q = omega arith
sends-modify-IsQuiet cid now id patch ((j, row) ∷ rows) q = elim (Bool-cases (str_eq j id)) [
  | inl hit ↦ rw hit (head_quiet cid now j patch row rows (rw hit at q))
  | inr miss ↦
      rw miss (
        sends-cons-le cid now j row _ _ (sends-modify-IsQuiet cid now id patch rows (rw miss at q)))
]

abbrev conn : Option Delivery → Option String
conn none = none
conn (some row) = some row.connector_id

-- The table still has the rows that the tick has to visit, each under its connector.
abbrev Agrees : List (String × Delivery) → List (String × Delivery) → Type 0
Agrees rows due_rows = All (λ d. conn (lookup d.0 rows) ≡ some d.1.connector_id) due_rows

module _ (connector : String → Option Connector) (valid_event : String → Bool)
    (deliver : Delivery → DeliveryResult) where
  attempt-connector_id :
      (now : ℕ) (rows : List (String × Delivery)) (d row : Delivery)
      → (attempt connector valid_event deliver now rows d row).connector_id ≡ row.connector_id
  unfolding attempt plan_after_attempt
  attempt-connector_id now rows d row = elim (Option-cases (connector d.connector_id)) [
    | inl e ↦ rw (attempt, e) refl
    | inr (c, e) ↦
        elim (Option-cases
          (rate_limited_until (sent_since d.connector_id now rows) c.rate_limit_per_minute now)) [
            | inl f ↦ rw (attempt, e, f) (ground arith)
            | inr (until, f) ↦ rw (attempt, e, f) (ground arith)
          ]
  ]

  module _ (now : ℕ) (rows : List (String × Delivery)) (d : Delivery) where
    abbrev patch : Delivery → Delivery
    patch = attempt connector valid_event deliver now rows d

    attempt-cases :
        (row : Delivery) (c : Connector)
        → connector d.connector_id ≡ some c
        → IsQuiet d.connector_id patch (some row)
          ⊎ (rate_limited_until (sent_since d.connector_id now rows) c.rate_limit_per_minute now
              ≡ none)
    unfolding attempt
    attempt-cases row c known =
        elim (Option-cases
          (rate_limited_until (sent_since d.connector_id now rows) c.rate_limit_per_minute now)) [
            | inl f ↦ inr f
            | inr (until, f) ↦ inl (
                rw (attempt, known, f)
                  (elim (Bool-cases c.enabled) [
                    | inl on ↦ rw on (inr refl)
                    | inr off ↦ rw off (inl (ground arith))
                  ]))
          ]

    -- The row of another connector is not counted for this one, before or after.
    other-IsQuiet :
        (cid : String) (row : Delivery)
        → row.connector_id ≡ d.connector_id
        → str_eq d.connector_id cid ≡ false
        → IsQuiet cid patch (some row)
    other-IsQuiet cid row agrees other =
        inl (rw (attempt-connector_id now rows d row, agrees, other) refl)

    free :
        (c : Connector)
        → rate_limited_until (sent_since d.connector_id now rows) c.rate_limit_per_minute now ≡ none
        → sends d.connector_id now rows < max 1 c.rate_limit_per_minute
    unfolding sent_since
    free c f =
        let recent = filter (in_minute now) (sent_times d.connector_id rows) in
        rw⁻¹ (count-filter now now (sent_times d.connector_id rows) (omega arith)) (
          (rate_limited_until_iff recent c.rate_limit_per_minute now now (omega arith)).1
            (rw f (omega arith)))

    sends-attempt-own :
        (id : String) (row : Delivery) (c : Connector)
        → connector d.connector_id ≡ some c
        → lookup id rows ≡ some row
        → sends d.connector_id now rows ≤ max 1 c.rate_limit_per_minute
        → sends d.connector_id now (modify id patch rows) ≤ max 1 c.rate_limit_per_minute
    sends-attempt-own id row c known there le = elim (attempt-cases row c known) [
      | inl quiet ↦
          omega (arith, sends-modify-IsQuiet d.connector_id now id patch rows (rw there quiet), le)
      | inr f ↦ omega (arith, sends-modify-le d.connector_id now id patch rows, free c f)
    ]

    sends-attempt :
        (id : String) (cid : String) (c : Connector)
        → connector cid ≡ some c
        → conn (lookup id rows) ≡ some d.connector_id
        → sends cid now rows ≤ max 1 c.rate_limit_per_minute
        → sends cid now (modify id patch rows) ≤ max 1 c.rate_limit_per_minute
    sends-attempt id cid c known agrees le = elim (Option-cases (lookup id rows)) [
      | inl none_there ↦ absurd (ground (arith, none_there, agrees))
      | inr (row, there) ↦ elim (Bool-cases (str_eq d.connector_id cid)) [
        | inl same ↦
            subst
              (λ x.
                connector x ≡ some c
                → sends x now rows ≤ max 1 c.rate_limit_per_minute
                → sends x now (modify id patch rows) ≤ max 1 c.rate_limit_per_minute)
              ((eq_iff d.connector_id cid).0 same) (λ k l. sends-attempt-own id row c k there l)
              known le
        | inr other ↦ omega (
          arith,
          sends-modify-IsQuiet cid now id patch rows
              (rw there (other-IsQuiet cid row (ground (arith, there, agrees)) other)),
          le,
        )
      ]
    ]

  conn-modify :
      (now : ℕ) (rows : List (String × Delivery)) (d : Delivery) (id j : String)
      → conn (lookup j (modify id (patch now rows d) rows)) ≡ conn (lookup j rows)
  conn-modify now rows d id j =
      rw (lookup-modify id j (patch now rows d) rows) (elim (Bool-cases (str_eq id j)) [
        | inl hit ↦ rw hit (elim (Option-cases (lookup j rows)) [
          | inl e ↦ rw e refl
          | inr (row, e) ↦ rw (e) (ap some (attempt-connector_id now rows d row))
        ])
        | inr miss ↦ rw miss refl
      ])

  Agrees-modify :
      (now : ℕ) (rows : List (String × Delivery)) (d : Delivery) (id : String)
      (due_rows : List (String × Delivery))
      → Agrees rows due_rows
      → Agrees (modify id (patch now rows d) rows) due_rows
  Agrees-modify now rows d id [] a = tt
  Agrees-modify now rows d id ((j, e) ∷ due_rows) a =
      (conn-modify now rows d id j ∙ a.0, Agrees-modify now rows d id due_rows a.1)

  sends-run_rows :
      (now : ℕ) (due_rows rows : List (String × Delivery)) (cid : String) (c : Connector)
      → connector cid ≡ some c
      → Agrees rows due_rows
      → sends cid now rows ≤ max 1 c.rate_limit_per_minute
      → sends cid now (run_rows connector valid_event deliver now due_rows rows)
        ≤ max 1 c.rate_limit_per_minute
  sends-run_rows now [] rows cid c known a le = le
  sends-run_rows now ((id, d) ∷ due_rows) rows cid c known a le =
      sends-run_rows now due_rows (modify id (patch now rows d) rows) cid c known
        (Agrees-modify now rows d id due_rows a.1) (sends-attempt now rows d id cid c known a.0 le)

Agrees-cons :
    (j : String) (row : Delivery) (rows due_rows : List (String × Delivery))
    → lookup j rows ≡ none
    → Agrees rows due_rows
    → Agrees ((j, row) ∷ rows) due_rows
Agrees-cons j row rows [] fresh a = tt
Agrees-cons j row rows ((i, d) ∷ due_rows) fresh a =
    (ground (arith, fresh, a.0, eq_iff j i), Agrees-cons j row rows due_rows fresh a.1)

Agrees-self : (rows : List (String × Delivery)) → Unique rows → Agrees rows rows
Agrees-self [] u = tt
Agrees-self ((j, row) ∷ rows) u =
    (ground (arith, eq_refl j), Agrees-cons j row rows rows u.0 (Agrees-self rows u.1))

Agrees-take :
    (rows due_rows : List (String × Delivery)) (n : ℕ)
    → Agrees rows due_rows
    → Agrees rows (take n due_rows)
Agrees-take rows [] zero a = tt
Agrees-take rows [] (suc n) a = tt
Agrees-take rows (d ∷ due_rows) zero a = tt
Agrees-take rows (d ∷ due_rows) (suc n) a = (a.0, Agrees-take rows due_rows n a.1)

lookup-reset_sending-none :
    (id : String) (rows : List (String × Delivery))
    → lookup id rows ≡ none
    → lookup id (reset_sending rows) ≡ none
unfolding reset_sending
lookup-reset_sending-none id [] e = refl
lookup-reset_sending-none id ((j, row) ∷ rows) e =
    ground (arith, lookup-reset_sending-none id rows, e)

reset_sending-Unique : (rows : List (String × Delivery)) → Unique rows → Unique (reset_sending rows)
unfolding reset_sending
reset_sending-Unique [] u = tt
reset_sending-Unique ((j, row) ∷ rows) u =
    (lookup-reset_sending-none j rows u.0, reset_sending-Unique rows u.1)

counted-reset_row : (cid : String) (row : Delivery) → counted cid (reset_row row) ≡ counted cid row
counted-reset_row cid row = ground arith

sent_times-reset_sending :
    (cid : String) (rows : List (String × Delivery))
    → sent_times cid (reset_sending rows) ≡ sent_times cid rows
unfolding reset_sending
sent_times-reset_sending cid [] = refl
sent_times-reset_sending cid ((j, row) ∷ rows) =
    rw (counted-reset_row cid row, sent_times-reset_sending cid rows) refl

-- A connector that sent no more than its limit in the minute before a tick has not done so in the
-- minute before any later time up to the next tick.
pub sent_since-run_delivery_tick :
    (connector : String → Option Connector) (valid_event : String → Bool)
    (deliver : Delivery → DeliveryResult) (now later : ℕ) (rows : List (String × Delivery))
    (cid : String) (c : Connector)
    → connector cid ≡ some c
    → Unique rows
    → length (sent_since cid now rows) ≤ max 1 c.rate_limit_per_minute
    → now ≤ later
    → length (sent_since cid later (run_delivery_tick connector valid_event deliver now rows))
      ≤ max 1 c.rate_limit_per_minute
unfolding run_delivery_tick due sent_since
sent_since-run_delivery_tick connector valid_event deliver now later rows cid c known u le after =
    let reset = reset_sending rows in
    omega (
      arith,
      count-antitone now later
          (sent_times cid
            (run_rows connector valid_event deliver now (due now batch_size reset) reset))
          after,
      sends-run_rows connector valid_event deliver now (due now batch_size reset) reset cid c known
          (Agrees-take reset (filter (is_due now) reset) batch_size (
            All-filter (λ d. conn (lookup d.0 reset) ≡ some d.1.connector_id) (is_due now) reset
              (Agrees-self reset (reset_sending-Unique rows u))))
          (rw (sent_times-reset_sending cid rows) le),
    )
