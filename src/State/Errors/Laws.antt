-- ===== src/State/Errors/Laws.antt =====
-- The count of failures of a changelist, from its first failure to its resolution.
use p4sync_git.Prelude.{
  is_some, ℕ, ◌+◌, ◌<◌, ◌≡◌, refl, subst, Bool, true, false, ◌&&◌, Option, none, some, List, [],
  ◌∷◌, ◌++◌, arith, ◌==◌, if◌then◌else◌, Bool-cases, Option-cases, inl, inr, All,
}
use mathlib.Core.Option.{some-injective}
use p4sync_git.Text.{Str, str_eq}
use p4sync_git.Text.Laws.{str_eq_iff, str_eq_refl}
use p4sync_git.Sql.{fetch_one, update_where}
use p4sync_git.State.Schema.{ErrorRow}
use p4sync_git.State.Connection.{StateStore}
use p4sync_git.State.Connection.Laws.{write-conn}
use p4sync_git.State.Errors.{is_open, new_error, open_error, record_sync_error}

abbrev pub failures : Option ErrorRow → ℕ
failures none = 0
failures (some r) = r.retry_count

-- Rows are numbered apart and below the next number, as AUTOINCREMENT does.
abbrev HaveIds : ℕ → List ErrorRow → Type 0
HaveIds next [] = Unit
HaveIds next (r ∷ rs) =
    (r.id < next) × All (λ (x : ErrorRow). (x.id == r.id) ≡ false) rs × HaveIds next rs

abbrev pub IsNumbered : StateStore → Type 0
IsNumbered s = HaveIds s.conn.next_error_id s.conn.sync_errors

module _ (cl : ℕ) (stream : Str) where
  fetch_one-append :
      (rs : List ErrorRow) (r : ErrorRow)
      → fetch_one (is_open cl stream) rs ≡ none
      → is_open cl stream r ≡ true
      → fetch_one (is_open cl stream) (rs ++ (r ∷ [])) ≡ some r
  unfolding fetch_one
  fetch_one-append [] r h e = ground arith
  fetch_one-append (x ∷ rs) r h e = ground (arith, fetch_one-append rs r)

  -- the open row of the changelist is counted up
  fetch_one-update_id :
      (rs : List ErrorRow) (row : ErrorRow) (msg : Str)
      → fetch_one (is_open cl stream) rs ≡ some row
      → fetch_one (is_open cl stream) (
          update_where
            (λ r. r.id == row.id)
            (λ r. record r { retry_count = row.retry_count + 1; error_msg = msg })
            rs)
        ≡ some (record row { retry_count = row.retry_count + 1; error_msg = msg })
  unfolding fetch_one update_where
  fetch_one-update_id [] row msg h = ground arith
  fetch_one-update_id (x ∷ rs) row msg h = elim (Bool-cases (is_open cl stream x)) [
    | inl e ↦ let same : x ≡ row = some-injective x row (rw e at h) in rw (← same) (ground arith)
    | inr e ↦ ground (arith, fetch_one-update_id rs row msg)
  ]

  All-fetch_one :
      (rs : List ErrorRow) (row x : ErrorRow)
      → All (λ (y : ErrorRow). (y.id == x.id) ≡ false) rs
      → fetch_one (is_open cl stream) rs ≡ some row
      → (row.id == x.id) ≡ false
  unfolding fetch_one
  All-fetch_one [] row x a h = ground arith
  All-fetch_one (y ∷ rs) row x a h = elim (Bool-cases (is_open cl stream y)) [
    | inl e ↦ let same : y ≡ row = some-injective y row (rw e at h) in rw (← same) a.0
    | inr e ↦ All-fetch_one rs row x a.1 (rw e at h)
  ]

  update_id_none :
      (rs : List ErrorRow) (row : ErrorRow) (msg : Str)
      → All (λ (y : ErrorRow). (y.id == row.id) ≡ false) rs
      → update_where
          (λ r. r.id == row.id)
          (λ r. record r { retry_count = row.retry_count + 1; error_msg = msg })
          rs
        ≡ rs
  unfolding update_where
  update_id_none [] row msg a = refl
  update_id_none (x ∷ rs) row msg a = ground (arith, update_id_none rs row msg a.1)

  -- with the rows numbered apart no other changelist is counted up
  fetch_one-update_id_ne :
      (cl' : ℕ) (stream' : Str) (next : ℕ) (rs : List ErrorRow) (row : ErrorRow) (msg : Str)
      → ((cl == cl') && str_eq stream stream') ≡ false
      → HaveIds next rs
      → fetch_one (is_open cl stream) rs ≡ some row
      → fetch_one (is_open cl' stream') (
          update_where
            (λ r. r.id == row.id)
            (λ r. record r { retry_count = row.retry_count + 1; error_msg = msg })
            rs)
        ≡ fetch_one (is_open cl' stream') rs
  unfolding fetch_one update_where
  fetch_one-update_id_ne cl' stream' next [] row msg d n h = refl
  fetch_one-update_id_ne cl' stream' next (x ∷ rs) row msg d n h =
      elim (Bool-cases (is_open cl stream x)) [
        | inl e ↦
            let same : x ≡ row = some-injective x row (rw e at h) in
            let apart =
              subst (λ (z : ErrorRow). All (λ (y : ErrorRow). (y.id == z.id) ≡ false) rs) same
                n.1 in
            rw (update_id_none rs row msg apart) (
              ground (
                arith,
                str_eq_iff x.stream stream,
                str_eq_iff x.stream stream',
                str_eq_iff stream stream',
              ))
        | inr e ↦
            let later = rw e at h in
            ground (
              arith,
              All-fetch_one rs row x n.1 later,
              fetch_one-update_id_ne cl' stream' next rs row msg d n.2 later,
            )
      ]

  fetch_one-append_ne :
      (p : ErrorRow → Bool) (rs : List ErrorRow) (r : ErrorRow)
      → p r ≡ false
      → fetch_one p (rs ++ (r ∷ [])) ≡ fetch_one p rs
  unfolding fetch_one
  fetch_one-append_ne p [] r h = ground arith
  fetch_one-append_ne p (x ∷ rs) r h = ground (arith, fetch_one-append_ne p rs r h)

abbrev pub same_changelist : ℕ → Str → ℕ → Str → Bool
same_changelist cl stream cl' stream' = (cl == cl') && str_eq stream stream'

same_changelist→eq :
    (cl : ℕ) (stream : Str) (cl' : ℕ) (stream' : Str)
    → same_changelist cl stream cl' stream' ≡ true
    → (cl' ≡ cl) × (stream' ≡ stream)
same_changelist→eq cl stream cl' stream' h = ground (arith, str_eq_iff stream stream')

-- Where the errors are numbered apart, a failure of a changelist counts one more than its
-- unresolved failures so far, which is the number returned; the count of every other
-- changelist or stream stays.
pub record_sync_error_counts :
    (now cl : ℕ) (stream msg : Str) (cl' : ℕ) (stream' : Str) (s : StateStore)
    → IsNumbered s
    → let (n, s') = record_sync_error now cl stream msg s in
      (n ≡ failures (open_error cl stream s) + 1)
      × (failures (open_error cl' stream' s') ≡ (
          if same_changelist cl stream cl' stream' then n else failures (open_error cl' stream' s)))
unfolding record_sync_error open_error
record_sync_error_counts now cl stream msg cl' stream' s n =
    elim (Option-cases (fetch_one (is_open cl stream) s.conn.sync_errors)) [
      | inl e ↦ rw e (
          rw write-conn (
            refl,
            elim (Bool-cases (same_changelist cl stream cl' stream')) [
              | inl k ↦
                  let (kc, ks) = same_changelist→eq cl stream cl' stream' k in
                  rw (k, kc, ks)
                    (rw (
                      fetch_one-append cl stream s.conn.sync_errors
                        (new_error now cl stream msg s.conn.next_error_id) e
                        (ground (arith, str_eq_refl stream))))
              | inr k ↦ rw (
                k,
                fetch_one-append_ne cl stream (is_open cl' stream') s.conn.sync_errors
                    (new_error now cl stream msg s.conn.next_error_id) (ground arith),
              )
            ],
          ))
      | inr (row, e) ↦ rw e (
          rw write-conn (
            refl,
            elim (Bool-cases (same_changelist cl stream cl' stream')) [
              | inl k ↦
                  let (kc, ks) = same_changelist→eq cl stream cl' stream' k in
                  rw (k, kc, ks) (rw (fetch_one-update_id cl stream s.conn.sync_errors row msg e))
              | inr k ↦ rw (
                k,
                fetch_one-update_id_ne cl stream cl' stream' s.conn.next_error_id s.conn.sync_errors
                    row msg k n e,
              )
            ],
          ))
    ]

-- a failure that was recorded is on record, whatever else the table holds
pub is_some-open_error :
    (now cl : ℕ) (stream msg : Str) (s : StateStore)
    → is_some (open_error cl stream (record_sync_error now cl stream msg s).1) ≡ true
unfolding record_sync_error open_error
is_some-open_error now cl stream msg s =
    elim (Option-cases (fetch_one (is_open cl stream) s.conn.sync_errors)) [
      | inl e ↦
          rw (e, write-conn)
            (rw
              (fetch_one-append cl stream s.conn.sync_errors
                (new_error now cl stream msg s.conn.next_error_id) e
                (ground (arith, str_eq_refl stream)))
              refl)
      | inr (row, e) ↦
          rw (e, write-conn) (rw (fetch_one-update_id cl stream s.conn.sync_errors row msg e) refl)
    ]
