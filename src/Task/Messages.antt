-- ===== src/Task/Messages.antt =====
-- src/task.rs: the one-message slot of a process, and its exit state.
use macha_os.Prelude.{
  ℕ, zero, suc, ◌≡◌, refl, true, false, Option, none, some, List, [], ◌∷◌, arith, get_elem?, set,
}
use macha_os.Task.{
  Task, Machine, Process, deliver_message, take_current_message, process_is_exited, with_process,
  inbox_of,
}

abbrev pub process_at : Machine → ℕ → Option Process
process_at m pid = elim (get_elem? m.tasks pid) as (λ _. Option Process) [
  | none ↦ none
  | some t ↦ t.process
]

lookup :
    (ts : List Task) (pid : ℕ) (p : Process)
    → elim (get_elem? ts pid) as (λ _. Option Process) [ none ↦ none | some t ↦ t.process ] ≡ some p
    → (t : Task) × (get_elem? ts pid ≡ some t) × (t.process ≡ some p)
lookup [] pid p e = ground arith
lookup (x ∷ ts) zero p e = (x, refl, e)
lookup (x ∷ ts) (suc pid) p e = lookup ts pid p e

set_lookup :
    (ts : List Task) (i : ℕ) (t u : Task)
    → get_elem? ts i ≡ some t
    → get_elem? (set ts i u) i ≡ some u
set_lookup [] i t u e = ground arith
set_lookup (x ∷ ts) zero t u e = refl
set_lookup (x ∷ ts) (suc i) t u e = set_lookup ts i t u e

taken :
    (m : Machine) (t : Task)
    → get_elem? m.tasks m.current ≡ some t
    → take_current_message m
      ≡ some (
        inbox_of t,
        record m {
          tasks = set m.tasks m.current (with_process t (λ p. record p { inbox = none }));
        },
      )
unfolding take_current_message
taken m t here = rw (take_current_message, here) refl

process_at-set :
    (m : Machine) (pid : ℕ) (t u : Task)
    → get_elem? m.tasks pid ≡ some t
    → process_at (record m { tasks = set m.tasks pid u }) pid ≡ u.process
process_at-set m pid t u here = rw (process_at, set_lookup m.tasks pid t u here) refl

-- A message that is delivered to a running process is the one that it takes when it is the current
-- task, whatever was in the slot; the slot is empty afterwards.
pub take-deliver :
    (m : Machine) (pid : ℕ) (p : Process) (bytes : List ℕ)
    → process_at m pid ≡ some p
    → process_is_exited p ≡ false
    → ((deliver_message pid bytes m).0 ≡ true)
      × ((after : Machine) × (take_current_message
              (record (deliver_message pid bytes m).1 { current = pid })
            ≡ some (some bytes, after))
          × (process_at after pid ≡ some (record p { inbox = none })))
unfolding deliver_message take_current_message
take-deliver m pid p bytes at run =
    let (t, here, is) = lookup m.tasks pid p at in
    let u : Task = record t { process = some (record p { inbox = some bytes }) } in
    let sent = set_lookup m.tasks pid t u here in
    let now : Machine = record m { tasks = set m.tasks pid u; current = pid } in
    rw (deliver_message, here, is, run)
      (refl, (_, taken now u sent, process_at-set now pid u _ sent))
