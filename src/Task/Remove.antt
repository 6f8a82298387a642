-- ===== src/Task/Remove.antt =====
-- src/task.rs: the removal of a process from the table, and the index of the running task.
use macha_os.Prelude.{
  ℕ, zero, suc, ◌+◌, ◌-◌, ◌<◌, ◌≡◌, ◌≢◌, refl, sym, subst, ◌∙◌, true, false, some, List, [], ◌∷◌,
  ◌⊎◌, inl, inr, arith, length, get_elem?, set, take, get_elem?-set_self, get_elem?-set_ne, ◌==◌,
  ==_iff, if◌then◌else◌, Bool-cases,
}
use macha_os.Task.{Task, Machine, swap_remove, adjust_current, remove_process}

lookup_in : (ts : List Task) (i : ℕ) → i < length ts → (t : Task) × (get_elem? ts i ≡ some t)
lookup_in [] i h = absurd (omega arith)
lookup_in (x ∷ ts) zero h = (x, refl)
lookup_in (x ∷ ts) (suc i) h = lookup_in ts i (omega arith)

get_elem?-take : (n : ℕ) (ts : List Task) (i : ℕ) → i < n → get_elem? (take n ts) i ≡ get_elem? ts i
get_elem?-take zero ts i h = absurd (omega arith)
get_elem?-take (suc n) [] i h = refl
get_elem?-take (suc n) (x ∷ ts) zero h = refl
get_elem?-take (suc n) (x ∷ ts) (suc i) h = get_elem?-take n ts i (omega arith)

-- The last task moves to the removed one's place, and the others below it keep theirs.
swap_remove_lem :
    (ts : List Task) (pid i : ℕ)
    → pid < length ts
    → i < length ts - 1
    → get_elem? (swap_remove ts pid) i
      ≡ (if i == pid then get_elem? ts (length ts - 1) else get_elem? ts i)
swap_remove_lem ts pid i h lo =
    let (t, final) = lookup_in ts (length ts - 1) (omega arith) in
    rw (swap_remove, final, get_elem?-take (length ts - 1) (set ts pid t) i lo)
      (at t (Bool-cases (i == pid)))
  where
    at :
        (t : Task)
        → ((i == pid) ≡ true) ⊎ ((i == pid) ≡ false)
        → get_elem? (set ts pid t) i ≡ (if i == pid then some t else get_elem? ts i)
    at t (inl e) = rw e (
        subst (λ j. get_elem? (set ts pid t) j ≡ some t) (sym ((==_iff i pid).0 e))
          (get_elem?-set_self ts pid t h))
    at t (inr e) = rw e (get_elem?-set_ne ts t (λ same. ground (arith, e, same)))

removed :
    (m : Machine) (pid : ℕ)
    → pid < length m.tasks
    → m.current ≢ pid
    → ((remove_process pid m).1.tasks ≡ swap_remove m.tasks pid)
      × ((remove_process pid m).1.current ≡ adjust_current m.current pid (length m.tasks - 1))
unfolding remove_process
removed m pid h ne =
    let (t, here) = lookup_in m.tasks pid h in rw (remove_process, here, differs) (refl, refl)
  where
    differs : (m.current == pid) ≡ false
    differs = ground (arith, ne)

-- The removal of another task leaves the current index on the running task where that task stands
-- last in the table, or before the removed one.
pub remove_process-current :
    (m : Machine) (pid : ℕ)
    → pid < length m.tasks
    → m.current < length m.tasks
    → m.current ≢ pid
    → (m.current < pid) ⊎ (m.current ≡ length m.tasks - 1)
    → get_elem? (remove_process pid m).1.tasks (remove_process pid m).1.current
      ≡ get_elem? m.tasks m.current
remove_process-current m pid h c ne place =
    let (tasks_are, current_is) = removed m pid h ne in
    rw (tasks_are, current_is)
      (elim place [
        | inl before ↦
            rw (stays before)
              (swap_remove_lem m.tasks pid m.current h (omega arith) ∙ rw (differs before) refl)
        | inr final ↦ rw (moves final) (
            swap_remove_lem m.tasks pid pid h (ground (arith, final))
            ∙ rw ((==_iff pid pid).1 refl, final) refl)
      ])
  where
    stays : m.current < pid → adjust_current m.current pid (length m.tasks - 1) ≡ m.current
    stays before = ground arith

    differs : m.current < pid → (m.current == pid) ≡ false
    differs before = ground arith

    moves : m.current ≡ length m.tasks - 1 → adjust_current m.current pid (length m.tasks - 1) ≡ pid
    moves final = ground arith

-- With the removed task before the running one and the running one not last, the current index goes
-- to the entry before the running task, which stays where it was.
pub remove_process_drifts :
    (m : Machine) (pid : ℕ)
    → pid < m.current
    → m.current + 1 < length m.tasks
    → ((remove_process pid m).1.current + 1 ≡ m.current)
      × (get_elem? (remove_process pid m).1.tasks m.current ≡ get_elem? m.tasks m.current)
remove_process_drifts m pid below more =
    let (tasks_are, current_is) = removed m pid (omega arith) (λ e. ground (arith, e)) in
    rw (tasks_are, current_is)
      (
        ground arith,
        swap_remove_lem m.tasks pid m.current (omega arith) (omega arith) ∙ rw differs refl,
      )
  where
    differs : (m.current == pid) ≡ false
    differs = ground arith
