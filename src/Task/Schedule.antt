-- ===== src/Task/Schedule.antt =====
-- src/task.rs: whom the scheduler picks, and that a task finds its registers as it left them.
use macha_os.Prelude.{
  ℕ, zero, suc, ◌+◌, ◌-◌, ◌%◌, ◌<◌, ◌≤◌, ◌≡◌, ◌≢◌, refl, sym, ap, subst, ◌∙◌, true, false, Option,
  none, some, List, [], ◌∷◌, ◌⊎◌, inl, inr, arith, length, get_elem?, set, get_elem?-set_ne,
  Bool-cases, Option-cases,
}
use macha_os.Task.{
  Task, Machine, Cpu, Process, search_next, find_next, exited_at, switch_to, park, restore,
}

abbrev pub NextOf : List Task → ℕ → ℕ → ℕ → Option ℕ → Type 0
NextOf ts current first left none =
    (j : ℕ) → first ≤ j → j < first + left → exited_at ts ((current + j) % length ts) ≡ true
NextOf ts current first left (some next) =
    (k : ℕ) × (first ≤ k)
    × (k < first + left)
    × (next ≡ (current + k) % length ts)
    × (exited_at ts next ≡ false)
    × ((j : ℕ) → first ≤ j → j < k → exited_at ts ((current + j) % length ts) ≡ true)

Nat-split : (a b : ℕ) → a ≤ b → (a ≡ b) ⊎ (a < b)
Nat-split a b h = ground arith

NextOf-skip :
    (ts : List Task) (current first left : ℕ) (o : Option ℕ)
    → exited_at ts ((current + first) % length ts) ≡ true
    → NextOf ts current (suc first) left o
    → NextOf ts current first (suc left) o
NextOf-skip ts current first left none gone rest = λ j lo hi. elim (Nat-split first j lo) [
  | inl e ↦ subst (λ i. exited_at ts ((current + i) % length ts) ≡ true) e gone
  | inr lt ↦ rest j lt (omega arith)
]
NextOf-skip ts current first left (some next) gone rest =
    let (k, lo, hi, place, run, before) = rest in
    (
      k,
      omega arith,
      omega arith,
      place,
      run,
      λ j l h. elim (Nat-split first j l) [
        | inl e ↦ subst (λ i. exited_at ts ((current + i) % length ts) ≡ true) e gone
        | inr lt ↦ before j lt h
      ],
    )

search_next-NextOf :
    (ts : List Task) (current first left : ℕ)
    → NextOf ts current first left (search_next ts current first left)
search_next-NextOf ts current first zero = λ j lo hi. absurd (omega arith)
search_next-NextOf ts current first (suc left) =
    elim (Bool-cases (exited_at ts ((current + first) % length ts))) [
      | inl gone ↦ rw gone (
          NextOf-skip ts current first left (search_next ts current (suc first) left) gone
            (search_next-NextOf ts current (suc first) left))
      | inr run ↦
          rw run (first, omega arith, omega arith, refl, run, λ j lo hi. absurd (omega arith))
    ]

-- The scheduler picks the first runnable task after the current one, in the round-robin order: the
-- tasks that it passes over have exited; where it picks none, all the others have.
pub find_next_lem :
    (ts : List Task) (current : ℕ) → NextOf ts current 1 (length ts - 1) (find_next ts current)
unfolding find_next
find_next_lem ts current = search_next-NextOf ts current 1 (length ts - 1)

get_elem?-set-some :
    (ts : List Task) (i : ℕ) (t u : Task)
    → get_elem? ts i ≡ some t
    → get_elem? (set ts i u) i ≡ some u
get_elem?-set-some [] i t u h = ground arith
get_elem?-set-some (x ∷ ts) zero t u h = refl
get_elem?-set-some (x ∷ ts) (suc i) t u h = get_elem?-set-some ts i t u h

some-inj : (x y : Machine) → some x ≡ some y → x ≡ y
some-inj x y e = cc

-- What a switch leaves behind.
record Switched (m back : Machine) (t : Task) (next : ℕ) : Type 0 where
  current_next : back.current ≡ next
  parked : get_elem? back.tasks m.current ≡ some (park m.cpu t)
  others : (j : ℕ) → m.current ≢ j → get_elem? back.tasks j ≡ get_elem? m.tasks j
  incoming : Task
  found : get_elem? m.tasks next ≡ some incoming
  restored : back.cpu ≡ restore incoming m.cpu

switch_to-Switched :
    (m back : Machine) (t : Task) (next : ℕ)
    → get_elem? m.tasks m.current ≡ some t
    → switch_to next m ≡ some back
    → Switched m back t next
unfolding switch_to
switch_to-Switched m back t next here go = elim (Option-cases (get_elem? m.tasks next)) [
  | inl missing ↦ absurd (none-some (sym (ap leave missing) ∙ go'))
  | inr (u, found) ↦
      let e = some-inj _ back (sym (ap leave found) ∙ go') in
      subst (λ b. Switched m b t next) e
        (record {
          current_next = refl;
          parked = get_elem?-set-some m.tasks m.current t (park m.cpu t) here;
          others = λ j ne. get_elem?-set_ne m.tasks (park m.cpu t) ne;
          incoming = u;
          found = found;
          restored = refl;
        })
]
  where
    none-some : ¬ (none ≡ some back)
    none-some e = ground arith

    leave : Option Task → Option Machine
    leave o = elim o [
      | none ↦ none
      | some u ↦ some (record {
        tasks = set m.tasks m.current (park m.cpu t);
        current = next;
        cpu = restore u m.cpu;
      })
    ]

    go' : leave (get_elem? m.tasks next) ≡ some back
    go' =
        subst
          (λ o.
            elim o [
              | none ↦ none
              | some outgoing ↦ elim (get_elem? m.tasks next) [
                | none ↦ none
                | some u ↦ some (record {
                  tasks = set m.tasks m.current (park m.cpu outgoing);
                  current = next;
                  cpu = restore u m.cpu;
                })
              ]
            ]
            ≡ some back)
          here go

restore-park :
    (t v : Task) (cpu old : Cpu) (now : Cpu)
    → some v ≡ some (park old t)
    → now ≡ restore v cpu
    → (now.rsp ≡ old.rsp)
      × (now.cr3 ≡ t.cr3)
      × ((p : Process) → t.process ≡ some p → now.fs_base ≡ old.fs_base)
restore-park t v cpu old now ev en =
    subst
      (λ n.
        (n.rsp ≡ old.rsp)
        × (n.cr3 ≡ t.cr3)
        × ((p : Process) → t.process ≡ some p → n.fs_base ≡ old.fs_base))
      (sym (en ∙ ap (λ w. restore w cpu) same)) (refl, refl, λ p e. rw e refl)
  where
    same : v ≡ park old t
    same = cc

-- After a switch away from a task and, with whatever the registers hold by then, a switch back to
-- it, the registers are those it was interrupted with: its stack pointer and its address space,
-- and, for a process, its thread-local base.
pub switch_to-switch_to :
    (m back again : Machine) (t : Task) (next : ℕ) (cpu : Cpu)
    → get_elem? m.tasks m.current ≡ some t
    → m.current ≢ next
    → switch_to next m ≡ some back
    → switch_to m.current (record back { cpu = cpu }) ≡ some again
    → (again.current ≡ m.current)
      × (again.cpu.rsp ≡ m.cpu.rsp)
      × (again.cpu.cr3 ≡ t.cr3)
      × ((p : Process) → t.process ≡ some p → again.cpu.fs_base ≡ m.cpu.fs_base)
unfolding switch_to
switch_to-switch_to m back again t next cpu here other go return =
    let first = switch_to-Switched m back t next here go in
    let waiting =
      ap (get_elem? back.tasks) first.current_next ∙ first.others next other ∙ first.found in
    let second =
      switch_to-Switched (record back { cpu = cpu }) again first.incoming m.current waiting
        return in
    let back_cpu =
      restore-park t second.incoming cpu m.cpu again.cpu (sym second.found ∙ first.parked)
        second.restored in
    (second.current_next, back_cpu.0, back_cpu.1, back_cpu.2)
