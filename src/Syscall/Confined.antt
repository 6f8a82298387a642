-- ===== src/Syscall/Confined.antt =====
-- src/syscall.rs: the memory that a system call writes.
use macha_os.Prelude.{
  ℕ, ◌+◌, ◌<◌, ◌≤◌, ◌≡◌, refl, ap, ◌∙◌, Bool, true, ◌&&◌, ◌||◌, Option, none, some, List, ◌∷◌, ◌++◌,
  ◌⊎◌, inl, inr, arith, length, ltb, leb, Bool-cases, All, pass, branch, zero, suc, min, sym, subst,
  not, [], length-take, ◌==◌, ==_iff, Option-cases, pick,
}
use macha_os.Keyboard.{Event, EventQueue, pop}
use macha_os.Task.{Machine}
use macha_os.Process.{
  Process, Mapping, translate, try_grow_stack, resolve_syscall_ptr, map_user, user_stack_low_limit,
  translate_of, mappings_of,
}
use macha_os.Process.Translate.{
  Fits, Translated, translate-Translated, resolve_syscall_ptr-translate,
}
use macha_os.Syscall.{
  current_is_process, key_byte, Kernel, resolve_user_buffer, write_slice, written, sys_write,
  read_keys, read_in, sys_read, sent, sys_send, received, recv_in, sys_recv, dispatch,
}

-- The address is in the memory behind a mapping.
abbrev pub Backs : List Mapping → ℕ → Type 0
Backs ms x =
    (m : Mapping) × (before : List Mapping) × (after : List Mapping) × (ms ≡ before ++ m ∷ after)
    × (m.phys ≤ x)
    × (x < m.phys + m.len)

-- Bytes outside the memory behind the mappings stay.
abbrev pub Confined : Kernel → Kernel → Type 0
Confined k k' = (x : ℕ) → Backs k.process.mappings x ⊎ (k'.process.bytes x ≡ k.process.bytes x)

try_grow_stack-bytes :
    (pml4 fault_addr : ℕ) (p : Process) → (try_grow_stack pml4 fault_addr p).1.bytes ≡ p.bytes
unfolding try_grow_stack map_user
try_grow_stack-bytes pml4 fault_addr p =
    branch (λ (r : Bool × Process). r.1.bytes ≡ p.bytes)
      (leb p.stack_low fault_addr || ltb fault_addr user_stack_low_limit) _ _ (λ h. refl)
      (λ h. branch (λ (r : Bool × Process). r.1.bytes ≡ p.bytes) _ _ _ (λ k. refl) (λ k. refl))

resolve_syscall_ptr-bytes :
    (current cr3 : ℕ) (others : ℕ → Option (List Mapping)) (pid vaddr len : ℕ) (p : Process)
    → (resolve_syscall_ptr current cr3 others pid vaddr len p).1.bytes ≡ p.bytes
unfolding resolve_syscall_ptr
resolve_syscall_ptr-bytes current cr3 others pid vaddr len p =
    elim (Option-cases (translate_of (mappings_of current others pid p) vaddr len)) [
      | inr (phys, at) ↦ rw (resolve_syscall_ptr, at) refl
      | inl missing ↦
          rw (resolve_syscall_ptr, missing)
            (branch (λ (r : Option ℕ × Process). r.1.bytes ≡ p.bytes) (not (pid == current)) _ _
              (λ h. refl)
              (λ h.
                branch (λ (r : Option ℕ × Process). r.1.bytes ≡ p.bytes)
                  (try_grow_stack cr3 vaddr p).0 _ _ (λ k. try_grow_stack-bytes cr3 vaddr p)
                  (λ k. try_grow_stack-bytes cr3 vaddr p)))
    ]

-- Room for `len` bytes, all of them behind one mapping.
abbrev pub Resolved : Kernel → ℕ → Option ℕ × Kernel → Type 0
Resolved k len (none, k') = k'.process.bytes ≡ k.process.bytes
Resolved k len (some phys, k') =
    (k'.process.bytes ≡ k.process.bytes)
    × ((x : ℕ) → phys ≤ x → x < phys + len → Backs k.process.mappings x)

resolve_user_buffer-Resolved :
    (ptr len : ℕ) (k : Kernel)
    → current_is_process k.machine ≡ true
    → All Fits k.process.mappings
    → Resolved k len (resolve_user_buffer ptr len k)
unfolding resolve_user_buffer
resolve_user_buffer-Resolved ptr len k is fits = subst (Resolved k len) (sym (pick _ _ _ is)) (
    placed _ (
      resolve_syscall_ptr-translate current k.cr3 (λ pid. none) current ptr len k.process
      ∙ ap (λ o. translate_of o ptr len) (pick _ _ _ self)))
  where
    current : ℕ
    current = k.machine.current

    self : (current == current) ≡ true
    self = (==_iff _ _).1 refl

    q : Process
    q = (resolve_syscall_ptr current k.cr3 (λ pid. none) current ptr len k.process).1

    same : q.bytes ≡ k.process.bytes
    same = resolve_syscall_ptr-bytes current k.cr3 (λ pid. none) current ptr len k.process

    at_mapping :
        (o : Option ℕ)
        → Translated k.process.mappings ptr len o
        → Resolved k len (o, record k { process = q })
    at_mapping none h = same
    at_mapping (some phys) (m, before, after, e, all, low, high, place, ends) = (
      same,
      λ x lo hi. (m, before, after, e, omega (arith, lo, place, low), omega (arith, hi, ends)),
    )

    placed :
        (o : Option ℕ)
        → o ≡ translate k.process.mappings ptr len
        → Resolved k len (o, record k { process = q })
    placed o e =
        subst (λ o. Resolved k len (o, record k { process = q })) (sym e)
          (at_mapping _ (translate-Translated k.process.mappings ptr len fits))

write_slice-Confined :
    (k : Kernel) (bs : List ℕ) (phys len : ℕ) (bytes : ℕ → ℕ)
    → length bs ≤ len
    → bytes ≡ k.process.bytes
    → ((x : ℕ) → phys ≤ x → x < phys + len → Backs k.process.mappings x)
    → (x : ℕ) → Backs k.process.mappings x ⊎ (write_slice bs phys bytes x ≡ k.process.bytes x)
write_slice-Confined k bs phys len bytes short same backs x =
    elim (Bool-cases (leb phys x && ltb x (phys + length bs))) [
      | inl inside ↦ inl (backs x (ground (arith, inside)) (ground (arith, inside, short)))
      | inr outside ↦ inr (pass _ _ _ outside ∙ ap (λ (b : ℕ → ℕ). b x) same)
    ]

read_keys-length : (rounds len : ℕ) (q : EventQueue) → length (read_keys rounds len q).0 ≤ len
unfolding read_keys
read_keys-length zero len q = omega arith
read_keys-length (suc rounds) zero q = omega arith
read_keys-length (suc rounds) (suc len) q =
    one (pop q).0 (read_keys rounds len (pop q).1) (read_keys rounds (suc len) (pop q).1)
      (read_keys-length rounds len (pop q).1) (read_keys-length rounds (suc len) (pop q).1)
  where
    at_key :
        (b : Option ℕ) (kept dropped : List ℕ × EventQueue)
        → length kept.0 ≤ len
        → length dropped.0 ≤ suc len
        → length
            (elim b as (λ b. List ℕ × EventQueue) [
              | some c ↦ (c ∷ kept.0, kept.1)
              | none ↦ dropped
            ]).0
          ≤ suc len
    at_key none kept dropped a b = b
    at_key (some c) kept dropped a b = omega (arith, a)

    one :
        (o : Option Event) (kept dropped : List ℕ × EventQueue)
        → length kept.0 ≤ len
        → length dropped.0 ≤ suc len
        → length
            (elim o as (λ o. List ℕ × EventQueue) [
              | none ↦ ([], (pop q).1)
              | some e ↦ elim (key_byte e) as (λ b. List ℕ × EventQueue) [
                | some c ↦ (c ∷ kept.0, kept.1)
                | none ↦ dropped
              ]
            ]).0
          ≤ suc len
    one none kept dropped a b = omega arith
    one (some e) kept dropped a b = at_key (key_byte e) kept dropped a b

module _ (k : Kernel) where
  read_in-Confined :
      (len : ℕ) (r : Option ℕ × Kernel) → Resolved k len r → Confined k (read_in len r).1
  unfolding read_in
  read_in-Confined len (none, k') same = λ x. inr (ap (λ (b : ℕ → ℕ). b x) same)
  read_in-Confined len (some phys, k') (same, backs) =
      write_slice-Confined k _ phys len k'.process.bytes (read_keys-length _ len k'.keys) same backs

  written-Confined :
      (len : ℕ) (r : Option ℕ × Kernel) → Resolved k len r → Confined k (written len r).1
  unfolding written
  written-Confined len (none, k') same = λ x. inr (ap (λ (b : ℕ → ℕ). b x) same)
  written-Confined len (some phys, k') (same, backs) = λ x. inr (ap (λ (b : ℕ → ℕ). b x) same)

  sent-Confined :
      (dest len : ℕ) (r : Option ℕ × Kernel) → Resolved k len r → Confined k (sent dest len r).1
  unfolding sent
  sent-Confined dest len (none, k') same = λ x. inr (ap (λ (b : ℕ → ℕ). b x) same)
  sent-Confined dest len (some phys, k') (same, backs) = λ x. inr (ap (λ (b : ℕ → ℕ). b x) same)

  received-Confined :
      (len phys : ℕ) (o : Option (Option (List ℕ) × Machine)) (k' : Kernel)
      → Resolved k len (some phys, k')
      → Confined k (received len phys o k').1
  unfolding received
  received-Confined len phys none k' (same, backs) = λ x. inr (ap (λ (b : ℕ → ℕ). b x) same)
  received-Confined len phys (some (none, m)) k' (same, backs) =
      λ x. inr (ap (λ (b : ℕ → ℕ). b x) same)
  received-Confined len phys (some (some message, m)) k' (same, backs) =
      write_slice-Confined k _ phys len k'.process.bytes
        (omega (arith, length-take (min (length message) len) message)) same backs

  recv_in-Confined :
      (len : ℕ) (r : Option ℕ × Kernel) → Resolved k len r → Confined k (recv_in len r).1
  unfolding recv_in
  recv_in-Confined len (none, k') same = λ x. inr (ap (λ (b : ℕ → ℕ). b x) same)
  recv_in-Confined len (some phys, k') h = received-Confined len phys _ k' h

-- When the current task is a process whose mappings end below 2 ^ 64, no native system call,
-- whatever its number and arguments, changes a byte of memory that is not behind one of the
-- mappings of the process.
pub dispatch-Confined :
    (ticks num arg1 arg2 arg3 : ℕ) (k : Kernel)
    → current_is_process k.machine ≡ true
    → All Fits k.process.mappings
    → Confined k (dispatch ticks num arg1 arg2 arg3 k).1
unfolding dispatch sys_write sys_read sys_send sys_recv
dispatch-Confined ticks num arg1 arg2 arg3 k is fits =
    branch P (num == 0) _ _
      (λ h.
        branch P (not (arg1 == 1) && not (arg1 == 2)) _ _ (λ h. stay)
          (λ h. written-Confined k arg3 _ (resolve_user_buffer-Resolved arg2 arg3 k is fits)))
      (λ h.
        branch P (num == 2) _ _
          (λ h.
            branch P (not (arg1 == 0)) _ _ (λ h. stay)
              (λ h. read_in-Confined k arg3 _ (resolve_user_buffer-Resolved arg2 arg3 k is fits)))
          (λ h.
            branch P (num == 3) _ _ (λ h. stay)
              (λ h.
                branch P (num == 4) _ _
                  (λ h.
                    sent-Confined k arg1 arg3 _ (resolve_user_buffer-Resolved arg2 arg3 k is fits))
                  (λ h.
                    branch P (num == 5) _ _
                      (λ h.
                        recv_in-Confined k arg2 _
                          (resolve_user_buffer-Resolved arg1 arg2 k is fits))
                      (λ h. stay)))))
  where
    P : ℕ × Kernel → Type 0
    P r = Confined k r.1

    stay : Confined k k
    stay x = inr refl
