-- ===== src/Process/Unmap.antt =====
-- src/process.rs: which mappings `munmap` takes back.
use macha_os.Prelude.{
  ℕ, max, ◌≡◌, refl, sym, ap, ◌∙◌, List, [], ◌∷◌, inl, inr, add64, if◌then◌else◌, Bool-cases, pick,
  pass,
}
use macha_os.Process.{Mapping, Process, align_up, align_down}
use macha_os.Process.Heap.{contained, unmap_mappings, munmap}

-- The mappings that are not wholly inside, in their order.
abbrev pub outside : ℕ → ℕ → List Mapping → List Mapping
outside start end [] = []
outside start end (m ∷ ms) =
    let rest = outside start end ms in if contained start end m then rest else m ∷ rest

unmap_mappings-outside :
    (pml4 start end : ℕ) (ms : List Mapping) (p : Process)
    → (unmap_mappings pml4 start end ms p).0 ≡ outside start end ms
unfolding unmap_mappings
unmap_mappings-outside pml4 start end [] p = refl
unmap_mappings-outside pml4 start end (m ∷ ms) p = elim (Bool-cases (contained start end m)) [
  | inl inside ↦
      ap (λ (r : List Mapping × Process). r.0) (pick _ _ _ inside)
      ∙ unmap_mappings-outside pml4 start end ms _
      ∙ sym (pick _ _ _ inside)
  | inr apart ↦
      ap (λ (r : List Mapping × Process). r.0) (pass _ _ _ apart)
      ∙ ap (λ l. m ∷ l) (unmap_mappings-outside pml4 start end ms _)
      ∙ sym (pass _ _ _ apart)
]

-- `munmap` keeps the mappings that are not wholly inside the range.
pub munmap-outside :
    (pml4 addr len : ℕ) (p : Process)
    → (munmap pml4 addr len p).1.mappings
      ≡ outside (align_down addr) (add64 (align_down addr) (align_up (max len 1))) p.mappings
unfolding munmap
munmap-outside pml4 addr len p = unmap_mappings-outside pml4 _ _ p.mappings p
