-- ===== src/Projects/Files/History.antt =====
-- The history of a file: the numbers of its versions, as `version` counts them
-- (src/intelligence/intelligence.service.ts).
use mathlib.Core.List.Memᴰ
use auth_backend.Base.{
  mem-append_one, ap, ◌∙◌, ℕ, ◌+◌, ◌≤◌, ◌≡◌, refl, false, List, [], ◌∷◌, ◌++◌, Memᴰ, filter, length,
  take, IsDescending, Bool-cases, inl, inr, ==_iff, ◌==◌, arith, length-filter-append,
}
use auth_backend.Model.Ai.{FileVersion}
use auth_backend.Services.{Services}
use auth_backend.Projects.Files.{of_file, next_version}

abbrev pub count : ℕ → List FileVersion → ℕ
count i versions = length (filter (of_file i) versions)

-- The numbers of the versions of a file are those from 1 to the count of its versions.
pub record IsHistory (i : ℕ) (versions : List FileVersion) : Type 0 where
  pub bounded :
      (v : FileVersion)
      → Memᴰ v versions
      → v.file_id ≡ i
      → (1 ≤ v.version) × (v.version ≤ count i versions)
  pub complete :
      (n : ℕ)
      → 1 ≤ n
      → n ≤ count i versions
      → (v : FileVersion) × Memᴰ v versions × (v.file_id ≡ i) × (v.version ≡ n)

pub count-append_next :
    (i : ℕ) (versions : List FileVersion) (v : FileVersion)
    → v.file_id ≡ i
    → count i (versions ++ v ∷ []) ≡ count i versions + 1
count-append_next i versions v mine =
    ground (arith, length-filter-append (of_file i) versions v, mine)

-- The history after one more version with the next number.
pub IsHistory-append_next :
    (i : ℕ) (versions : List FileVersion) (v : FileVersion)
    → v.file_id ≡ i
    → v.version ≡ count i versions + 1
    → IsHistory i versions
    → IsHistory i (versions ++ v ∷ [])
IsHistory-append_next i versions v mine numbered h = record {
  bounded = λ u m e. elim (mem-append_one versions v m) [
    | inl k ↦ let (low, high) = h.bounded u k e in (low, rw longer (omega (arith, high)))
    | inr same ↦
        let number : u.version ≡ count i versions + 1 =
          ap (λ (x : FileVersion). x.version) same ∙ numbered in
        (omega (arith, number), rw longer (omega (arith, number)))
  ];
  complete = λ n low high. elim (Bool-cases (n == count i versions + 1)) [
    | inl top ↦
        (v, Memᴰ.append_right versions (Memᴰ.head refl), mine, ground (arith, top, numbered))
    | inr below ↦
        let (u, m, e, is_n) = h.complete n low (ground (arith, below, longer, high)) in
        (u, Memᴰ.append_left (v ∷ []) m, e, is_n)
  ];
}
  where
    longer : count i (versions ++ v ∷ []) ≡ count i versions + 1
    longer = count-append_next i versions v mine

-- A version of another file leaves the history as it is.
pub count-append_other :
    (i : ℕ) (versions : List FileVersion) (v : FileVersion)
    → of_file i v ≡ false
    → count i (versions ++ v ∷ []) ≡ count i versions
count-append_other i versions v other =
    ground (arith, length-filter-append (of_file i) versions v, other)

pub IsHistory-append_other :
    (i : ℕ) (versions : List FileVersion) (v : FileVersion)
    → of_file i v ≡ false
    → IsHistory i versions
    → IsHistory i (versions ++ v ∷ [])
IsHistory-append_other i versions v other h = record {
  bounded = λ u m e. elim (mem-append_one versions v m) [
    | inl k ↦ rw (count-append_other i versions v other) (h.bounded u k e)
    | inr same ↦ ground (arith, other, rw same at e)
  ];
  complete = λ n low high.
      let (u, m, e, is_n) = h.complete n low (rw (count-append_other i versions v other) at high) in
      (u, Memᴰ.append_left (v ∷ []) m, e, is_n);
}

-- The number after the latest version is one more than the count.
module _ (sv : Services) (i : ℕ) (versions : List FileVersion) (h : IsHistory i versions) where
  number_after :
      (rows : List FileVersion)
      → ((v : FileVersion) → Memᴰ v rows → Memᴰ v versions × (v.file_id ≡ i))
      → ((v : FileVersion) → Memᴰ v versions → v.file_id ≡ i → Memᴰ v rows)
      → IsDescending (λ (v : FileVersion). v.version) rows
      → next_version (take 1 rows) ≡ count i versions + 1
  number_after [] sound all_of d = elim (Bool-cases (count i versions == 0)) [
    | inl empty ↦ ground (arith, empty)
    | inr more ↦
        let (v, m, e, n) = h.complete (count i versions) (ground (arith, more)) (omega arith) in
        elim (all_of v m e) [ ]
  ]
  number_after (v ∷ rows) sound all_of (most, d) =
      let (m, e) = sound v (Memᴰ.head refl) in
      let (low, high) = h.bounded v m e in
      let (u, k, f, n) = h.complete (count i versions) (omega (arith, low, high)) (omega arith) in
      elim (Memᴰ.cases_cons (all_of u k f)) [
        | inl same ↦ ground (arith, n, rw same at n)
        | inr later ↦ omega (arith, most u later, n, high)
      ]

  pub next_version-latest :
      next_version (take 1 (sv.find_ordered (of_file i) (λ (v : FileVersion). v.version) versions))
      ≡ count i versions + 1
  next_version-latest =
      number_after (sv.find_ordered (of_file i) (λ v. v.version) versions)
        (λ v m.
          let (k, e) = sv.find_ordered_sound (of_file i) (λ v. v.version) versions v m in
          (k, (==_iff v.file_id i).0 e))
        (λ v m e.
          sv.find_ordered_complete (of_file i) (λ v. v.version) versions v m
            ((==_iff v.file_id i).1 e))
        (sv.find_ordered-IsDescending (of_file i) (λ v. v.version) versions)
