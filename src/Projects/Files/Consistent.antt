-- ===== src/Projects/Files/Consistent.antt =====
-- When files and versions fit together, and the two writes that every change of a file of
-- src/intelligence/intelligence.service.ts is made of.
use mathlib.Core.List.Memᴰ
use auth_backend.Base.{
  ℕ, ◌⊎◌, ◌+◌, ◌<◌, ◌≤◌, ◌≡◌, refl, ap, sym, ◌∙◌, Bool, true, false, some, List, [], ◌∷◌, ◌++◌,
  Memᴰ, inl, inr, Bool-cases, ◌==◌, ==_iff, arith, if◌then◌else◌, mem-append_one, eq_iff,
}
use auth_backend.Model.Ai.{ProjectFile, FileVersion}
use auth_backend.Store.{replace}
use auth_backend.Store.Rows.{replace-mem}
use auth_backend.Projects.Store.{file_is}
use auth_backend.Projects.Files.{of_file, at_path}
use auth_backend.Projects.Files.History.{
  count, IsHistory, IsHistory-append_next, IsHistory-append_other, count-append_other,
  count-append_next,
}

-- The current version of a file is one of its versions, and the one with the greatest number.
abbrev pub HasCurrent : ProjectFile → List FileVersion → Type 0
HasCurrent f versions =
    (v : FileVersion) × Memᴰ v versions
    × (f.current_version_id ≡ some v.id)
    × (v.file_id ≡ f.id)
    × (v.version ≡ count f.id versions)

-- Files and versions that fit together, where the next id is `next` and the files whose id is
-- exempt may have no current version.
pub record IsConsistent (exempt : ℕ → Bool) (next : ℕ) (files : List ProjectFile)
    (versions : List FileVersion) : Type 0 where
  pub history : (i : ℕ) → IsHistory i versions
  pub current : (f : ProjectFile) → Memᴰ f files → exempt f.id ≡ false → HasCurrent f versions
  pub fresh_file : (f : ProjectFile) → Memᴰ f files → f.id < next
  pub fresh_version : (v : FileVersion) → Memᴰ v versions → (v.id < next) × (v.file_id < next)
  pub one_file :
      (v u : FileVersion) → Memᴰ v versions → Memᴰ u versions → v.id ≡ u.id → v.file_id ≡ u.file_id
  pub one_project :
      (f g : ProjectFile) → Memᴰ f files → Memᴰ g files → f.id ≡ g.id → f.project_id ≡ g.project_id
  pub one_path :
      (f g : ProjectFile)
      → Memᴰ f files
      → Memᴰ g files
      → f.project_id ≡ g.project_id
      → f.path ≡ g.path
      → f.id ≡ g.id

abbrev pub none_exempt : ℕ → Bool
none_exempt i = false

module _ {exempt : ℕ → Bool} {next : ℕ} {files : List ProjectFile} {versions : List FileVersion}
    (h : IsConsistent exempt next files versions) where
  HasCurrent-append_other :
      (f : ProjectFile) (v : FileVersion)
      → of_file f.id v ≡ false
      → HasCurrent f versions
      → HasCurrent f (versions ++ v ∷ [])
  HasCurrent-append_other f v other (u, m, e, mine, top) = (
    u,
    Memᴰ.append_left (v ∷ []) m,
    e,
    mine,
    top ∙ sym (count-append_other f.id versions v other),
  )

  module _ (v : FileVersion) (new_id : v.id ≡ next) (known : v.file_id < next)
      (numbered : v.version ≡ count v.file_id versions + 1)
      (covers : (j : ℕ) → exempt j ≡ true → j ≡ v.file_id) (change : ProjectFile → ProjectFile)
      (same_id : (f : ProjectFile) → (change f).id ≡ f.id)
      (same_project : (f : ProjectFile) → (change f).project_id ≡ f.project_id)
      (same_path : (f : ProjectFile) → (change f).path ≡ f.path)
      (points : (f : ProjectFile) → (change f).current_version_id ≡ some v.id) where
    -- The row that a row of the changed files comes from.
    origin :
        (g : ProjectFile)
        → Memᴰ g (replace (file_is v.file_id) change files)
        → (f : ProjectFile) × Memᴰ f files
          × (g.id ≡ f.id)
          × (g.project_id ≡ f.project_id)
          × (g.path ≡ f.path)
          × ((f.id ≡ v.file_id) × (g.current_version_id ≡ some v.id)
              ⊎ (file_is v.file_id f ≡ false) × (g ≡ f))
    origin g m =
        let (f, k, e) = replace-mem (file_is v.file_id) change files g m in
        elim (Bool-cases (file_is v.file_id f)) [
          | inl here ↦
              let changed : g ≡ change f = e ∙ rw (here, if◌then◌else◌) refl in
              (
                f,
                k,
                ap (λ (x : ProjectFile). x.id) changed ∙ same_id f,
                ap (λ (x : ProjectFile). x.project_id) changed ∙ same_project f,
                ap (λ (x : ProjectFile). x.path) changed ∙ same_path f,
                inl (
                  (==_iff f.id v.file_id).0 here,
                  ap (λ (x : ProjectFile). x.current_version_id) changed ∙ points f,
                ),
              )
          | inr away ↦
              let kept : g ≡ f = e ∙ rw (away, if◌then◌else◌) refl in
              (
                f,
                k,
                ap (λ (x : ProjectFile). x.id) kept,
                ap (λ (x : ProjectFile). x.project_id) kept,
                ap (λ (x : ProjectFile). x.path) kept,
                inr (away, kept),
              )
        ]

    current_after :
        (g : ProjectFile)
        → Memᴰ g (replace (file_is v.file_id) change files)
        → HasCurrent g (versions ++ v ∷ [])
    current_after g m =
        let (f, k, same, _, _, cases) = origin g m in
        elim cases [
          | inl (mine, e) ↦ (
            v,
            Memᴰ.append_right versions (Memᴰ.head refl),
            e,
            sym (same ∙ mine),
            numbered
                ∙ sym (count-append_next v.file_id versions v refl)
                ∙ ap (λ i. count i (versions ++ v ∷ [])) (sym (same ∙ mine)),
          )
          | inr (away, kept) ↦ rw kept (
              HasCurrent-append_other f v (ground (arith, away))
                (h.current f k (not_exempt f away (Bool-cases (exempt f.id)))))
        ]
      where
        not_exempt :
            (f : ProjectFile)
            → file_is v.file_id f ≡ false
            → (exempt f.id ≡ true) ⊎ (exempt f.id ≡ false)
            → exempt f.id ≡ false
        not_exempt f away (inl e) = absurd (ground (arith, away, covers f.id e))
        not_exempt f away (inr e) = e

    -- A version with the next number, which becomes the current version of its file.
    pub IsConsistent-add_version :
        IsConsistent none_exempt
          (next + 1)
          (replace (file_is v.file_id) change files)
          (versions ++ v ∷ [])
    IsConsistent-add_version = record {
      history = λ i. elim (Bool-cases (of_file i v)) [
        | inl mine ↦
            let is_i = (==_iff v.file_id i).0 mine in
            IsHistory-append_next i versions v is_i (numbered ∙ ap (λ j. count j versions + 1) is_i)
              (h.history i)
        | inr other ↦ IsHistory-append_other i versions v other (h.history i)
      ];
      current = λ g m _. current_after g m;
      fresh_file =
          λ g m. let (f, k, same, _, _, _) = origin g m in omega (arith, h.fresh_file f k, same);
      fresh_version = λ u m. elim (mem-append_one versions v m) [
        | inl k ↦ let (a, b) = h.fresh_version u k in (omega (arith, a), omega (arith, b))
        | inr e ↦ (
          omega (arith, ap (λ (x : FileVersion). x.id) e, new_id),
          omega (arith, ap (λ (x : FileVersion). x.file_id) e, known),
        )
      ];
      one_file = λ u t m n e. elim (mem-append_one versions v m) [
        | inl k ↦ elim (mem-append_one versions v n) [
          | inl l ↦ h.one_file u t k l e
          | inr is_v ↦ absurd (older u k (e ∙ ap (λ (x : FileVersion). x.id) is_v))
        ]
        | inr is_v ↦ elim (mem-append_one versions v n) [
          | inl l ↦ absurd (older t l (sym e ∙ ap (λ (x : FileVersion). x.id) is_v))
          | inr is_v_too ↦ ap (λ (x : FileVersion). x.file_id) (is_v ∙ sym is_v_too)
        ]
      ];
      one_project = λ f g m n e.
          let (f', k, fi, fp, _, _) = origin f m in
          let (g', l, gi, gp, _, _) = origin g n in
          fp ∙ h.one_project f' g' k l (sym fi ∙ e ∙ gi) ∙ sym gp;
      one_path = λ f g m n e d.
          let (f', k, fi, fp, fd, _) = origin f m in
          let (g', l, gi, gp, gd, _) = origin g n in
          fi ∙ h.one_path f' g' k l (sym fp ∙ e ∙ gp) (sym fd ∙ d ∙ gd) ∙ sym gi;
    }
      where
        older : (u : FileVersion) → Memᴰ u versions → u.id ≡ v.id → ⊥
        older u k e = ground (arith, (h.fresh_version u k).0, e, new_id)

module _ {next : ℕ} {files : List ProjectFile} {versions : List FileVersion}
    (h : IsConsistent none_exempt next files versions) where
  -- More ids are drawn elsewhere, and some files may be exempt.
  pub IsConsistent-weaken :
      (exempt : ℕ → Bool) (later : ℕ) → next ≤ later → IsConsistent exempt later files versions
  IsConsistent-weaken exempt later le = record {
    history = h.history;
    current = λ f m _. h.current f m refl;
    fresh_file = λ f m. omega (arith, h.fresh_file f m, le);
    fresh_version =
        λ v m. let (a, b) = h.fresh_version v m in (omega (arith, a, le), omega (arith, b, le));
    one_file = h.one_file;
    one_project = h.one_project;
    one_path = h.one_path;
  }

  -- The next id has no versions.
  pub count-next : count next versions ≡ 0
  count-next = elim (Bool-cases (count next versions == 0)) [
    | inl empty ↦ (==_iff (count next versions) 0).0 empty
    | inr more ↦
        let (v, m, e, n) =
          (h.history next).complete (count next versions) (ground (arith, more)) (omega arith) in
        absurd (omega (arith, (h.fresh_version v m).1, e))
  ]

  module _ (f : ProjectFile) (new_id : f.id ≡ next)
      (free : (g : ProjectFile) → Memᴰ g files → at_path f.project_id f.path g ≡ false) where
    -- A new file at a free path, which has no version yet.
    pub IsConsistent-add_file : IsConsistent (λ j. j == next) (next + 1) (files ++ f ∷ []) versions
    IsConsistent-add_file = record {
      history = h.history;
      current = λ g m e. elim (mem-append_one files f m) [
        | inl k ↦ h.current g k refl
        | inr is_f ↦ absurd (ground (arith, e, ap (λ (x : ProjectFile). x.id) is_f, new_id))
      ];
      fresh_file = λ g m. elim (mem-append_one files f m) [
        | inl k ↦ omega (arith, h.fresh_file g k)
        | inr is_f ↦ omega (arith, ap (λ (x : ProjectFile). x.id) is_f, new_id)
      ];
      fresh_version =
          λ v m. let (a, b) = h.fresh_version v m in (omega (arith, a), omega (arith, b));
      one_file = h.one_file;
      one_project = λ g k m n e. elim (mem-append_one files f m) [
        | inl a ↦ elim (mem-append_one files f n) [
          | inl b ↦ h.one_project g k a b e
          | inr is_f ↦ absurd (older g a (e ∙ ap (λ (x : ProjectFile). x.id) is_f))
        ]
        | inr is_f ↦ elim (mem-append_one files f n) [
          | inl b ↦ absurd (older k b (sym e ∙ ap (λ (x : ProjectFile). x.id) is_f))
          | inr too ↦ ap (λ (x : ProjectFile). x.project_id) (is_f ∙ sym too)
        ]
      ];
      one_path = λ g k m n e d. elim (mem-append_one files f m) [
        | inl a ↦ elim (mem-append_one files f n) [
          | inl b ↦ h.one_path g k a b e d
          | inr is_f ↦ absurd (
              taken g a (e ∙ ap (λ (x : ProjectFile). x.project_id) is_f)
                (d ∙ ap (λ (x : ProjectFile). x.path) is_f))
        ]
        | inr is_f ↦ elim (mem-append_one files f n) [
          | inl b ↦ absurd (
              taken k b (sym e ∙ ap (λ (x : ProjectFile). x.project_id) is_f)
                (sym d ∙ ap (λ (x : ProjectFile). x.path) is_f))
          | inr too ↦ ap (λ (x : ProjectFile). x.id) (is_f ∙ sym too)
        ]
      ];
    }
      where
        older : (g : ProjectFile) → Memᴰ g files → g.id ≡ f.id → ⊥
        older g k e = ground (arith, h.fresh_file g k, e, new_id)

        taken : (g : ProjectFile) → Memᴰ g files → g.project_id ≡ f.project_id → g.path ≡ f.path → ⊥
        taken g k e d =
            ground
              (arith, free g k, (==_iff g.project_id f.project_id).1 e, (eq_iff g.path f.path).1 d)
