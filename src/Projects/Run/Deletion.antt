-- ===== src/Projects/Run/Deletion.antt =====
-- The files and versions that the deletion of a project leaves (`deleteProject` of
-- src/intelligence/intelligence.service.ts).
use mathlib.Core.Path.{subst}
use auth_backend.Base.{
  ℕ, suc, ◌⊎◌, ◌≡◌, refl, ap, sym, ◌∙◌, Bool, true, false, not, none, some, List, [], ◌∷◌, Memᴰ,
  any, filter, inl, inr, Bool-cases, ==_iff, arith, if◌then◌else◌, any-mem, mem-any, mem-filter,
  filter-mem, ◌==◌, ◌&&◌, and-true,
}
use auth_backend.Model.{World}
use auth_backend.Model.Ai.{ProjectFile, FileVersion}
use auth_backend.Store.{replace}
use auth_backend.Store.Rows.{replace-mem}
use auth_backend.Projects.Manage.{file_of, version_in, points_to, same_id}
use auth_backend.Projects.Files.{of_file}
use auth_backend.Projects.Files.History.{count, IsHistory}
use auth_backend.Projects.Files.Consistent.{IsConsistent, none_exempt}
use auth_backend.Projects.Files.Keeps.{IsConsistentIn}

-- A filter that keeps or drops all the versions of a file.
module _ (keep : FileVersion → Bool) (i : ℕ) where
  count-filter_kept :
      (versions : List FileVersion)
      → ((v : FileVersion) → Memᴰ v versions → v.file_id ≡ i → keep v ≡ true)
      → count i (filter keep versions) ≡ count i versions
  count-filter_kept [] all_kept = refl
  count-filter_kept (v ∷ vs) all_kept =
      let rest = count-filter_kept vs (λ u m e. all_kept u (Memᴰ.tail m) e) in
      elim (Bool-cases (of_file i v)) [
        | inl mine ↦
            rw (all_kept v (Memᴰ.head refl) ((==_iff v.file_id i).0 mine), filter, mine, filter)
              (ap suc rest)
        | inr other ↦ elim (Bool-cases (keep v)) [
          | inl kept ↦ rw (kept, filter, other, filter) rest
          | inr dropped ↦ rw (dropped, filter, other, filter) rest
        ]
      ]

  IsHistory-filter_kept :
      (versions : List FileVersion)
      → ((v : FileVersion) → Memᴰ v versions → v.file_id ≡ i → keep v ≡ true)
      → IsHistory i versions
      → IsHistory i (filter keep versions)
  IsHistory-filter_kept versions all_kept h = record {
    bounded = λ v m e.
        rw (count-filter_kept versions all_kept) (h.bounded v (mem-filter keep versions v m).0 e);
    complete = λ n low high.
        let (v, m, e, k) = h.complete n low (rw (count-filter_kept versions all_kept) at high) in
        (v, filter-mem keep versions v m (all_kept v m e), e, k);
  }

  count-filter_dropped :
      (versions : List FileVersion)
      → ((v : FileVersion) → Memᴰ v versions → v.file_id ≡ i → keep v ≡ false)
      → count i (filter keep versions) ≡ 0
  count-filter_dropped [] all_dropped = refl
  count-filter_dropped (v ∷ vs) all_dropped =
      let rest = count-filter_dropped vs (λ u m e. all_dropped u (Memᴰ.tail m) e) in
      elim (Bool-cases (keep v)) [
        | inl kept ↦ elim (Bool-cases (of_file i v)) [
          | inl mine ↦ cc (all_dropped v (Memᴰ.head refl) ((==_iff v.file_id i).0 mine))
          | inr other ↦ rw (kept, filter, other, filter) rest
        ]
        | inr dropped ↦ rw (dropped, filter) rest
      ]

  IsHistory-filter_dropped :
      (versions : List FileVersion)
      → ((v : FileVersion) → Memᴰ v versions → v.file_id ≡ i → keep v ≡ false)
      → IsHistory i (filter keep versions)
  IsHistory-filter_dropped versions all_dropped = record {
    bounded = λ v m e. let (k, kept) = mem-filter keep versions v m in cc (all_dropped v k e);
    complete =
        λ n low high. absurd (omega (arith, low, high, count-filter_dropped versions all_dropped));
  }

module _ (w : World) (project_id : ℕ) (h : IsConsistentIn w) where
  -- A version goes exactly if its file is one of the project.
  gone-file :
      (f : ProjectFile) (v : FileVersion)
      → Memᴰ f w.ai.project_files
      → v.file_id ≡ f.id
      → version_in w project_id v ≡ file_of project_id f
  gone-file f v m e = elim (Bool-cases (version_in w project_id v)) [
    | inl goes ↦
        let (g, k, t) =
          mem-any (λ (g : ProjectFile). g.id == v.file_id && file_of project_id g)
            w.ai.project_files goes in
        let (same, inside) = and-true (g.id == v.file_id) (file_of project_id g) t in
        goes
        ∙ sym (
            ap (λ i. i == project_id)
              (h.one_project f g m k (sym ((==_iff g.id v.file_id).0 same ∙ e)))
            ∙ inside)
    | inr stays ↦ elim (Bool-cases (file_of project_id f)) [
      | inl inside ↦ cc (
          any-mem (λ (g : ProjectFile). g.id == v.file_id && file_of project_id g) f
            w.ai.project_files m (ground (arith, e, inside)))
      | inr outside ↦ stays ∙ sym outside
    ]
  ]

  current-gone :
      (f : ProjectFile) (v : FileVersion)
      → Memᴰ f w.ai.project_files
      → Memᴰ v w.ai.file_versions
      → same_id f.current_version_id v.id ≡ true
      → version_in w project_id v ≡ file_of project_id f
  current-gone f v m n points =
      let (u, k, e, mine, _) = h.current f m refl in
      let points_u : same_id (some u.id) v.id ≡ true = rw e at points in
      gone-file f v m (h.one_file v u n k (sym ((==_iff u.id v.id).0 points_u)) ∙ mine)

  -- A file that is left was there before, as it is, and is not of the project.
  left :
      (g : ProjectFile)
      → Memᴰ g (
          filter
            (λ f. not (file_of project_id f))
            (replace
              (points_to (version_in w project_id) w.ai.file_versions)
              (λ f. record f { current_version_id = none })
              w.ai.project_files))
      → Memᴰ g w.ai.project_files × (file_of project_id g ≡ false)
  left g m =
      let (n, outside) = mem-filter (λ f. not (file_of project_id f)) _ g m in
      let (f, k, e) =
        replace-mem (points_to (version_in w project_id) w.ai.file_versions)
          (λ f. record f { current_version_id = none }) w.ai.project_files g n in
      same f k e (ground (arith, outside))
        (Bool-cases (points_to (version_in w project_id) w.ai.file_versions f))
    where
      same :
          (f : ProjectFile)
          → Memᴰ f w.ai.project_files
          → g ≡ (
              if points_to (version_in w project_id) w.ai.file_versions f
              then record f { current_version_id = none }
              else f)
          → file_of project_id g ≡ false
          → (points_to (version_in w project_id) w.ai.file_versions f ≡ true)
            ⊎ (points_to (version_in w project_id) w.ai.file_versions f ≡ false)
          → Memᴰ g w.ai.project_files × (file_of project_id g ≡ false)
      same f k e outside (inr kept) = (
        subst (λ x. Memᴰ x w.ai.project_files) (sym (e ∙ rw (kept, if◌then◌else◌) refl)) k,
        outside,
      )
      same f k e outside (inl cleared) =
          let (v, n, t) =
            mem-any (λ v. version_in w project_id v && same_id f.current_version_id v.id)
              w.ai.file_versions cleared in
          let (inside, points) =
            and-true (version_in w project_id v) (same_id f.current_version_id v.id) t in
          let is_cleared : g ≡ record f { current_version_id = none } =
            e ∙ rw (cleared, if◌then◌else◌) refl in
          let as_f : file_of project_id g ≡ file_of project_id f =
            ap (λ (x : ProjectFile). file_of project_id x) is_cleared in
          cc (current-gone f v k n points)

  -- The files and versions outside the project are consistent without those in it.
  pub IsConsistent-delete :
      IsConsistent none_exempt w.next_id
        (filter
          (λ f. not (file_of project_id f))
          (replace
            (points_to (version_in w project_id) w.ai.file_versions)
            (λ f. record f { current_version_id = none })
            w.ai.project_files))
        (filter (λ v. not (version_in w project_id v)) w.ai.file_versions)
  IsConsistent-delete = record {
    history = λ i.
        elim (Bool-cases
          (any (λ (g : ProjectFile). g.id == i && file_of project_id g) w.ai.project_files)) [
            | inl inside ↦
                IsHistory-filter_dropped keep i w.ai.file_versions (λ v m e. drops v i e inside)
            | inr outside ↦
                IsHistory-filter_kept keep i w.ai.file_versions (λ v m e. keeps v i e outside)
                  (h.history i)
          ];
    current = λ g m _.
        let (k, outside) = left g m in
        let (u, n, e, mine, top) = h.current g k refl in
        (
          u,
          filter-mem keep w.ai.file_versions u n (stays g u k mine outside),
          e,
          mine,
          top
              ∙ sym
                  (count-filter_kept keep g.id w.ai.file_versions (λ v l e. stays g v k e outside)),
        );
    fresh_file = λ g m. h.fresh_file g (left g m).0;
    fresh_version = λ v m. h.fresh_version v (mem-filter keep w.ai.file_versions v m).0;
    one_file = λ v u m n.
        h.one_file v u (mem-filter keep w.ai.file_versions v m).0
          (mem-filter keep w.ai.file_versions u n).0;
    one_project = λ f g m n. h.one_project f g (left f m).0 (left g n).0;
    one_path = λ f g m n. h.one_path f g (left f m).0 (left g n).0;
  }
    where
      keep : FileVersion → Bool
      keep v = not (version_in w project_id v)

      drops :
          (v : FileVersion) (i : ℕ)
          → v.file_id ≡ i
          → any (λ (g : ProjectFile). g.id == i && file_of project_id g) w.ai.project_files ≡ true
          → keep v ≡ false
      drops v i e inside = rw (e, inside) refl

      keeps :
          (v : FileVersion) (i : ℕ)
          → v.file_id ≡ i
          → any (λ (g : ProjectFile). g.id == i && file_of project_id g) w.ai.project_files ≡ false
          → keep v ≡ true
      keeps v i e outside = rw (e, outside) refl

      stays :
          (g : ProjectFile) (v : FileVersion)
          → Memᴰ g w.ai.project_files
          → v.file_id ≡ g.id
          → file_of project_id g ≡ false
          → keep v ≡ true
      stays g v k e outside = rw (gone-file g v k e, outside) refl
