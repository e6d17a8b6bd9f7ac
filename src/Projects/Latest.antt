-- ===== src/Projects/Latest.antt =====
-- What a file shows after an update, a revert or a deletion: updateProjectFile, revertProjectFile and
-- getProjectFile (src/intelligence/intelligence.service.ts).
use mathlib.Core.List.Memᴰ
use mathlib.Core.Path.{subst}
use auth_backend.Base.{
  ℕ, ◌+◌, ◌≡◌, refl, ap, sym, ◌∙◌, true, false, String, Option, some, List, [], ◌∷◌, ◌++◌, Memᴰ,
  any, take, inl, inr, Bool-cases, ==_iff, ==_refl, arith, if◌then◌else◌, any-mem, any-eq-false,
  and-true, ◌⊎◌, mem-append_one, text_or, ◌==◌,
}
use auth_backend.Base.Text.{concat, decimal}
use auth_backend.Model.{World}
use auth_backend.Model.Ai.{Project, ProjectFile, FileVersion}
use auth_backend.Action.{Action, ok, succeeds, continue}
use auth_backend.Services.{Services}
use auth_backend.Store.{replace}
use auth_backend.Store.Rows.{find_first-eq-some, mem-replace, replace-mem}
use auth_backend.Projects.Store.{file_is, is_editable, is_visible, same_version, committed}
use auth_backend.Projects.Files.{
  Commit, in_project, of_file, is_version, next_version, add_version, update_project_file,
  revert_project_file,
}
use auth_backend.Projects.Files.History.{count, next_version-latest}
use auth_backend.Projects.Files.Keeps.{IsConsistentIn}
use auth_backend.Projects.Reading.{get_project_file, current_version}

module _ (sv : Services) (now user_id : ℕ) (f : ProjectFile) (commit : Commit) (w : World)
    (h : IsConsistentIn w) (known : Memᴰ f w.ai.project_files) where
  abbrev row : ℕ → FileVersion
  row n = record {
    id = w.next_id;
    file_id = f.id;
    version = n;
    content = commit.content;
    commit_msg = some commit.commit_msg;
    author_id = some user_id;
    created_at = now;
    is_deleted = commit.is_deleted;
  }

  abbrev change : ProjectFile → ProjectFile
  change g = record g {
    current_version_id = some w.next_id;
    updated_at = now;
    is_deleted = if commit.is_deleted then true else g.is_deleted;
  }

  -- The world with one more version of the file.
  abbrev extended : ℕ → World
  extended n =
      let t = w.ai in
      record w {
        next_id = w.next_id + 1;
        ai = record t {
          project_files = replace (file_is f.id) change w.ai.project_files;
          file_versions = w.ai.file_versions ++ row n ∷ [];
        };
      }

  no_clash :
      (n : ℕ)
      → n ≡ count f.id w.ai.file_versions + 1
      → any (same_version (row n)) w.ai.file_versions ≡ false
  no_clash n numbered = any-eq-false (same_version (row n)) w.ai.file_versions (λ v m.
      elim (Bool-cases (v.file_id == f.id)) [
        | inl mine ↦
            let (low, high) = (h.history f.id).bounded v m ((==_iff v.file_id f.id).0 mine) in
            ground (arith, high, numbered)
        | inr other ↦ ground (arith, other)
      ])

  pub add_version_extends :
      (n : ℕ)
      → n ≡ count f.id w.ai.file_versions + 1
      → add_version now user_id f n commit w ≡ (ok (change f, row n), extended n)
  add_version_extends n numbered =
      rw
        (
          no_clash n numbered,
          if◌then◌else◌,
          any-mem (file_is f.id) f w.ai.project_files known (==_refl f.id),
          if◌then◌else◌,
        )
        refl

  shown_file :
      (project_id n : ℕ)
      → f.project_id ≡ project_id
      → (g : ProjectFile) × (sv.find_first
            (in_project project_id f.id)
            (extended n).ai.project_files
          ≡ some g)
        × (g.current_version_id ≡ some w.next_id)
  shown_file project_id n inside =
      let (g, e) =
        find_first-eq-some sv (in_project project_id f.id) (extended n).ai.project_files (change f)
          (subst (λ x. Memᴰ x (replace (file_is f.id) change w.ai.project_files))
            (rw (==_refl f.id, if◌then◌else◌) refl)
            (mem-replace {R = ProjectFile} (file_is f.id) change w.ai.project_files f known))
          (ground (arith, inside)) in
      let (m, t) =
        sv.find_first_some (in_project project_id f.id) (extended n).ai.project_files e in
      let (k, l, same) = replace-mem (file_is f.id) change w.ai.project_files g m in
      (
        g,
        e,
        points g k (and-true (g.id == f.id) (g.project_id == project_id) t).0 same
            (Bool-cases (file_is f.id k)),
      )
    where
      points :
          (g k : ProjectFile)
          → (g.id == f.id) ≡ true
          → g ≡ (if file_is f.id k then change k else k)
          → (file_is f.id k ≡ true) ⊎ (file_is f.id k ≡ false)
          → g.current_version_id ≡ some w.next_id
      points g k here same (inl mine) =
          let changed : g ≡ change k = same ∙ rw (mine, if◌then◌else◌) refl in
          ap (λ (x : ProjectFile). x.current_version_id) changed
      points g k here same (inr other) =
          let is_k : g ≡ k = same ∙ rw (other, if◌then◌else◌) refl in
          absurd (ground (arith, here, other, ap (λ (x : ProjectFile). x.id) is_k))

  shown_version :
      (n : ℕ)
      → sv.find_first (λ (v : FileVersion). v.id == w.next_id) (extended n).ai.file_versions
        ≡ some (row n)
  shown_version n =
      let (u, e) =
        find_first-eq-some sv (λ (v : FileVersion). v.id == w.next_id) (extended n).ai.file_versions
          (row n) (Memᴰ.append_right w.ai.file_versions (Memᴰ.head refl)) (==_refl w.next_id) in
      let (m, t) =
        sv.find_first_some (λ (v : FileVersion). v.id == w.next_id) (extended n).ai.file_versions
          e in
      elim (mem-append_one w.ai.file_versions (row n) m) [
        | inl old ↦ absurd (ground (arith, (h.fresh_version u old).0, t))
        | inr new ↦ e ∙ ap some new
      ]

  -- The file shows the new version.
  pub get_project_file-extended :
      (project_id reader n : ℕ) (q : Project)
      → f.project_id ≡ project_id
      → sv.find_first (is_visible w project_id reader) w.ai.projects ≡ some q
      → (g : ProjectFile) × ((get_project_file sv project_id f.id reader (extended n)).0
          ≡ ok (g, some (row n)))
  unfolding get_project_file
  get_project_file-extended project_id reader n q inside sees =
      let (g, e, points) = shown_file project_id n inside in
      (g, rw (sees, e, current_version, points, shown_version n) refl)

module _ (sv : Services) (now project_id file_id user_id reader : ℕ) (w : World)
    (consistent : IsConsistentIn w) (p q : Project) (f : ProjectFile)
    (editable : sv.find_first (is_editable w project_id user_id) w.ai.projects ≡ some p)
    (visible : sv.find_first (is_visible w project_id reader) w.ai.projects ≡ some q)
    (found : sv.find_first (in_project project_id file_id) w.ai.project_files ≡ some f) where
  inside : Memᴰ f w.ai.project_files × (f.id ≡ file_id) × (f.project_id ≡ project_id)
  inside =
      let (m, t) = sv.find_first_some (in_project project_id file_id) w.ai.project_files found in
      (m, ground (arith, t), ground (arith, t))

  -- The number that the next version of a file gets.
  number : ℕ → ℕ
  number i =
      next_version
        (take 1 (sv.find_ordered (of_file i) (λ (v : FileVersion). v.version) w.ai.file_versions))

  -- What the reader finds after a handler that adds one version.
  read_after :
      (n : ℕ) (commit : Commit)
      → n ≡ count f.id w.ai.file_versions + 1
      → (handler : Action (List (ProjectFile × FileVersion)))
      → handler w
        ≡ continue (λ g v. (ok (g ∷ []), v)) (committed w (add_version now user_id f n commit w))
      → (g : ProjectFile) × (v : FileVersion) × (succeeds (handler w).0 ≡ true)
        × ((handler w).1.ai.file_versions ≡ w.ai.file_versions ++ v ∷ [])
        × ((get_project_file sv project_id file_id reader (handler w).1).0 ≡ ok (g, some v))
        × (v.content ≡ commit.content)
        × (v.version ≡ count file_id w.ai.file_versions + 1)
  read_after n commit numbered handler e =
      let (m, is_file, is_inside) = inside in
      let ran : handler w ≡ (
        ok (
            (
              change sv now user_id f commit w consistent m f,
              row sv now user_id f commit w consistent m n,
            )
            ∷ []),
        extended sv now user_id f commit w consistent m n,
      ) =
        e
        ∙ ap (λ o. continue (λ g v. (ok (g ∷ []), v)) (committed w o))
            (add_version_extends sv now user_id f commit w consistent m n numbered) in
      let (g, shown) =
        get_project_file-extended sv now user_id f commit w consistent m project_id reader n q
          is_inside visible in
      (
        g,
        row sv now user_id f commit w consistent m n,
        ap (λ o. succeeds o.0) ran,
        ap (λ o. o.1.ai.file_versions) ran,
        ap (λ o. (get_project_file sv project_id file_id reader o.1).0) ran
            ∙ subst
                (λ i.
                  (get_project_file sv project_id i reader
                    (extended sv now user_id f commit w consistent m n)).0
                  ≡ ok (g, some (row sv now user_id f commit w consistent m n)))
                is_file shown,
        refl,
        numbered ∙ ap (λ i. count i w.ai.file_versions + 1) is_file,
      )

  -- When an editor of a project updates a file, the update succeeds, the history of the file gets
  -- one version more and loses none, and whoever sees the project then reads the new content, with
  -- the number after the last one.
  pub get_project_file-update_project_file :
      (content : String) (commit_msg : Option String)
      → let out = update_project_file sv now project_id file_id content commit_msg user_id w in
        (g : ProjectFile) × (v : FileVersion) × (succeeds out.0 ≡ true)
        × (out.1.ai.file_versions ≡ w.ai.file_versions ++ v ∷ [])
        × ((get_project_file sv project_id file_id reader out.1).0 ≡ ok (g, some v))
        × (v.content ≡ content)
        × (v.version ≡ count file_id w.ai.file_versions + 1)
  unfolding update_project_file number
  get_project_file-update_project_file content commit_msg =
      read_after (number f.id)
        (record {
          content = content;
          commit_msg = text_or commit_msg (concat ("Updated file " ∷ f.name ∷ []));
          is_deleted = false;
        })
        (next_version-latest sv f.id w.ai.file_versions (consistent.history f.id))
        (update_project_file sv now project_id file_id content commit_msg user_id)
        (rw (editable, found) refl)

  -- When an editor of a project reverts a file to a version that it has, the revert succeeds, the
  -- history of the file gets one version more and loses none, and whoever sees the project then
  -- reads the content of that version, with the number after the last one.
  pub get_project_file-revert_project_file :
      (n : ℕ) (commit_msg : Option String) (old : FileVersion)
      (known : sv.find_first (is_version file_id n) w.ai.file_versions ≡ some old)
      → let out = revert_project_file sv now project_id file_id n commit_msg user_id w in
        (g : ProjectFile) × (v : FileVersion) × (succeeds out.0 ≡ true)
        × (out.1.ai.file_versions ≡ w.ai.file_versions ++ v ∷ [])
        × ((get_project_file sv project_id file_id reader out.1).0 ≡ ok (g, some v))
        × (v.content ≡ old.content)
        × (v.version ≡ count file_id w.ai.file_versions + 1)
  unfolding revert_project_file number
  get_project_file-revert_project_file n commit_msg old known =
      read_after (number file_id)
        (record {
          content = old.content;
          commit_msg = text_or commit_msg (concat ("Reverted to version " ∷ decimal n ∷ []));
          is_deleted = false;
        })
        (next_version-latest sv file_id w.ai.file_versions (consistent.history file_id)
          ∙ ap (λ i. count i w.ai.file_versions + 1) (sym inside.1))
        (revert_project_file sv now project_id file_id n commit_msg user_id)
        (rw (editable, found, known) refl)
