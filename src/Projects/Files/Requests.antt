-- ===== src/Projects/Files/Requests.antt =====
-- Every change of the files of a project keeps the files and their versions consistent:
-- createProjectFile, initializeProjectFiles, updateProjectFile, revertProjectFile and
-- deleteProjectFile (src/intelligence/intelligence.service.ts).
use auth_backend.Base.{
  ℕ, ◌≡◌, refl, ap, sym, ◌∙◌, Bool, true, false, String, Option, some, List, [], ◌∷◌, Memᴰ, any,
  take, inl, inr, Bool-cases, Option-cases, arith, if◌then◌else◌, any-mem, and-true, eq_iff,
  includes, str_eq, ◌&&◌, ◌==◌,
}
use auth_backend.Model.{World}
use auth_backend.Model.Ai.{ProjectFile, FileVersion}
use auth_backend.Action.{Action, pure, ◌>>=◌, ◌>>◌}
use auth_backend.Services.{Services}
use auth_backend.Projects.Store.{is_editable, transaction}
use auth_backend.Projects.Files.{
  NewFile, Commit, FileRequest, creates, initializes, updates, reverts, deletes, at_path,
  in_project, of_file, is_version, has_duplicates, paths_of, next_version, add_version, store_file,
  store_files, create_project_file, initialize_project_files, update_project_file,
  revert_project_file, delete_project_file, change_files, require_editable, require_file,
}
use auth_backend.Projects.Files.History.{next_version-latest}
use auth_backend.Projects.Files.Consistent.{none_exempt}
use auth_backend.Projects.Files.Keeps.{
  IsConsistentIn, LandsAs, IsFree, transaction_keeps, committed_keeps, Lands-map, add_version-Lands,
  store_file-Lands, store_files-Lands,
}

module _ (sv : Services) (now project_id user_id : ℕ) (w : World) (h : IsConsistentIn w) where
  -- The file that was found is one of the project.
  found_file :
      (file_id : ℕ) (f : ProjectFile)
      → sv.find_first (in_project project_id file_id) w.ai.project_files ≡ some f
      → Memᴰ f w.ai.project_files × (f.id ≡ file_id)
  found_file file_id f e =
      let (m, t) = sv.find_first_some (in_project project_id file_id) w.ai.project_files e in
      (m, ground (arith, t))

  -- The rest of a handler that asks for an editable project, and for a file of it.
  editable_keeps :
      {B : Type 0} (rest : Action B)
      → IsConsistentIn (rest w).1
      → IsConsistentIn ((require_editable sv project_id user_id >> rest) w).1
  editable_keeps rest next =
      elim (Option-cases (sv.find_first (is_editable w project_id user_id) w.ai.projects)) [
        | inl missing ↦ rw missing h
        | inr (p, e) ↦ rw e next
      ]

  file_keeps :
      {B : Type 0} (file_id : ℕ) (rest : ProjectFile → Action B)
      → ((f : ProjectFile)
          → sv.find_first (in_project project_id file_id) w.ai.project_files ≡ some f
          → IsConsistentIn (rest f w).1)
      → IsConsistentIn
          ((require_editable sv project_id user_id >> (require_file sv project_id file_id >>= rest))
            w).1
  file_keeps file_id rest next =
      editable_keeps (require_file sv project_id file_id >>= rest)
        (elim (Option-cases (sv.find_first (in_project project_id file_id) w.ai.project_files)) [
          | inl missing ↦ rw missing h
          | inr (f, e) ↦ rw e (next f e)
        ])

  -- One more version of a file that was found.
  version_keeps :
      (file_id n : ℕ) (f : ProjectFile) (commit : Commit)
      → sv.find_first (in_project project_id file_id) w.ai.project_files ≡ some f
      → n
        ≡ next_version (take 1 (sv.find_ordered (of_file f.id) (λ v. v.version) w.ai.file_versions))
      → IsConsistentIn
          ((transaction (add_version now user_id f n commit) >>= λ g. pure (g ∷ [])) w).1
  version_keeps file_id n f commit e numbered =
      transaction_keeps IsConsistentIn (add_version now user_id f n commit) (λ g. g ∷ []) w h
        (Lands-map (LandsAs w) IsConsistentIn (add_version now user_id f n commit w)
          (add_version-Lands now user_id f n commit w none_exempt h
            (h.fresh_file f (found_file file_id f e).0)
            (numbered ∙ next_version-latest sv f.id w.ai.file_versions (h.history f.id))
            (λ j e. cc))
          (λ v (k, kept). k))

  update_keeps :
      (file_id : ℕ) (content : String) (commit_msg : Option String)
      → IsConsistentIn
          (update_project_file sv now project_id file_id content commit_msg user_id w).1
  unfolding update_project_file
  update_keeps file_id content commit_msg =
      file_keeps file_id _ (λ f e. version_keeps file_id _ f _ e refl)

  delete_keeps :
      (file_id : ℕ) → IsConsistentIn (delete_project_file sv now project_id file_id user_id w).1
  unfolding delete_project_file
  delete_keeps file_id = file_keeps file_id _ (λ f e. version_keeps file_id _ f _ e refl)

  revert_keeps :
      (file_id n : ℕ) (commit_msg : Option String)
      → IsConsistentIn (revert_project_file sv now project_id file_id n commit_msg user_id w).1
  unfolding revert_project_file
  revert_keeps file_id n commit_msg = file_keeps file_id _ (λ f e.
      elim (Option-cases (sv.find_first (is_version file_id n) w.ai.file_versions)) [
        | inl missing ↦ rw missing h
        | inr (old, k) ↦
            rw k (version_keeps file_id _ f _ e (numbered f (found_file file_id f e).1))
      ])
    where
      numbered :
          (f : ProjectFile)
          → f.id ≡ file_id
          → next_version (
              take 1 (
                sv.find_ordered
                  (of_file file_id)
                  (λ (v : FileVersion). v.version)
                  w.ai.file_versions))
            ≡ next_version (
                take 1 (
                  sv.find_ordered
                    (of_file f.id)
                    (λ (v : FileVersion). v.version)
                    w.ai.file_versions))
      numbered f same =
          ap
            (λ i.
              next_version
                (take 1 (sv.find_ordered (of_file i) (λ v. v.version) w.ai.file_versions)))
            (sym same)

  create_keeps :
      (dto : NewFile) → IsConsistentIn (create_project_file sv now project_id dto user_id w).1
  unfolding create_project_file
  create_keeps dto =
      editable_keeps _
        (elim (Option-cases (sv.find_first (at_path project_id dto.path) w.ai.project_files)) [
          | inl free ↦
              rw (free, if◌then◌else◌)
                (transaction_keeps IsConsistentIn (store_file now project_id user_id dto)
                  (λ g. g ∷ []) w h
                  (Lands-map _ IsConsistentIn (store_file now project_id user_id dto w)
                    (store_file-Lands now project_id user_id dto w h (λ g m.
                      sv.find_first_none (at_path project_id dto.path) w.ai.project_files free g m))
                    (λ v (k, kept). k)))
          | inr (f, taken) ↦ rw (taken, if◌then◌else◌) h
        ])

  initialize_keeps :
      (files : List NewFile)
      → IsConsistentIn (initialize_project_files sv now project_id files user_id w).1
  unfolding initialize_project_files
  initialize_keeps files = editable_keeps _ (elim (Bool-cases (has_duplicates (paths_of files))) [
    | inl twice ↦ rw (twice, if◌then◌else◌) h
    | inr once ↦ elim (Bool-cases (any (λ f. true) (sv.find_many taken w.ai.project_files))) [
      | inl some_taken ↦ rw (once, if◌then◌else◌, some_taken, if◌then◌else◌) h
      | inr all_free ↦
          rw (once, if◌then◌else◌, all_free, if◌then◌else◌)
            (committed_keeps IsConsistentIn (store_files now project_id user_id files w) w h
              (store_files-Lands now project_id user_id files w h (free all_free) once))
    ]
  ])
    where
      taken : ProjectFile → Bool
      taken f = f.project_id == project_id && includes (paths_of files) f.path

      free :
          any (λ f. true) (sv.find_many taken w.ai.project_files) ≡ false
          → (path : String) → includes (paths_of files) path ≡ true
          → IsFree project_id path w
      free none_taken path m g k = elim (Bool-cases (at_path project_id path g)) [
        | inr other ↦ other
        | inl here ↦ cc (
            any-mem (λ f. true) g (sv.find_many taken w.ai.project_files)
              (sv.find_many_complete taken w.ai.project_files g k (hits g here)) refl)
      ]
        where
          hits : (g : ProjectFile) → at_path project_id path g ≡ true → taken g ≡ true
          hits g here =
              let (a, b) = and-true (g.project_id == project_id) (str_eq g.path path) here in
              rw (a, (eq_iff g.path path).0 b) m

  -- Whatever the request asks for.
  pub change_files_keeps :
      (request : FileRequest) → IsConsistentIn (change_files sv now project_id user_id request w).1
  change_files_keeps (creates dto) = create_keeps dto
  change_files_keeps (initializes files) = initialize_keeps files
  change_files_keeps (updates file_id content commit_msg) = update_keeps file_id content commit_msg
  change_files_keeps (reverts file_id n commit_msg) = revert_keeps file_id n commit_msg
  change_files_keeps (deletes file_id) = delete_keeps file_id
