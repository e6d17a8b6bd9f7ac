-- ===== src/Projects/Files/People.antt =====
-- No change of files, by anyone, touches the projects or their collaborators
-- (src/intelligence/intelligence.service.ts).
use auth_backend.Base.{
  ℕ, ◌≡◌, refl, ◌∙◌, Bool, true, false, text_or, not, Option, List, [], ◌∷◌, any, Bool-cases, inl,
  inr, is_none, includes, if◌then◌else◌, ◌&&◌, ◌==◌,
}
use auth_backend.Base.Text.{concat, decimal}
use auth_backend.Model.{World}
use auth_backend.Model.Ai.{ProjectFile, FileVersion}
use auth_backend.Action.{
  Exception, Result, ok, err, not_found, bad_request, Action, pure, gets, or_raise, raise_if, ◌>>=◌,
}
use auth_backend.Action.Along.{IsAlong, bind-IsAlong, or_raise-IsAlong}
use auth_backend.Services.{Services}
use auth_backend.Store.{create, create_unique, update, find_first}
use auth_backend.Projects.Store.{
  project_files_table, file_versions_table, same_version, file_is, transaction, committed,
  is_editable, require_project,
}
use auth_backend.Projects.Files.{
  NewFile, Commit, FileRequest, creates, initializes, updates, reverts, deletes, add_version,
  store_file, store_files, create_project_file, initialize_project_files, update_project_file,
  revert_project_file, delete_project_file, change_files, require_editable, require_file, at_path,
  in_project, is_version, has_duplicates, paths_of, next_version, latest_version, no_edit_access,
  path_taken, file_not_found, new_file,
}

-- The projects and the collaborators of two worlds are the same.
abbrev pub SamePeople : World → World → Type 0
SamePeople w v = (v.ai.projects ≡ w.ai.projects) × (v.ai.collaborators ≡ w.ai.collaborators)

abbrev KeepsPeople : {A : Type 0} → Action A → Type 0
KeepsPeople m = IsAlong SamePeople m

one_keeps : {A : Type 0} {m : Action A} → ((w : World) → SamePeople w (m w).1) → KeepsPeople m
one_keeps h = record { along = h }

bind_keeps :
    {A B : Type 0} {m : Action A} {f : A → Action B}
    → KeepsPeople m
    → ((a : A) → KeepsPeople (f a))
    → KeepsPeople (m >>= f)
bind_keeps = bind-IsAlong SamePeople (λ w. (refl, refl)) (λ w v u h k. (k.0 ∙ h.0, k.1 ∙ h.1))

raise_keeps : {A : Type 0} (o : Option A) (e : Exception) → KeepsPeople (or_raise o e)
raise_keeps = or_raise-IsAlong SamePeople (λ w. (refl, refl)) (λ w v u h k. (k.0 ∙ h.0, k.1 ∙ h.1))

-- A transaction ends where it led, or where it began.
transaction_keeps : {A : Type 0} {m : Action A} → KeepsPeople m → KeepsPeople (transaction m)
transaction_keeps {A = A} {m = m} h = record { along = λ w. ends w (m w) (h.along w) }
  where
    ends :
        (w : World) (out : Result A × World) → SamePeople w out.1 → SamePeople w (committed w out).1
    ends w (ok a, v) same = same
    ends w (err e, v) same = (refl, refl)

version_keeps :
    (make : ℕ → FileVersion) → KeepsPeople (create_unique file_versions_table same_version make)
version_keeps make = one_keeps λ w.
    elim (Bool-cases (any (same_version (make w.next_id)) w.ai.file_versions)) [
      | inl clash ↦ rw (clash, if◌then◌else◌) (refl, refl)
      | inr new ↦ rw (new, if◌then◌else◌) (refl, refl)
    ]

file_keeps :
    (test : ProjectFile → Bool) (change : ProjectFile → ProjectFile)
    → KeepsPeople (update project_files_table test change)
file_keeps test change = one_keeps λ w. elim (Bool-cases (any test w.ai.project_files)) [
  | inl there ↦ rw (there, if◌then◌else◌) (refl, refl)
  | inr gone ↦ rw (gone, if◌then◌else◌) (refl, refl)
]

add_version_keeps :
    (now user_id : ℕ) (f : ProjectFile) (n : ℕ) (commit : Commit)
    → KeepsPeople (add_version now user_id f n commit)
add_version_keeps now user_id f n commit =
    bind_keeps (version_keeps _)
      (λ v. bind_keeps (file_keeps (file_is f.id) _) (λ t. one_keeps (λ w. (refl, refl))))

store_file_keeps :
    (now project_id user_id : ℕ) (dto : NewFile)
    → KeepsPeople (store_file now project_id user_id dto)
store_file_keeps now project_id user_id dto =
    bind_keeps {m = create project_files_table (new_file now project_id dto)}
      (one_keeps (λ w. (refl, refl)))
      (λ f. add_version_keeps now user_id f 1 (record {
        content = dto.content;
        commit_msg = text_or dto.commit_msg "Initial version";
        is_deleted = false;
      }))

store_files_keeps :
    (now project_id user_id : ℕ) (files : List NewFile)
    → KeepsPeople (store_files now project_id user_id files)
store_files_keeps now project_id user_id [] = one_keeps (λ w. (refl, refl))
store_files_keeps now project_id user_id (dto ∷ rest) =
    bind_keeps (store_file_keeps now project_id user_id dto) (λ f.
      bind_keeps (store_files_keeps now project_id user_id rest)
        (λ fs. one_keeps (λ w. (refl, refl))))

module _ (sv : Services) (now project_id user_id : ℕ) where
  editable_keeps : KeepsPeople (require_editable sv project_id user_id)
  editable_keeps =
      bind_keeps {m = require_project sv (λ w. is_editable w project_id user_id) no_edit_access}
        (bind_keeps {m = gets (λ w. sv.find_first (is_editable w project_id user_id) w.ai.projects)}
          (one_keeps (λ w. (refl, refl))) (λ p. raise_keeps p (not_found no_edit_access)))
        (λ p. one_keeps {m = pure tt} (λ w. (refl, refl)))

  found_keeps : (file_id : ℕ) → KeepsPeople (require_file sv project_id file_id)
  found_keeps file_id =
      bind_keeps {m = find_first sv project_files_table (in_project project_id file_id)}
        (one_keeps (λ w. (refl, refl))) (λ f. raise_keeps f file_not_found)

  -- The transaction that ends a handler for one file.
  commits :
      (m : Action (ProjectFile × FileVersion))
      → KeepsPeople m
      → KeepsPeople (transaction m >>= (λ g. pure (g ∷ [])))
  commits m h =
      bind_keeps {m = transaction m} (transaction_keeps h)
        (λ g. one_keeps {m = pure (g ∷ [])} (λ w. (refl, refl)))

  commits_next :
      (file_id : ℕ) (f : ProjectFile) (commit : Commit)
      → KeepsPeople (
          latest_version sv file_id >>= (λ latest.
            transaction (add_version now user_id f (next_version latest) commit)
            >>= (λ g. pure (g ∷ []))))
  commits_next file_id f commit =
      bind_keeps {m = latest_version sv file_id} (one_keeps (λ w. (refl, refl))) (λ latest.
        commits (add_version now user_id f (next_version latest) commit)
          (add_version_keeps now user_id f (next_version latest) commit))

  change_files_keeps :
      (request : FileRequest) → KeepsPeople (change_files sv now project_id user_id request)
  unfolding create_project_file initialize_project_files update_project_file revert_project_file
      delete_project_file
  change_files_keeps (creates dto) =
      bind_keeps {m = require_editable sv project_id user_id} editable_keeps (λ t.
        bind_keeps {m = find_first sv project_files_table (at_path project_id dto.path)}
          (one_keeps (λ w. (refl, refl)))
          (λ existing.
            bind_keeps {m = raise_if (not (is_none existing)) path_taken}
              (one_keeps (λ w. (refl, refl)))
              (λ t.
                commits (store_file now project_id user_id dto)
                  (store_file_keeps now project_id user_id dto))))
  change_files_keeps (initializes files) =
      bind_keeps {m = require_editable sv project_id user_id} editable_keeps (λ t.
        bind_keeps
          {m = raise_if (has_duplicates (paths_of files))
            (bad_request "Duplicate file paths detected")}
          (one_keeps (λ w. (refl, refl)))
          (λ t.
            bind_keeps
              {m = gets (λ w.
                sv.find_many (λ f. f.project_id == project_id && includes (paths_of files) f.path)
                  w.ai.project_files)}
              (one_keeps (λ w. (refl, refl)))
              (λ existing.
                bind_keeps {m = raise_if (any (λ f. true) existing) path_taken}
                  (one_keeps (λ w. (refl, refl)))
                  (λ t. transaction_keeps (store_files_keeps now project_id user_id files)))))
  change_files_keeps (updates file_id content commit_msg) =
      bind_keeps {m = require_editable sv project_id user_id} editable_keeps (λ t.
        bind_keeps {m = require_file sv project_id file_id} (found_keeps file_id) (λ f.
          commits_next f.id f (record {
            content = content;
            commit_msg = text_or commit_msg (concat ("Updated file " ∷ f.name ∷ []));
            is_deleted = false;
          })))
  change_files_keeps (reverts file_id n commit_msg) =
      bind_keeps {m = require_editable sv project_id user_id} editable_keeps (λ t.
        bind_keeps {m = require_file sv project_id file_id} (found_keeps file_id) (λ f.
          bind_keeps {m = find_first sv file_versions_table (is_version file_id n)}
            (one_keeps (λ w. (refl, refl)))
            (λ found.
              bind_keeps {m = or_raise found (not_found "Version not found for this file")}
                (raise_keeps found (not_found "Version not found for this file"))
                (λ old. commits_next file_id f (record {
                  content = old.content;
                  commit_msg =
                      text_or commit_msg (concat ("Reverted to version " ∷ decimal n ∷ []));
                  is_deleted = false;
                })))))
  change_files_keeps (deletes file_id) =
      bind_keeps {m = require_editable sv project_id user_id} editable_keeps (λ t.
        bind_keeps {m = require_file sv project_id file_id} (found_keeps file_id) (λ f.
          commits_next f.id f (record {
            content = "";
            commit_msg = concat ("Deleted file " ∷ f.name ∷ []);
            is_deleted = true;
          })))

-- A request to change files: its time, the project, the user and what is asked.
abbrev pub AskedFor : Type 0
AskedFor = ℕ × ℕ × ℕ × FileRequest

-- The world after requests, one after the other.
abbrev pub after_requests : Services → List AskedFor → World → World
after_requests sv [] w = w
after_requests sv ((now, project_id, user_id, request) ∷ rest) w =
    after_requests sv rest (change_files sv now project_id user_id request w).1

pub after_requests-SamePeople :
    (sv : Services) (asked : List AskedFor) (w : World) → SamePeople w (after_requests sv asked w)
after_requests-SamePeople sv [] w = (refl, refl)
after_requests-SamePeople sv ((now, project_id, user_id, request) ∷ rest) w =
    let first = (change_files_keeps sv now project_id user_id request).along w in
    let then_same =
      after_requests-SamePeople sv rest (change_files sv now project_id user_id request w).1 in
    (then_same.0 ∙ first.0, then_same.1 ∙ first.1)
