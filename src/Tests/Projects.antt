-- ===== src/Tests/Projects.antt =====
-- A project with one file and two people.
use mathlib.Core.List.Memᴰ
use auth_backend.Base.{
  ℕ, ◌+◌, ◌≡◌, refl, ap, true, false, none, some, [], ◌∷◌, ◌++◌, Memᴰ, any, inl, inr, Bool-cases,
  ==_iff, arith,
}
use auth_backend.Model.{World, User}
use auth_backend.Model.Ai.{Thread, ThreadMessage, Project, Collaborator, ProjectFile, FileVersion}
use auth_backend.Action.{ok, err, not_found, succeeds}
use auth_backend.Projects.Store.{project_is, is_editable}
use auth_backend.Projects.Manage.{
  delete_project, add_project_collaborator, remove_project_collaborator, file_of, version_in,
  thread_of, message_in, collaborator_of,
}
use auth_backend.Projects.Files.{
  updates, deletes, no_edit_access, update_project_file, revert_project_file, change_files, of_file,
}
use auth_backend.Projects.Files.History.{
  count, IsHistory, IsHistory-append_next, IsHistory-append_other,
}
use auth_backend.Projects.Files.Keeps.{IsConsistentIn}
use auth_backend.Projects.Reading.{get_project_file}
use auth_backend.Projects.Latest.{
  get_project_file-update_project_file, get_project_file-revert_project_file,
}
use auth_backend.Projects.Access.{
  change_files_refused, change_files-remove_project_collaborator,
  is_editable-add_project_collaborator, delete_project_clears,
}
use auth_backend.Projects.Files.People.{after_requests}
use auth_backend.Projects.Run.{stop, next, changes_files}
use auth_backend.Projects.Run.Consistent.{ProjectRun-IsConsistentIn}
use auth_backend.Tests.Fixtures.{services, world, ann, no_ai, only}

abbrev site : Project
site = record {
  id = 20;
  name = "Site";
  description = none;
  owner_id = 1;
  created_at = 0;
  updated_at = 0;
}

abbrev page : ProjectFile
page = record {
  id = 21;
  project_id = 20;
  name = "index.html";
  path = "/index.html";
  current_version_id = some 22;
  created_at = 0;
  updated_at = 0;
  is_deleted = false;
}

abbrev first_version : FileVersion
first_version = record {
  id = 22;
  file_id = 21;
  version = 1;
  content = "hello";
  commit_msg = some "Initial version";
  author_id = some 1;
  created_at = 0;
  is_deleted = false;
}

abbrev bob : User
bob = record ann { id = 2; email = "bob@x.org" }

abbrev bobs_part : Collaborator
bobs_part = record { project_id = 20; user_id = 2; role = "editor" }

abbrev talk : Thread
talk = record { id = 23; title = none; created_at = 0; user_id = some 1; project_id = some 20 }

abbrev remark : ThreadMessage
remark = record { id = 24; content = "hi"; role = "user"; chat_id = 23; created_at = 1 }

-- Ann's project, where Bob is an editor.
abbrev shared : World
shared = record world {
  users = ann ∷ bob ∷ [];
  next_id = 30;
  ai = record no_ai {
    projects = site ∷ [];
    project_files = page ∷ [];
    file_versions = first_version ∷ [];
    collaborators = bobs_part ∷ [];
    threads = talk ∷ [];
    thread_messages = remark ∷ [];
  };
}

no_history : (i : ℕ) → IsHistory i []
no_history i = record {
  bounded = λ v m e. elim m [ ];
  complete = λ n low high. absurd (omega (arith, low, high));
}

fits : IsConsistentIn shared
fits = record {
  history = λ i. elim (Bool-cases (of_file i first_version)) [
    | inl here ↦ IsHistory-append_next i [] first_version ((==_iff 21 i).0 here) refl (no_history i)
    | inr away ↦ IsHistory-append_other i [] first_version away (no_history i)
  ];
  current = λ f m e. rw (Memᴰ.eq_of_singleton m) (first_version, Memᴰ.head refl, refl, refl, refl);
  fresh_file = λ f m. rw (Memᴰ.eq_of_singleton m) (omega arith);
  fresh_version = λ v m. rw (Memᴰ.eq_of_singleton m) (omega arith, omega arith);
  one_file = λ v u m n e. ap (λ (x : FileVersion). x.file_id) (only m n);
  one_project = λ f g m n e. ap (λ (x : ProjectFile). x.project_id) (only m n);
  one_path = λ f g m n e d. ap (λ (x : ProjectFile). x.id) (only m n);
}

ProjectRun-IsConsistentIn_example :
    IsConsistentIn (change_files services 7 20 2 (updates 21 "bye" none) shared).1
ProjectRun-IsConsistentIn_example =
    ProjectRun-IsConsistentIn services
      (next (changes_files 7 20 2 (updates 21 "bye" none) shared) (stop _)) fits

get_project_file-update_project_file_example :
    let out = update_project_file services 7 20 21 "bye" none 2 shared in
    (g : ProjectFile) × (v : FileVersion) × (succeeds out.0 ≡ true)
    × (out.1.ai.file_versions ≡ shared.ai.file_versions ++ v ∷ [])
    × ((get_project_file services 20 21 1 out.1).0 ≡ ok (g, some v))
    × (v.content ≡ "bye")
    × (v.version ≡ count 21 shared.ai.file_versions + 1)
get_project_file-update_project_file_example =
    get_project_file-update_project_file services 7 20 21 2 1 shared fits site site page refl refl
      refl "bye" none

get_project_file-revert_project_file_example :
    let out = revert_project_file services 7 20 21 1 none 2 shared in
    (g : ProjectFile) × (v : FileVersion) × (succeeds out.0 ≡ true)
    × (out.1.ai.file_versions ≡ shared.ai.file_versions ++ v ∷ [])
    × ((get_project_file services 20 21 1 out.1).0 ≡ ok (g, some v))
    × (v.content ≡ "hello")
    × (v.version ≡ count 21 shared.ai.file_versions + 1)
get_project_file-revert_project_file_example =
    get_project_file-revert_project_file services 7 20 21 2 1 shared fits site site page refl refl
      refl 1 none first_version refl

change_files_refused_example :
    change_files services 7 20 3 (deletes 21) shared ≡ (err (not_found no_edit_access), shared)
change_files_refused_example =
    change_files_refused services 7 20 3 (deletes 21) shared
      (λ p m. rw (Memᴰ.eq_of_singleton m) refl)

change_files-remove_project_collaborator_example :
    let out = remove_project_collaborator services 7 20 2 1 shared in
    let v = after_requests services ((8, 20, 1, updates 21 "bye" none) ∷ []) out.1 in
    (out.0 ≡ ok tt)
    × (change_files services 9 20 2 (deletes 21) v ≡ (err (not_found no_edit_access), v))
change_files-remove_project_collaborator_example =
    change_files-remove_project_collaborator services 7 20 2 1 shared site refl
      (λ q m e. rw (Memᴰ.eq_of_singleton m) refl) bobs_part refl
      ((8, 20, 1, updates 21 "bye" none) ∷ []) 9 (deletes 21)

is_editable-add_project_collaborator_example :
    let out = add_project_collaborator services 7 20 2 "viewer" 1 shared in
    (out.0 ≡ ok tt) × (is_editable out.1 20 2 site ≡ false)
is_editable-add_project_collaborator_example =
    is_editable-add_project_collaborator services 7 20 2 1 shared site refl
      (λ q m e. rw (Memᴰ.eq_of_singleton m) refl) "viewer" bob refl site (Memᴰ.head refl)

delete_project_clears_example :
    let out = delete_project services 7 20 1 shared in
    (out.0 ≡ ok tt)
    × (any (project_is 20) out.1.ai.projects ≡ false)
    × (any (file_of 20) out.1.ai.project_files ≡ false)
    × (any (version_in shared 20) out.1.ai.file_versions ≡ false)
    × (any (thread_of 20) out.1.ai.threads ≡ false)
    × (any (message_in shared 20) out.1.ai.thread_messages ≡ false)
    × (any (collaborator_of 20) out.1.ai.collaborators ≡ false)
    × ((q : Project)
        → Memᴰ q shared.ai.projects
        → project_is 20 q ≡ false
        → Memᴰ q out.1.ai.projects)
    × ((v : FileVersion)
        → Memᴰ v shared.ai.file_versions
        → version_in shared 20 v ≡ false
        → Memᴰ v out.1.ai.file_versions)
    × ((m : ThreadMessage)
        → Memᴰ m shared.ai.thread_messages
        → message_in shared 20 m ≡ false
        → Memᴰ m out.1.ai.thread_messages)
delete_project_clears_example = delete_project_clears services 7 20 1 shared site refl
