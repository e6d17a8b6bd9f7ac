-- ===== src/Projects/Manage.antt =====
-- Creation, change and deletion of projects, and their collaborators
-- (src/intelligence/intelligence.service.ts). A column that an update does not give is none and
-- stays as it is.
use auth_backend.Base.{
  ℕ, String, Bool, false, ◌&&◌, [], ◌∷◌, Option, none, some, List, any, is_none, given_or, or_kept,
  ◌==◌,
}
use auth_backend.Base.Text.{concat}
use auth_backend.Model.{World}
use auth_backend.Model.Ai.{Thread, ThreadMessage, Project, Collaborator, ProjectFile, FileVersion}
use auth_backend.Action.{Action, pure, gets, not_found, raise_if, ◌>>=◌, ◌>>◌}
use auth_backend.Services.{Services}
use auth_backend.Store.{create, create_unique, update, update_many, delete, find_first, users_table}
use auth_backend.Chat.Store.{delete_many}
use auth_backend.Projects.Store.{
  threads_table, thread_messages_table, projects_table, collaborators_table, project_files_table,
  file_versions_table, collaborates, same_collaborator, project_is, owned_by, is_visible,
  require_project, transaction,
}

-- The rows that `deleteProject` names by their relations.
abbrev pub file_of : ℕ → ProjectFile → Bool
file_of project_id f = f.project_id == project_id

abbrev pub version_in : World → ℕ → FileVersion → Bool
version_in w project_id v =
    any (λ (f : ProjectFile). f.id == v.file_id && file_of project_id f) w.ai.project_files

abbrev pub same_id : Option ℕ → ℕ → Bool
same_id none i = false
same_id (some j) i = j == i

abbrev pub thread_of : ℕ → Thread → Bool
thread_of project_id t = same_id t.project_id project_id

abbrev pub message_in : World → ℕ → ThreadMessage → Bool
message_in w project_id m =
    any (λ (t : Thread). t.id == m.chat_id && thread_of project_id t) w.ai.threads

abbrev pub collaborator_of : ℕ → Collaborator → Bool
collaborator_of project_id c = c.project_id == project_id

-- `ON DELETE SET NULL` of `AIProjectFile.currentVersionId`: a file that points to a deleted version.
abbrev pub points_to : (FileVersion → Bool) → List FileVersion → ProjectFile → Bool
points_to p versions f =
    any (λ (v : FileVersion). p v && same_id f.current_version_id v.id) versions

abbrev pub delete_versions : (World → FileVersion → Bool) → Action (Unit {0})
delete_versions test = do
  versions ← gets (λ w. w.ai.file_versions)
  deleted ← gets test
  delete_many file_versions_table deleted
  update_many project_files_table (points_to deleted versions)
      (λ f. record f { current_version_id = none })

abbrev pub put_collaborator : ℕ → ℕ → String → Option Collaborator → Action (Unit {0})
put_collaborator project_id collaborator_id role (some c) =
    update collaborators_table (collaborates project_id collaborator_id)
      (λ c. record c { role = role })
put_collaborator project_id collaborator_id role none = do
  create_unique collaborators_table same_collaborator
      (λ i. record { project_id = project_id; user_id = collaborator_id; role = role })
  pure tt

module _ (sv : Services) (now : ℕ) where
  unfoldable pub create_project : String → Option String → ℕ → Action Project
  create_project name description user_id = create projects_table (λ i. record {
    id = i;
    name = name;
    description = description;
    owner_id = user_id;
    created_at = now;
    updated_at = now;
  })

  unfoldable pub update_project : ℕ → Option String → Option String → ℕ → Action (Unit {0})
  update_project project_id name description user_id = do
    require_project sv (λ w. owned_by project_id user_id)
        "Project not found or you do not have permission to update it"
    update projects_table (project_is project_id) (λ p. record p {
      name = given_or name p.name;
      description = or_kept description p.description;
      updated_at = now;
    })

  unfoldable pub delete_project : ℕ → ℕ → Action (Unit {0})
  delete_project project_id user_id = do
    require_project sv (λ w. owned_by project_id user_id)
        "Project not found or you do not have permission to delete it"
    transaction (do
      delete_versions (λ w. version_in w project_id)
      delete_many project_files_table (file_of project_id)
      in_project ← gets (λ w. message_in w project_id)
      delete_many thread_messages_table in_project
      delete_many threads_table (thread_of project_id)
      delete_many collaborators_table (collaborator_of project_id)
      delete projects_table (project_is project_id))

  -- `shown_date` is `new Date().toLocaleString()`.
  unfoldable pub create_project_thread : String → ℕ → ℕ → Action Thread
  create_project_thread shown_date project_id user_id = do
    require_project sv (λ w. is_visible w project_id user_id)
        "Project not found or you do not have access"
    create threads_table (λ i. record {
      id = i;
      title = some (concat ("Thread " ∷ shown_date ∷ []));
      created_at = now;
      user_id = some user_id;
      project_id = some project_id;
    })

  unfoldable pub add_project_collaborator : ℕ → ℕ → String → ℕ → Action (Unit {0})
  add_project_collaborator project_id collaborator_id role user_id = do
    require_project sv (λ w. owned_by project_id user_id)
        "Project not found or you do not have permission to add collaborators"
    user ← find_first sv users_table (λ u. u.id == collaborator_id)
    raise_if (is_none user) (not_found "Collaborator user not found")
    existing ← find_first sv collaborators_table (collaborates project_id collaborator_id)
    put_collaborator project_id collaborator_id role existing

  unfoldable pub remove_project_collaborator : ℕ → ℕ → ℕ → Action (Unit {0})
  remove_project_collaborator project_id collaborator_id user_id = do
    require_project sv (λ w. owned_by project_id user_id)
        "Project not found or you do not have permission to remove collaborators"
    existing ← find_first sv collaborators_table (collaborates project_id collaborator_id)
    raise_if (is_none existing) (not_found "Collaborator not found")
    delete collaborators_table (collaborates project_id collaborator_id)
