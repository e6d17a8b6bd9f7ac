-- ===== src/Projects/Reading.antt =====
-- The queries on projects: listProjects, getProject, listProjectThreads, listProjectFiles,
-- getProjectFile, getProjectFileVersions and listProjectCollaborators
-- (src/intelligence/intelligence.service.ts). The columns of users that they include are left out,
-- and so is the order of the files by path.
use auth_backend.Base.{ℕ, String, ◌||◌, Option, none, some, List, map, length, filter, ◌==◌}
use auth_backend.Model.{World}
use auth_backend.Model.Ai.{Thread, ThreadMessage, Project, Collaborator, ProjectFile, FileVersion}
use auth_backend.Action.{Action, gets, ◌>>=◌, ◌>>◌}
use auth_backend.Services.{Services}
use auth_backend.Store.{find_many}
use auth_backend.Chat.Direct.{page_of, refuse_page}
use auth_backend.Projects.Store.{collaborators_table, is_visible, has_collaborator, require_project}
use auth_backend.Projects.Manage.{file_of, thread_of, collaborator_of}
use auth_backend.Projects.Files.{of_file, require_file}

-- A project with the numbers of its files, threads and collaborators.
pub record ListedProject : Type 0 where
  pub project : Project
  pub files : ℕ
  pub threads : ℕ
  pub collaborators : ℕ

pub record FullProject : Type 0 where
  pub project : Project
  pub collaborators : List Collaborator
  pub files : List (ProjectFile × Option FileVersion)
  pub threads : List Thread

abbrev listed : World → Project → ListedProject
listed w p = record {
  project = p;
  files = length (filter (file_of p.id) w.ai.project_files);
  threads = length (filter (thread_of p.id) w.ai.threads);
  collaborators = length (filter (collaborator_of p.id) w.ai.collaborators);
}

abbrev pub no_project_access : String
no_project_access = "Project not found or you do not have access"

-- `_count: { messages }` of a thread, `_count: { versions }` of a file.
abbrev pub count_messages : World → Thread → Thread × ℕ
count_messages w t =
    (t, length (filter (λ (m : ThreadMessage). m.chat_id == t.id) w.ai.thread_messages))

abbrev count_versions : World → ProjectFile → ℕ
count_versions w f = length (filter (of_file f.id) w.ai.file_versions)

module _ (sv : Services) where
  -- `include: { currentVersion: true }`.
  abbrev pub current_version : World → ProjectFile → Option FileVersion
  current_version w f = elim f.current_version_id [
    | none ↦ none
    | some i ↦ sv.find_first (λ (v : FileVersion). v.id == i) w.ai.file_versions
  ]

  unfoldable pub list_projects : ℕ → ℕ → ℕ → Action (List ListedProject)
  list_projects user_id page limit = do
    refuse_page limit page
    all ← gets (λ w.
        sv.find_ordered (λ (p : Project). p.owner_id == user_id || has_collaborator w user_id p)
          (λ p. p.created_at) w.ai.projects)
    gets (λ w. map (listed w) (page_of limit page all))

  unfoldable pub get_project : ℕ → ℕ → Action FullProject
  get_project project_id user_id = do
    p ← require_project sv (λ w. is_visible w project_id user_id) no_project_access
    gets (λ w. record {
      project = p;
      collaborators = sv.find_many (collaborator_of p.id) w.ai.collaborators;
      files = map (λ f. (f, current_version w f)) (sv.find_many (file_of p.id) w.ai.project_files);
      threads = sv.find_many (thread_of p.id) w.ai.threads;
    })

  unfoldable pub list_project_threads : ℕ → ℕ → Action (List (Thread × ℕ))
  list_project_threads project_id user_id = do
    require_project sv (λ w. is_visible w project_id user_id) no_project_access
    gets (λ w.
        map (count_messages w)
          (sv.find_ordered (thread_of project_id) (λ t. t.created_at) w.ai.threads))

  unfoldable pub list_project_files : ℕ → ℕ → Action (List (ProjectFile × Option FileVersion × ℕ))
  list_project_files project_id user_id = do
    require_project sv (λ w. is_visible w project_id user_id) no_project_access
    gets (λ w.
        map (λ f. (f, current_version w f, count_versions w f))
          (sv.find_many (file_of project_id) w.ai.project_files))

  unfoldable pub get_project_file : ℕ → ℕ → ℕ → Action (ProjectFile × Option FileVersion)
  get_project_file project_id file_id user_id = do
    require_project sv (λ w. is_visible w project_id user_id) no_project_access
    f ← require_file sv project_id file_id
    gets (λ w. (f, current_version w f))

  unfoldable pub get_project_file_versions : ℕ → ℕ → ℕ → Action (List FileVersion)
  get_project_file_versions project_id file_id user_id = do
    require_project sv (λ w. is_visible w project_id user_id) no_project_access
    require_file sv project_id file_id
    gets (λ w. sv.find_ordered (of_file file_id) (λ v. v.version) w.ai.file_versions)

  unfoldable pub list_project_collaborators : ℕ → ℕ → Action (List Collaborator)
  list_project_collaborators project_id user_id = do
    require_project sv (λ w. is_visible w project_id user_id) no_project_access
    find_many sv collaborators_table (collaborator_of project_id)
