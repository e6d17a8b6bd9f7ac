-- ===== src/Projects/Run.antt =====
-- Runs of requests that write projects and their files
-- (src/intelligence/intelligence.controller.ts), in any order, by any users and at any times.
pub mod Deletion
pub mod Consistent
use auth_backend.Base.{ℕ, String, Option}
use auth_backend.Model.{World}
use auth_backend.Services.{Services}
use auth_backend.Projects.Manage.{
  create_project, update_project, delete_project, create_project_thread, add_project_collaborator,
  remove_project_collaborator,
}
use auth_backend.Projects.Files.{FileRequest, change_files}

pub data ProjectStep (sv : Services) : World → World → Type 0 where
  creates_project :
      (now : ℕ) (name : String) (description : Option String) (user_id : ℕ) (w : World)
      → ProjectStep sv w (create_project sv now name description user_id w).1
  updates_project :
      (now project_id : ℕ) (name description : Option String) (user_id : ℕ) (w : World)
      → ProjectStep sv w (update_project sv now project_id name description user_id w).1
  deletes_project :
      (now project_id user_id : ℕ) (w : World)
      → ProjectStep sv w (delete_project sv now project_id user_id w).1
  creates_thread :
      (now : ℕ) (shown_date : String) (project_id user_id : ℕ) (w : World)
      → ProjectStep sv w (create_project_thread sv now shown_date project_id user_id w).1
  adds_collaborator :
      (now project_id collaborator_id : ℕ) (role : String) (user_id : ℕ) (w : World)
      → ProjectStep sv w
          (add_project_collaborator sv now project_id collaborator_id role user_id w).1
  removes_collaborator :
      (now project_id collaborator_id user_id : ℕ) (w : World)
      → ProjectStep sv w (remove_project_collaborator sv now project_id collaborator_id user_id w).1
  changes_files :
      (now project_id user_id : ℕ) (request : FileRequest) (w : World)
      → ProjectStep sv w (change_files sv now project_id user_id request w).1

-- Any number of requests, one after the other.
pub data ProjectRun (sv : Services) : World → World → Type 0 where
  stop : (w : World) → ProjectRun sv w w
  next : {w v u : World} → ProjectStep sv w v → ProjectRun sv v u → ProjectRun sv w u
