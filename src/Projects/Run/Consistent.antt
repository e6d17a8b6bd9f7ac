-- ===== src/Projects/Run/Consistent.antt =====
-- The files of projects along any run of requests (src/intelligence/intelligence.service.ts).
use auth_backend.Base.{
  ℕ, ◌+◌, String, Option, none, some, any, inl, inr, Bool-cases, Option-cases, arith, if◌then◌else◌,
  ◌==◌,
}
use auth_backend.Model.{World}
use auth_backend.Model.Ai.{Collaborator}
use auth_backend.Services.{Services}
use auth_backend.Projects.Store.{project_is, owned_by, is_visible, collaborates, same_collaborator}
use auth_backend.Projects.Manage.{
  create_project, update_project, delete_project, create_project_thread, add_project_collaborator,
  remove_project_collaborator, put_collaborator,
}
use auth_backend.Projects.Files.Consistent.{none_exempt, IsConsistent-weaken}
use auth_backend.Projects.Files.Keeps.{IsConsistentIn}
use auth_backend.Projects.Files.Requests.{change_files_keeps}
use auth_backend.Projects.Run.{
  ProjectStep, creates_project, updates_project, deletes_project, creates_thread, adds_collaborator,
  removes_collaborator, changes_files, ProjectRun, stop, next,
}
use auth_backend.Projects.Run.Deletion.{IsConsistent-delete}

module _ (sv : Services) (now project_id user_id : ℕ) (w : World) (h : IsConsistentIn w) where
  update_keeps :
      (name description : Option String)
      → IsConsistentIn (update_project sv now project_id name description user_id w).1
  unfolding update_project
  update_keeps name description =
      elim (Option-cases (sv.find_first (owned_by project_id user_id) w.ai.projects)) [
        | inl missing ↦ rw missing h
        | inr (p, e) ↦ elim (Bool-cases (any (project_is project_id) w.ai.projects)) [
          | inl there ↦ rw (e, there, if◌then◌else◌) h
          | inr gone ↦ rw (e, gone, if◌then◌else◌) h
        ]
      ]

  thread_keeps :
      (shown_date : String)
      → IsConsistentIn (create_project_thread sv now shown_date project_id user_id w).1
  unfolding create_project_thread
  thread_keeps shown_date =
      elim (Option-cases (sv.find_first (is_visible w project_id user_id) w.ai.projects)) [
        | inl missing ↦ rw missing h
        | inr (p, e) ↦ rw e (IsConsistent-weaken h none_exempt (w.next_id + 1) (omega arith))
      ]

  delete_keeps : IsConsistentIn (delete_project sv now project_id user_id w).1
  unfolding delete_project
  delete_keeps = elim (Option-cases (sv.find_first (owned_by project_id user_id) w.ai.projects)) [
    | inl missing ↦ rw missing h
    | inr (p, e) ↦ elim (Bool-cases (any (project_is project_id) w.ai.projects)) [
      | inl there ↦ rw (e, there, if◌then◌else◌) (IsConsistent-delete w project_id h)
      | inr gone ↦ rw (e, gone, if◌then◌else◌) h
    ]
  ]

  put_keeps :
      (collaborator_id : ℕ) (role : String) (existing : Option Collaborator)
      → IsConsistentIn (put_collaborator project_id collaborator_id role existing w).1
  put_keeps collaborator_id role (some c) =
      elim (Bool-cases (any (collaborates project_id collaborator_id) w.ai.collaborators)) [
        | inl there ↦ rw (there, if◌then◌else◌) h
        | inr gone ↦ rw (gone, if◌then◌else◌) h
      ]
  put_keeps collaborator_id role none =
      elim (Bool-cases (
        any
          (same_collaborator
            (record { project_id = project_id; user_id = collaborator_id; role = role }))
          w.ai.collaborators)) [
            | inl clash ↦ rw (clash, if◌then◌else◌) h
            | inr new ↦
                rw (new, if◌then◌else◌)
                  (IsConsistent-weaken h none_exempt (w.next_id + 1) (omega arith))
          ]

  add_keeps :
      (collaborator_id : ℕ) (role : String)
      → IsConsistentIn (add_project_collaborator sv now project_id collaborator_id role user_id w).1
  unfolding add_project_collaborator
  add_keeps collaborator_id role =
      elim (Option-cases (sv.find_first (owned_by project_id user_id) w.ai.projects)) [
        | inl missing ↦ rw missing h
        | inr (p, e) ↦ elim (Option-cases (sv.find_first (λ u. u.id == collaborator_id) w.users)) [
          | inl missing ↦ rw (e, missing, if◌then◌else◌) h
          | inr (u, f) ↦ rw (e, f, if◌then◌else◌) (put_keeps collaborator_id role _)
        ]
      ]

  remove_keeps :
      (collaborator_id : ℕ)
      → IsConsistentIn (remove_project_collaborator sv now project_id collaborator_id user_id w).1
  unfolding remove_project_collaborator
  remove_keeps collaborator_id =
      elim (Option-cases (sv.find_first (owned_by project_id user_id) w.ai.projects)) [
        | inl missing ↦ rw missing h
        | inr (p, e) ↦
            elim (Option-cases
              (sv.find_first (collaborates project_id collaborator_id) w.ai.collaborators)) [
                | inl missing ↦ rw (e, missing, if◌then◌else◌) h
                | inr (c, f) ↦
                    elim (Bool-cases
                      (any (collaborates project_id collaborator_id) w.ai.collaborators)) [
                        | inl there ↦ rw (e, f, if◌then◌else◌, there, if◌then◌else◌) h
                        | inr gone ↦ rw (e, f, if◌then◌else◌, gone, if◌then◌else◌) h
                      ]
              ]
      ]

ProjectStep-keeps :
    (sv : Services) {w v : World} → ProjectStep sv w v → IsConsistentIn w → IsConsistentIn v
unfolding create_project
ProjectStep-keeps sv (creates_project now name description user_id w) h =
    IsConsistent-weaken h none_exempt (w.next_id + 1) (omega arith)
ProjectStep-keeps sv (updates_project now project_id name description user_id w) h =
    update_keeps sv now project_id user_id w h name description
ProjectStep-keeps sv (deletes_project now project_id user_id w) h =
    delete_keeps sv now project_id user_id w h
ProjectStep-keeps sv (creates_thread now shown_date project_id user_id w) h =
    thread_keeps sv now project_id user_id w h shown_date
ProjectStep-keeps sv (adds_collaborator now project_id collaborator_id role user_id w) h =
    add_keeps sv now project_id user_id w h collaborator_id role
ProjectStep-keeps sv (removes_collaborator now project_id collaborator_id user_id w) h =
    remove_keeps sv now project_id user_id w h collaborator_id
ProjectStep-keeps sv (changes_files now project_id user_id request w) h =
    change_files_keeps sv now project_id user_id w h request

-- Whatever requests about projects are made, in any order and by any users: if the files and
-- versions fit together before, they do so after. That is, the version numbers of a file are those
-- from 1 to the count of its versions; its current version is one of its versions, the one with the
-- greatest number; and no two files of a project have the same path.
pub ProjectRun-IsConsistentIn :
    (sv : Services) {w v : World} (run : ProjectRun sv w v) (consistent : IsConsistentIn w)
    → IsConsistentIn v
ProjectRun-IsConsistentIn sv (stop w) h = h
ProjectRun-IsConsistentIn sv (next step run) h =
    ProjectRun-IsConsistentIn sv run (ProjectStep-keeps sv step h)
