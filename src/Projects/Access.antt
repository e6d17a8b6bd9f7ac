-- ===== src/Projects/Access.antt =====
-- Who may change a project and its files, and what a deletion of a project leaves
-- (src/intelligence/intelligence.service.ts).
use auth_backend.Base.{
  ℕ, ◌≡◌, refl, ap, ◌∙◌, Bool, true, false, not, String, none, some, List, [], ◌∷◌, ◌++◌, Memᴰ, any,
  filter, inl, inr, Bool-cases, Option-cases, ==_iff, ==_refl, arith, if◌then◌else◌, any-eq-false,
  mem-filter, any-filter-not, filter_not-mem, and-true, any-append, str_eq, ◌&&◌, ◌||◌, ◌==◌,
}
use auth_backend.Model.{World, User}
use auth_backend.Model.Ai.{ThreadMessage, Project, Collaborator, FileVersion}
use auth_backend.Action.{ok, err, not_found}
use auth_backend.Services.{Services}
use auth_backend.Store.{replace}
use auth_backend.Store.Rows.{any_found, any-replace_all, any-replace_others, find_first-eq-none}
use auth_backend.Projects.Store.{
  project_is, owned_by, is_editable, is_editor, collaborates, same_collaborator,
}
use auth_backend.Projects.Manage.{
  delete_project, add_project_collaborator, remove_project_collaborator, file_of, version_in,
  thread_of, message_in, collaborator_of,
}
use auth_backend.Projects.Files.{
  FileRequest, creates, initializes, updates, reverts, deletes, no_edit_access, create_project_file,
  initialize_project_files, update_project_file, revert_project_file, delete_project_file,
  change_files,
}
use auth_backend.Projects.Files.People.{AskedFor, after_requests, after_requests-SamePeople}

-- Whoever neither owns a project nor collaborates on it as an editor is refused any change of its
-- files as if there were no such project, and nothing changes.
pub change_files_refused :
    (sv : Services) (now project_id user_id : ℕ) (request : FileRequest) (w : World)
    (stranger : (p : Project) → Memᴰ p w.ai.projects → is_editable w project_id user_id p ≡ false)
    → change_files sv now project_id user_id request w ≡ (err (not_found no_edit_access), w)
unfolding create_project_file initialize_project_files update_project_file revert_project_file
    delete_project_file
change_files_refused sv now project_id user_id request w stranger = refused request
  where
    missing : sv.find_first (is_editable w project_id user_id) w.ai.projects ≡ none
    missing = find_first-eq-none sv (is_editable w project_id user_id) w.ai.projects stranger

    refused :
        (r : FileRequest)
        → change_files sv now project_id user_id r w ≡ (err (not_found no_edit_access), w)
    refused (creates dto) = rw missing refl
    refused (initializes files) = rw missing refl
    refused (updates file_id content commit_msg) = rw missing refl
    refused (reverts file_id n commit_msg) = rw missing refl
    refused (deletes file_id) = rw missing refl

module _ (sv : Services) (now project_id collaborator_id owner_id : ℕ) (w : World) (p : Project)
    (owned : sv.find_first (owned_by project_id owner_id) w.ai.projects ≡ some p)
    (other : (q : Project)
      → Memᴰ q w.ai.projects
      → q.id ≡ project_id
      → (q.owner_id == collaborator_id) ≡ false) where
  -- Whom the collaborators let edit the project, the owner aside.
  editable_by :
      (rows : List Collaborator) (b : Bool)
      → any (is_editor project_id collaborator_id) rows ≡ b
      → (q : Project) → Memᴰ q w.ai.projects
      → (q.id == project_id
          && (q.owner_id == collaborator_id || any (is_editor q.id collaborator_id) rows))
        ≡ (q.id == project_id && b)
  editable_by rows b h q m = elim (Bool-cases (q.id == project_id)) [
    | inl here ↦
        let is_it = (==_iff q.id project_id).0 here in
        let editors : any (is_editor q.id collaborator_id) rows ≡ b =
          ap (λ i. any (is_editor i collaborator_id) rows) is_it ∙ h in
        rw (here, other q m is_it, editors) refl
    | inr away ↦ rw away refl
  ]

  -- When the owner of a project removes a collaborator who does not own it, the removal succeeds,
  -- and then, after any number of requests of anyone to change files, any change of the project's
  -- files that the former collaborator asks for is refused and changes nothing.
  pub change_files-remove_project_collaborator :
      (c : Collaborator)
      (member : sv.find_first (collaborates project_id collaborator_id) w.ai.collaborators ≡ some c)
      (asked : List AskedFor) (later : ℕ) (request : FileRequest)
      → let out = remove_project_collaborator sv now project_id collaborator_id owner_id w in
        let v = after_requests sv asked out.1 in
        (out.0 ≡ ok tt)
        × (change_files sv later project_id collaborator_id request v
            ≡ (err (not_found no_edit_access), v))
  unfolding remove_project_collaborator
  change_files-remove_project_collaborator c member asked later request =
      rw (owned, member, if◌then◌else◌, present, if◌then◌else◌)
        (
          refl,
          change_files_refused sv later project_id collaborator_id request
              (after_requests sv asked left) shut_out,
        )
    where
      present : any (collaborates project_id collaborator_id) w.ai.collaborators ≡ true
      present =
          any_found sv (collaborates project_id collaborator_id)
            (collaborates project_id collaborator_id) w.ai.collaborators c member
            (sv.find_first_some (collaborates project_id collaborator_id) w.ai.collaborators
              member).1

      left : World
      left =
          let t = w.ai in
          record w {
            ai = record t {
              collaborators =
                  filter (λ d. not (collaborates project_id collaborator_id d)) w.ai.collaborators;
            };
          }

      no_editor : any (is_editor project_id collaborator_id) left.ai.collaborators ≡ false
      no_editor = any-eq-false (is_editor project_id collaborator_id) left.ai.collaborators (λ d m.
          ground (
            arith,
            (mem-filter (λ d. not (collaborates project_id collaborator_id d)) w.ai.collaborators d
                m).1,
          ))

      nobody : (q : Project) → (q.id == project_id && false) ≡ false
      nobody q = ground arith

      shut_out :
          (q : Project)
          → Memᴰ q (after_requests sv asked left).ai.projects
          → is_editable (after_requests sv asked left) project_id collaborator_id q ≡ false
      shut_out q m =
          let (projects, collaborators) = after_requests-SamePeople sv asked left in
          editable_by (after_requests sv asked left).ai.collaborators false
            (ap (any (is_editor project_id collaborator_id)) collaborators ∙ no_editor) q
            (rw projects at m)
          ∙ nobody q

  -- A test that holds of editors of another project only.
  elsewhere :
      (q : Project)
      → q.id == project_id ≡ false
      → (role : String) (d : Collaborator) → collaborates project_id collaborator_id d ≡ true
      → is_editor q.id collaborator_id (record d { role = role }) ≡ is_editor q.id collaborator_id d
  elsewhere q away role d is_his = ground (arith, away, is_his)

  -- When the owner of a project adds a user who exists, and who does not own the project, with a
  -- role, whether the user was a collaborator before or not, this succeeds; afterwards the user may
  -- edit the project exactly if the role is that of an editor, and any other project exactly if
  -- the user could before.
  pub is_editable-add_project_collaborator :
      (role : String) (u : User)
      (exists : sv.find_first (λ (v : User). v.id == collaborator_id) w.users ≡ some u)
      (q : Project) (stored : Memᴰ q w.ai.projects)
      → let out = add_project_collaborator sv now project_id collaborator_id role owner_id w in
        (out.0 ≡ ok tt)
        × (is_editable out.1 q.id collaborator_id q ≡ (
            if q.id == project_id
            then str_eq role "editor"
            else is_editable w q.id collaborator_id q))
  unfolding add_project_collaborator
  is_editable-add_project_collaborator role u exists q stored =
      elim (Option-cases
        (sv.find_first (collaborates project_id collaborator_id) w.ai.collaborators)) [
          | inl new ↦
              rw (owned, exists, if◌then◌else◌, new, no_clash new, if◌then◌else◌)
                (
                  refl,
                  edits _ (with_new new) (λ away.
                      any-append (is_editor q.id collaborator_id) w.ai.collaborators (added ∷ [])
                      ∙ ground (arith, away)),
                )
          | inr (c, member) ↦
              rw (owned, exists, if◌then◌else◌, member, present c member, if◌then◌else◌)
                (
                  refl,
                  edits _ (with_role (present c member)) (λ away.
                      any-replace_others (collaborates project_id collaborator_id)
                        (is_editor q.id collaborator_id) (λ d. record d { role = role })
                        w.ai.collaborators (elsewhere q away role)),
                )
        ]
    where
      edits :
          (rows : List Collaborator)
          → any (is_editor project_id collaborator_id) rows ≡ str_eq role "editor"
          → ((q.id == project_id) ≡ false
              → any (is_editor q.id collaborator_id) rows
                ≡ any (is_editor q.id collaborator_id) w.ai.collaborators)
          → (q.id == q.id
              && (q.owner_id == collaborator_id || any (is_editor q.id collaborator_id) rows))
            ≡ (if q.id == project_id
                then str_eq role "editor"
                else is_editable w q.id collaborator_id q)
      edits rows here there = elim (Bool-cases (q.id == project_id)) [
        | inl same ↦
            let is_it = (==_iff q.id project_id).0 same in
            let editors : any (is_editor q.id collaborator_id) rows ≡ str_eq role "editor" =
              ap (λ i. any (is_editor i collaborator_id) rows) is_it ∙ here in
            rw (same, if◌then◌else◌, ==_refl q.id, other q stored is_it, editors) refl
        | inr away ↦ rw (away, if◌then◌else◌, there away) refl
      ]

      present :
          (c : Collaborator)
          → sv.find_first (collaborates project_id collaborator_id) w.ai.collaborators ≡ some c
          → any (collaborates project_id collaborator_id) w.ai.collaborators ≡ true
      present c member =
          any_found sv (collaborates project_id collaborator_id)
            (collaborates project_id collaborator_id) w.ai.collaborators c member
            (sv.find_first_some (collaborates project_id collaborator_id) w.ai.collaborators
              member).1

      added : Collaborator
      added = record { project_id = project_id; user_id = collaborator_id; role = role }

      no_clash :
          sv.find_first (collaborates project_id collaborator_id) w.ai.collaborators ≡ none
          → any (same_collaborator added) w.ai.collaborators ≡ false
      no_clash new =
          any-eq-false (same_collaborator added) w.ai.collaborators
            (sv.find_first_none (collaborates project_id collaborator_id) w.ai.collaborators new)

      with_new :
          sv.find_first (collaborates project_id collaborator_id) w.ai.collaborators ≡ none
          → any (is_editor project_id collaborator_id) (w.ai.collaborators ++ added ∷ [])
            ≡ str_eq role "editor"
      with_new new =
          let nobody : any (is_editor project_id collaborator_id) w.ai.collaborators ≡ false =
            any-eq-false (is_editor project_id collaborator_id) w.ai.collaborators (λ d m. ground (
              arith,
              sv.find_first_none (collaborates project_id collaborator_id) w.ai.collaborators new d
                  m,
            )) in
          any-append (is_editor project_id collaborator_id) w.ai.collaborators (added ∷ [])
          ∙ ground (arith, nobody)

      with_role :
          any (collaborates project_id collaborator_id) w.ai.collaborators ≡ true
          → any (is_editor project_id collaborator_id) (
              replace
                (collaborates project_id collaborator_id)
                (λ c. record c { role = role })
                w.ai.collaborators)
            ≡ str_eq role "editor"
      with_role there =
          any-replace_all (collaborates project_id collaborator_id)
            (is_editor project_id collaborator_id) (λ c. record c { role = role })
            (str_eq role "editor") w.ai.collaborators (λ d t. ground (arith, t))
            (λ d t. ground (arith, t))
          ∙ ground (arith, there)

-- When the owner deletes a project, this succeeds, and neither the project nor any file, version,
-- thread, message or collaborator of it is left, while every other project, version and message is.
pub delete_project_clears :
    (sv : Services) (now project_id owner_id : ℕ) (w : World) (p : Project)
    (owned : sv.find_first (owned_by project_id owner_id) w.ai.projects ≡ some p)
    → let out = delete_project sv now project_id owner_id w in
      (out.0 ≡ ok tt)
      × (any (project_is project_id) out.1.ai.projects ≡ false)
      × (any (file_of project_id) out.1.ai.project_files ≡ false)
      × (any (version_in w project_id) out.1.ai.file_versions ≡ false)
      × (any (thread_of project_id) out.1.ai.threads ≡ false)
      × (any (message_in w project_id) out.1.ai.thread_messages ≡ false)
      × (any (collaborator_of project_id) out.1.ai.collaborators ≡ false)
      × ((q : Project)
          → Memᴰ q w.ai.projects
          → project_is project_id q ≡ false
          → Memᴰ q out.1.ai.projects)
      × ((v : FileVersion)
          → Memᴰ v w.ai.file_versions
          → version_in w project_id v ≡ false
          → Memᴰ v out.1.ai.file_versions)
      × ((m : ThreadMessage)
          → Memᴰ m w.ai.thread_messages
          → message_in w project_id m ≡ false
          → Memᴰ m out.1.ai.thread_messages)
unfolding delete_project
delete_project_clears sv now project_id owner_id w p owned =
    rw (owned, present, if◌then◌else◌)
      (
        refl,
        any-filter-not (project_is project_id) w.ai.projects,
        any-filter-not (file_of project_id) _,
        any-filter-not (version_in w project_id) w.ai.file_versions,
        any-filter-not (thread_of project_id) w.ai.threads,
        any-filter-not (message_in w project_id) w.ai.thread_messages,
        any-filter-not (collaborator_of project_id) w.ai.collaborators,
        filter_not-mem (project_is project_id) w.ai.projects,
        filter_not-mem (version_in w project_id) w.ai.file_versions,
        filter_not-mem (message_in w project_id) w.ai.thread_messages,
      )
  where
    present : any (project_is project_id) w.ai.projects ≡ true
    present =
        any_found sv (owned_by project_id owner_id) (project_is project_id) w.ai.projects p owned
          (and-true (p.id == project_id) (p.owner_id == owner_id)
            (sv.find_first_some (owned_by project_id owner_id) w.ai.projects owned).1).0
