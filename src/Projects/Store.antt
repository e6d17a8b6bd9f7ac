-- ===== src/Projects/Store.antt =====
-- The tables of projects and threads, their unique columns, who may see and edit a project
-- (the conditions of the queries in src/intelligence/intelligence.service.ts), and
-- `prisma.$transaction`.
use auth_backend.Base.{ℕ, Bool, ◌&&◌, ◌||◌, String, any, str_eq, ◌==◌}
use auth_backend.Model.{World}
use auth_backend.Model.Ai.{
  Thread, ThreadMessage, Project, Collaborator, ProjectFile, FileVersion, AiTables,
}
use auth_backend.Action.{Result, ok, err, Action, gets, or_raise, not_found, ◌>>=◌}
use auth_backend.Services.{Services}
use auth_backend.Store.{Table}

abbrev pub with_ai : World → AiTables → World
with_ai w t = record w { ai = t }

abbrev pub threads_table : Table Thread
threads_table = record {
  rows = λ w. w.ai.threads;
  put = λ rs w. let t = w.ai in with_ai w (record t { threads = rs });
}

abbrev pub thread_messages_table : Table ThreadMessage
thread_messages_table = record {
  rows = λ w. w.ai.thread_messages;
  put = λ rs w. let t = w.ai in with_ai w (record t { thread_messages = rs });
}

abbrev pub projects_table : Table Project
projects_table = record {
  rows = λ w. w.ai.projects;
  put = λ rs w. let t = w.ai in with_ai w (record t { projects = rs });
}

abbrev pub collaborators_table : Table Collaborator
collaborators_table = record {
  rows = λ w. w.ai.collaborators;
  put = λ rs w. let t = w.ai in with_ai w (record t { collaborators = rs });
}

abbrev pub project_files_table : Table ProjectFile
project_files_table = record {
  rows = λ w. w.ai.project_files;
  put = λ rs w. let t = w.ai in with_ai w (record t { project_files = rs });
}

abbrev pub file_versions_table : Table FileVersion
file_versions_table = record {
  rows = λ w. w.ai.file_versions;
  put = λ rs w. let t = w.ai in with_ai w (record t { file_versions = rs });
}

-- `@@unique([fileId, version])` of versions, `@@id([projectId, userId])` of collaborators.
abbrev pub same_version : FileVersion → FileVersion → Bool
same_version v u = v.file_id == u.file_id && v.version == u.version

abbrev pub collaborates : ℕ → ℕ → Collaborator → Bool
collaborates project_id user_id c = c.project_id == project_id && c.user_id == user_id

abbrev pub same_collaborator : Collaborator → Collaborator → Bool
same_collaborator c d = collaborates c.project_id c.user_id d

abbrev pub project_is : ℕ → Project → Bool
project_is i p = p.id == i

abbrev pub file_is : ℕ → ProjectFile → Bool
file_is i f = f.id == i

abbrev pub owned_by : ℕ → ℕ → Project → Bool
owned_by project_id user_id p = p.id == project_id && p.owner_id == user_id

-- `collaborators: { some: { userId } }`, and with `role: 'editor'`.
abbrev pub has_collaborator : World → ℕ → Project → Bool
has_collaborator w user_id p = any (collaborates p.id user_id) w.ai.collaborators

abbrev pub is_editor : ℕ → ℕ → Collaborator → Bool
is_editor project_id user_id c = collaborates project_id user_id c && str_eq c.role "editor"

abbrev pub has_editor : World → ℕ → Project → Bool
has_editor w user_id p = any (is_editor p.id user_id) w.ai.collaborators

abbrev pub is_visible : World → ℕ → ℕ → Project → Bool
is_visible w project_id user_id p =
    p.id == project_id && (p.owner_id == user_id || has_collaborator w user_id p)

abbrev pub is_editable : World → ℕ → ℕ → Project → Bool
is_editable w project_id user_id p =
    p.id == project_id && (p.owner_id == user_id || has_editor w user_id p)

-- The project that meets a condition, or the exception with a message.
abbrev pub require_project : Services → (World → Project → Bool) → String → Action Project
require_project sv test message = do
  p ← gets (λ w. sv.find_first (test w) w.ai.projects)
  or_raise p (not_found message)

abbrev pub committed : {A : Type 0} → World → Result A × World → Result A × World
committed w (ok a, v) = (ok a, v)
committed w (err e, v) = (err e, w)

-- A transaction that throws leaves the database as it was.
abbrev pub transaction : {A : Type 0} → Action A → Action A
transaction m w = committed w (m w)
