-- ===== src/Projects/Files.antt =====
-- The files of a project and their versions: createProjectFile, initializeProjectFiles,
-- updateProjectFile, revertProjectFile and deleteProjectFile
-- (src/intelligence/intelligence.service.ts). A file comes back with its current version.
pub mod History
pub mod Consistent
pub mod Keeps
pub mod Requests
pub mod People
use auth_backend.Base.{
  ℕ, ◌+◌, String, Bool, true, false, not, ◌&&◌, Option, none, some, List, [], ◌∷◌, map, any, take,
  includes, text_or, is_none, str_eq, ◌==◌, if◌then◌else◌,
}
use auth_backend.Base.Text.{concat, decimal}
use auth_backend.Model.{World}
use auth_backend.Model.Ai.{ProjectFile, FileVersion}
use auth_backend.Action.{
  Exception, Action, pure, gets, or_raise, not_found, bad_request, raise_if, ◌>>=◌, ◌>>◌,
}
use auth_backend.Services.{Services}
use auth_backend.Store.{create, create_unique, update, find_first}
use auth_backend.Projects.Store.{
  project_files_table, file_versions_table, same_version, file_is, is_editable, require_project,
  transaction,
}

-- `CreateProjectFileDto`.
pub record NewFile : Type 0 where
  pub name : String
  pub path : String
  pub content : String
  pub commit_msg : Option String

-- What a new version holds beside its file, its number and its author.
pub record Commit : Type 0 where
  pub content : String
  pub commit_msg : String
  pub is_deleted : Bool

-- A request to change the files of a project.
pub data FileRequest : Type 0 where
  creates : NewFile → FileRequest
  initializes : List NewFile → FileRequest
  updates : ℕ → String → Option String → FileRequest
  reverts : ℕ → ℕ → Option String → FileRequest
  deletes : ℕ → FileRequest

abbrev pub at_path : ℕ → String → ProjectFile → Bool
at_path project_id path f = f.project_id == project_id && str_eq f.path path

abbrev pub in_project : ℕ → ℕ → ProjectFile → Bool
in_project project_id file_id f = f.id == file_id && f.project_id == project_id

abbrev pub of_file : ℕ → FileVersion → Bool
of_file file_id v = v.file_id == file_id

abbrev pub is_version : ℕ → ℕ → FileVersion → Bool
is_version file_id n v = v.file_id == file_id && v.version == n

-- `new Set(paths).size !== paths.length`.
abbrev pub has_duplicates : List String → Bool
has_duplicates [] = false
has_duplicates (s ∷ ss) = if includes ss s then true else has_duplicates ss

abbrev pub paths_of : List NewFile → List String
paths_of files = map (λ (dto : NewFile). dto.path) files

abbrev pub next_version : List FileVersion → ℕ
next_version [] = 1
next_version (v ∷ _) = v.version + 1

-- The messages of exceptions that name paths and numbers are shortened.
abbrev pub no_edit_access : String
no_edit_access = "Project not found or you do not have edit access"

abbrev pub path_taken : Exception
path_taken = bad_request "A file with this path already exists in this project"

abbrev pub file_not_found : Exception
file_not_found = not_found "File not found"

module _ (now : ℕ) where
  -- A new version of a file, which becomes its current one.
  abbrev pub add_version : ℕ → ProjectFile → ℕ → Commit → Action (ProjectFile × FileVersion)
  add_version user_id f n commit = do
    v ← create_unique file_versions_table same_version (λ i. record {
      id = i;
      file_id = f.id;
      version = n;
      content = commit.content;
      commit_msg = some commit.commit_msg;
      author_id = some user_id;
      created_at = now;
      is_deleted = commit.is_deleted;
    })
    update project_files_table (file_is f.id) (λ g. record g {
      current_version_id = some v.id;
      updated_at = now;
      is_deleted = if commit.is_deleted then true else g.is_deleted;
    })
    pure (
      record f {
        current_version_id = some v.id;
        updated_at = now;
        is_deleted = if commit.is_deleted then true else f.is_deleted;
      },
      v,
    )

  abbrev pub new_file : ℕ → NewFile → ℕ → ProjectFile
  new_file project_id dto i = record {
    id = i;
    project_id = project_id;
    name = dto.name;
    path = dto.path;
    current_version_id = none;
    created_at = now;
    updated_at = now;
    is_deleted = false;
  }

  -- The file and its first version.
  abbrev pub store_file : ℕ → ℕ → NewFile → Action (ProjectFile × FileVersion)
  store_file project_id user_id dto = do
    f ← create project_files_table (new_file project_id dto)
    add_version user_id f 1 (record {
      content = dto.content;
      commit_msg = text_or dto.commit_msg "Initial version";
      is_deleted = false;
    })

  abbrev pub store_files : ℕ → ℕ → List NewFile → Action (List (ProjectFile × FileVersion))
  store_files project_id user_id [] = pure []
  store_files project_id user_id (dto ∷ rest) = do
    f ← store_file project_id user_id dto
    fs ← store_files project_id user_id rest
    pure (f ∷ fs)

module _ (sv : Services) where
  abbrev pub require_editable : ℕ → ℕ → Action (Unit {0})
  require_editable project_id user_id = do
    require_project sv (λ w. is_editable w project_id user_id) no_edit_access
    pure tt

  abbrev pub require_file : ℕ → ℕ → Action ProjectFile
  require_file project_id file_id = do
    f ← find_first sv project_files_table (in_project project_id file_id)
    or_raise f file_not_found

  -- The versions of a file, the greatest number first, and one of them.
  abbrev pub latest_version : ℕ → Action (List FileVersion)
  latest_version file_id =
      gets (λ w. take 1 (sv.find_ordered (of_file file_id) (λ v. v.version) w.ai.file_versions))

module _ (sv : Services) (now : ℕ) where
  unfoldable pub create_project_file : ℕ → NewFile → ℕ → Action (List (ProjectFile × FileVersion))
  create_project_file project_id dto user_id = do
    require_editable sv project_id user_id
    existing ← find_first sv project_files_table (at_path project_id dto.path)
    raise_if (not (is_none existing)) path_taken
    f ← transaction (store_file now project_id user_id dto)
    pure (f ∷ [])

  unfoldable pub initialize_project_files :
      ℕ → List NewFile → ℕ → Action (List (ProjectFile × FileVersion))
  initialize_project_files project_id files user_id = do
    require_editable sv project_id user_id
    let paths = paths_of files
    raise_if (has_duplicates paths) (bad_request "Duplicate file paths detected")
    existing ← gets (λ w.
        sv.find_many (λ f. f.project_id == project_id && includes paths f.path) w.ai.project_files)
    raise_if (any (λ f. true) existing) path_taken
    transaction (store_files now project_id user_id files)

  unfoldable pub update_project_file :
      ℕ → ℕ → String → Option String → ℕ → Action (List (ProjectFile × FileVersion))
  update_project_file project_id file_id content commit_msg user_id = do
    require_editable sv project_id user_id
    f ← require_file sv project_id file_id
    latest ← latest_version sv f.id
    g ← transaction (
        add_version now user_id f (next_version latest) (record {
          content = content;
          commit_msg = text_or commit_msg (concat ("Updated file " ∷ f.name ∷ []));
          is_deleted = false;
        }))
    pure (g ∷ [])

  unfoldable pub revert_project_file :
      ℕ → ℕ → ℕ → Option String → ℕ → Action (List (ProjectFile × FileVersion))
  revert_project_file project_id file_id n commit_msg user_id = do
    require_editable sv project_id user_id
    f ← require_file sv project_id file_id
    found ← find_first sv file_versions_table (is_version file_id n)
    old ← or_raise found (not_found "Version not found for this file")
    latest ← latest_version sv file_id
    g ← transaction (
        add_version now user_id f (next_version latest) (record {
          content = old.content;
          commit_msg = text_or commit_msg (concat ("Reverted to version " ∷ decimal n ∷ []));
          is_deleted = false;
        }))
    pure (g ∷ [])

  unfoldable pub delete_project_file : ℕ → ℕ → ℕ → Action (List (ProjectFile × FileVersion))
  delete_project_file project_id file_id user_id = do
    require_editable sv project_id user_id
    f ← require_file sv project_id file_id
    latest ← latest_version sv f.id
    g ← transaction (
        add_version now user_id f (next_version latest) (record {
          content = "";
          commit_msg = concat ("Deleted file " ∷ f.name ∷ []);
          is_deleted = true;
        }))
    pure (g ∷ [])

  abbrev pub change_files : ℕ → ℕ → FileRequest → Action (List (ProjectFile × FileVersion))
  change_files project_id user_id (creates dto) = create_project_file project_id dto user_id
  change_files project_id user_id (initializes files) =
      initialize_project_files project_id files user_id
  change_files project_id user_id (updates file_id content commit_msg) =
      update_project_file project_id file_id content commit_msg user_id
  change_files project_id user_id (reverts file_id n commit_msg) =
      revert_project_file project_id file_id n commit_msg user_id
  change_files project_id user_id (deletes file_id) = delete_project_file project_id file_id user_id
