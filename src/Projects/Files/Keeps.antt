-- ===== src/Projects/Files/Keeps.antt =====
-- What a change of files leaves behind: each operation of Projects.Files keeps the files and
-- their versions consistent (src/intelligence/intelligence.service.ts).
use auth_backend.Base.{
  ℕ, ◌+◌, ◌<◌, ◌≡◌, refl, ap, Bool, true, false, String, some, List, [], ◌∷◌, ◌++◌, Memᴰ, any, inl,
  inr, Bool-cases, ◌==◌, ==_iff, arith, if◌then◌else◌, mem-append_one, includes, ◌⊎◌, str_eq,
  eq_iff, eq_refl,
}
use auth_backend.Model.{World}
use auth_backend.Model.Ai.{ProjectFile, FileVersion}
use auth_backend.Action.{Result, ok, err, Action, continue}
use auth_backend.Store.Rows.{replace-mem}
use auth_backend.Projects.Store.{file_is, same_version, committed}
use auth_backend.Projects.Files.{
  NewFile, Commit, at_path, has_duplicates, paths_of, new_file, add_version, store_file,
  store_files,
}
use auth_backend.Projects.Files.History.{count}
use auth_backend.Projects.Files.Consistent.{
  IsConsistent, none_exempt, IsConsistent-add_version, IsConsistent-add_file, count-next,
}

abbrev pub IsConsistentIn : World → Type 0
IsConsistentIn w = IsConsistent none_exempt w.next_id w.ai.project_files w.ai.file_versions

-- What holds of the world if the action returned.
abbrev pub Lands : {A : Type 0} → (World → Type 0) → Result A × World → Type 0
Lands P (ok a, w) = P w
Lands P (err e, w) = Unit

-- A transaction ends in a world where it landed, or where it began.
pub transaction_keeps :
    {A B : Type 0} (P : World → Type 0) (m : Action A) (f : A → B) (w : World)
    → P w
    → Lands P (m w)
    → P (continue (λ a v. (ok (f a), v)) (committed w (m w))).1
transaction_keeps {A = A} {B = B} P m f w h l = ends (m w) l
  where
    ends :
        (out : Result A × World)
        → Lands P out
        → P (continue {B = B} (λ a v. (ok (f a), v)) (committed w out)).1
    ends (ok a, v) l = l
    ends (err e, v) l = h

pub committed_keeps :
    {A : Type 0} (P : World → Type 0) (out : Result A × World) (w : World)
    → P w
    → Lands P out
    → P (committed w out).1
committed_keeps P (ok a, v) w h l = l
committed_keeps P (err e, v) w h l = h

Lands-bind :
    {A B : Type 0} (P Q : World → Type 0) (out : Result A × World) (f : A → Action B)
    → Lands P out
    → ((a : A) (v : World) → P v → Lands Q (f a v))
    → Lands Q (continue f out)
Lands-bind P Q (ok a, v) f l next = next a v l
Lands-bind P Q (err e, v) f l next = tt

pub Lands-map :
    {A : Type 0} (P Q : World → Type 0) (out : Result A × World)
    → Lands P out
    → ((v : World) → P v → Q v)
    → Lands Q out
Lands-map P Q (ok a, v) l into = into v l
Lands-map P Q (err e, v) l into = tt

distinct :
    (s : String) (ss : List String)
    → has_duplicates (s ∷ ss) ≡ false
    → ((t : String) → includes ss t ≡ true → str_eq s t ≡ false) × (has_duplicates ss ≡ false)
distinct s ss once = elim (Bool-cases (includes ss s)) [
  | inl again ↦ absurd (ground (arith, again, once))
  | inr new ↦ (
    λ t m. elim (Bool-cases (str_eq s t)) [
      | inl e ↦ absurd (differs t new m e)
      | inr other ↦ other
    ],
    ground (arith, new, once),
  )
]
  where
    differs : (t : String) → includes ss s ≡ false → includes ss t ≡ true → str_eq s t ≡ true → ⊥
    differs t new m e = cc (ap (includes ss) ((eq_iff s t).0 e))

-- No file of the project is at the path.
abbrev pub IsFree : ℕ → String → World → Type 0
IsFree project_id path w =
    (g : ProjectFile) → Memᴰ g w.ai.project_files → at_path project_id path g ≡ false

-- Consistent, and no path is taken that was free.
abbrev pub LandsAs : World → World → Type 0
LandsAs w v =
    IsConsistentIn v
    × ((project_id : ℕ) (path : String) → IsFree project_id path w → IsFree project_id path v)

module _ (now user_id : ℕ) (f : ProjectFile) (n : ℕ) (commit : Commit) (w : World)
    (exempt : ℕ → Bool) (h : IsConsistent exempt w.next_id w.ai.project_files w.ai.file_versions)
    (known : f.id < w.next_id) (numbered : n ≡ count f.id w.ai.file_versions + 1)
    (covers : (j : ℕ) → exempt j ≡ true → j ≡ f.id) where
  pub add_version-Lands : Lands (LandsAs w) (add_version now user_id f n commit w)
  add_version-Lands = elim (Bool-cases (any (same_version row) w.ai.file_versions)) [
    | inl clash ↦ rw (clash, if◌then◌else◌) tt
    | inr new ↦ elim (Bool-cases (any (file_is f.id) w.ai.project_files)) [
      | inl there ↦
          rw (new, if◌then◌else◌, there, if◌then◌else◌)
            (
              IsConsistent-add_version h row refl known numbered covers change (λ g. refl)
                  (λ g. refl) (λ g. refl) (λ g. refl),
              λ project_id path free g m.
                  let (k, l, e) = replace-mem (file_is f.id) change w.ai.project_files g m in
                  rw e (stays project_id path k (free k l) (Bool-cases (file_is f.id k))),
            )
      | inr gone ↦ rw (new, if◌then◌else◌, gone, if◌then◌else◌) tt
    ]
  ]
    where
      row : FileVersion
      row = record {
        id = w.next_id;
        file_id = f.id;
        version = n;
        content = commit.content;
        commit_msg = some commit.commit_msg;
        author_id = some user_id;
        created_at = now;
        is_deleted = commit.is_deleted;
      }

      change : ProjectFile → ProjectFile
      change g = record g {
        current_version_id = some row.id;
        updated_at = now;
        is_deleted = if commit.is_deleted then true else g.is_deleted;
      }

      stays :
          (project_id : ℕ) (path : String) (k : ProjectFile)
          → at_path project_id path k ≡ false
          → (file_is f.id k ≡ true) ⊎ (file_is f.id k ≡ false)
          → at_path project_id path (if file_is f.id k then change k else k) ≡ false
      stays project_id path k free (inl e) = rw (e, if◌then◌else◌) free
      stays project_id path k free (inr e) = rw (e, if◌then◌else◌) free

module _ (now project_id user_id : ℕ) where
  pub store_file-Lands :
      (dto : NewFile) (w : World)
      → IsConsistentIn w
      → IsFree project_id dto.path w
      → Lands
          (λ v.
            IsConsistentIn v
            × ((path : String)
                → IsFree project_id path w
                → str_eq dto.path path ≡ false
                → IsFree project_id path v))
          (store_file now project_id user_id dto w)
  store_file-Lands dto w h free =
      Lands-map (LandsAs w₁) _ (store_file now project_id user_id dto w)
        (add_version-Lands now user_id f 1 _ w₁ (λ j. j == w.next_id)
          (IsConsistent-add_file h f refl free) (omega arith) (omega (arith, count-next h))
          (λ j e. (==_iff j w.next_id).0 e))
        (λ v (k, kept). (k, λ path clear other. kept project_id path (still_free path clear other)))
    where
      f : ProjectFile
      f = new_file now project_id dto w.next_id

      w₁ : World
      w₁ =
          let t = w.ai in
          record w {
            next_id = w.next_id + 1;
            ai = record t { project_files = w.ai.project_files ++ f ∷ [] };
          }

      still_free :
          (path : String)
          → IsFree project_id path w
          → str_eq dto.path path ≡ false
          → IsFree project_id path w₁
      still_free path clear other g m = elim (mem-append_one w.ai.project_files f m) [
        | inl k ↦ clear g k
        | inr is_f ↦ rw is_f (ground (arith, other))
      ]

  pub store_files-Lands :
      (files : List NewFile) (w : World)
      → IsConsistentIn w
      → ((path : String) → includes (paths_of files) path ≡ true → IsFree project_id path w)
      → has_duplicates (paths_of files) ≡ false
      → Lands IsConsistentIn (store_files now project_id user_id files w)
  store_files-Lands [] w h free once = h
  store_files-Lands (dto ∷ rest) w h free once =
      Lands-bind
        (λ v.
          IsConsistentIn v
          × ((path : String)
              → IsFree project_id path w
              → str_eq dto.path path ≡ false
              → IsFree project_id path v))
        IsConsistentIn (store_file now project_id user_id dto w) _
        (store_file-Lands dto w h (free dto.path (ground (arith, eq_refl dto.path))))
        (λ f v (k, kept).
          Lands-bind IsConsistentIn IsConsistentIn (store_files now project_id user_id rest v) _
            (store_files-Lands rest v k
              (λ path m.
                kept path (free path (ground (arith, m)))
                  ((distinct dto.path (paths_of rest) once).0 path m))
              (distinct dto.path (paths_of rest) once).1)
            (λ fs u l. l))
