-- ===== src/Executor/Transfer/Scope.antt =====
-- executor/file_transfer.go, `TransferFile`: what has to hold before a file is touched.
use vectrify_agent_runner.Base.{
  ℕ, ◌≡◌, ◌≢◌, ◌⊎◌, inl, inr, refl, Bool, true, false, not, Option, some, [], Text, codes, text_eq,
  text_eq_iff, if◌then◌else◌, has_prefix, Bool-cases,
}
use vectrify_agent_runner.Executor.Paths.{clean, components, Guarded, inside, refused, guard_path}
use vectrify_agent_runner.Executor.Paths.Containment.{IsBelow, guard_path-IsBelow}
use vectrify_agent_runner.Executor.Transfer.{
  Download, Upload, Files, TransferResult, download_file, transfer_to, transfer_file,
}

-- Either the files are as they were, or the call is that download to a path below the workspace.
abbrev pub IsScoped :
    (Text → Text)
    → Files
    → Text
    → Text
    → Text
    → ℕ
    → Bool
    → Download
    → Option (Files × TransferResult)
    → Type 0
IsScoped sha256 files workspace direction url limit overwrite d o =
    ((t : TransferResult) × (o ≡ some (files, t)))
    ⊎ ((has_prefix url (codes "https://") ≡ true)
        × (direction ≡ codes "download")
        × ((dest : Text) × IsBelow workspace dest
            × (o ≡ download_file sha256 files dest limit overwrite d)))

transfer_to-IsScoped :
    (sha256 : Text → Text) (files : Files) (workspace : Text) (cwd : Option Text)
    (direction url path : Text) (limit : ℕ) (overwrite : Bool) (d : Download) (u : Upload)
    → components workspace ≢ []
    → has_prefix url (codes "https://") ≡ true
    → (g : Guarded) → guard_path (clean workspace) cwd path ≡ g
    → IsScoped sha256 files workspace direction url limit overwrite d
        (transfer_to sha256 files direction limit overwrite d u g)
unfolding transfer_to
transfer_to-IsScoped sha256 files workspace cwd direction url path limit overwrite d u n p
      (refused e) g =
    inl (_, refl)
transfer_to-IsScoped sha256 files workspace cwd direction url path limit overwrite d u n p
      (inside dest) g =
    elim (Bool-cases (text_eq direction (codes "download"))) [
      | inl e ↦ rw e (
          inr (
            p,
            (text_eq_iff direction (codes "download")).0 e,
            (dest, guard_path-IsBelow workspace path cwd n g, refl),
          ))
      | inr e ↦ elim (Bool-cases (text_eq direction (codes "upload"))) [
        | inl f ↦ rw (e, f) (inl (_, refl))
        | inr f ↦ rw (e, f) (inl (_, refl))
      ]
    ]

unless-Holds :
    {A : Type 0} (P : A → Type 0) (b : Bool) (x y : A)
    → P x
    → ((b ≡ true) → P y)
    → P (if not b then x else y)
unless-Holds P true x y h k = k refl
unless-Holds P false x y h k = h

-- For a workspace root other than the root of the file system: a transfer leaves the files as they are,
-- or the URL begins with https://, the direction is a download, and what happens is a download to a
-- path below the workspace.
pub transfer_file-IsScoped :
    (sha256 : Text → Text) (files : Files) (workspace : Text) (cwd : Option Text)
    (direction url path : Text) (limit : ℕ) (overwrite : Bool) (d : Download) (u : Upload)
    → components workspace ≢ []
    → IsScoped sha256 files workspace direction url limit overwrite d
        (transfer_file sha256 files workspace cwd direction url path limit overwrite d u)
unfolding transfer_file
transfer_file-IsScoped sha256 files workspace cwd direction url path limit overwrite d u n =
    unless-Holds (IsScoped sha256 files workspace direction url limit overwrite d)
      (has_prefix url (codes "https://")) _ _ (inl (_, refl))
      (λ e.
        transfer_to-IsScoped sha256 files workspace cwd direction url path limit overwrite d u n e
          (guard_path (clean workspace) cwd path) refl)
