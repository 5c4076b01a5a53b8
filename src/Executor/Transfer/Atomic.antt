-- ===== src/Executor/Transfer/Atomic.antt =====
-- executor/file_transfer.go, `downloadFile`: the destination is replaced at once or not at all.
use vectrify_agent_runner.Base.{
  ℕ, ◌≤◌, ◌≡◌, ◌⊎◌, inl, inr, refl, sym, ◌∙◌, Bool, true, false, not, ◌&&◌, ◌||◌, Option, none,
  some, [], Text, text_eq, text_eq_refl, text_eq_iff, if◌then◌else◌, ltb, leb, length, lookup,
  insert, erase, lookup-insert, lookup-erase, IsDict, insert-IsDict, arith, ℤ, pos, int_lt,
}
use vectrify_agent_runner.Executor.Transfer.{
  TransferError, no_response, no_directory, file_exists, bad_status, too_large, flush_failed,
  rename_failed, Streamed, stream_with_limit, Download, Files, drop_temp, rename_temp,
  finish_download, to_temp, with_temp, with_response, is_there, download_file, TransferResult,
  transferred, failed,
}
use vectrify_agent_runner.Executor.Transfer.Streaming.{
  HasEnd, body, IsCopy, stream_with_limit-IsCopy,
}

-- Nothing but the temporary file can have changed, and it is gone if it can be removed.
abbrev pub IsUndone : Files → Text → Bool → Files → Type 0
IsUndone files temp removes after =
    ((q : Text) → text_eq temp q ≡ false → lookup q after ≡ lookup q files)
    × ((removes ≡ true) → lookup temp after ≡ none)

-- The destination has these bytes, the temporary file is gone, and nothing else has changed.
abbrev pub IsReplacedBy : Files → Text → Text → Text → Files → Type 0
IsReplacedBy files dest temp bytes after =
    (lookup dest after ≡ some bytes)
    × (lookup temp after ≡ none)
    × ((q : Text)
        → text_eq temp q ≡ false
        → text_eq dest q ≡ false
        → lookup q after ≡ lookup q files)

abbrev pub IsDownload :
    (Text → Text) → Files → Text → ℕ → Download → Text → Files × TransferResult → Type 0
IsDownload sha256 files dest limit d temp r =
    ((r.1 ≡ transferred (length (body d.reads)) (sha256 (body d.reads)))
      × (length (body d.reads) ≤ limit)
      × IsReplacedBy files dest temp (body d.reads) r.0)
    ⊎ ((e : TransferError) × (r.1 ≡ failed e) × IsUndone files temp d.removes r.0)

copied :
    (limit : ℕ) (s : Streamed) (d : Download)
    → IsCopy limit [] d.reads s
    → s.error ≡ none
    → (body d.reads ≡ s.written) × (s.total ≡ length s.written) × (length s.written ≤ limit)
copied limit s d (l, inl (a, b, c)) q = (sym b, c, l)
copied limit s d (l, inr (inl (a, b))) q = cc
copied limit s d (l, inr (inr (inl (a, b)))) q = cc
copied limit s d (l, inr (inr (inr (a, b)))) q = cc

either : {A : Type 0} (P : A → Type 0) (b : Bool) (x y : A) → P x → P y → P (if b then x else y)
either P true x y h k = h
either P false x y h k = k

module _ (sha256 : Text → Text) (files : Files) (dest temp : Text) (d : Download)
    (dict : IsDict files) (fresh : lookup temp files ≡ none)
    (other : text_eq temp dest ≡ false) where
  unchanged : IsUndone files temp d.removes files
  unchanged = (λ q n. refl, λ e. fresh)

  lookup-temp :
      (bytes q : Text)
      → text_eq temp q ≡ false
      → lookup q (insert temp bytes files) ≡ lookup q files
  lookup-temp bytes q n = lookup-insert temp q bytes files ∙ rw n refl

  drop_temp-IsUndone :
      (bytes : Text) (removes : Bool)
      → IsUndone files temp removes (drop_temp (insert temp bytes files) temp removes)
  unfolding drop_temp
  drop_temp-IsUndone bytes true = (
    λ q n.
        lookup-erase temp q (insert temp bytes files) (insert-IsDict temp bytes files dict)
        ∙ rw n (lookup-temp bytes q n),
    λ e.
        lookup-erase temp temp (insert temp bytes files) (insert-IsDict temp bytes files dict)
        ∙ rw (text_eq_refl temp) refl,
  )
  drop_temp-IsUndone bytes false = (λ q n. lookup-temp bytes q n, λ e. cc)

  renamed-IsReplacedBy :
      (bytes : Text)
      → IsReplacedBy files dest temp bytes
          (insert dest bytes (erase temp (insert temp bytes files)))
  renamed-IsReplacedBy bytes =
      let partial = insert temp bytes files in
      let pd = insert-IsDict temp bytes files dict in
      let back : text_eq dest temp ≡ false =
        ground (arith, other, text_eq_iff temp dest, text_eq_iff dest temp) in
      (
        lookup-insert dest dest bytes (erase temp partial) ∙ rw (text_eq_refl dest) refl,
        lookup-insert dest temp bytes (erase temp partial)
            ∙ rw back (lookup-erase temp temp partial pd ∙ rw (text_eq_refl temp) refl),
        λ q n m.
            lookup-insert dest q bytes (erase temp partial)
            ∙ rw m (lookup-erase temp q partial pd ∙ rw n (lookup-temp bytes q n)),
      )

  finish-IsDownload :
      (limit : ℕ) (s : Streamed)
      → IsCopy limit [] d.reads s
      → (error : Option TransferError) → s.error ≡ error
      → IsDownload sha256 files dest limit d temp
          (rename_temp sha256 (insert temp s.written files) dest d temp s error)
  unfolding rename_temp
  finish-IsDownload limit s c (some e) q = inr (e, refl, drop_temp-IsUndone s.written d.removes)
  finish-IsDownload limit s c none q =
      let P = IsDownload sha256 files dest limit d temp in
      let (w, n, l) = copied limit s d c q in
      either P (not d.closes) _ _ (inr (flush_failed, refl, drop_temp-IsUndone s.written d.removes))
        (either P (not d.renames) _ _
          (inr (rename_failed, refl, drop_temp-IsUndone s.written d.removes))
          (inl (rw (w, n) (refl, l, renamed-IsReplacedBy s.written))))

  -- What the whole comes to, if the loop of the copy returns.
  abbrev Comes : ℕ → Option (Files × TransferResult) → Type 0
  Comes limit o =
      (r : Files × TransferResult) × (o ≡ some r) × IsDownload sha256 files dest limit d temp r

  refused-Comes : (limit : ℕ) (e : TransferError) → Comes limit (some (files, failed e))
  refused-Comes limit e = ((files, failed e), refl, inr (e, refl, unchanged))

  to_temp-Comes :
      (limit : ℕ)
      → HasEnd d.reads
      → Comes limit (to_temp sha256 files dest d temp (stream_with_limit limit d.reads))
  unfolding to_temp finish_download
  to_temp-Comes limit h =
      let (s, e, c) = stream_with_limit-IsCopy limit d.reads h in
      rw e (
        rename_temp sha256 (insert temp s.written files) dest d temp s s.error,
        refl,
        finish-IsDownload limit s c s.error refl,
      )

  with_response-Comes :
      (limit : ℕ)
      → HasEnd d.reads
      → d.temp ≡ some temp
      → (answer : Option (ℕ × ℤ)) → Comes limit (with_response sha256 files dest limit d answer)
  unfolding with_response with_temp
  with_response-Comes limit h t none = refused-Comes limit no_response
  with_response-Comes limit h t (some (status, size)) =
      either (Comes limit) (ltb status 200 || leb 300 status) _ _ (refused-Comes limit bad_status) (
        either (Comes limit) (int_lt (pos limit) size) _ _ (refused-Comes limit too_large)
          (rw t (to_temp-Comes limit h)))

  -- A download whose body ends, for a temporary file that is new: it returns. Either the destination
  -- has the bytes of the body, which are within the limit, with their number and their hash returned,
  -- and no other file has changed; or there is an error, and no file has changed but for the temporary
  -- one, which is gone if it can be removed. An existing file is replaced only where that is asked for.
  pub download_file-IsDownload :
      (limit : ℕ) (overwrite : Bool)
      → HasEnd d.reads
      → d.temp ≡ some temp
      → ((r : Files × TransferResult) × (download_file sha256 files dest limit overwrite d ≡ some r)
          × IsDownload sha256 files dest limit d temp r)
        × (overwrite ≡ false
            → (bytes : Text) → lookup dest files ≡ some bytes
            → download_file sha256 files dest limit overwrite d ≡ some (files, failed file_exists))
  unfolding download_file is_there
  download_file-IsDownload limit overwrite h t = (
    either (Comes limit) (is_there (lookup dest files) && not overwrite) _ _
        (refused-Comes limit file_exists)
        (either (Comes limit) (not d.directory) _ _ (refused-Comes limit no_directory)
          (with_response-Comes limit h t d.response)),
    λ o bytes e. rw (o, e) refl,
  )
