-- ===== src/Executor/Transfer.antt =====
-- executor/file_transfer.go: copies between the workspace and a presigned URL. Answers of the network
-- and of the system are given; a file is its bytes. Sizes are far below the largest int64.
pub mod Streaming
pub mod Atomic
pub mod Scope
mod Tests
use vectrify_agent_runner.Base.{
  ℕ, suc, ◌+◌, ◌-◌, ◌≡◌, ◌==◌, Bool, true, false, not, ◌&&◌, ◌||◌, Option, none, some, List, [],
  ◌∷◌, ◌++◌, Text, codes, text_eq, if◌then◌else◌, ltb, leb, length, has_prefix, lookup, insert,
  erase, ℤ, pos, negsuc, pos_part, int_lt,
}
use vectrify_agent_runner.Executor.Paths.{clean, Guarded, inside, refused, guard_path}

pub data TransferError : Type 0 where
  not_https bad_path unknown_direction : TransferError
  file_exists no_directory no_response bad_status too_large no_temp : TransferError
  write_failed read_failed flush_failed rename_failed : TransferError
  file_not_found is_directory cannot_open : TransferError

-- What a read of the body ends with, besides the bytes it brings.
pub data ReadEnd : Type 0 where
  more eof broken : ReadEnd

-- One read of at most 32 KiB, and whether these bytes can be written.
pub record Read : Type 0 where
  pub bytes : Text
  pub writable : Bool
  pub read_end : ReadEnd

-- Where `streamWithLimit` stands: the total, and the bytes given to the file and to the hash.
pub record Streamed : Type 0 where
  pub total : ℕ
  pub written : Text
  pub error : Option TransferError

-- What a round of the loop comes to.
pub data Round : Type 0 where
  goes_on returns : Streamed → Round

round_end : Streamed → ReadEnd → Round
round_end s more = goes_on s
round_end s eof = returns s
round_end s broken = returns (record s { error = some read_failed })

unfoldable pub round : ℕ → Streamed → Read → Round
unfolding round_end
round limit s r =
    let total = s.total + length r.bytes in
    if length r.bytes == 0
    then round_end s r.read_end
    else if ltb limit total
    then returns (record s { total = total; error = some too_large })
    else if not r.writable
    then returns (record s { total = total; error = some write_failed })
    else round_end (record s { total = total; written = s.written ++ r.bytes }) r.read_end

-- The loop over the reads; `none` while another read is waited for.
unfoldable pub stream_from : ℕ → Round → List Read → Option Streamed
unfolding round
stream_from limit (returns s) rs = some s
stream_from limit (goes_on s) [] = none
stream_from limit (goes_on s) (r ∷ rs) = stream_from limit (round limit s r) rs

-- `streamWithLimit`, for a limit that is not negative.
unfoldable pub stream_with_limit : ℕ → List Read → Option Streamed
unfolding stream_from
stream_with_limit limit rs =
    stream_from limit (goes_on (record { total = 0; written = []; error = none })) rs

pub data TransferResult : Type 0 where
  -- the number of bytes and the hash
  transferred : ℕ → Text → TransferResult
  failed : TransferError → TransferResult

-- The files and what the network and the system answer to `downloadFile`: whether the directory is
-- there, the status and the length of the response, the path of the temporary file, the reads, whether
-- it can be closed, renamed and removed.
pub record Download : Type 0 where
  pub directory : Bool
  pub response : Option (ℕ × ℤ)
  pub temp : Option Text
  pub reads : List Read
  pub closes : Bool
  pub renames : Bool
  pub removes : Bool

-- A map from paths to contents.
abbrev pub Files : Type 0
Files = List (Text × Text)

-- The deferred call on an error path.
drop_temp : Files → Text → Bool → Files
drop_temp files temp removes = if removes then erase temp files else files

-- From the end of the streaming on, the bytes written standing in the temporary file.
rename_temp :
    (Text → Text)
    → Files
    → Text
    → Download
    → Text
    → Streamed
    → Option TransferError
    → Files × TransferResult
unfolding drop_temp
rename_temp sha256 files dest d temp s (some e) = (drop_temp files temp d.removes, failed e)
rename_temp sha256 files dest d temp s none =
    if not d.closes
    then (drop_temp files temp d.removes, failed flush_failed)
    else if not d.renames
    then (drop_temp files temp d.removes, failed rename_failed)
    else (insert dest s.written (erase temp files), transferred s.total (sha256 s.written))

finish_download : (Text → Text) → Files → Text → Download → Text → Streamed → Files × TransferResult
unfolding rename_temp
finish_download sha256 files dest d temp s =
    rename_temp sha256 (insert temp s.written files) dest d temp s s.error

to_temp :
    (Text → Text)
    → Files
    → Text
    → Download
    → Text
    → Option Streamed
    → Option (Files × TransferResult)
unfolding finish_download
to_temp sha256 files dest d temp none = none
to_temp sha256 files dest d temp (some s) = some (finish_download sha256 files dest d temp s)

with_temp :
    (Text → Text) → Files → Text → ℕ → Download → Option Text → Option (Files × TransferResult)
unfolding to_temp stream_with_limit
with_temp sha256 files dest limit d none = some (files, failed no_temp)
with_temp sha256 files dest limit d (some temp) =
    to_temp sha256 files dest d temp (stream_with_limit limit d.reads)

with_response :
    (Text → Text) → Files → Text → ℕ → Download → Option (ℕ × ℤ) → Option (Files × TransferResult)
unfolding with_temp
with_response sha256 files dest limit d none = some (files, failed no_response)
with_response sha256 files dest limit d (some (status, size)) =
    if ltb status 200 || leb 300 status
    then some (files, failed bad_status)
    else if int_lt (pos limit) size
    then some (files, failed too_large)
    else with_temp sha256 files dest limit d d.temp

is_there : Option Text → Bool
is_there none = false
is_there (some bytes) = true

-- `downloadFile`; `none` while a read is waited for.
unfoldable pub download_file :
    (Text → Text) → Files → Text → ℕ → Bool → Download → Option (Files × TransferResult)
unfolding with_response is_there
download_file sha256 files dest limit overwrite d =
    if is_there (lookup dest files) && not overwrite
    then some (files, failed file_exists)
    else if not d.directory
    then some (files, failed no_directory)
    else with_response sha256 files dest limit d d.response

-- What the system and the network answer to `uploadFile`: the size and whether it is a directory, the
-- bytes that are read from the file and sent, and the status of the response.
pub record Upload : Type 0 where
  pub stat : Option (ℕ × Bool)
  pub opened : Option Text
  pub status : Option ℕ

upload_sent : (Text → Text) → ℕ → Text → Option ℕ → TransferResult
upload_sent sha256 size bytes none = failed no_response
upload_sent sha256 size bytes (some status) =
    if ltb status 200 || leb 300 status then failed bad_status else transferred size (sha256 bytes)

upload_opened : (Text → Text) → ℕ → Upload → Option Text → TransferResult
unfolding upload_sent
upload_opened sha256 size u none = failed cannot_open
upload_opened sha256 size u (some bytes) = upload_sent sha256 size bytes u.status

upload_stat : (Text → Text) → ℕ → Upload → Option (ℕ × Bool) → TransferResult
unfolding upload_opened
upload_stat sha256 limit u none = failed file_not_found
upload_stat sha256 limit u (some (size, is_dir)) =
    if is_dir
    then failed is_directory
    else if ltb limit size
    then failed too_large
    else upload_opened sha256 size u u.opened

-- `uploadFile`
unfoldable pub upload_file : (Text → Text) → ℕ → Upload → TransferResult
unfolding upload_stat
upload_file sha256 limit u = upload_stat sha256 limit u u.stat

transfer_to :
    (Text → Text)
    → Files
    → Text
    → ℕ
    → Bool
    → Download
    → Upload
    → Guarded
    → Option (Files × TransferResult)
unfolding download_file upload_file
transfer_to sha256 files direction limit overwrite d u (refused e) = some (files, failed bad_path)
transfer_to sha256 files direction limit overwrite d u (inside dest) =
    if text_eq direction (codes "download")
    then download_file sha256 files dest limit overwrite d
    else if text_eq direction (codes "upload")
    then some (files, upload_file sha256 limit u)
    else some (files, failed unknown_direction)

-- `TransferFile`; its containment test is that of `guardPath`.
unfoldable pub transfer_file :
    (Text → Text)
    → Files
    → Text
    → Option Text
    → Text
    → Text
    → Text
    → ℕ
    → Bool
    → Download
    → Upload
    → Option (Files × TransferResult)
unfolding transfer_to guard_path clean
transfer_file sha256 files workspace cwd direction url path limit overwrite d u =
    if not (has_prefix url (codes "https://"))
    then some (files, failed not_https)
    else transfer_to sha256 files direction limit overwrite d u
        (guard_path (clean workspace) cwd path)
