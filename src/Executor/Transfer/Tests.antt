-- ===== src/Executor/Transfer/Tests.antt =====
-- Transfers of a few bytes.
use vectrify_agent_runner.Base.{
  ◌≡◌, inl, inr, refl, true, false, none, some, List, [], ◌∷◌, Text, codes, text_eq, lookup, split,
  pos,
}
use vectrify_agent_runner.Executor.Paths.{components, clean_components, clean_step}
use vectrify_agent_runner.Executor.Transfer.{
  Read, more, eof, Streamed, stream_with_limit, Download, Upload, Files, TransferResult, failed,
  file_exists, download_file, transfer_file,
}
use vectrify_agent_runner.Executor.Transfer.Streaming.{IsCopy, stream_with_limit-IsCopy}
use vectrify_agent_runner.Executor.Transfer.Atomic.{IsDownload, download_file-IsDownload}
use vectrify_agent_runner.Executor.Transfer.Scope.{IsScoped, transfer_file-IsScoped}

abbrev two_reads : List Read
two_reads =
    record { bytes = codes "ab"; writable = true; read_end = more }
    ∷ record { bytes = codes "c"; writable = true; read_end = eof }
    ∷ []

abbrev stored : Files
stored = (codes "/w/a", codes "old") ∷ []

abbrev answers : Download
answers = record {
  directory = true;
  response = some (200, pos 3);
  temp = some (codes "/w/.vectrify-transfer-1");
  reads = two_reads;
  closes = true;
  renames = true;
  removes = true;
}

abbrev nothing_sent : Upload
nothing_sent = record { stat = none; opened = none; status = none }

abbrev unhashed : Text → Text
unhashed bytes = bytes

stream_with_limit-IsCopy_example :
    (t : Streamed) × (stream_with_limit 2 two_reads ≡ some t) × IsCopy 2 [] two_reads t
stream_with_limit-IsCopy_example = stream_with_limit-IsCopy 2 two_reads (inr (inl refl))

download_file-IsDownload_example :
    ((r : Files × TransferResult) × (download_file unhashed stored (codes "/w/a") 10 true answers
        ≡ some r)
      × IsDownload unhashed stored (codes "/w/a") 10 answers (codes "/w/.vectrify-transfer-1") r)
    × (true ≡ false
        → (bytes : Text) → lookup (codes "/w/a") stored ≡ some bytes
        → download_file unhashed stored (codes "/w/a") 10 true answers
          ≡ some (stored, failed file_exists))
unfolding lookup text_eq
download_file-IsDownload_example =
    download_file-IsDownload unhashed stored (codes "/w/a") (codes "/w/.vectrify-transfer-1")
      answers (tt, tt) refl refl 10 true (inr (inl refl)) refl

transfer_file-IsScoped_example :
    IsScoped unhashed stored
      (codes "/w")
      (codes "download")
      (codes "https://s3/x")
      10
      true
      answers
      (transfer_file unhashed stored
        (codes "/w")
        none
        (codes "download")
        (codes "https://s3/x")
        (codes "/w/../w2/a")
        10
        true
        answers
        nothing_sent)
unfolding components clean_components clean_step split text_eq
transfer_file-IsScoped_example =
    transfer_file-IsScoped unhashed stored (codes "/w") none (codes "download")
      (codes "https://s3/x") (codes "/w/../w2/a") 10 true answers nothing_sent (λ e. cc)
