-- ===== src/Campaigns/Tests.antt =====
-- Two records of a campaign are appended, and one of them by a writer.
use adaptive_trading_ecosyst.Prelude.{
  insert_by, order_from, ℕ, ◌+◌, ◌≡◌, refl, false, none, some, List, [], ◌∷◌, ◌++◌, length, String,
  ok, err,
}
use adaptive_trading_ecosyst.Campaigns.Journal.{
  RowContent, CampaignRow, JournalFile, Directory, Writer, write_new, read_files, read_journal,
  next_file, append_row, open_writer, record_row,
}
use adaptive_trading_ecosyst.Campaigns.Journal.RoundTrip.{
  append_row-read_journal, record_row-append_row,
}

unfoldable bundle : Unit {0}
unfolding write_new read_files read_journal append_row open_writer record_row insert_by order_from
bundle = tt

-- A digest that keeps the body only.
abbrev identity : RowContent → String
identity c = c.body

abbrev identity_of : String → String
identity_of campaign = campaign

abbrev created : Directory
created = record { campaign = "campaign"; is_finalized = false; files = [] }

abbrev started_file : JournalFile
started_file = next_file identity identity_of "campaign" 0 none "STARTED" "first"

abbrev started : Directory
started = record created { files = started_file ∷ [] }

abbrev polled_file : JournalFile
polled_file = next_file identity identity_of "campaign" 1 (some "first") "POLLED" "second"

abbrev polled : Directory
polled = record created { files = started_file ∷ polled_file ∷ [] }

abbrev writer_at : ℕ → String → Writer
writer_at n hash = record { sequence = n; previous_hash = some hash; campaign_hash = "campaign" }

started_appends : append_row identity identity_of created "STARTED" "first" ≡ ok started
unfolding bundle
started_appends = refl

started_opens : open_writer identity identity_of started ≡ ok (writer_at 1 "first")
unfolding bundle
started_opens = refl

writer_records :
    record_row identity identity_of (writer_at 1 "first") started "POLLED" "second"
    ≡ ok (polled, writer_at 2 "second")
unfolding bundle
writer_records = refl

-- A writer that was opened before another one wrote does not overwrite its record.
stale_writer_fails :
    record_row identity identity_of (writer_at 1 "first") polled "POLLED" "third"
    ≡ err "FileExistsError"
unfolding bundle
stale_writer_fails = refl

removed_record_fails :
    append_row identity identity_of (record created { files = polled_file ∷ [] }) "POLLED" "third"
    ≡ err "CAMPAIGN_JOURNAL_INTEGRITY_FAILURE"
unfolding bundle
removed_record_fails = refl

append_row-read_journal_example :
    (rows : List CampaignRow) × (row : CampaignRow) × (read_journal identity identity_of created
      ≡ ok rows)
    × (read_journal identity identity_of started ≡ ok (rows ++ row ∷ []))
    × (row.content.kind ≡ "STARTED")
    × (row.content.body ≡ "first")
    × (row.content.sequence ≡ length rows + 1)
append_row-read_journal_example =
    append_row-read_journal identity identity_of created "STARTED" "first" started started_appends

record_row-append_row_example :
    (append_row identity identity_of started "POLLED" "second" ≡ ok polled)
    × (open_writer identity identity_of polled ≡ ok (writer_at 2 "second"))
record_row-append_row_example =
    record_row-append_row identity identity_of started "POLLED" "second" (writer_at 1 "first")
      (writer_at 2 "second") polled started_opens writer_records
