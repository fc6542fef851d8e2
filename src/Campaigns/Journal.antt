-- ===== src/Campaigns/Journal.antt =====
-- campaigns/journal.py: the journal of a campaign, a directory with a file for each record, and the
-- writer that reads it once. A file is named by the number in its name, whose eight digits make the
-- order of the names that of the numbers. The body of a record is its canonical text; the digests are
-- parameters.
pub mod RoundTrip
use adaptive_trading_ecosyst.Prelude.{
  ℕ, ◌+◌, Bool, not, ◌||◌, Option, none, some, List, [], ◌∷◌, ◌++◌, ◌==◌, length, any_of, order_by,
  same_text, String, str_eq, Result, ok, ◌>>=◌, ◌>>◌, raise_if,
}

pub record RowContent : Type 0 where
  pub campaign_hash : String
  pub sequence : ℕ
  pub previous_hash : Option String
  pub kind : String
  pub body : String

pub record CampaignRow : Type 0 where
  pub content : RowContent
  pub hash : String

pub record JournalFile : Type 0 where
  pub number : ℕ
  pub row : CampaignRow

-- The files of a campaign; it is finalized when there is a manifest.
pub record Directory : Type 0 where
  pub campaign : String
  pub is_finalized : Bool
  pub files : List JournalFile

-- The fields of `Journal`.
pub record Writer : Type 0 where
  pub sequence : ℕ
  pub previous_hash : Option String
  pub campaign_hash : String

-- The hash of the last row, or one before the first.
abbrev pub last_hash : Option String → List CampaignRow → Option String
last_hash previous [] = previous
last_hash previous (r ∷ rs) = last_hash (some r.hash) rs

unfoldable pub write_new : JournalFile → Directory → Result Directory
write_new f dir = do
  raise_if (any_of (λ (x : JournalFile). x.number == f.number) dir.files) "FileExistsError"
  ok (record dir { files = dir.files ++ f ∷ [] })

-- What is read of the files, and what is written of a row and of a campaign.
module _ (identity : RowContent → String) (identity_of : String → String) where
  abbrev pub fails_integrity : String → ℕ → Option String → JournalFile → Bool
  fails_integrity spec n previous f =
      not (f.number == n)
      || (not (f.row.content.sequence == n)
          || (not (same_text f.row.content.previous_hash previous)
              || (not (str_eq (identity f.row.content) f.row.hash)
                  || not (str_eq f.row.content.campaign_hash spec))))

  unfoldable pub read_files :
      String → ℕ → Option String → List JournalFile → Result (List CampaignRow)
  read_files spec n previous [] = ok []
  read_files spec n previous (f ∷ fs) = do
    raise_if (fails_integrity spec n previous f) "CAMPAIGN_JOURNAL_INTEGRITY_FAILURE"
    rows ← read_files spec (n + 1) (some f.row.hash) fs
    ok (f.row ∷ rows)

  -- `read`
  unfoldable pub read_journal : Directory → Result (List CampaignRow)
  read_journal dir =
      read_files (identity_of dir.campaign) 1 none
        (order_by (λ (f : JournalFile). f.number) dir.files)

  abbrev pub next_file : String → ℕ → Option String → String → String → JournalFile
  next_file spec sequence previous kind body =
      let content : RowContent = record {
        campaign_hash = spec;
        sequence = sequence + 1;
        previous_hash = previous;
        kind = kind;
        body = body;
      } in
      record { number = sequence + 1; row = record { content = content; hash = identity content } }

  -- `append`
  unfoldable pub append_row : Directory → String → String → Result Directory
  append_row dir kind body = do
    raise_if dir.is_finalized "FINALIZED_CAMPAIGN_IS_IMMUTABLE"
    rows ← read_journal dir
    write_new (next_file (identity_of dir.campaign) (length rows) (last_hash none rows) kind body)
        dir

  -- `Journal.__init__`
  unfoldable pub open_writer : Directory → Result Writer
  open_writer dir = do
    rows ← read_journal dir
    ok (record {
      sequence = length rows;
      previous_hash = last_hash none rows;
      campaign_hash = identity_of dir.campaign;
    })

  -- `Journal.record`
  unfoldable pub record_row : Writer → Directory → String → String → Result (Directory × Writer)
  record_row w dir kind body = do
    raise_if dir.is_finalized "FINALIZED_CAMPAIGN_IS_IMMUTABLE"
    let f = next_file w.campaign_hash w.sequence w.previous_hash kind body
    written ← write_new f dir
    ok (written, record w { sequence = w.sequence + 1; previous_hash = some f.row.hash })
