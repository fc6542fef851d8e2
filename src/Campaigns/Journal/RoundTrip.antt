-- ===== src/Campaigns/Journal/RoundTrip.antt =====
-- campaigns/journal.py: what is recorded is read again, and a writer records what `append` does.
use mathlib.Core.Path.{subst}
use adaptive_trading_ecosyst.Prelude.{
  ℕ, suc, ◌+◌, ◌<◌, ◌≡◌, refl, sym, ap, ◌∙◌, Bool, false, Option, none, some, List, [], ◌∷◌, ◌++◌,
  ◌==◌, All, length, any_of, order_by, order_by-append, same_text_self, String, eq_iff, Result, ok,
  ◌>>=◌, ◌>>◌, raise_if, bind-eq-ok, guard-eq-ok, ok-injective, length-append, arith,
}
use adaptive_trading_ecosyst.Campaigns.Journal.{
  RowContent, CampaignRow, JournalFile, Directory, Writer, last_hash, write_new, fails_integrity,
  read_files, read_journal, next_file, append_row, open_writer, record_row,
}

last_hash_append :
    (previous : Option String) (rows : List CampaignRow) (r : CampaignRow)
    → last_hash previous (rows ++ r ∷ []) ≡ some r.hash
last_hash_append previous [] r = refl
last_hash_append previous (x ∷ rows) r = last_hash_append (some x.hash) rows r

below_more :
    (n k : ℕ) (fs : List JournalFile)
    → All (λ (f : JournalFile). f.number < n + 1 + k) fs
    → All (λ (f : JournalFile). f.number < n + suc k) fs
below_more n k fs a = let same : n + suc k ≡ n + 1 + k = omega arith in rw same a

-- A guard that is passed, and a call that returns.
passes :
    {A B : Type 0} (bad : Bool) (code : String) (call : Result A) (next : A → Result B) {a : A}
    {b : B}
    → bad ≡ false
    → call ≡ ok a
    → next a ≡ ok b
    → (raise_if bad code >> (call >>= next)) ≡ ok b
passes bad code call next p c n = rw (p, c) n

then_ok :
    {A B : Type 0} (call : Result A) (next : A → Result B) {a : A} {b : B}
    → call ≡ ok a
    → next a ≡ ok b
    → (call >>= next) ≡ ok b
then_ok call next c n = rw c n

-- The state of a writer follows the rows.
writer_follows :
    (rows : List CampaignRow) (r : CampaignRow) (spec : String) (w : Writer)
    → record { sequence = length rows; previous_hash = last_hash none rows; campaign_hash = spec }
      ≡ w
    → record {
      sequence = length (rows ++ r ∷ []);
      previous_hash = last_hash none (rows ++ r ∷ []);
      campaign_hash = spec;
    }
      ≡ record w { sequence = w.sequence + 1; previous_hash = some r.hash }
writer_follows rows r spec w e =
    rw (← e) (rw (last_hash_append none rows r, length-append rows (r ∷ [])) refl)

write_new-campaign :
    (f : JournalFile) (dir : Directory) {written : Directory}
    → write_new f dir ≡ ok written
    → dir.campaign ≡ written.campaign
unfolding write_new
write_new-campaign f dir h =
    let (_, h₁) =
      guard-eq-ok (any_of (λ (x : JournalFile). x.number == f.number) dir.files) _ _ h in
    ap (λ (d : Directory). d.campaign) (ok-injective h₁)

module _ (identity : RowContent → String) (identity_of : String → String) where
  read_files-append :
      (spec : String) (n : ℕ) (previous : Option String) (fs : List JournalFile) (f : JournalFile)
      {rows : List CampaignRow}
      → read_files identity identity_of spec n previous fs ≡ ok rows
      → fails_integrity identity identity_of spec (n + length rows) (last_hash previous rows) f
        ≡ false
      → read_files identity identity_of spec n previous (fs ++ f ∷ []) ≡ ok (rows ++ f.row ∷ [])
  unfolding read_files
  read_files-append spec n previous [] f h good =
      let none_read = ok-injective h in
      let here : fails_integrity identity identity_of spec n previous f ≡ false =
        (let there = rw (← none_read) at good in ground arith) in
      rw (← none_read, here) refl
  read_files-append spec n previous (x ∷ fs) f h good =
      let (passed, h₁) =
        guard-eq-ok (fails_integrity identity identity_of spec n previous x) _ _ h in
      let (rows, read, h₂) =
        bind-eq-ok (read_files identity identity_of spec (n + 1) (some x.row.hash) fs) _ h₁ in
      let all = ok-injective h₂ in
      let count : n + suc (length rows) ≡ n + 1 + length rows = omega arith in
      let next =
        read_files-append spec (n + 1) (some x.row.hash) fs f read
          (rw count at (rw (← all) at good)) in
      rw (← all, passed, next) refl

  -- The files that were read are numbered below the next number.
  read_files-below :
      (spec : String) (n : ℕ) (previous : Option String) (fs : List JournalFile)
      {rows : List CampaignRow}
      → read_files identity identity_of spec n previous fs ≡ ok rows
      → All (λ (f : JournalFile). f.number < n + length rows) fs
  unfolding read_files
  read_files-below spec n previous [] h = tt
  read_files-below spec n previous (x ∷ fs) h =
      let (passed, h₁) =
        guard-eq-ok (fails_integrity identity identity_of spec n previous x) _ _ h in
      let (rows, read, h₂) =
        bind-eq-ok (read_files identity identity_of spec (n + 1) (some x.row.hash) fs) _ h₁ in
      let named : x.number ≡ n = ground arith in
      subst
        (λ (rs : List CampaignRow). All (λ (f : JournalFile). f.number < n + length rs) (x ∷ fs))
        (ok-injective h₂)
        (
          omega (arith, named),
          below_more n (length rows) fs (read_files-below spec (n + 1) (some x.row.hash) fs read),
        )

  next_file_passes :
      (spec : String) (n : ℕ) (previous : Option String) (kind body : String)
      → fails_integrity identity identity_of spec
          (n + 1)
          previous
          (next_file identity identity_of spec n previous kind body)
        ≡ false
  next_file_passes spec n previous kind body =
      let sealed =
        (eq_iff (identity (next_file identity identity_of spec n previous kind body).row.content)
            (identity (next_file identity identity_of spec n previous kind body).row.content)).1
          refl in
      let same = same_text_self previous in
      let own = (eq_iff spec spec).1 refl in rw (same, sealed, own) (ground arith)

  -- A row that is written after those that are read is read after them.
  write_new-reads :
      (dir : Directory) (kind body : String) (rows : List CampaignRow) {written : Directory}
      → read_journal identity identity_of dir ≡ ok rows
      → write_new
          (next_file identity identity_of
            (identity_of dir.campaign)
            (length rows)
            (last_hash none rows)
            kind
            body)
          dir
        ≡ ok written
      → read_journal identity identity_of written
        ≡ ok (
            rows
            ++ (next_file identity identity_of
                (identity_of dir.campaign)
                (length rows)
                (last_hash none rows)
                kind
                body).row
              ∷ [])
  unfolding read_journal write_new
  write_new-reads dir kind body rows read h =
      let f =
        next_file identity identity_of (identity_of dir.campaign) (length rows)
          (last_hash none rows) kind body in
      let (_, h₁) =
        guard-eq-ok (any_of (λ (x : JournalFile). x.number == f.number) dir.files) _ _ h in
      let below =
        read_files-below (identity_of dir.campaign) 1 none
          (order_by (λ (x : JournalFile). x.number) dir.files) read in
      let count : 1 + length rows ≡ length rows + 1 = omega arith in
      let at_end =
        order_by-append (λ (x : JournalFile). x.number) dir.files f (rw count at below) in
      rw (← ok-injective h₁) (
        ap (read_files identity identity_of (identity_of dir.campaign) 1 none) at_end
        ∙ read_files-append (identity_of dir.campaign) 1 none _ f read (
            rw count (
              next_file_passes (identity_of dir.campaign) (length rows) (last_hash none rows) kind
                body)))

  -- What an append that returns has appended is read back, after the rows that were read before.
  pub append_row-read_journal :
      (dir : Directory) (kind body : String) (written : Directory)
      → append_row identity identity_of dir kind body ≡ ok written
      → (rows : List CampaignRow) × (row : CampaignRow) × (read_journal identity identity_of dir
          ≡ ok rows)
        × (read_journal identity identity_of written ≡ ok (rows ++ row ∷ []))
        × (row.content.kind ≡ kind)
        × (row.content.body ≡ body)
        × (row.content.sequence ≡ length rows + 1)
  unfolding append_row
  append_row-read_journal dir kind body written h =
      let (_, h₁) = guard-eq-ok dir.is_finalized _ _ h in
      let (rows, read, h₂) = bind-eq-ok (read_journal identity identity_of dir) _ h₁ in
      let again = write_new-reads dir kind body rows read h₂ in
      (rows, _, read, again, refl, refl, refl)

  -- A writer that was opened on a directory records what `append` appends, and stands afterwards as
  -- one that is opened on the result.
  pub record_row-append_row :
      (dir : Directory) (kind body : String) (w next : Writer) (written : Directory)
      → open_writer identity identity_of dir ≡ ok w
      → record_row identity identity_of w dir kind body ≡ ok (written, next)
      → (append_row identity identity_of dir kind body ≡ ok written)
        × (open_writer identity identity_of written ≡ ok next)
  unfolding open_writer record_row append_row
  record_row-append_row dir kind body w next written o h =
      let (rows, read, o₁) = bind-eq-ok (read_journal identity identity_of dir) _ o in
      let opened = ok-injective o₁ in
      let (live, h₁) = guard-eq-ok dir.is_finalized _ _ h in
      let f = next_file identity identity_of w.campaign_hash w.sequence w.previous_hash kind body in
      let (made, wrote, h₂) = bind-eq-ok (write_new f dir) _ h₁ in
      let both = ok-injective h₂ in
      let result : made ≡ written = ap (λ (p : Directory × Writer). p.0) both in
      let moved = ap (λ (p : Directory × Writer). p.1) both in
      let wrote_next = rw (← opened) at (rw result at wrote) in
      let again = write_new-reads dir kind body rows read wrote_next in
      let same =
        ap
          (λ (v : Writer).
            next_file identity identity_of v.campaign_hash v.sequence v.previous_hash kind body)
          opened in
      let last = ap (λ (x : JournalFile). ok (rows ++ x.row ∷ [])) same in
      let follows = writer_follows rows f.row (identity_of dir.campaign) w opened ∙ moved in
      let campaign = write_new-campaign _ dir wrote_next in
      (
        passes dir.is_finalized _ (read_journal identity identity_of dir) _ live read wrote_next,
        then_ok (read_journal identity identity_of written) _ (again ∙ last) (
            ap
              (λ (c : String). ok (record {
                sequence = length (rows ++ f.row ∷ []);
                previous_hash = last_hash none (rows ++ f.row ∷ []);
                campaign_hash = identity_of c;
              }))
              (sym campaign)
            ∙ ap (λ (v : Writer). ok v) follows),
      )
