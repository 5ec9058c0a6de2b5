-- ===== src/Document/Entities/Seed.antt =====
-- The seed's entries of domain/document/entities.go. A file's entry has no list of entries, and a
-- directory's has one, which may be empty.
use go_web_service.Prelude.{
  String, Bool, true, false, not, ◌||◌, ◌&&◌, ◌==◌, if◌then◌else◌, Error, Result, ok, err,
}

mutual
  pub data SeedEntry : Type 0 where
    entry : (id name : String) → EntryList → (content_type content : String) → SeedEntry

  -- The field Entries: null, or a list.
  pub data EntryList : Type 0 where
    null : EntryList
    entries : SeedEntries → EntryList

  pub data SeedEntries : Type 0 where
    nil : SeedEntries
    cons : SeedEntry → SeedEntries → SeedEntries

pub record SeedTree : Type 0 where
  pub organization : String
  pub root : String
  pub entries : SeedEntries

abbrev has_entries : EntryList → Bool
has_entries null = false
has_entries (entries _) = true

-- seedEntry.directory
unfoldable pub is_directory : SeedEntry → Result Bool
is_directory (entry id name list content_type content) =
    let file = not (content_type == "") || not (content == "") in
    if (has_entries list && file)
    then err (Error.plain "the entry is both a directory and a file")
    else if (not (has_entries list) && content_type == "")
    then err (Error.plain "the entry is neither a directory (entries) nor a file (content_type)")
    else ok (has_entries list)
