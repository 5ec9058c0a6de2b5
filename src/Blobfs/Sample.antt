-- ===== src/Blobfs/Sample.antt =====
-- A small file tree: the state is whether the branch is being deleted, every id but a root's is a
-- directory within it, and every file is a stored one.
use go_web_service.Prelude.{String, Bool, true, some, if◌then◌else◌, ◌==◌, ok}
use go_web_service.Blobfs.{FileTree, DirectoryRow, FileRow, DirectoryRowStatus, FileRowStatus}

abbrev pub directory_row : String → Bool → DirectoryRow
directory_row id marked = record {
  id = id;
  parent_id = some "top";
  name = id;
  status = if marked then DirectoryRowStatus.deleting else DirectoryRowStatus.active;
  version = 2;
}

abbrev pub file_row : String → FileRow
file_row id = record {
  id = id;
  directory_id = "sub";
  name = "a.txt";
  key = "key";
  status = FileRowStatus.available;
  size = some 3;
  etag = some "etag";
  content_type = "text/plain";
  version = 2;
  updated_at = 0;
}

abbrev pub tree : FileTree Bool
tree = record {
  root_id = "top";
  is_within = λ id root t. ok (id == "sub");
  find_directory = λ id t. ok (directory_row id t);
  path = λ id t. ok "/o/sub";
  lock_tree = λ t. ok (tt, t);
  create_directory = λ parent name t. ok (directory_row name t, t);
  ensure_directory = λ parent name id t. ok ((directory_row name t, true), t);
  move_directory = λ id parent name version t. ok (directory_row id t, t);
  delete_directory = λ id version t. ok (tt, t);
  mark_deleting = λ id version t. ok (1, true);
  find_file = λ id t. ok (file_row id);
  create_file = λ directory name content_type id t. ok (file_row name, t);
  move_file = λ id directory name version t. ok (file_row id, t);
  hold_file = λ id t. ok (tt, t);
  delete_file = λ id t. ok (file_row id, t);
}
