-- ===== src/Client/Upload.antt =====
-- uploadAll, uploadDir, uploadFile and downloadAll of client/sftp.go: which directories a transfer makes
-- and which files it writes, in order. The remote side's MkdirAll makes what is missing on the way too.
-- Paths, trees and the outcome are those of the download; an uploaded file makes no directory.
use ziti_ssh.Prelude.{Bool, true, false, not, ◌&&◌, List, [], ◌∷◌, ◌++◌, if◌then◌else◌, ltb, length}
use ziti_ssh.Text.{Text}
use ziti_ssh.Client.SafeName.{
  Node, Entries, file, folder, no_entry, entry, LocalPath, Download, written, and_then,
  download_node, make_all,
}

unfoldable mutual
  -- uploadFile, and uploadDir up to its loop
  pub upload_node : LocalPath → Node → Download
  upload_node path (file open_ok mkdir_ok write_ok) =
      if not open_ok then ([], false) else (written path ∷ [], write_ok)
  upload_node path (folder stat_ok mkdir_ok list_ok es) =
      let rest = upload_entries path es in
      if not mkdir_ok
      then (make_all path, false)
      else if not list_ok
      then (make_all path, false)
      else (make_all path ++ rest.0, rest.1)

  -- the loop of uploadDir
  pub upload_entries : LocalPath → Entries → Download
  upload_entries path no_entry = ([], true)
  upload_entries path (entry name n es) =
      and_then (upload_node (path ++ name ∷ []) n) (upload_entries path es)

-- A source: whether Stat works, the base of its name, and its tree.
pub record Source : Type 0 where
  pub stat_ok : Bool
  pub base : Text
  pub tree : Node

unfoldable pub is_dir : Node → Bool
is_dir (file open_ok mkdir_ok write_ok) = false
is_dir (folder stat_ok mkdir_ok list_ok es) = true

-- one round of the loop, with the function that copies
unfoldable pub copy_source :
    (LocalPath → Node → Download) → (dst_is_dir recursive : Bool) → LocalPath → Source → Download
copy_source copy dst_is_dir recursive dst s =
    if not s.stat_ok
    then ([], false)
    else if is_dir s.tree && not recursive
    then ([], false)
    else copy (if dst_is_dir then dst ++ s.base ∷ [] else dst) s.tree

unfoldable pub copy_sources :
    (LocalPath → Node → Download)
    → (dst_is_dir recursive : Bool) → LocalPath
    → List Source
    → Download
copy_sources copy dst_is_dir recursive dst [] = ([], true)
copy_sources copy dst_is_dir recursive dst (s ∷ sources) =
    and_then (copy_source copy dst_is_dir recursive dst s)
      (copy_sources copy dst_is_dir recursive dst sources)

-- several sources need a directory
unfoldable copy_all :
    (LocalPath → Node → Download)
    → (dst_is_dir recursive : Bool) → LocalPath
    → List Source
    → Download
copy_all copy dst_is_dir recursive dst sources =
    if ltb 1 (length sources) && not dst_is_dir
    then ([], false)
    else copy_sources copy dst_is_dir recursive dst sources

pub upload_all : (dst_is_dir recursive : Bool) → LocalPath → List Source → Download
unfolding copy_all
upload_all = copy_all upload_node

pub download_all : (dst_is_dir recursive : Bool) → LocalPath → List Source → Download
unfolding copy_all
download_all = copy_all download_node
