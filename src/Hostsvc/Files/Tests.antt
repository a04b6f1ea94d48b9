-- ===== src/Hostsvc/Files/Tests.antt =====
-- A store of two files: "f1" of the plugin "shop", and "f2" of the plugin "blog".
use moduless.Base.{
  Bytes, bytes, [], ◌∷◌, ◌≡◌, refl, true, Option, none, some, pos, Dict, lookup, arith,
}
use moduless.Hostsvc.Files.{
  Backend, Files, FileRow, Answer, row, no_rows, ok, fails_with, Reader, put, file_not_found,
  file_too_large,
}
use moduless.Hostsvc.Files.Calls.{
  Server, new_perm_set, perm_files_read, perm_files_write, delete_file, download_token,
  get_file_metadata, refuses, file_err, denied,
}
use moduless.Hostsvc.Files.Hidden.{foreign-hides}
use moduless.Hostsvc.Files.Written.{put_whole, put-whole}

-- Who owns which file, and the objects.
abbrev Store : Type 0
Store = Dict Bytes × Dict Bytes

abbrev owner_answer : Option Bytes → Answer Bytes
owner_answer none = no_rows
owner_answer (some owner) = row owner

abbrev file_answer : Bytes → Option Bytes → Answer FileRow
file_answer file_id none = no_rows
file_answer file_id (some owner) =
    row (record { ident = file_id; filename = []; size = 0; mime_type = [] })

abbrev store_backend : Backend Store
store_backend = record {
  put_object = λ key content size mime_type w. (none, (w.0, (key, content) ∷ w.1));
  insert_file = λ p w. (none, ((p.ident, p.owner_plugin_key) ∷ w.0, w.1));
  get_file = λ file_id w. file_answer file_id (lookup file_id w.0);
  get_file_owner = λ file_id w. owner_answer (lookup file_id w.0);
  insert_download_token = λ p w. (none, w);
  delete_file_record = λ file_id w. (none, w);
}

abbrev two_files : Store
two_files = ((bytes "f1", bytes "shop") ∷ (bytes "f2", bytes "blog") ∷ [], [])

abbrev one_file : Store
one_file = ((bytes "f1", bytes "shop") ∷ [], [])

abbrev small_files : Files
small_files = record {
  has_conn = true;
  has_queries = true;
  has_store = true;
  max_upload_bytes = pos 3;
  public_base_url = [];
}

abbrev shop : Server
shop = record {
  key = bytes "shop";
  perms = new_perm_set (perm_files_read ∷ perm_files_write ∷ []);
  files = some small_files;
}

abbrev reader : Server
reader = record {
  key = bytes "shop";
  perms = new_perm_set (perm_files_read ∷ []);
  files = some small_files;
}

hidden :
    (delete_file store_backend shop (bytes "f2") two_files).0
    ≡ refuses (file_err (file_not_found (bytes "f2")))
unfolding delete_file lookup new_perm_set
hidden = refl

not_granted_write :
    delete_file store_backend reader (bytes "f1") two_files
    ≡ (refuses (denied perm_files_write), two_files)
unfolding delete_file lookup new_perm_set
not_granted_write = refl

abbrev upload : Bytes → Reader
upload content = record { content = content; failure = none }

abbrev after_abc : Store
after_abc = ((bytes "f3", bytes "shop") ∷ one_file.0, (bytes "plugins/shop/f3", bytes "abc") ∷ [])

stores_three :
    put store_backend small_files (bytes "shop") (bytes "f3") [] [] (upload (bytes "abc")) one_file
    ≡ (ok (bytes "f3", 3), after_abc)
unfolding put
stores_three = refl

refuses_four :
    put store_backend small_files (bytes "shop") (bytes "f3") [] [] (upload (bytes "abcd")) one_file
    ≡ (fails_with (file_too_large 3), one_file)
unfolding put
refuses_four = refl

put-whole_example :
    put store_backend small_files (bytes "shop") (bytes "f3") [] [] (upload (bytes "abc")) one_file
    ≡ put_whole store_backend 3
        (bytes "shop")
        (bytes "f3")
        (bytes "untitled")
        (bytes "application/octet-stream")
        (bytes "abc")
        none
        one_file
put-whole_example =
    put-whole store_backend small_files (bytes "shop") (bytes "f3") [] [] (upload (bytes "abc"))
      one_file (ground arith) refl

foreign-hides_example :
    (delete_file store_backend shop (bytes "f2") two_files
      ≡ ((delete_file store_backend shop (bytes "f2") one_file).0, two_files))
    × (download_token store_backend shop (bytes "f2") [] (pos 60) 0 (ok []) (λ s. s) two_files ≡ (
      (download_token store_backend shop (bytes "f2") [] (pos 60) 0 (ok []) (λ s. s) one_file).0,
      two_files,
    ))
    × (get_file_metadata store_backend shop (bytes "f2") two_files
        ≡ get_file_metadata store_backend shop (bytes "f2") one_file)
unfolding lookup
foreign-hides_example =
    foreign-hides store_backend shop (bytes "f2") [] (pos 60) 0 (ok []) (λ s. s) two_files one_file
      98 (bytes "log") refl refl refl
