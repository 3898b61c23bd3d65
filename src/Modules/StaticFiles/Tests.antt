-- ===== src/Modules/StaticFiles/Tests.antt =====
-- A file system with one file.
use garcon.Prelude.{◌≡◌, refl, true, false, Bool, none, some, [], ◌∷◌, ok, if◌then◌else◌}
use garcon.Text.{bytes, equal, has, cut_at, starts_with, pieces}
use garcon.Http.Request.{Request}
use garcon.Http.Response.{Response, default_response}
use garcon.Modules.StaticFiles.{
  FilePath, FileSystem, handle, serve_file, resolve_under_root, resolved_file, regular_file,
  sized_file, read_file_bytes, file_head, guess_content_type, type_of, type_table,
  map_to_relative_path, relative_of, is_within_root,
}
use garcon.Modules.StaticFiles.Inside.{IsServed, handle-IsServed}

abbrev root : FilePath
root = bytes "/" ∷ bytes "www" ∷ []

abbrev same_path : FilePath → FilePath → Bool
same_path [] [] = true
same_path (a ∷ p) (b ∷ q) = if equal a b then same_path p q else false
same_path p q = false

abbrev page : FilePath
page = bytes "/" ∷ bytes "www" ∷ bytes "a.txt" ∷ []

one_file : FileSystem
one_file = record {
  canonical = λ path. if same_path path page then some path else none;
  entry_error = λ path. false;
  is_regular_file = λ path. ok true;
  file_size = λ path. ok 2;
  extension = λ path. bytes ".txt";
  contents = λ path. some (bytes "hi");
}

abbrev request : Request
request = record {
  method = bytes "GET";
  target = bytes "/a.txt?v=1";
  version_major = 1;
  version_minor = 1;
  headers = [];
}

abbrev response : Response
response = record default_response {
  content_type = bytes "text/plain; charset=utf-8";
  body = bytes "hi";
  content_length = some 2;
}

handled : handle one_file root request ≡ ok response
unfolding handle serve_file resolve_under_root resolved_file regular_file sized_file read_file_bytes
    file_head guess_content_type type_of type_table map_to_relative_path relative_of is_within_root
    one_file equal has cut_at starts_with pieces
handled = refl

handle-IsServed_example : IsServed one_file root request response
handle-IsServed_example = handle-IsServed one_file root request response (λ e. cc) handled
