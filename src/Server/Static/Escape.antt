-- ===== src/Server/Static/Escape.antt =====
-- What a path with a doubled slash behind the prefix of a directory reads.
use testhub.Base.{
  ℕ, ◌≡◌, refl, ap, ◌∙◌, arith, true, false, none, some, [], ◌∷◌, ◌++◌, drop, length,
  drop-append_self, Text, codes, Map,
}
use testhub.Json.{Floats}
use testhub.StringUtil.{starts_with, contains}
use testhub.Server.{HttpRequest}
use testhub.Server.Static.{
  StaticAsset, FileSystem, find_asset, full_path, file_response, serve_directories, serve_static,
}

starts_with-append : (s t : Text) → starts_with (s ++ t) s ≡ true
unfolding starts_with
starts_with-append [] t = refl
starts_with-append (x ∷ s) t = ground (arith, starts_with-append s t)

-- The loop over the directories, where the first fits and names a file.
serve_directories-first :
    (f : Floats) (double_of : ℕ → ℕ) (fs : FileSystem) (path prefix dir rel full : Text)
    → starts_with path prefix ≡ true
    → drop (length prefix) path ≡ rel
    → contains rel (codes "..") ≡ false
    → full_path f double_of fs dir rel ≡ full
    → fs.is_file full ≡ true
    → serve_directories f double_of fs path ((prefix, dir) ∷ [])
      ≡ some (file_response f double_of fs full (fs.read_file full))
unfolding serve_directories
serve_directories-first f double_of fs path prefix dir rel full fits here dots names file =
    rw (fits, here, dots, names, file, serve_directories) refl

-- Where joining an absolute path to a directory gives that path, as std::filesystem::path does, one
-- directory is served, and no asset has the request's path: a request for the directory that goes on
-- with a second slash is answered with the file of that absolute path, if there is one and the path
-- has no two dots in a row.
pub serve_static-absolute :
    (f : Floats) (double_of : ℕ → ℕ) (fs : FileSystem) (assets : Map StaticAsset)
    (prefix dir s : Text) (r : HttpRequest)
    → ((t : Text) → fs.join_path dir (b'/' ∷ t) ≡ b'/' ∷ t)
    → r.path ≡ prefix ++ (b'/' ∷ s)
    → find_asset assets r.path ≡ none
    → contains (b'/' ∷ s) (codes "..") ≡ false
    → fs.is_directory (b'/' ∷ s) ≡ false
    → fs.is_file (b'/' ∷ s) ≡ true
    → serve_static f double_of fs assets ((prefix, dir) ∷ []) r
      ≡ some (file_response f double_of fs (b'/' ∷ s) (fs.read_file (b'/' ∷ s)))
unfolding serve_static
serve_static-absolute f double_of fs assets prefix dir s r join path page dots folder file =
    let full : full_path f double_of fs dir (b'/' ∷ s) ≡ b'/' ∷ s = rw (join s, folder) refl in
    rw (page, serve_static)
      (ap (λ p. serve_directories f double_of fs p ((prefix, dir) ∷ [])) path
        ∙ serve_directories-first f double_of fs _ prefix dir (b'/' ∷ s) (b'/' ∷ s)
            (starts_with-append prefix (b'/' ∷ s)) (drop-append_self prefix (b'/' ∷ s)) dots full
            file)
