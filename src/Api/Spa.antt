-- ===== src/Api/Spa.antt =====
-- internal/api/spa.go: the embedded frontend, for the paths that no other route takes.
pub mod Inside
use Prim.Native.Char.{Char, code}
use Prim.Native.String.{String, [] as no_text, ◌∷◌ as put, ◌++◌ as str_append}
use simplebank.Errors.{Error, Result, ok, err}
use simplebank.Prelude.{
  ◌==◌, Bool, true, false, ◌||◌, Option, none, some, List, [], ◌∷◌, str_eq, drop, if◌then◌else◌,
}
use text.Mathlib.Text.{starts_with}

-- The text up to the first slash, and the texts between the later ones.
abbrev pub on_char : Char → String × List String → String × List String
on_char c (first, later) = if code c == b'/' then ("", first ∷ later) else (put c first, later)

unfoldable pub split_slash : String → String × List String
split_slash no_text = ("", [])
split_slash (put c rest) = on_char c (split_slash rest)

-- A part of a path that is rooted, under the parts before it, the last one first.
abbrev pub enter : String → List String → List String
enter part parts =
    if str_eq part "" || str_eq part "."
    then parts
    else if str_eq part ".."
    then drop 1 parts
    else part ∷ parts

unfoldable pub clean_parts : List String → List String → List String
clean_parts parts [] = parts
clean_parts parts (part ∷ rest) = clean_parts (enter part parts) rest

abbrev pub joined : List String → String
joined [] = ""
joined (part ∷ []) = part
joined (part ∷ parts) = str_append (joined parts) (str_append "/" part)

-- `path.Clean` of a rooted path, without its slash; the name of a file of the embedded ones.
abbrev pub cleaned : String → List String
cleaned url_path = let (first, later) = split_slash url_path in clean_parts [] (first ∷ later)

abbrev pub or_index : String → String
or_index name = if str_eq name "" then "index.html" else name

unfoldable pub file_name : String → String
unfolding split_slash clean_parts
file_name url_path = or_index (joined (cleaned url_path))

-- What is embedded: for a name, whether it is a directory, if it is there; and what opening the
-- index answers, and then reading it.
pub record Files : Type 0 where
  pub stat : String → Option Bool
  pub index : Option (Result String)

-- The file server gets the request, or the index is sent, with its caching.
pub data Page : Type 0 where
  not_found : Page
  broken : Error → Page
  file_of index_of : String → String → Page

abbrev pub no_cache : String
no_cache = "no-cache"

abbrev pub immutable : String
immutable = "public, max-age=31536000, immutable"

unfoldable pub cache_control : String → String
cache_control name = if starts_with name "assets/" then immutable else no_cache

unfoldable pub serve_index : Files → Page
serve_index files = elim files.index [
  | none ↦ not_found
  | some (err e) ↦ broken e
  | some (ok html) ↦ index_of html no_cache
]

abbrev pub is_api : String → Bool
is_api name = str_eq name "api" || starts_with name "api/"

abbrev pub serve_name : Files → String → Option Bool → Page
serve_name files name none = serve_index files
serve_name files name (some true) = serve_index files
serve_name files name (some false) = file_of name (cache_control name)

unfoldable pub serve_spa : Files → String → Page
unfolding serve_index cache_control file_name
serve_spa files url_path =
    let name = file_name url_path in
    if is_api name then not_found else serve_name files name (files.stat name)
