-- ===== src/Api/Spa/Inside.antt =====
-- internal/api/spa.go: what the frontend answers.
use Prim.Native.String.{String}
use simplebank.Api.Spa.{
  enter, clean_parts, cleaned, joined, or_index, file_name, Files, not_found, broken, file_of,
  index_of, no_cache, immutable, cache_control, serve_index, is_api, serve_name, serve_spa,
  split_slash,
}
use simplebank.Errors.{Result, ok, err}
use simplebank.Prelude.{
  ◌≡◌, refl, sym, ap, ◌∙◌, subst, arith, inl, inr, Bool-cases, Bool, true, false, not, ◌&&◌, ◌||◌,
  Option, none, some, List, [], ◌∷◌, str_eq,
}
use text.Mathlib.Text.{starts_with}

-- A part of a path that leads neither up nor nowhere.
abbrev pub is_plain : String → Bool
is_plain part = not (str_eq part "" || str_eq part "." || str_eq part "..")

abbrev pub are_plain : List String → Bool
are_plain [] = true
are_plain (part ∷ parts) = is_plain part && are_plain parts

enter_plain :
    (part : String) (parts : List String)
    → are_plain parts ≡ true
    → are_plain (enter part parts) ≡ true
enter_plain part [] h = ground (arith, h)
enter_plain part (p ∷ parts) h = ground (arith, h)

clean_plain :
    (parts rest : List String) → are_plain parts ≡ true → are_plain (clean_parts parts rest) ≡ true
unfolding clean_parts
clean_plain parts [] h = h
clean_plain parts (part ∷ rest) h = clean_plain (enter part parts) rest (enter_plain part parts h)

-- What is known of an answer.
pub record FileServed (files : Files) (url_path name cache : String) : Type 0 where
  pub named : name ≡ or_index (joined (cleaned url_path))
  pub plain : are_plain (cleaned url_path) ≡ true
  pub embedded : files.stat name ≡ some false
  pub not_api : is_api name ≡ false
  pub cached : str_eq cache immutable ≡ starts_with name "assets/"

index_no_file : (files : Files) (name cache : String) → serve_index files ≡ file_of name cache → ⊥
unfolding serve_index
index_no_file files name cache h = go files.index h
  where
    go :
        (i : Option (Result String))
        → (elim i [
          | none ↦ not_found
          | some (err e) ↦ broken e
          | some (ok html) ↦ index_of html no_cache
        ])
          ≡ file_of name cache
        → ⊥
    go none h = cc h
    go (some (err e)) h = cc h
    go (some (ok html)) h = cc h

cached_right : (name : String) → str_eq (cache_control name) immutable ≡ starts_with name "assets/"
unfolding cache_control
cached_right name = elim (Bool-cases (starts_with name "assets/")) [
  | inl asset ↦ rw asset refl
  | inr other ↦ rw other refl
]

-- A file is handed to the file server only for a path that names it: its name is the path with
-- empty, `.` and `..` parts resolved, so that no part of it leads out of the embedded files, or
-- the index; the file is embedded and no directory; it is not below `api`; and it is marked
-- immutable exactly if it is below `assets/`.
pub serve_spa-FileServed :
    (files : Files) (url_path name cache : String)
    → serve_spa files url_path ≡ file_of name cache
    → FileServed files url_path name cache
unfolding serve_spa file_name
serve_spa-FileServed files url_path name cache h = elim (Bool-cases (is_api (file_name url_path))) [
  | inl api ↦ absurd (cc (rw api at h))
  | inr other ↦ go other (files.stat (file_name url_path)) refl (rw other at h)
]
  where
    go :
        is_api (file_name url_path) ≡ false
        → (r : Option Bool) → files.stat (file_name url_path) ≡ r
        → serve_name files (file_name url_path) r ≡ file_of name cache
        → FileServed files url_path name cache
    go other none e h = absurd (index_no_file files name cache h)
    go other (some true) e h = absurd (index_no_file files name cache h)
    go other (some false) e h =
        let same : file_name url_path ≡ name = cc h in
        let control : cache_control (file_name url_path) ≡ cache = cc h in
        record {
          named = sym same;
          plain = clean_plain [] ((split_slash url_path).0 ∷ (split_slash url_path).1) refl;
          embedded = subst (λ (n : String). files.stat n ≡ some false) same e;
          not_api = subst (λ (n : String). is_api n ≡ false) same other;
          cached =
              ap (λ (c : String). str_eq c immutable) (sym control)
              ∙ cached_right (file_name url_path)
              ∙ ap (λ (n : String). starts_with n "assets/") same;
        }
