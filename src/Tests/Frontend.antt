-- ===== src/Tests/Frontend.antt =====
-- internal/api/spa.go: an asset, a path of the client, and an unknown path of the API.
use simplebank.Api.Spa.{
  Files, immutable, file_of, index_of, not_found, no_cache, serve_spa, file_name, split_slash,
  clean_parts, serve_index, cache_control,
}
use simplebank.Api.Spa.Inside.{FileServed, serve_spa-FileServed}
use simplebank.Errors.{ok}
use simplebank.Prelude.{◌≡◌, refl, some, none, false, str_eq, if◌then◌else◌}

abbrev files : Files
files = record {
  stat = λ name. if str_eq name "assets/app.js" then some false else none;
  index = some (ok "<html>");
}

asset_served : serve_spa files "/x/../assets//app.js" ≡ file_of "assets/app.js" immutable
unfolding serve_spa file_name split_slash clean_parts serve_index cache_control
asset_served = refl

client_path : serve_spa files "/accounts/7" ≡ index_of "<html>" no_cache
unfolding serve_spa file_name split_slash clean_parts serve_index cache_control
client_path = refl

api_path : serve_spa files "/api/v2" ≡ not_found
unfolding serve_spa file_name split_slash clean_parts serve_index cache_control
api_path = refl

serve_spa-FileServed_example : FileServed files "/x/../assets//app.js" "assets/app.js" immutable
serve_spa-FileServed_example =
    serve_spa-FileServed files "/x/../assets//app.js" "assets/app.js" immutable asset_served
