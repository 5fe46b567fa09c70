-- ===== src/Errors/Examples.antt =====
-- The catalogue at concrete codes.
use zeus_client_golang.Shared.{◌≡◌, refl, none}
use zeus_client_golang.Shared.Maps.{has, lookup, put}
use zeus_client_golang.Errors.{parse_code, by_code, index}
use zeus_client_golang.Errors.Codes.{code_catalog}

unknown_code_refused : parse_code "130099" ≡ none
unfolding parse_code by_code index code_catalog put lookup has
unknown_code_refused = refl
