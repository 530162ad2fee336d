-- ===== src/Controller/HttpProxy/Headers.antt =====
-- What the target is sent of the header of a request.
use rps.Base.{◌≡◌, false, List, [], ◌∷◌}
use rps.Base.Text.{Text}
use rps.Controller.HttpProxy.{is_proxy_authorization}

abbrev pub at_least_one : List Text → List Text
at_least_one [] = [] ∷ []
at_least_one (line ∷ rest) = line ∷ rest

abbrev pub IsHarmless : Text → Type 0
IsHarmless line = is_proxy_authorization line ≡ false
