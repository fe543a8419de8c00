-- ===== src/Api/Tests.antt =====
-- The router's theorem at a concrete request.
use appx_forge.Base.{ℕ}
use appx_forge.Store.Call.{pure, fail}
use appx_forge.Api.{Handler, not_found}
use appx_forge.Api.Router.{ApiRoute}

abbrev answered : ApiRoute → Handler ℕ
answered r = pure 200

abbrev missing : Handler ℕ
missing = fail (not_found "no such route")
