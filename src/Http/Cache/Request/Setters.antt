-- ===== src/Http/Cache/Request/Setters.antt =====
-- The setters of a request's cache control (http/cache-control.go); its getters return the fields.
use jotpot_server.Base.{Bool}
use jotpot_server.Base.Int.{ℤ}
use jotpot_server.Http.Cache.Request.{RequestCacheMode, RequestCacheControl}

unfoldable pub set_mode : RequestCacheMode → RequestCacheControl → RequestCacheControl
set_mode m rcc = record rcc { mode = m }

unfoldable pub set_request_max_age : ℤ → RequestCacheControl → RequestCacheControl
set_request_max_age d rcc = record rcc { max_age = d }

unfoldable pub set_min_fresh : ℤ → RequestCacheControl → RequestCacheControl
set_min_fresh d rcc = record rcc { min_fresh = d }

unfoldable pub set_max_stale : ℤ → RequestCacheControl → RequestCacheControl
set_max_stale d rcc = record rcc { max_stale = d }

unfoldable pub set_transform_allowed : Bool → RequestCacheControl → RequestCacheControl
set_transform_allowed b rcc = record rcc { can_transform = b }
