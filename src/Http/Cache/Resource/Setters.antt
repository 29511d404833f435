-- ===== src/Http/Cache/Resource/Setters.antt =====
-- The setters and the getters of a response's cache control (http/cache-control.go). SetCacheExpiry
-- does what SetCacheExpires does.
use jotpot_server.Base.{Bool}
use jotpot_server.Base.Int.{ℤ}
use jotpot_server.Http.Cache.Expiry.{set_max_age, set_expires, get_max_age, get_expires}
use jotpot_server.Http.Cache.Resource.{ResourceCacheMode, ResourceCacheControl}

unfoldable pub set_cache_transform_allowed : Bool → ResourceCacheControl → ResourceCacheControl
set_cache_transform_allowed b rcc = record rcc { can_transform = b }

unfoldable pub set_public_cache_mode :
    ResourceCacheMode → ResourceCacheControl → ResourceCacheControl
set_public_cache_mode m rcc = record rcc { public_mode = m }

unfoldable pub set_private_cache_mode :
    ResourceCacheMode → ResourceCacheControl → ResourceCacheControl
set_private_cache_mode m rcc = record rcc { private_mode = m }

unfoldable pub set_cache_mode : ResourceCacheMode → ResourceCacheControl → ResourceCacheControl
set_cache_mode m rcc = record rcc { private_mode = m; public_mode = m }

unfoldable pub set_cache_max_age : ℤ → ResourceCacheControl → ResourceCacheControl
set_cache_max_age age rcc = record rcc {
  private_expiry = set_max_age age rcc.private_expiry;
  public_expiry = set_max_age age rcc.public_expiry;
}

unfoldable pub set_public_cache_max_age : ℤ → ResourceCacheControl → ResourceCacheControl
set_public_cache_max_age age rcc = record rcc { public_expiry = set_max_age age rcc.public_expiry }

unfoldable pub set_private_cache_max_age : ℤ → ResourceCacheControl → ResourceCacheControl
set_private_cache_max_age age rcc = record rcc {
  private_expiry = set_max_age age rcc.private_expiry;
}

unfoldable pub set_cache_expires : ℤ → ResourceCacheControl → ResourceCacheControl
set_cache_expires t rcc = record rcc {
  private_expiry = set_expires t rcc.private_expiry;
  public_expiry = set_expires t rcc.public_expiry;
}

unfoldable pub set_public_cache_expires : ℤ → ResourceCacheControl → ResourceCacheControl
set_public_cache_expires t rcc = record rcc { public_expiry = set_expires t rcc.public_expiry }

unfoldable pub set_private_cache_expires : ℤ → ResourceCacheControl → ResourceCacheControl
set_private_cache_expires t rcc = record rcc { private_expiry = set_expires t rcc.private_expiry }

unfoldable pub public_cache_max_age : ℤ → ResourceCacheControl → ResourceCacheControl × ℤ
public_cache_max_age now rcc =
    let (et, age) = get_max_age now rcc.public_expiry in (record rcc { public_expiry = et }, age)

unfoldable pub private_cache_max_age : ℤ → ResourceCacheControl → ResourceCacheControl × ℤ
private_cache_max_age now rcc =
    let (et, age) = get_max_age now rcc.private_expiry in (record rcc { private_expiry = et }, age)

unfoldable pub public_cache_expires : ℤ → ResourceCacheControl → ResourceCacheControl × ℤ × Bool
public_cache_expires now rcc =
    let (et, t, ok) = get_expires now rcc.public_expiry in
    (record rcc { public_expiry = et }, t, ok)

unfoldable pub private_cache_expires : ℤ → ResourceCacheControl → ResourceCacheControl × ℤ × Bool
private_cache_expires now rcc =
    let (et, t, ok) = get_expires now rcc.private_expiry in
    (record rcc { private_expiry = et }, t, ok)
