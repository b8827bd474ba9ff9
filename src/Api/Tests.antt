-- ===== src/Api/Tests.antt =====
-- The theorems about the client of the API at concrete replies.
use daili_usage_keeper_north.Base.{◌≡◌, refl, some}
use daili_usage_keeper_north.Api.{api_path}

paths : api_path (some "/keeper/") "usage" ≡ "/keeper/api/v1/usage"
unfolding api_path
paths = refl
