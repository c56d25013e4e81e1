-- ===== src/Storage.antt =====
-- internal/storage/s3.go: the two calls of the S3 client.
use open_world_model.Base.{Option, none, some, []}
use open_world_model.Base.Text.{Text}
use open_world_model.Startup.{S3Client}

-- The SDK, by a client's options, a bucket and a key. `GetObject` fails, or has a body, of which the
-- reading fails or gives the bytes; `PutObject` fails, or answers with a tag or without one.
pub record Sdk : Type 0 where
  pub sdk_get : S3Client → Text → Text → Option (Option Text)
  pub sdk_put : S3Client → Text → Text → Text → Option (Option Text)

abbrev read_body : Option (Option Text) → Option Text
read_body none = none
read_body (some body) = body

unfoldable pub get_object : Sdk → S3Client → Text → Option Text
get_object sdk c key = read_body (sdk.sdk_get c c.bucket key)

abbrev etag_of : Option (Option Text) → Option Text
etag_of none = none
etag_of (some none) = some []
etag_of (some (some etag)) = some etag

unfoldable pub put_object : Sdk → S3Client → Text → Text → Option Text
put_object sdk c key bytes = etag_of (sdk.sdk_put c c.bucket key bytes)
