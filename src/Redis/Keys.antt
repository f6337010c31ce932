-- ===== src/Redis/Keys.antt =====
-- The names of the hashes on the server, in pkg/store/redis/redis.go.
use valve.Common.{Bytes, codes, ◌++◌}
use valve.Api.{Key}
use valve.Memory.State.{model_or_dash}

-- `base` of `bucketKeys` and `bucketKeysIO`. `modelOrDash` is written as in the memory store.
unfoldable pub base : Key → Bytes
base key = codes "rl:{{{" ++ (key.subject ++ (codes "}}}:" ++ model_or_dash key.model))

-- `bucketKeys`
unfoldable pub bucket_keys : Key → Bytes × Bytes
unfolding base
bucket_keys key = (base key ++ codes ":rpm", base key ++ codes ":tpm")

-- `bucketKeysIO`
unfoldable pub bucket_keys_io : Key → Bytes × Bytes × Bytes
unfolding base
bucket_keys_io key =
    (base key ++ codes ":rpm", base key ++ codes ":itpm", base key ++ codes ":otpm")

-- `reservationKey`
unfoldable pub reservation_key : Bytes → Bytes
reservation_key id = codes "rl:res:" ++ id
