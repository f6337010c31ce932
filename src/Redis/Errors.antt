-- ===== src/Redis/Errors.antt =====
-- `mapResErr` of pkg/store/redis/redis.go: the errors of the scripts, by what their texts contain.
use valve.Common.{Bool, true, false, ◌||◌, ◌&&◌, ◌==◌, if◌then◌else◌, Bytes, codes, [], ◌∷◌}
use valve.Api.{Error, message}

-- `strings.HasPrefix(s, t)`
unfoldable pub has_prefix : Bytes → Bytes → Bool
has_prefix s [] = true
has_prefix [] (b ∷ t) = false
has_prefix (a ∷ s) (b ∷ t) = (a == b) && has_prefix s t

-- `strings.Contains(s, t)`
unfoldable pub contains : Bytes → Bytes → Bool
unfolding has_prefix
contains [] t = has_prefix [] t
contains (a ∷ s) t = has_prefix (a ∷ s) t || contains s t

-- `mapResErr`, on an error.
unfoldable pub map_res_err : Error → Error
unfolding message contains
map_res_err e =
    let msg = message e in
    if contains msg (codes "reservation not found")
    then Error.reservation_not_found
    else if contains msg (codes "reservation already settled")
    then Error.reservation_settled
    else if contains msg (codes "reservation already refunded")
    then Error.reservation_refunded
    else if contains msg (codes "wrong settle mode")
    then Error.wrong_settle_mode
    else e
