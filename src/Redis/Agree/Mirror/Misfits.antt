-- ===== src/Redis/Agree/Mirror/Misfits.antt =====
-- `SettleIO` on stores that mirror each other: their reservations are classic.
use valve.Common.{ℕ, ◌<◌, ◌≤◌, ◌*◌, ℤ, pos, ◌<ℤ◌, ◌≡◌, refl, inl, inr, Bytes, bytes_eq}
use valve.Api.{Key, Limits, message}
use valve.Memory.State.{Store, unix_milli, purge_expired, unexpired}
use valve.Memory.Settle
use valve.Memory.Settle.{settle_axis}
use valve.Redis.Keys.{reservation_key}
use valve.Redis.Errors.{map_res_err}
use valve.Redis.Lua.{Hashes, alive}
use valve.Redis.Lua.Run.{Rest, server, hmget, field}
use valve.Redis.Calls
use valve.Redis.Agree.Entries.{Seen, Same-Seen}
use valve.Redis.Agree.Answers.{SameAnswer}
use valve.Redis.Agree.Mirror.{Mirrors, Mirrors_purged}

module _ (rest : Rest) (key : Key) (limits : Limits) (cr : pos 0 <ℤ limits.requests_per_minute)
    (ct : pos 0 <ℤ limits.tokens_per_minute) (t now : ℕ) (p : 0 < unix_milli now)
    (le : t ≤ unix_milli now) (at : now ≡ unix_milli now * 1000000) (h : Hashes) (s : Store)
    (v : Mirrors key limits t h s) (id : Bytes) (actual output : ℤ) where
  -- The reservations are classic, so that `SettleIO` settles none of them.
  misfit :
      Seen key limits id
        (alive (unix_milli now) (h.res (reservation_key id)))
        (unexpired now (s.res id))
      → let (h', r) = Calls.settle_io (server rest) h now id actual output in
        let (s', r') = Settle.settle_io s now id actual output in
        SameAnswer r r' × Mirrors key limits (unix_milli now) h' s'
  unfolding Calls.settle_io Calls.settle_io_mode Calls.reservation_mode Calls.mode_of hmget field
      bytes_eq Settle.settle_io Settle.settle_io_found map_res_err message purge_expired
  misfit (inl (a, b)) =
      rw (a, b, Settle.settle_io) (refl, Mirrors_purged key limits t now le at cr ct h s v)
  misfit (inr (e, sound, a, b)) =
      rw (a, b, Settle.settle_io) (refl, Mirrors_purged key limits t now le at cr ct h s v)

  pub settle_io-Mirrors :
      let (h', r) = Calls.settle_io (server rest) h now id actual output in
      let (s', r') = Settle.settle_io s now id actual output in
      SameAnswer r r' × Mirrors key limits (unix_milli now) h' s'
  settle_io-Mirrors = misfit (Same-Seen key limits id t now le at _ _ (v.res id))
