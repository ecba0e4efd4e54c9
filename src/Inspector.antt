-- ===== src/Inspector.antt =====
-- pkg/inspector/ttlDestroyHandler.go: the deployments whose time to live is over are deleted.
-- A time is a number of nanoseconds. A `time.Duration` is a signed number of 64 bits, here by the
-- remainder modulo 2 ^ 64 that it stands for.
use im_manager.Base.{
  ℕ, ◌+◌, ◌*◌, ◌%◌, ◌^◌, ◌≤◌, ◌<◌, ◌≡◌, refl, ◌↔◌, Bool, true, false, ltb, if◌then◌else◌, arith,
}
use im_manager.Errdef.{ok}
use im_manager.Action.{Action, pure, ◌>>=◌}
use im_manager.Model.{Deployment}

-- time.Duration(ttl) * time.Second
unfoldable pub ttl_duration : ℕ → ℕ
ttl_duration ttl = (ttl % 2 ^ 64) * 1000000000 % 2 ^ 64

-- creationTimestamp.Add(duration).Before(now), of which the duration may be negative.
unfoldable pub ttl_before_now : ℕ → ℕ → ℕ → Bool
unfolding ttl_duration
ttl_before_now now created_at ttl =
    if ltb (ttl_duration ttl) (2 ^ 63)
    then ltb (created_at + ttl_duration ttl) now
    else ltb (created_at + ttl_duration ttl) (now + 2 ^ 64)

-- `instanceService`
pub record InstanceService (W : Type 0) : Type 0 where
  pub delete_deployment : Deployment → Action W (Unit {0})
  pub find_decrypted_deployment : ℕ → Action W Deployment

module _ {W : Type 0} (S : InstanceService W) where
  -- `Handle`, at the time `now`.
  unfoldable pub handle : ℕ → Deployment → Action W (Unit {0})
  handle now deployment =
      if ttl_before_now now deployment.created_at deployment.ttl
      then (do decrypted ← S.find_decrypted_deployment deployment.id; S.delete_deployment decrypted)
      else pure tt

-- A time to live of at most 9223372036 seconds is over exactly when that many seconds have passed
-- since the creation.
pub ttl_before_now_iff :
    (now created_at ttl : ℕ)
    → ttl ≤ 9223372036
    → (ttl_before_now now created_at ttl ≡ true) ↔ (created_at + ttl * 1000000000 < now)
unfolding ttl_before_now
ttl_before_now_iff now created_at ttl small = ground arith

-- A time to live from 9223372037 to 18446744073 seconds is over at once: the duration overflows
-- and is negative.
pub ttl_before_now-overflow :
    (now created_at ttl : ℕ)
    → 9223372037 ≤ ttl
    → ttl ≤ 18446744073
    → created_at ≤ now
    → ttl_before_now now created_at ttl ≡ true
unfolding ttl_before_now
ttl_before_now-overflow now created_at ttl large bounded past = ground arith

module _ {W : Type 0} (S : InstanceService W) where
  -- A deployment with a time to live of at most 9223372036 seconds that have not yet passed since
  -- its creation is left alone.
  pub handle-alive :
      (now : ℕ) (d : Deployment) (w : W)
      → d.ttl ≤ 9223372036
      → now ≤ d.created_at + d.ttl * 1000000000
      → handle S now d w ≡ (ok tt, w)
  unfolding handle
  handle-alive now d w small alive =
      let young : ttl_before_now now d.created_at d.ttl ≡ false =
        ground (arith, ttl_before_now_iff now d.created_at d.ttl small) in
      rw young refl
